-- ===== src/Base/Numbers.antt =====
-- The arithmetic of JavaScript on its floating-point numbers, which is a parameter.
use Prim.Native.Nat.{ℕ}
use Prim.Native.String.{String}
use mathlib.Core.Bool.{Bool}

pub record Numbers (N : Type 0) : Type 0 where
  pub of_nat : ℕ → N
  -- A decimal literal, as it is written
  pub literal : String → N
  pub add : N → N → N
  pub sub : N → N → N
  pub mul : N → N → N
  pub div : N → N → N
  pub less : N → N → Bool
  pub abs : N → N
  pub round : N → N
  pub ceil : N → N
  pub to_fixed : ℕ → N → String
  pub to_text : N → String
