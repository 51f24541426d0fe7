-- ===== src/Hooks/Order.antt =====
-- The order of the hooks at a point of the registry.
use crisismode.Base.{
  ◌≤◌, String, Bool, true, false, inl, inr, not, List, [], ◌∷◌, ◌++◌, All, All-mono, arith, filter,
  Bool-cases, leb, leb→le, leb→lt, is_empty, any, ◌==◌, if◌then◌else◌,
}
use crisismode.Hooks.{
  HookPoint, HookRegistration, HookRegistry, same_point, hooks_at, set_hooks, keep_hooks,
  insert_hook, sort_onto, sort_hooks, register, unregister, clear, named_builtin, is_named,
}

module _ {W : Type 0} where
  abbrev After : HookRegistration W → List (HookRegistration W) → Type 0
  After h hs = All (λ g. h.priority ≤ g.priority) hs

  -- The hooks of a list stand in the order of their priorities.
  abbrev pub Sorted : List (HookRegistration W) → Type 0
  Sorted [] = Unit
  Sorted (h ∷ hs) = After h hs × Sorted hs

  -- The lists of all points do.
  abbrev pub IsOrdered : HookRegistry W → Type 0
  IsOrdered m = All (λ e. Sorted e.1) m

  insert-After :
      (h r : HookRegistration W) (hs : List (HookRegistration W))
      → h.priority ≤ r.priority
      → After h hs
      → After h (insert_hook r hs)
  unfolding insert_hook
  insert-After h r [] le a = (le, tt)
  insert-After h r (g ∷ gs) le a = elim (Bool-cases (leb g.priority r.priority)) [
    | inl keep ↦ rw keep (a.0, insert-After h r gs le a.1)
    | inr swap ↦ rw swap (le, a)
  ]

  insert-Sorted :
      (r : HookRegistration W) (hs : List (HookRegistration W))
      → Sorted hs
      → Sorted (insert_hook r hs)
  unfolding insert_hook
  insert-Sorted r [] s = (tt, tt)
  insert-Sorted r (h ∷ hs) s = elim (Bool-cases (leb h.priority r.priority)) [
    | inl keep ↦ rw keep (insert-After h r hs (leb→le _ _ keep) s.0, insert-Sorted r hs s.1)
    | inr swap ↦ rw swap (
      (
        omega (arith, leb→lt _ _ swap),
        All-mono hs (λ g le. omega (arith, le, leb→lt _ _ swap)) s.0,
      ),
      s,
    )
  ]

  sort_onto-Sorted :
      (done hs : List (HookRegistration W)) → Sorted done → Sorted (sort_onto done hs)
  unfolding sort_onto
  sort_onto-Sorted done [] s = s
  sort_onto-Sorted done (h ∷ hs) s =
      sort_onto-Sorted (insert_hook h done) hs (insert-Sorted h done s)

  filter-After :
      (p : HookRegistration W → Bool) (h : HookRegistration W) (hs : List (HookRegistration W))
      → After h hs
      → After h (filter p hs)
  filter-After p h [] a = tt
  filter-After p h (g ∷ gs) a = elim (Bool-cases (p g)) [
    | inl keep ↦ rw keep (a.0, filter-After p h gs a.1)
    | inr leave ↦ rw leave (filter-After p h gs a.1)
  ]

  filter-Sorted :
      (p : HookRegistration W → Bool) (hs : List (HookRegistration W))
      → Sorted hs
      → Sorted (filter p hs)
  filter-Sorted p [] s = tt
  filter-Sorted p (h ∷ hs) s = elim (Bool-cases (p h)) [
    | inl keep ↦ rw keep (filter-After p h hs s.0, filter-Sorted p hs s.1)
    | inr leave ↦ rw leave (filter-Sorted p hs s.1)
  ]

  keep_hooks-IsOrdered :
      (p : HookRegistration W → Bool) (m : HookRegistry W)
      → IsOrdered m
      → IsOrdered (keep_hooks p m)
  unfolding keep_hooks
  keep_hooks-IsOrdered p [] o = tt
  keep_hooks-IsOrdered p ((q, l) ∷ m) o = elim (Bool-cases (is_empty (filter p l))) [
    | inl gone ↦ rw gone (keep_hooks-IsOrdered p m o.1)
    | inr left ↦ rw left (filter-Sorted p l o.0, keep_hooks-IsOrdered p m o.1)
  ]

  set_hooks-IsOrdered :
      (p : HookPoint) (l : List (HookRegistration W)) (m : HookRegistry W)
      → Sorted l
      → IsOrdered m
      → IsOrdered (set_hooks p l m)
  unfolding set_hooks
  set_hooks-IsOrdered p l [] s o = (s, tt)
  set_hooks-IsOrdered p l ((q, k) ∷ m) s o = elim (Bool-cases (same_point q p)) [
    | inl same ↦ rw same (s, o.1)
    | inr other ↦ rw other (o.0, set_hooks-IsOrdered p l m s o.1)
  ]

  -- Whatever is registered, unregistered or cleared, the hooks at every point stay in the order
  -- of their priorities, which is the order in which they are fired.
  pub operations-IsOrdered :
      (r : HookRegistration W) (name : String) (m : HookRegistry W)
      → IsOrdered m
      → IsOrdered (register r m) × (IsOrdered (unregister name m).0 × IsOrdered (clear m))
  unfolding register unregister clear sort_hooks
  operations-IsOrdered r name m o = (
    set_hooks-IsOrdered _ _ _
        (sort_onto-Sorted []
          (hooks_at r.point (keep_hooks (λ h. not (h.name == r.name)) m) ++ r ∷ []) tt)
        (keep_hooks-IsOrdered _ m o),
    (unregistered (any (named_builtin name) m) (any (is_named name) m), keep_hooks-IsOrdered _ m o),
  )
    where
      unregistered :
          (a b : Bool)
          → IsOrdered
              (if◌then◌else◌ {A = HookRegistry W × Bool} a
                (m, false)
                (if not b then (m, false) else (keep_hooks (λ h. not (h.name == name)) m, true))).0
      unregistered true b = o
      unregistered false true = keep_hooks-IsOrdered _ m o
      unregistered false false = o
