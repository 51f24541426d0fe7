-- ===== src/Maturity.antt =====
-- src/framework/agent-maturity.ts.
use crisismode.Base.{
  String, Bool, true, false, arith, ◌≡◌, refl, sym, ◌∙◌, ap, subst, eq_refl, Option, none, some,
  List, [], ◌∷◌, ◌==◌, eq_iff, if◌then◌else◌,
}

-- The values of `metadata.plugin.maturity`
pub data AgentMaturity : Type 0 where
  live_validated simulator_only : AgentMaturity

-- An agent of a kind, with the maturity that its manifest declares, if it does
pub record MaturitySource : Type 0 where
  pub kind : String
  pub plugin_maturity : Option String

unfoldable pub agent_maturity : Option String → AgentMaturity
agent_maturity none = simulator_only
agent_maturity (some m) = if m == "live_validated" then live_validated else simulator_only

abbrev pub MaturityMap : Type 0
MaturityMap = List (String × AgentMaturity)

-- `byKind.get(kind)`
unfoldable pub get : String → MaturityMap → Option AgentMaturity
get kind [] = none
get kind ((k, m) ∷ rest) = if k == kind then some m else get kind rest

-- `byKind.set(kind, m)`
unfoldable pub set : String → AgentMaturity → MaturityMap → MaturityMap
set kind m [] = (kind, m) ∷ []
set kind m ((k, n) ∷ rest) = if k == kind then (k, m) ∷ rest else (k, n) ∷ set kind m rest

abbrev pub is_simulator : Option AgentMaturity → Bool
is_simulator (some simulator_only) = true
is_simulator _ = false

-- One round of the loop
unfoldable pub add_source : MaturitySource → MaturityMap → MaturityMap
unfolding get set agent_maturity
add_source s m =
    if is_simulator (get s.kind m) then m else set s.kind (agent_maturity s.plugin_maturity) m

unfoldable pub build_from : MaturityMap → List MaturitySource → MaturityMap
unfolding add_source
build_from m [] = m
build_from m (s ∷ ss) = build_from (add_source s m) ss

-- `buildMaturityByKind`
unfoldable pub build_maturity_by_kind : List MaturitySource → MaturityMap
unfolding build_from
build_maturity_by_kind sources = build_from [] sources

-- The claim of two agents of one kind, the weaker one
abbrev pub weaker : Option AgentMaturity → AgentMaturity → AgentMaturity
weaker (some simulator_only) m = simulator_only
weaker _ m = m

-- The weakest claim of the agents of a kind, behind an earlier claim
abbrev pub weakest : String → Option AgentMaturity → List MaturitySource → Option AgentMaturity
weakest kind before [] = before
weakest kind before (s ∷ ss) =
    let other = weakest kind before ss in
    let same = weakest kind (some (weaker before (agent_maturity s.plugin_maturity))) ss in
    if s.kind == kind then same else other

not_both : (j k : String) → k ≡ j → (j == k) ≡ false → ⊥
not_both j k same other =
    let both = sym (eq_refl j) ∙ subst (λ x. (j == x) ≡ false) same other in ground arith

-- A key that is set is found again, and no other one is affected.
get-set :
    (kind k : String) (m : AgentMaturity) (ms : MaturityMap)
    → get kind (set k m ms) ≡ (if k == kind then some m else get kind ms)
unfolding get set
get-set kind k m [] = refl
get-set kind k m ((j, n) ∷ rest) = by_test (j == k) refl (get-set kind k m rest)
  where
    by_test :
        (b : Bool)
        → (j == k) ≡ b
        → get kind (set k m rest) ≡ (if k == kind then some m else get kind rest)
        → get kind (if b then (j, m) ∷ rest else (j, n) ∷ set k m rest)
          ≡ (if k == kind then some m else if j == kind then some n else get kind rest)
    by_test true e ih = by_key (k == kind) (j == kind) (ap (λ x. x == kind) ((eq_iff j k).0 e))
      where
        by_key :
            (a b : Bool)
            → b ≡ a
            → (if b then some m else get kind rest)
              ≡ (if a then some m else if b then some n else get kind rest)
        by_key true true h = refl
        by_key false false h = refl
        by_key true false h = ground arith
        by_key false true h = ground arith
    by_test false e ih = by_key (k == kind) (j == kind) refl refl ih
      where
        by_key :
            (a b : Bool)
            → (k == kind) ≡ a
            → (j == kind) ≡ b
            → get kind (set k m rest) ≡ (if a then some m else get kind rest)
            → (if b then some n else get kind (set k m rest))
              ≡ (if a then some m else if b then some n else get kind rest)
        by_key false true p q h = refl
        by_key false false p q h = h
        by_key true false p q h = h
        by_key true true p q h =
            elim (not_both j k (sym ((eq_iff j kind).0 q ∙ sym ((eq_iff k kind).0 p))) e) [ ]

same_kind :
    (k : String) (a : AgentMaturity) (m : MaturityMap) (o : Option AgentMaturity)
    → get k m ≡ o
    → get k (if is_simulator o then m else set k a m) ≡ some (weaker o a)
same_kind k a m (some simulator_only) e = e
same_kind k a m (some live_validated) e =
    get-set k k a m ∙ ap (λ b. if b then some a else get k m) (eq_refl k)
same_kind k a m none e = get-set k k a m ∙ ap (λ b. if b then some a else get k m) (eq_refl k)

other_kind :
    (kind k : String) (a : AgentMaturity) (m : MaturityMap) (kept : Bool)
    → (k == kind) ≡ false
    → get kind (if kept then m else set k a m) ≡ get kind m
other_kind kind k a m true e = refl
other_kind kind k a m false e = get-set kind k a m ∙ ap (λ b. if b then some a else get kind m) e

-- One source changes the claim for its own kind only.
get-add_source :
    (kind : String) (s : MaturitySource) (m : MaturityMap)
    → get kind (add_source s m) ≡ (
        if s.kind == kind
        then some (weaker (get kind m) (agent_maturity s.plugin_maturity))
        else get kind m)
unfolding add_source
get-add_source kind s m = by_kind (s.kind == kind) refl
  where
    by_kind :
        (b : Bool)
        → (s.kind == kind) ≡ b
        → get kind (
            if is_simulator (get s.kind m)
            then m
            else set s.kind (agent_maturity s.plugin_maturity) m)
          ≡ (if b
              then some (weaker (get kind m) (agent_maturity s.plugin_maturity))
              else get kind m)
    by_kind true e =
        subst
          (λ k.
            get k (
              if is_simulator (get s.kind m)
              then m
              else set s.kind (agent_maturity s.plugin_maturity) m)
            ≡ some (weaker (get k m) (agent_maturity s.plugin_maturity)))
          ((eq_iff s.kind kind).0 e)
          (same_kind s.kind (agent_maturity s.plugin_maturity) m (get s.kind m) refl)
    by_kind false e =
        other_kind kind s.kind (agent_maturity s.plugin_maturity) m (is_simulator (get s.kind m)) e

build_from-weakest :
    (kind : String) (ss : List MaturitySource) (m : MaturityMap)
    → get kind (build_from m ss) ≡ weakest kind (get kind m) ss
unfolding build_from
build_from-weakest kind [] m = refl
build_from-weakest kind (s ∷ ss) m =
    build_from-weakest kind ss (add_source s m)
    ∙ ap (λ b. weakest kind b ss) (get-add_source kind s m)
    ∙ push (s.kind == kind)
  where
    push :
        (b : Bool)
        → weakest kind
            (if b
              then some (weaker (get kind m) (agent_maturity s.plugin_maturity))
              else get kind m)
            ss
          ≡ (if b
              then weakest kind (some (weaker (get kind m) (agent_maturity s.plugin_maturity))) ss
              else weakest kind (get kind m) ss)
    push true = refl
    push false = refl

-- The claim that is made for a kind is the weakest claim of its agents, and there is none for a
-- kind without agents.
pub build_maturity_by_kind-weakest :
    (kind : String) (sources : List MaturitySource)
    → get kind (build_maturity_by_kind sources) ≡ weakest kind none sources
unfolding build_maturity_by_kind get
build_maturity_by_kind-weakest kind sources = build_from-weakest kind sources []
