-- ===== src/Capabilities/Laws.antt =====
-- The index and the list of the capability registry.
use crisismode.Base.{
  String, ◌≡◌, refl, sym, ◌∙◌, Option, none, some, List, [], ◌∷◌, ◌++◌, arith, filter, find, not,
  if◌then◌else◌, ◌==◌, eq_iff, eq_refl, Option-cases, inl, inr,
}
use crisismode.Types.{CapabilityDefinition}
use crisismode.Capabilities.{
  Registry, get, set, delete, replace_first, register_external_capability, unregister_capability,
}

pub get-set :
    (k j : String) (c : CapabilityDefinition) (m : List (String × CapabilityDefinition))
    → get j (set k c m) ≡ (if k == j then some c else get j m)
unfolding get set
get-set k j c [] = refl
get-set k j c ((i, d) ∷ m) = ground (arith, eq_iff k j, eq_iff i k, eq_iff i j, get-set k j c m)

pub get-delete :
    (k j : String) (m : List (String × CapabilityDefinition))
    → get j (delete k m) ≡ (if k == j then none else get j m)
unfolding get delete
get-delete k j [] = ground arith
get-delete k j ((i, d) ∷ m) = ground (arith, eq_iff k j, eq_iff i k, eq_iff i j, get-delete k j m)

-- The capability of the list that has the id
abbrev pub listed : String → List CapabilityDefinition → Option CapabilityDefinition
listed id cs = find (λ c. c.id == id) cs

-- The list and the index agree: they are two views of one finite map.
abbrev pub IsConsistent : Registry → Type 0
IsConsistent r = (id : String) → listed id r.capabilities ≡ get id r.index

listed-append :
    (id : String) (cs : List CapabilityDefinition) (c : CapabilityDefinition)
    → listed c.id cs ≡ none
    → listed id (cs ++ c ∷ []) ≡ (if c.id == id then some c else listed id cs)
listed-append id [] c h = refl
listed-append id (d ∷ cs) c h =
    ground (arith, eq_iff c.id id, eq_iff d.id id, eq_iff d.id c.id, listed-append id cs c)

listed-replace_first :
    (id : String) (cs : List CapabilityDefinition) (c d : CapabilityDefinition)
    → listed c.id cs ≡ some d
    → listed id (replace_first c.id c cs) ≡ (if c.id == id then some c else listed id cs)
unfolding replace_first
listed-replace_first id [] c d h = ground arith
listed-replace_first id (e ∷ cs) c d h = ground (
  arith,
  eq_iff c.id id,
  eq_iff e.id id,
  eq_iff e.id c.id,
  eq_refl c.id,
  listed-replace_first id cs c d,
)

listed-filter :
    (k id : String) (cs : List CapabilityDefinition)
    → listed id (filter (λ c. not (c.id == k)) cs) ≡ (if k == id then none else listed id cs)
listed-filter k id [] = ground arith
listed-filter k id (c ∷ cs) =
    ground (arith, eq_iff k id, eq_iff c.id k, eq_iff c.id id, listed-filter k id cs)

-- Registration keeps the list and the index in agreement, whether the id is new or replaces one.
pub register_external_capability-IsConsistent :
    (c : CapabilityDefinition) (r : Registry)
    → IsConsistent r
    → IsConsistent (register_external_capability c r)
unfolding register_external_capability
register_external_capability-IsConsistent c r h id = elim (Option-cases (get c.id r.index)) [
  | inl new ↦
      rw (new, register_external_capability)
        (listed-append id r.capabilities c (h c.id ∙ new)
          ∙ rw (h id) (sym (get-set c.id id c r.index)))
  | inr (d, old) ↦
      rw (old, register_external_capability)
        (listed-replace_first id r.capabilities c d (h c.id ∙ old)
          ∙ rw (h id) (sym (get-set c.id id c r.index)))
]

-- So does the removal of an id.
pub unregister_capability-IsConsistent :
    (k : String) (r : Registry) → IsConsistent r → IsConsistent (unregister_capability k r).0
unfolding unregister_capability
unregister_capability-IsConsistent k r h id = elim (Option-cases (get k r.index)) [
  | inl missing ↦ rw (missing, unregister_capability) (h id)
  | inr (d, old) ↦
      rw (old, unregister_capability)
        (listed-filter k id r.capabilities ∙ rw (h id) (sym (get-delete k id r.index)))
]
