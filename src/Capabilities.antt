-- ===== src/Capabilities.antt =====
-- The capability registry of src/framework/capability-registry.ts: the list `CAPABILITIES` and the
-- map `CAPABILITY_INDEX`, passed explicitly. The table of built-in capabilities is an argument of
-- `start`.
pub mod Laws
use crisismode.Base.{
  String, Bool, true, false, ◌≡◌, Option, none, some, List, [], ◌∷◌, ◌++◌, filter, not, is_some,
  if◌then◌else◌, ◌==◌,
}
use crisismode.Types.{CapabilityDefinition}

pub record Registry : Type 0 where
  pub capabilities : List CapabilityDefinition
  pub index : List (String × CapabilityDefinition)

-- `CAPABILITY_INDEX.get`, `.set` and `.delete`
unfoldable pub get : String → List (String × CapabilityDefinition) → Option CapabilityDefinition
get k [] = none
get k ((j, c) ∷ m) = if j == k then some c else get k m

unfoldable pub set :
    String
    → CapabilityDefinition
    → List (String × CapabilityDefinition)
    → List (String × CapabilityDefinition)
set k c [] = (k, c) ∷ []
set k c ((j, d) ∷ m) = if j == k then (k, c) ∷ m else (j, d) ∷ set k c m

unfoldable pub delete :
    String → List (String × CapabilityDefinition) → List (String × CapabilityDefinition)
delete k [] = []
delete k ((j, c) ∷ m) = let rest = delete k m in if j == k then rest else (j, c) ∷ rest

unfoldable pub index_from :
    List (String × CapabilityDefinition)
    → List CapabilityDefinition
    → List (String × CapabilityDefinition)
unfolding set
index_from m [] = m
index_from m (c ∷ cs) = index_from (set c.id c m) cs

pub start : List CapabilityDefinition → Registry
start builtin = record { capabilities = builtin; index = index_from [] builtin }

unfoldable pub get_capability : String → Registry → Option CapabilityDefinition
unfolding get
get_capability id r = get id r.index

unfoldable pub is_known_capability : String → Registry → Bool
unfolding get_capability
is_known_capability id r = is_some (get_capability id r)

-- `CAPABILITIES[CAPABILITIES.indexOf(existing)] = capability`. Objects are told apart by their id:
-- the first with the id is the one that was registered under it.
unfoldable pub replace_first :
    String → CapabilityDefinition → List CapabilityDefinition → List CapabilityDefinition
replace_first id c [] = []
replace_first id c (d ∷ ds) = if d.id == id then c ∷ ds else d ∷ replace_first id c ds

unfoldable pub register_external_capability : CapabilityDefinition → Registry → Registry
unfolding get set replace_first
register_external_capability c r = record {
  capabilities = elim (get c.id r.index) [
    | none ↦ r.capabilities ++ c ∷ []
    | some _ ↦ replace_first c.id c r.capabilities
  ];
  index = set c.id c r.index;
}

unfoldable pub unregister_capability : String → Registry → Registry × Bool
unfolding get delete
unregister_capability id r = elim (get id r.index) [
  | none ↦ (r, false)
  | some _ ↦ (
    record {
      capabilities = filter (λ c. not (c.id == id)) r.capabilities;
      index = delete id r.index;
    },
    true,
  )
]
