-- ===== src/Safety/BlastRadius.antt =====
-- `validateBlastRadius` of src/framework/safety.ts.
use crisismode.Base.{
  ℕ, String, Bool, true, false, ◌||◌, ◌&&◌, Option, none, some, List, [], ◌∷◌, ◌++◌, map, any,
  filter, find, flat_map, is_empty, length, not, template, show, if◌then◌else◌, ◌==◌, codes_eq,
  has_infix,
}
use crisismode.Types.{
  Fields, end, field, text, RiskLevel, routine, SystemActionStep, AgentManifest, TargetSystem,
  ExecutionContextDeclaration, TopologyComponent, AgentContext,
}
use crisismode.Safety.Normalize.{normalize_identifier}

pub record Verdict : Type 0 where
  pub valid : Bool
  pub message : String

-- `payload.instance`, if it is a text
unfoldable pub instance_of : Fields → Option String
instance_of end = none
instance_of (field k v fs) =
    let rest = instance_of fs in
    if k == "instance" then elim v [ text s ↦ some s | _ ↦ none ] else rest

-- `manifest.spec.executionContexts.find((ec) => ec.name === name)`
unfoldable pub find_context : String → AgentManifest → Option ExecutionContextDeclaration
find_context name m = find (λ ec. ec.name == name) m.execution_contexts

unfoldable pub system_references : TargetSystem → List String
system_references system = system.technology ∷ system.components

-- The references of the manifest and of the step, normalised; empty ones are dropped.
unfoldable pub declared_references :
    ExecutionContextDeclaration → SystemActionStep → AgentManifest → List (List ℕ)
unfolding system_references
declared_references ec step m =
    filter (λ r. not (is_empty r))
      (map normalize_identifier (
        ec.target
        ∷ (flat_map system_references m.target_systems
            ++ (step.blast_radius.direct_components ++ step.blast_radius.indirect_components))))

unfoldable pub instance_references : AgentContext → List (List ℕ)
unfolding instance_of
instance_references c = elim (instance_of c.trigger_payload) [
  | none ↦ []
  | some s ↦ normalize_identifier s ∷ []
]

unfoldable pub component_references : TopologyComponent → List (List ℕ)
component_references k =
    normalize_identifier k.identifier
    ∷ normalize_identifier k.role
    ∷ normalize_identifier k.technology
    ∷ []

-- The references that the context adds. They are not filtered.
unfoldable pub context_references : Option AgentContext → List (List ℕ)
unfolding instance_references component_references
context_references none = []
context_references (some c) = instance_references c ++ flat_map component_references c.components

-- `knownReferences`: only membership is asked of the set, so repetitions do not matter.
unfoldable pub known_references :
    ExecutionContextDeclaration
    → SystemActionStep
    → AgentManifest
    → Option AgentContext
    → List (List ℕ)
unfolding declared_references context_references
known_references ec step m context = declared_references ec step m ++ context_references context

-- Equal, or one a part of the other
unfoldable pub represents : List ℕ → List ℕ → Bool
represents target reference =
    codes_eq reference target || (has_infix reference target || has_infix target reference)

is_routine : RiskLevel → Bool
is_routine routine = true
is_routine _ = false

-- Tier 2: the declaration is there, so what is left is advice.
unfoldable pub declared_verdict : SystemActionStep → Verdict
unfolding is_routine
declared_verdict step =
    if is_empty step.blast_radius.direct_components && not (is_routine step.risk_level)
    then record {
      valid = true;
      message = "Warning: no direct components declared in blast radius for non-routine action";
    }
    else record {
      valid = true;
      message = template (
          "Blast radius validated: "
          ∷ show (length step.blast_radius.direct_components)
          ∷ " direct, "
          ∷ show (length step.blast_radius.indirect_components)
          ∷ " indirect components"
          ∷ []);
    }

unfoldable pub validate_in :
    ExecutionContextDeclaration → SystemActionStep → AgentManifest → Option AgentContext → Verdict
unfolding known_references declared_verdict
validate_in ec step m context =
    let target = normalize_identifier step.target in
    if is_empty target
    then record { valid = false; message = "Step target must identify a specific system component" }
    else if not (any (represents target) (known_references ec step m context))
    then record {
      valid = false;
      message = template (
          "Step target '" ∷ step.target
          ∷ "' is not represented in the manifest, trigger context, topology, or declared blast radius"
          ∷ []);
    }
    else declared_verdict step

unfoldable pub validate_blast_radius :
    SystemActionStep → AgentManifest → Option AgentContext → Verdict
unfolding find_context validate_in
validate_blast_radius step m context = elim (find_context step.execution_context m) [
  | none ↦ record {
    valid = false;
    message =
        template
          ("Step targets context '" ∷ step.execution_context ∷ "' not declared in manifest" ∷ []);
  }
  | some ec ↦ validate_in ec step m context
]
