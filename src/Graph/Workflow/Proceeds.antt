-- ===== src/Graph/Workflow/Proceeds.antt =====
-- From which checkpoints `run_sanitization` can go on.
use db_sanitizer.Base.{◌≡◌, Bool, true, false, Option, none, some, [], arith, Bool-cases, inl, inr}
use db_sanitizer.Base.Text.{Text, text_eq, text_eq_iff, nonempty}
use db_sanitizer.Errors.{Result, err, ok, Result-cases}
use db_sanitizer.Graph.{RunState, WorkflowContext, state_string}
use db_sanitizer.Graph.Nodes.{Services}
use db_sanitizer.Graph.Workflow.{Checkpoint, check_schema, check_resume_compatibility}
use db_sanitizer.Graph.Workflow.Stages.{IsAt}
use db_sanitizer.Mapping.Registry.{Registry}
use db_sanitizer.Policy.Schema.{SchemaSnapshot}

-- The nodes that a checkpoint has left are those of its state's stage.
abbrev pub IsResumable : Option Checkpoint → Type 0
IsResumable none = Unit
IsResumable (some c) = IsAt c.next c.state

abbrev pub state_in : Option Checkpoint → Option RunState
state_in none = none
state_in (some c) = some c.state

module _ (services : Services) (context : WorkflowContext) where
  -- The state is that of this run and this policy.
  abbrev pub IsOwn : RunState → Type 0
  IsOwn s = (s.run_id ≡ context.run_id) × (s.policy_sha256 ≡ context.policy_sha256)

  -- The source still has the schema that was seen, if one was.
  abbrev pub SameSource : Option Text → Type 0
  SameSource none = Unit
  SameSource (some seen) =
      (snapshot : SchemaSnapshot) × (services.source.inspected ≡ ok snapshot)
      × (services.fingerprint snapshot ≡ seen)

  -- A start finds no checkpoint, and a resumption one with a node left and the source unchanged.
  abbrev pub CanProceed : Bool → Option Checkpoint → Type 0
  CanProceed false c = c ≡ none
  CanProceed true none = ⊥
  CanProceed true (some c) = (¬ (c.next ≡ [])) × SameSource c.state.schema_fingerprint

  -- A run that raises says nothing more; one that returns could proceed, answers with the state of
  -- the checkpoint that it leaves, and that state is its own.
  abbrev pub Proceeded : Bool → Option Checkpoint → Option Checkpoint → Result RunState → Type 0
  Proceeded resume c d (err e) = Unit
  Proceeded resume c d (ok s) = CanProceed resume c × (state_in d ≡ some s) × IsOwn s

  check_schema-SameSource :
      (registry_exists : Bool) (seen : Option Text) (r : Registry)
      → (check_schema services context registry_exists seen r).0 ≡ ok tt
      → SameSource seen
  unfolding check_schema
  check_schema-SameSource registry_exists none r h = tt
  check_schema-SameSource registry_exists (some seen) r h =
      elim (Result-cases services.source.inspected) [
        | inr (e, p) ↦ absurd (ground arith)
        | inl (snapshot, p) ↦ elim (Bool-cases (text_eq (services.fingerprint snapshot) seen)) [
          | inr differ ↦ absurd (ground arith)
          | inl same ↦ (snapshot, p, (text_eq_iff (services.fingerprint snapshot) seen).0 same)
        ]
      ]

  pub check_resume_compatibility-IsOwn :
      (registry_exists : Bool) (s : RunState) (r : Registry)
      → (check_resume_compatibility services context registry_exists s r).0 ≡ ok tt
      → IsOwn s × SameSource s.schema_fingerprint
  unfolding check_resume_compatibility state_string
  check_resume_compatibility-IsOwn registry_exists s r h = elim (Bool-cases (nonempty s.run_id)) [
    | inr unnamed ↦ absurd (ground arith)
    | inl named ↦ elim (Bool-cases (text_eq s.run_id context.run_id)) [
      | inr other ↦ absurd (ground arith)
      | inl run ↦ elim (Bool-cases (nonempty s.policy_sha256)) [
        | inr missing ↦ absurd (ground arith)
        | inl found ↦ elim (Bool-cases (text_eq s.policy_sha256 context.policy_sha256)) [
          | inr changed ↦ absurd (ground arith)
          | inl policy ↦ (
            (
              (text_eq_iff s.run_id context.run_id).0 run,
              (text_eq_iff s.policy_sha256 context.policy_sha256).0 policy,
            ),
            check_schema-SameSource registry_exists s.schema_fingerprint r (ground arith),
          )
        ]
      ]
    ]
  ]
