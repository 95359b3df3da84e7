-- ===== src/Graph/Workflow.antt =====
-- `run_sanitization` and `verify_existing_run` of db_sanitizer/graph.py. The engine that runs the
-- nodes and stores a checkpoint after each is LangGraph's, and a parameter.
pub mod Stages
pub mod Steps
pub mod Sessions
pub mod Verified
pub mod Proceeds
pub mod Completed
pub mod Resumed
use db_sanitizer.Base.{
  ℕ, ◌≡◌, Bool, true, false, not, Option, none, some, List, [], ◌∷◌, any, if◌then◌else◌,
}
use db_sanitizer.Base.Text.{Text, codes, text_eq}
use db_sanitizer.Errors.{Error, Result, ok, err, policy_error}
use db_sanitizer.Exec.{Exec, pure, lift, raise, raise_if, ◌>>=◌, ◌>>◌}
use db_sanitizer.Graph.{RunState, WorkflowContext, run_metadata, state_string}
use db_sanitizer.Graph.Nodes.{
  Services, NodeName, load_policy, inspect_schema, collect_keys, generate_replacements,
  build_config, dump_restore, verify_report, edges, run_node, verify_and_report,
}
use db_sanitizer.Mapping.Registry.{Registry, initialize}

-- The nodes that are left, and the state before them.
pub record Checkpoint : Type 0 where
  pub next : List NodeName
  pub state : RunState

-- `workflow.invoke(..., interrupt_after=...)`: the answer, with the checkpoint and the registry
-- that it leaves.
abbrev pub Invoke : Type 0
Invoke = List NodeName → Checkpoint → Registry → Option (Result RunState × (Checkpoint × Registry))

abbrev pub same_node : NodeName → NodeName → Bool
same_node load_policy load_policy = true
same_node inspect_schema inspect_schema = true
same_node collect_keys collect_keys = true
same_node generate_replacements generate_replacements = true
same_node build_config build_config = true
same_node dump_restore dump_restore = true
same_node verify_report verify_report = true
same_node _ _ = false

abbrev pub interrupts : List NodeName → NodeName → Bool
interrupts interrupt_after node = any (same_node node) interrupt_after

module _ (services : Services) (context : WorkflowContext) where
  -- What LangGraph documents of a graph whose nodes stand in a line: it runs the next node on the
  -- state; if the node raises, the error leaves `invoke` and the checkpoint stays; if the node
  -- returns, its state is the new checkpoint, and `invoke` returns after the last node and after a
  -- node at which it is told to stop, and goes on after the others.
  pub record IsEngine (invoke : Invoke) : Type 0 where
    pub ended :
        (i : List NodeName) (s : RunState) (r : Registry)
        → invoke i (record { next = []; state = s }) r
          ≡ some (ok s, (record { next = []; state = s }, r))
    pub exhausted :
        (i : List NodeName) (n : NodeName) (ns : List NodeName) (s : RunState) (r : Registry)
        → run_node services context n s r ≡ none
        → invoke i (record { next = n ∷ ns; state = s }) r ≡ none
    pub raised :
        (i : List NodeName) (n : NodeName) (ns : List NodeName) (s : RunState) (r t : Registry)
        (e : Error)
        → run_node services context n s r ≡ some (err e, t)
        → invoke i (record { next = n ∷ ns; state = s }) r
          ≡ some (err e, (record { next = n ∷ ns; state = s }, t))
    pub interrupted :
        (i : List NodeName) (n : NodeName) (ns : List NodeName) (s s' : RunState) (r t : Registry)
        → run_node services context n s r ≡ some (ok s', t)
        → interrupts i n ≡ true
        → invoke i (record { next = n ∷ ns; state = s }) r
          ≡ some (ok s', (record { next = ns; state = s' }, t))
    pub continued :
        (i : List NodeName) (n : NodeName) (ns : List NodeName) (s s' : RunState) (r t : Registry)
        → run_node services context n s r ≡ some (ok s', t)
        → interrupts i n ≡ false
        → invoke i (record { next = n ∷ ns; state = s }) r
          ≡ invoke i (record { next = ns; state = s' }) t

  -- The source schema must still be the one of the checkpoint, and the registry, if its file is
  -- there, one of this run.
  unfoldable pub check_schema : Bool → Option Text → Exec Registry (Unit {0})
  check_schema registry_exists none = pure tt
  check_schema registry_exists (some expected_schema) = do
    snapshot ← lift services.source.inspected
    raise_if (not (text_eq (services.fingerprint snapshot) expected_schema)) policy_error
    if registry_exists
        then initialize (run_metadata services.crypto context (services.fingerprint snapshot))
        else pure tt

  -- `_check_resume_compatibility`
  unfoldable pub check_resume_compatibility : Bool → RunState → Exec Registry (Unit {0})
  check_resume_compatibility registry_exists state = do
    run_id ← lift (state_string (some state.run_id))
    raise_if (not (text_eq run_id context.run_id)) policy_error
    policy_sha256 ← lift (state_string (some state.policy_sha256))
    raise_if (not (text_eq policy_sha256 context.policy_sha256)) policy_error
    check_schema registry_exists state.schema_fingerprint

  -- `_initial_state`, at a time.
  abbrev pub initial_state : Text → RunState
  initial_state now = record {
    run_id = context.run_id;
    policy_sha256 = context.policy_sha256;
    started_at = now;
    current_stage = codes "created";
    schema_fingerprint = none;
    mapping_counts = none;
    llm = none;
    generated_config_path = none;
    mapper_config_path = none;
    dump_id = none;
  }

  -- What a run leaves: its answer, the checkpoint, if there is one, and the registry.
  abbrev pub Run : Type 0
  Run = Option (Result RunState × (Option Checkpoint × Registry))

  abbrev pub stored : Option (Result RunState × (Checkpoint × Registry)) → Run
  stored none = none
  stored (some (result, (checkpoint, r))) = some (result, (some checkpoint, r))

  unfoldable pub invoke_next :
      Invoke
      → List NodeName
      → List NodeName
      → RunState
      → Registry
      → Option (Result RunState × (Checkpoint × Registry))
  invoke_next invoke interrupt_after [] state r =
      some (err policy_error, (record { next = []; state = state }, r))
  invoke_next invoke interrupt_after (n ∷ ns) state r =
      invoke interrupt_after (record { next = n ∷ ns; state = state }) r

  -- `run_sanitization(resume=True)`
  unfoldable pub resume_run : Invoke → Bool → List NodeName → Option Checkpoint → Registry → Run
  resume_run invoke registry_exists interrupt_after none r = some (err policy_error, (none, r))
  resume_run invoke registry_exists interrupt_after (some checkpoint) r =
      let (compatible, r') = check_resume_compatibility registry_exists checkpoint.state r in
      elim compatible [
        | err e ↦ some (err e, (some checkpoint, r'))
        | ok _ ↦ stored (invoke_next invoke interrupt_after checkpoint.next checkpoint.state r')
      ]

  -- `run_sanitization(resume=False)`
  unfoldable pub start_run : Invoke → Text → List NodeName → Option Checkpoint → Registry → Run
  start_run invoke now interrupt_after (some checkpoint) r =
      some (err policy_error, (some checkpoint, r))
  start_run invoke now interrupt_after none r =
      stored (invoke interrupt_after (record { next = edges; state = initial_state now }) r)

  -- `run_sanitization`
  unfoldable pub run_sanitization :
      Invoke → Bool → Text → Bool → List NodeName → Option Checkpoint → Registry → Run
  unfolding resume_run start_run
  run_sanitization invoke registry_exists now true interrupt_after checkpoint r =
      resume_run invoke registry_exists interrupt_after checkpoint r
  run_sanitization invoke registry_exists now false interrupt_after checkpoint r =
      start_run invoke now interrupt_after checkpoint r

  -- `verify_existing_run`
  unfoldable pub verify_existing_run : Bool → Option Checkpoint → Exec Registry (Unit {0})
  verify_existing_run registry_exists none = raise policy_error
  verify_existing_run registry_exists (some checkpoint) = do
    check_resume_compatibility registry_exists checkpoint.state
    outcome ← verify_and_report services context checkpoint.state
    lift (
        if context.policy.report.include_synthetic_demo_before_after
        then services.write_sample
        else ok tt)
