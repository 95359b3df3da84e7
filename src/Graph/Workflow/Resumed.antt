-- ===== src/Graph/Workflow/Resumed.antt =====
-- A run of `run_sanitization` that is interrupted, and the one that resumes it.
use db_sanitizer.Base.{◌≡◌, refl, Bool, true, false, Option, none, some, List, [], ◌∷◌, arith}
use db_sanitizer.Base.Text.{Text}
use db_sanitizer.Errors.{Result, ok}
use db_sanitizer.Graph.{RunState, WorkflowContext}
use db_sanitizer.Graph.Nodes.{Services, NodeName, edges}
use db_sanitizer.Graph.Workflow.{
  Checkpoint, Invoke, IsEngine, check_resume_compatibility, initial_state, invoke_next, stored,
  run_sanitization,
}
use db_sanitizer.Graph.Workflow.Sessions.{Chain, done, session, Sessions-complete}
use db_sanitizer.Mapping.Registry.{Registry}

module _ (services : Services) (context : WorkflowContext) (invoke : Invoke)
    (engine : IsEngine services context invoke) where
  stored-some :
      (answer : Option (Result RunState × (Checkpoint × Registry))) (result : Result RunState)
      (d : Checkpoint) (t : Registry)
      → stored services context answer ≡ some (result, (some d, t))
      → answer ≡ some (result, (d, t))
  stored-some none result d t h = absurd (ground arith)
  stored-some (some (answer, (b, x))) result d t h = ground arith

  invoke_next-invoke :
      (ns : List NodeName) (state : RunState) (t : Registry)
      → ¬ (ns ≡ [])
      → invoke_next services context invoke [] ns state t
        ≡ invoke [] (record { next = ns; state = state }) t
  unfolding invoke_next
  invoke_next-invoke [] state t left = absurd (left refl)
  invoke_next-invoke (n ∷ ns) state t left = refl

  -- If the nodes return one after the other, a run that was interrupted before the last and is
  -- resumed, with a checkpoint that is found compatible and a registry that this leaves alone,
  -- returns with no node left, and with the state and the registry that the last node gives in a
  -- run without an interrupt.
  pub run_sanitization_resumed :
      (now later : Text) (existed exists : Bool) (i : List NodeName) (d : Checkpoint)
      (r t x : Registry) (s s' : RunState)
      → Chain services context invoke edges (initial_state services context now) r s x
      → run_sanitization services context invoke existed now false i none r
        ≡ some (ok s', (some d, t))
      → ¬ (d.next ≡ [])
      → check_resume_compatibility services context exists d.state t ≡ (ok tt, t)
      → run_sanitization services context invoke exists later true [] (some d) t
        ≡ some (ok s, (some (record { next = []; state = s }), x))
  unfolding run_sanitization
  run_sanitization_resumed now later existed exists i d r t x s s' chain started left compatible =
      let first : Checkpoint = record {
        next = edges;
        state = initial_state services context now;
      } in
      let interrupted = stored-some _ (ok s') d t started in
      let completed =
        Sessions-complete services context invoke engine first d r t x s chain
          (session i s' interrupted done) in
      let next = invoke_next-invoke d.next d.state t left in ground arith
