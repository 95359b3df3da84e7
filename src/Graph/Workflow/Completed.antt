-- ===== src/Graph/Workflow/Completed.antt =====
-- What a run leaves, and what a completed run is worth.
use db_sanitizer.Base.{
  ◌≡◌, refl, sym, ap, ◌∙◌, Bool, true, false, Option, none, some, List, [], ◌∷◌, arith,
  Option-cases, Bool-cases, inl, inr,
}
use mathlib.Core.Path.{subst}
use db_sanitizer.Base.Text.{Text}
use db_sanitizer.Errors.{Error, Result, err, ok, policy_error, Result-cases}
use db_sanitizer.Graph.{RunState, WorkflowContext}
use db_sanitizer.Graph.Nodes.{Services, NodeName, verify_report, run_node}
use db_sanitizer.Graph.Workflow.{
  Checkpoint, Invoke, IsEngine, interrupts, check_resume_compatibility, initial_state, invoke_next,
  stored, run_sanitization,
}
use db_sanitizer.Graph.Workflow.Stages.{created, IsAt, SameRun, last-IsAt}
use db_sanitizer.Graph.Workflow.Steps.{run_node-IsAt}
use db_sanitizer.Graph.Workflow.Verified.{IsVerified, verify_and_report_node-IsVerified}
use db_sanitizer.Mapping.Registry.{Registry}
use db_sanitizer.Graph.Workflow.Proceeds.{
  IsResumable, state_in, IsOwn, SameSource, CanProceed, Proceeded, check_resume_compatibility-IsOwn,
}

module _ (services : Services) (context : WorkflowContext) where
  SameRun-trans : (s s' s'' : RunState) → SameRun s s' → SameRun s' s'' → SameRun s s''
  SameRun-trans s s' s'' a b = (a.0 ∙ b.0, a.1 ∙ b.1, a.2 ∙ b.2)

  -- What a call from a state leaves: a stage of the same run, which is the answer, if it is one,
  -- and, without a node left, was verified.
  abbrev Leaves : RunState → Result RunState → Checkpoint → Registry → Type 0
  Leaves start result d t =
      IsAt d.next d.state
      × SameRun start d.state
      × ((s : RunState)
          → result ≡ ok s
          → (d.state ≡ s) × (d.next ≡ [] → IsVerified services context s t))

  module _ (invoke : Invoke) (engine : IsEngine services context invoke) where
    verify_report-IsVerified :
        (n : NodeName) (s s' : RunState) (r t : Registry)
        → n ≡ verify_report
        → run_node services context n s r ≡ some (ok s', t)
        → IsVerified services context s' t
    unfolding run_node
    verify_report-IsVerified n s s' r t q h =
        let p : run_node services context verify_report s r ≡ some (ok s', t) =
          subst (λ m. run_node services context m s r ≡ some (ok s', t)) q h in
        verify_and_report_node-IsVerified services context s s' r t (ground arith)

    -- A node that raises leaves the checkpoint.
    raised-Leaves :
        (i : List NodeName) (n : NodeName) (ns : List NodeName) (start s : RunState)
        (result : Result RunState) (d : Checkpoint) (r t x : Registry) (e : Error)
        → IsAt (n ∷ ns) s
        → SameRun start s
        → run_node services context n s r ≡ some (err e, x)
        → invoke i (record { next = n ∷ ns; state = s }) r ≡ some (result, (d, t))
        → Leaves start result d t
    raised-Leaves i n ns start s result d r t x e at same p h =
        let law = engine.raised i n ns s r x e p in
        let c : Checkpoint = record { next = n ∷ ns; state = s } in
        let q : c ≡ d = ground arith in
        let failed : result ≡ err e = ground arith in
        (
          subst (λ b. IsAt b.next b.state) q at,
          subst (λ b. SameRun start b.state) q same,
          (λ s' k. absurd (ground arith)),
        )

    -- A call that returns after a node: if that was the last, its verification is known.
    returned-Leaves :
        (start s' : RunState) (ns : List NodeName) (d : Checkpoint) (result : Result RunState)
        (x t : Registry) (answer : Option (Result RunState × (Checkpoint × Registry)))
        → IsAt ns s'
        → SameRun start s'
        → (ns ≡ [] → IsVerified services context s' x)
        → answer ≡ some (ok s', (record { next = ns; state = s' }, x))
        → answer ≡ some (result, (d, t))
        → Leaves start result d t
    returned-Leaves start s' ns d result x t answer at same verified law h =
        let c : Checkpoint = record { next = ns; state = s' } in
        let q : c ≡ d = ground arith in
        let returned : ok s' ≡ result = ground arith in
        let end : x ≡ t = ground arith in
        (
          subst (λ b. IsAt b.next b.state) q at,
          subst (λ b. SameRun start b.state) q same,
          (λ s k.
              (let state : s' ≡ s = ground arith in
                (
                  ap (λ b. b.state) (sym q) ∙ state,
                  (λ z.
                      subst (λ b. IsVerified services context b t) state
                        (subst (IsVerified services context s') end
                          (verified (ap (λ b. b.next) q ∙ z)))),
                ))),
        )

    -- A call on a checkpoint with a node left.
    invoke-Leaves :
        (i : List NodeName) (n : NodeName) (ns : List NodeName) (start s : RunState)
        (result : Result RunState) (d : Checkpoint) (r t : Registry)
        → IsAt (n ∷ ns) s
        → SameRun start s
        → invoke i (record { next = n ∷ ns; state = s }) r ≡ some (result, (d, t))
        → Leaves start result d t
    invoke-Leaves i n [] start s result d r t at same h =
        elim (Option-cases (run_node services context n s r)) [
          | inl p ↦ (let law = engine.exhausted i n [] s r p in absurd (ground arith))
          | inr ((err e, x), p) ↦ raised-Leaves i n [] start s result d r t x e at same p h
          | inr ((ok s', x), p) ↦
              (let (at', run) = run_node-IsAt services context n [] s s' r x at p in
                let left : invoke i (record { next = n ∷ []; state = s }) r
                    ≡ some (ok s', (record { next = []; state = s' }, x)) =
                  elim (Bool-cases (interrupts i n)) [
                    | inl stops ↦ engine.interrupted i n [] s s' r x p stops
                    | inr passes ↦ engine.continued i n [] s s' r x p passes ∙ engine.ended i s' x
                  ] in
                returned-Leaves start s' [] d result x t _ at' (SameRun-trans start s s' same run)
                  (λ z. verify_report-IsVerified n s s' r x (last-IsAt n s at) p) left h)
        ]
    invoke-Leaves i n (m ∷ ms) start s result d r t at same h =
        elim (Option-cases (run_node services context n s r)) [
          | inl p ↦ (let law = engine.exhausted i n (m ∷ ms) s r p in absurd (ground arith))
          | inr ((err e, x), p) ↦ raised-Leaves i n (m ∷ ms) start s result d r t x e at same p h
          | inr ((ok s', x), p) ↦
              (let (at', run) = run_node-IsAt services context n (m ∷ ms) s s' r x at p in
                let same' = SameRun-trans start s s' same run in
                elim (Bool-cases (interrupts i n)) [
                  | inl stops ↦
                      returned-Leaves start s' (m ∷ ms) d result x t _ at' same'
                        (λ z. absurd (ground arith))
                        (engine.interrupted i n (m ∷ ms) s s' r x p stops) h
                  | inr passes ↦
                      invoke-Leaves i m ms start s' result d x t at' same'
                        (sym (engine.continued i n (m ∷ ms) s s' r x p passes) ∙ h)
                ])
        ]

    stored-some :
        (answer : Option (Result RunState × (Checkpoint × Registry))) (result : Result RunState)
        (d : Option Checkpoint) (t : Registry)
        → stored services context answer ≡ some (result, (d, t))
        → (b : Checkpoint) × (d ≡ some b) × (answer ≡ some (result, (b, t)))
    stored-some none result d t h = absurd (ground arith)
    stored-some (some (answer, (b, x))) result d t h = (b, ground arith, ground arith)

    -- The same of a run, which may leave no checkpoint.
    abbrev LeavesRun :
        Bool → Option Checkpoint → Result RunState → Option Checkpoint → Registry → Type 0
    LeavesRun resume c result d t =
        IsResumable d
        × Proceeded services context resume c d result
        × ((s : RunState) (b : Checkpoint)
            → result ≡ ok s
            → d ≡ some b
            → b.next ≡ []
            → IsVerified services context s t)

    -- A run that is refused leaves what it found.
    refused-LeavesRun :
        (resume : Bool) (c d : Option Checkpoint) (e : Error) (result : Result RunState)
        (t : Registry)
        → IsResumable c
        → c ≡ d
        → err e ≡ result
        → LeavesRun resume c result d t
    refused-LeavesRun resume c d e (err f) t v q failed =
        (subst IsResumable q v, tt, (λ s b k z y. absurd (ground arith)))
    refused-LeavesRun resume c d e (ok s) t v q failed = absurd (ground arith)

    -- A run that calls the engine.
    called-LeavesRun :
        (resume : Bool) (c : Option Checkpoint) (start : RunState)
        (answer : Option (Result RunState × (Checkpoint × Registry))) (result : Result RunState)
        (d : Option Checkpoint) (t : Registry)
        → CanProceed services context resume c
        → IsOwn services context start
        → ((b : Checkpoint) → answer ≡ some (result, (b, t)) → Leaves start result b t)
        → stored services context answer ≡ some (result, (d, t))
        → LeavesRun resume c result d t
    called-LeavesRun resume c start answer (err e) d t can own f h =
        let (b, q, k) = stored-some answer (err e) d t h in
        (subst IsResumable (sym q) (f b k).0, tt, (λ s b' k z y. absurd (ground arith)))
    called-LeavesRun resume c start answer (ok s) d t can own f h =
        let (b, q, k) = stored-some answer (ok s) d t h in
        let (at, same, returns) = f b k in
        let (state, verified) = returns s refl in
        (
          subst IsResumable (sym q) at,
          (
            can,
            ap state_in q ∙ ap some state,
            (
              sym (same.0 ∙ ap (λ z. z.run_id) state) ∙ own.0,
              sym (same.1 ∙ ap (λ z. z.policy_sha256) state) ∙ own.1,
            ),
          ),
          (λ s' b' k z y.
              (let stays : s ≡ s' = ground arith in
                let there : b ≡ b' = ground arith in
                subst (λ x. IsVerified services context x t) stays
                  (verified (ap (λ x. x.next) there ∙ y)))),
        )

    resumed-LeavesRun :
        (ns : List NodeName) (s : RunState) (i : List NodeName) (d : Option Checkpoint)
        (r t : Registry) (result : Result RunState)
        → IsAt ns s
        → IsOwn services context s
        → SameSource services context s.schema_fingerprint
        → stored services context (invoke_next services context invoke i ns s r)
          ≡ some (result, (d, t))
        → LeavesRun true (some (record { next = ns; state = s })) result d t
    unfolding invoke_next
    resumed-LeavesRun [] s i d r t result v own source h =
        refused-LeavesRun true (some (record { next = []; state = s })) d policy_error result t v
          (ground arith) (ground arith)
    resumed-LeavesRun (n ∷ ns) s i d r t result v own source h =
        called-LeavesRun true (some (record { next = n ∷ ns; state = s })) s _ result d t
          ((λ z. absurd (ground arith)), source) own
          (λ b k. invoke-Leaves i n ns s s result b r t v (refl, refl, refl) k) h

    run_sanitization-Leaves :
        (registry_exists resume : Bool) (now : Text) (i : List NodeName) (c d : Option Checkpoint)
        (r t : Registry) (result : Result RunState)
        → IsResumable c
        → run_sanitization services context invoke registry_exists now resume i c r
          ≡ some (result, (d, t))
        → LeavesRun resume c result d t
    unfolding run_sanitization
    run_sanitization-Leaves registry_exists false now i none d r t result v h =
        let start = initial_state services context now in
        called-LeavesRun false none start _ result d t refl (refl, refl)
          (λ b k.
            invoke-Leaves i _ _ start start result b r t
              (record { stage = created; nodes_ahead = refl; named = refl; artifacts = refl })
              (refl, refl, refl) k)
          h
    run_sanitization-Leaves registry_exists false now i (some c) d r t result v h =
        refused-LeavesRun false (some c) d policy_error result t v (ground arith) (ground arith)
    run_sanitization-Leaves registry_exists true now i none d r t result v h =
        refused-LeavesRun true none d policy_error result t v (ground arith) (ground arith)
    run_sanitization-Leaves registry_exists true now i (some c) d r t result v h =
        let checked = check_resume_compatibility services context registry_exists c.state r in
        elim (Result-cases checked.0) [
          | inr (e, p) ↦
              refused-LeavesRun true (some c) d e result t v (ground arith) (ground arith)
          | inl (done, p) ↦
              (let (own, source) =
                  check_resume_compatibility-IsOwn services context registry_exists c.state r p in
                resumed-LeavesRun c.next c.state i d checked.1 t result v own source (ground arith))
        ]

    -- Let the engine behave as documented, and let a run begin without a checkpoint, or with one
    -- whose nodes left are those of its state's stage. Whether it is started or resumed, and wherever
    -- it is interrupted: if it returns and its checkpoint has no node left, then
    -- `verify_connections` has answered, on both databases and with the run ID, the schema, the start
    -- and the evidence of the state that the run returns and the policy of the context. Its outcome
    -- is passed, its report was written, and the registry that it left is the one that the run
    -- leaves. All that the nine checks demand holds, and the mappings are those of the verification.
    pub run_sanitization-IsVerified :
        (registry_exists resume : Bool) (now : Text) (i : List NodeName) (c : Option Checkpoint)
        (d : Checkpoint) (r t : Registry) (s : RunState)
        → IsResumable c
        → run_sanitization services context invoke registry_exists now resume i c r
          ≡ some (ok s, (some d, t))
        → d.next ≡ []
        → IsVerified services context s t
    run_sanitization-IsVerified registry_exists resume now i c d r t s v h z =
        (run_sanitization-Leaves registry_exists resume now i c (some d) r t (ok s) v h).2 s d refl
          refl z

    -- Let the engine behave as documented. The nodes that a checkpoint has left are the ones that
    -- follow the stage that its state names, in the order of the seven, and the state has what the
    -- nodes before have made: if this holds of the checkpoint that a run finds, if any, it holds of
    -- the one that it leaves, if any, whatever it answers. If the run returns, then it was started
    -- without a checkpoint, or resumed from one that had a node left, with the source at the schema
    -- that was seen, if one was; the state that it returns is the one that it leaves, and has the run
    -- ID and the policy of the context.
    pub run_sanitization-IsResumable :
        (registry_exists resume : Bool) (now : Text) (i : List NodeName) (c d : Option Checkpoint)
        (r t : Registry) (result : Result RunState)
        → IsResumable c
        → run_sanitization services context invoke registry_exists now resume i c r
          ≡ some (result, (d, t))
        → IsResumable d × Proceeded services context resume c d result
    run_sanitization-IsResumable registry_exists resume now i c d r t result v h =
        let left = run_sanitization-Leaves registry_exists resume now i c d r t result v h in
        (left.0, left.1)
