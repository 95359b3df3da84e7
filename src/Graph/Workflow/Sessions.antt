-- ===== src/Graph/Workflow/Sessions.antt =====
-- Runs that are interrupted and resumed.
use db_sanitizer.Base.{
  ◌≡◌, refl, sym, ◌∙◌, some, List, [], ◌∷◌, arith, Option-cases, Bool-cases, inl, inr,
}
use db_sanitizer.Errors.{err, ok}
use db_sanitizer.Graph.{RunState, WorkflowContext}
use db_sanitizer.Graph.Nodes.{Services, NodeName, run_node}
use db_sanitizer.Graph.Workflow.{Checkpoint, Invoke, IsEngine, interrupts}
use db_sanitizer.Mapping.Registry.{Registry}

module _ (services : Services) (context : WorkflowContext) (invoke : Invoke) where
  -- Calls of `invoke` that return, one after the other, each on what the one before has left.
  pub data Sessions : Checkpoint → Registry → Checkpoint → Registry → Type 0 where
    done : {c : Checkpoint} {r : Registry} → Sessions c r c r
    session :
        {c d f : Checkpoint} {r t x : Registry} (i : List NodeName) (s : RunState)
        → invoke i c r ≡ some (ok s, (d, t))
        → Sessions d t f x
        → Sessions c r f x

  -- The nodes return, one after the other.
  pub data Chain : List NodeName → RunState → Registry → RunState → Registry → Type 0 where
    end : {s : RunState} {r : Registry} → Chain [] s r s r
    link :
        {n : NodeName} {ns : List NodeName} {s s' s'' : RunState} {r t x : Registry}
        → run_node services context n s r ≡ some (ok s', t)
        → Chain ns s' t s'' x
        → Chain (n ∷ ns) s r s'' x

  module _ (engine : IsEngine services context invoke) where
    invoke_resumed :
        (i ns : List NodeName) (s s' : RunState) (d : Checkpoint) (r t : Registry)
        → invoke i (record { next = ns; state = s }) r ≡ some (ok s', (d, t))
        → invoke [] d t ≡ invoke [] (record { next = ns; state = s }) r
    invoke_resumed i [] s s' d r t h =
        let law = engine.ended i s r in
        let c : Checkpoint = record { next = []; state = s } in
        let p : d ≡ c = ground arith in let q : t ≡ r = ground arith in cc
    invoke_resumed i (n ∷ ns) s s' d r t h = elim (Option-cases (run_node services context n s r)) [
      | inl p ↦ (let law = engine.exhausted i n ns s r p in absurd (ground arith))
      | inr ((err e, x), p) ↦ (let law = engine.raised i n ns s r x e p in absurd (ground arith))
      | inr ((ok next, x), p) ↦ elim (Bool-cases (interrupts i n)) [
        | inl stops ↦
            (let law = engine.interrupted i n ns s next r x p stops in
              let goes_on = engine.continued [] n ns s next r x p refl in
              let c : Checkpoint = record { next = ns; state = next } in
              let a : d ≡ c = ground arith in let b : t ≡ x = ground arith in cc)
        | inr passes ↦
            (let law = engine.continued i n ns s next r x p passes in
              let goes_on = engine.continued [] n ns s next r x p refl in
              invoke_resumed i ns next s' d x t (sym law ∙ h) ∙ sym goes_on)
      ]
    ]

    -- Wherever a run was interrupted, and however often, the call of `invoke` that resumes it
    -- without an interrupt answers, and leaves the checkpoint and the registry, as one call from
    -- the start would.
    pub invoke-Sessions :
        (c d : Checkpoint) (r t : Registry) → Sessions c r d t → invoke [] d t ≡ invoke [] c r
    invoke-Sessions c d r t done = refl
    invoke-Sessions c d r t (session {d = e} {t = x} i s h rest) =
        invoke-Sessions e d x t rest ∙ invoke_resumed i c.next c.state s e r x h

    invoke_chain :
        (ns : List NodeName) (s s' : RunState) (r t : Registry)
        → Chain ns s r s' t
        → invoke [] (record { next = ns; state = s }) r
          ≡ some (ok s', (record { next = []; state = s' }, t))
    invoke_chain [] s s' r t end = engine.ended [] s r
    invoke_chain (n ∷ ns) s s' r t (link {s' = x} {t = y} p rest) =
        engine.continued [] n ns s x r y p refl ∙ invoke_chain ns x s' y t rest

    -- If the nodes return one after the other, a run completes, wherever it is interrupted and
    -- resumed: the last call leaves the state and the registry of the last node, and no node.
    pub Sessions-complete :
        (c d : Checkpoint) (r t x : Registry) (s : RunState)
        → Chain c.next c.state r s x
        → Sessions c r d t
        → invoke [] d t ≡ some (ok s, (record { next = []; state = s }, x))
    Sessions-complete c d r t x s chain sessions =
        invoke-Sessions c d r t sessions ∙ invoke_chain c.next c.state s r x chain
