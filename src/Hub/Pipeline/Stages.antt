-- ===== src/Hub/Pipeline/Stages.antt =====
-- Which stages the pipeline calls, with what, and what its response says of them (hub/pipeline.py).
use haojie.Common.{
  ◌≡◌, ◌↔◌, refl, ap, Bool, true, false, Option, none, some, List, [], ◌∷◌, ◌++◌, Dict,
  if◌then◌else◌, all, map, arith,
}
use haojie.Hub.Pipeline.{
  Stage, intent, decision, llm, report, all_succeeded, Warning, PipelineRequest, Payload,
  intent_payload, decision_payload, llm_payload, report_payload, Clients, StageOutcome,
  PipelineResponse, to_outcome, skipped_outcome, succeeded, compute_overall_status, result_of,
  result_if_any, warn, call_stage, decide, optional, after_decision, after_intent, run, present,
  overall_of,
}

module _ {R V : Type 0} where
  -- The stage that a payload is for.
  abbrev pub stage_of : Payload R V → Stage
  stage_of (intent_payload q) = intent
  stage_of (decision_payload q i) = decision
  stage_of (llm_payload q i d) = llm
  stage_of (report_payload q i d l) = report

  -- The decision's payload, if the intent has a result.
  abbrev pub decision_payloads : PipelineRequest R → Option (Dict V) → List (Payload R V)
  decision_payloads q none = []
  decision_payloads q (some []) = []
  decision_payloads q (some (e ∷ es)) = decision_payload q (e ∷ es) ∷ []

  -- The payloads that a request asks for, from the response: the decision's is built from a result
  -- of the intent that is not empty, and the later ones from the results of the stages that
  -- succeeded.
  unfoldable pub payloads : PipelineRequest R → PipelineResponse V → List (Payload R V)
  payloads q p =
      let i = result_of p.intent in
      let d = result_of p.decision in
      intent_payload q ∷ decision_payloads q i
      ++ (if q.include_llm then llm_payload q i d ∷ [] else [])
      ++ (if q.include_report then report_payload q i d (result_if_any p.llm) ∷ [] else [])

module _ {R V : Type 0} (clients : Clients R V) where
  open clients use {State, call}

  -- The payloads are sent in their order, and nothing else is.
  pub data Calls : State → List (Payload R V) → State → Type 0 where
    done : {s : State} → Calls s [] s
    next :
        {s s' : State} (p : Payload R V) {ps : List (Payload R V)}
        → Calls (call (stage_of p) p s).0 ps s'
        → Calls s (p ∷ ps) s'

  Calls-append :
      (s t u : State) (ps qs : List (Payload R V))
      → Calls s ps t
      → Calls t qs u
      → Calls s (ps ++ qs) u
  Calls-append s t u ps qs done d = d
  Calls-append s t u ps qs (next p c) d = next p (Calls-append _ t u _ qs c d)

  decide-Calls :
      (q : PipelineRequest R) (i : Option (Dict V)) (s : State)
      → Calls s (decision_payloads q i) (decide clients q i s).0
        × ((decide clients q i s).2 ≡ map stage_of (decision_payloads q i))
  unfolding decide call_stage
  decide-Calls q none s = (done, refl)
  decide-Calls q (some []) s = (done, refl)
  decide-Calls q (some (e ∷ es)) s = (next (decision_payload q (e ∷ es)) done, refl)

  optional-Calls :
      (b : Bool) (p : Payload R V) (s : State)
      → let o = optional clients b (stage_of p) p s in
        let ps = if b then p ∷ [] else [] in Calls s ps o.world × (o.called ≡ map stage_of ps)
  unfolding optional call_stage
  optional-Calls false p s = (done, refl)
  optional-Calls true p s = (next p done, refl)

  map-append :
      (ps qs : List (Payload R V)) → map stage_of (ps ++ qs) ≡ map stage_of ps ++ map stage_of qs
  map-append [] qs = refl
  map-append (p ∷ ps) qs = ap (λ l. stage_of p ∷ l) (map-append ps qs)

  mapped :
      {xs ys zs : List Stage} (a b c : List (Payload R V))
      → xs ≡ map stage_of a
      → ys ≡ map stage_of b
      → zs ≡ map stage_of c
      → xs ++ ys ++ zs ≡ map stage_of (a ++ b ++ c)
  mapped a b c ex ey ez = rw (ex, ey, ez, map-append (a ++ b) c, map-append a b) refl

  after_decision-Calls :
      (q : PipelineRequest R) (i d : StageOutcome V) (decided : List Stage) (doubts : List Warning)
      (s u : State)
      → decided ≡ map stage_of (decision_payloads q (result_of i))
      → Calls (call intent (intent_payload q) u).0 (decision_payloads q (result_of i)) s
      → let (s', p) = after_decision clients q i (d, decided, doubts) s in
        Calls u (payloads q p) s' × (p.stage_sequence ≡ map stage_of (payloads q p))
  unfolding after_decision payloads result_of result_if_any
  after_decision-Calls q i d decided doubts s u listed before =
      let to_llm = llm_payload q (result_of i) (result_of d) in
      let l = optional clients q.include_llm llm to_llm s in
      let (talks, talked) = optional-Calls q.include_llm to_llm s in
      let to_report = report_payload q (result_of i) (result_of d) (result_if_any l.outcome) in
      let (reports, reported) = optional-Calls q.include_report to_report l.world in
      let more = if q.include_llm then to_llm ∷ [] else [] in
      let last = if q.include_report then to_report ∷ [] else [] in
      (
        next (intent_payload q)
            (Calls-append _ _ _ _ _ (Calls-append _ _ _ _ _ before talks) reports),
        ap (λ l. intent ∷ l)
            (mapped (decision_payloads q (result_of i)) more last listed talked reported),
      )

  after_intent-Calls :
      (q : PipelineRequest R) (i : StageOutcome V) (s : State)
      → let (s', p) = after_intent clients q ((call intent (intent_payload q) s).0, i) in
        Calls s (payloads q p) s' × (p.stage_sequence ≡ map stage_of (payloads q p))
  unfolding after_intent
  after_intent-Calls q i s =
      let s₁ = (call intent (intent_payload q) s).0 in
      let (decides, decided) = decide-Calls q (result_of i) s₁ in
      let found = decide clients q (result_of i) s₁ in
      after_decision-Calls q i found.1 found.2 found.3 found.0 s decided decides

  -- The pipeline sends just the payloads that the request asks for, in the order of the stages:
  -- the decision's only when the intent has succeeded with a result that is not empty, and the
  -- later ones built from the results of the stages that succeeded. The sequence of the response
  -- lists the stages that were called.
  pub run-Calls :
      (q : PipelineRequest R) (s : State)
      → let (s', p) = run clients q s in
        Calls s (payloads q p) s' × (p.stage_sequence ≡ map stage_of (payloads q p))
  unfolding run call_stage
  run-Calls q s = after_intent-Calls q (to_outcome intent (call intent (intent_payload q) s).1) s

  -- One stage's part in the warnings.
  decide-warned :
      (q : PipelineRequest R) (i : Option (Dict V)) (s : State)
      → ((decide clients q i s).3 ≡ []) ↔ (succeeded (decide clients q i s).1 ≡ true)
  unfolding decide call_stage warn skipped_outcome
  decide-warned q none s = ground arith
  decide-warned q (some []) s = ground arith
  decide-warned q (some (e ∷ es)) s = ground arith

  optional-warned :
      (b : Bool) (stage : Stage) (p : Payload R V) (s : State)
      → let o = optional clients b stage p s in
        (o.warned ≡ []) ↔ (all succeeded (present o.outcome) ≡ true)
  unfolding optional call_stage warn present
  optional-warned false stage p s = ground arith
  optional-warned true stage p s = ground arith

append_nil : (xs ys : List Warning) → (xs ++ ys ≡ []) ↔ ((xs ≡ []) × (ys ≡ []))
append_nil [] ys = ground arith
append_nil (x ∷ xs) ys = ground arith

module _ {V : Type 0} where
  warn_nil : (stage : Stage) (o : StageOutcome V) → (warn stage o ≡ []) ↔ (succeeded o ≡ true)
  unfolding warn
  warn_nil stage o = ground arith

  overall_all :
      (i d : StageOutcome V) (l r : Option (StageOutcome V))
      → (compute_overall_status i d l r ≡ all_succeeded) ↔ (
          (succeeded i ≡ true)
          × (succeeded d ≡ true)
          × (all succeeded (present l) ≡ true)
          × (all succeeded (present r) ≡ true))
  unfolding compute_overall_status overall_of present
  overall_all i d none none = ground arith
  overall_all i d none (some r) = ground arith
  overall_all i d (some l) none = ground arith
  overall_all i d (some l) (some r) = ground arith

module _ {R V : Type 0} (clients : Clients R V) where
  open clients use {State}

  after_decision-warned :
      (q : PipelineRequest R) (i d : StageOutcome V) (decided : List Stage) (doubts : List Warning)
      (s : State)
      → (doubts ≡ []) ↔ (succeeded d ≡ true)
      → let p = (after_decision clients q i (d, decided, doubts) s).1 in
        (p.warnings ≡ []) ↔ (p.overall_status ≡ all_succeeded)
  unfolding after_decision
  after_decision-warned q i d decided doubts s doubted =
      let l = optional clients q.include_llm llm (llm_payload q (result_of i) (result_of d)) s in
      let to_report = report_payload q (result_of i) (result_of d) (result_if_any l.outcome) in
      let r = optional clients q.include_report report to_report l.world in
      let w = warn intent i in
      ground (
        arith,
        doubted,
        warn_nil intent i,
        optional-warned clients q.include_llm llm (llm_payload q (result_of i) (result_of d)) s,
        optional-warned clients q.include_report report to_report l.world,
        append_nil w doubts,
        append_nil (w ++ doubts) l.warned,
        append_nil (w ++ doubts ++ l.warned) r.warned,
        overall_all i d l.outcome r.outcome,
      )

  after_intent-warned :
      (q : PipelineRequest R) (i : StageOutcome V) (s : State)
      → let p = (after_intent clients q (s, i)).1 in
        (p.warnings ≡ []) ↔ (p.overall_status ≡ all_succeeded)
  unfolding after_intent
  after_intent-warned q i s =
      let found = decide clients q (result_of i) s in
      after_decision-warned q i found.1 found.2 found.3 found.0
        (decide-warned clients q (result_of i) s)

  -- The response has no warning exactly when its overall status is success.
  pub run-warned :
      (q : PipelineRequest R) (s : State)
      → let p = (run clients q s).1 in (p.warnings ≡ []) ↔ (p.overall_status ≡ all_succeeded)
  unfolding run
  run-warned q s =
      let stage = call_stage clients intent (intent_payload q) s in
      after_intent-warned q stage.1 stage.0
