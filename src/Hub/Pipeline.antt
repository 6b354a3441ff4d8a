-- ===== src/Hub/Pipeline.antt =====
-- The pipeline of the hub (hub/pipeline.py, PipelineOrchestrator): which stages a request goes
-- through, what each is given, and the status and the warnings of the response.
--
-- A payload is named by what it is built from: the builders only rename and drop fields of these.
-- A result is a dictionary, and an empty one counts as none. The stages are calls on a world that is
-- threaded through. Latencies, error texts and metrics are left out.
pub mod Stages
use haojie.Common.{
  Bool, true, false, ◌&&◌, ◌||◌, not, Option, none, some, List, [], ◌∷◌, ◌++◌, Dict, if◌then◌else◌,
  all, any, String,
}
use haojie.Hub.Client.{StageCallResult, ClientMode, ErrorCode}

pub data Stage : Type 0 where
  intent decision llm report : Stage

pub data StageStatus : Type 0 where
  success failed skipped : StageStatus

pub data OverallStatus : Type 0 where
  all_succeeded partial all_failed : OverallStatus

pub data Warning : Type 0 where
  stage_failed : Stage → Warning
  decision_skipped : Warning

-- `PipelineRequest`: the two options that the orchestrator itself reads, and the rest.
pub record PipelineRequest (R : Type 0) : Type 0 where
  pub include_llm : Bool
  pub include_report : Bool
  pub rest : R

module _ (R V : Type 0) where
  -- What a payload is built from, besides the request: the results of the earlier stages.
  pub data Payload : Type 0 where
    intent_payload : PipelineRequest R → Payload
    decision_payload : PipelineRequest R → Dict V → Payload
    llm_payload : PipelineRequest R → Option (Dict V) → Option (Dict V) → Payload
    report_payload :
        PipelineRequest R → Option (Dict V) → Option (Dict V) → Option (Dict V) → Payload

  -- The four clients, as one call on the state of the world.
  pub record Clients : Type 1 where
    pub State : Type 0
    pub call : Stage → Payload → State → State × StageCallResult (Dict V)

pub record StageOutcome (V : Type 0) : Type 0 where
  pub stage : Stage
  pub status : StageStatus
  pub mode : Option ClientMode
  pub error_code : Option ErrorCode
  pub result : Option (Dict V)

pub record PipelineResponse (V : Type 0) : Type 0 where
  pub overall_status : OverallStatus
  pub intent : StageOutcome V
  pub decision : StageOutcome V
  pub llm : Option (StageOutcome V)
  pub report : Option (StageOutcome V)
  pub stage_sequence : List Stage
  pub warnings : List Warning

abbrev pub is_success : StageStatus → Bool
is_success success = true
is_success failed = false
is_success skipped = false

module _ {V : Type 0} where
  -- `_to_outcome`
  unfoldable pub to_outcome : Stage → StageCallResult (Dict V) → StageOutcome V
  to_outcome stage r = record {
    stage = stage;
    status = if r.success then success else failed;
    mode = some r.mode;
    error_code = r.error_code;
    result = r.result;
  }

  -- `_skipped_outcome`
  unfoldable pub skipped_outcome : Stage → StageOutcome V
  skipped_outcome stage = record {
    stage = stage;
    status = skipped;
    mode = none;
    error_code = none;
    result = none;
  }

  abbrev pub succeeded : StageOutcome V → Bool
  succeeded o = is_success o.status

  present : Option (StageOutcome V) → List (StageOutcome V)
  present none = []
  present (some o) = o ∷ []

  overall_of : List (StageOutcome V) → OverallStatus
  overall_of [] = all_failed
  overall_of (o ∷ os) =
      if all succeeded (o ∷ os)
      then all_succeeded
      else if any succeeded (o ∷ os)
      then partial
      else all_failed

  -- `_compute_overall_status`; the first two outcomes are always there.
  unfoldable pub compute_overall_status :
      StageOutcome V
      → StageOutcome V
      → Option (StageOutcome V)
      → Option (StageOutcome V)
      → OverallStatus
  unfolding present overall_of
  compute_overall_status i d l r = overall_of (i ∷ d ∷ present l ++ present r)

  -- `result if success else None`
  unfoldable pub result_of : StageOutcome V → Option (Dict V)
  result_of o = if succeeded o then o.result else none

  unfoldable pub result_if_any : Option (StageOutcome V) → Option (Dict V)
  unfolding result_of
  result_if_any none = none
  result_if_any (some o) = result_of o

  unfoldable pub warn : Stage → StageOutcome V → List Warning
  warn stage o = if succeeded o then [] else stage_failed stage ∷ []

module _ {R V : Type 0} (clients : Clients R V) where
  open clients use {State, call}

  -- A stage that is called: its outcome, its entry in the sequence, and its warning.
  pub record Step : Type 0 where
    pub world : State
    pub outcome : Option (StageOutcome V)
    pub called : List Stage
    pub warned : List Warning

  unfoldable pub call_stage : Stage → Payload R V → State → State × StageOutcome V
  unfolding to_outcome
  call_stage stage payload s = let (s', r) = call stage payload s in (s', to_outcome stage r)

  -- The decision needs the result of the intent, and an empty one will not do.
  decide :
      PipelineRequest R
      → Option (Dict V)
      → State
      → State × StageOutcome V × List Stage × List Warning
  unfolding call_stage skipped_outcome warn
  decide q none s = (s, skipped_outcome decision, [], decision_skipped ∷ [])
  decide q (some []) s = (s, skipped_outcome decision, [], decision_skipped ∷ [])
  decide q (some (e ∷ es)) s =
      let (s', o) = call_stage decision (decision_payload q (e ∷ es)) s in
      (s', o, decision ∷ [], warn decision o)

  -- A stage that the request may leave out.
  optional : Bool → Stage → Payload R V → State → Step
  unfolding call_stage warn
  optional false stage payload s = record { world = s; outcome = none; called = []; warned = [] }
  optional true stage payload s =
      let (s', o) = call_stage stage payload s in
      record { world = s'; outcome = some o; called = stage ∷ []; warned = warn stage o }

  -- The two optional stages, and the response.
  unfoldable pub after_decision :
      PipelineRequest R
      → StageOutcome V
      → StageOutcome V × List Stage × List Warning
      → State
      → State × PipelineResponse V
  unfolding optional compute_overall_status result_of result_if_any warn
  after_decision q i (d, decided, doubts) s =
      let l = optional q.include_llm llm (llm_payload q (result_of i) (result_of d)) s in
      let r =
        optional q.include_report report
          (report_payload q (result_of i) (result_of d) (result_if_any l.outcome)) l.world in
      (
        r.world,
        record {
          overall_status = compute_overall_status i d l.outcome r.outcome;
          intent = i;
          decision = d;
          llm = l.outcome;
          report = r.outcome;
          stage_sequence = intent ∷ decided ++ l.called ++ r.called;
          warnings = warn intent i ++ doubts ++ l.warned ++ r.warned;
        },
      )

  unfoldable pub after_intent :
      PipelineRequest R → State × StageOutcome V → State × PipelineResponse V
  unfolding decide after_decision result_of
  after_intent q (s, i) =
      let (s', d, decided, doubts) = decide q (result_of i) s in
      after_decision q i (d, decided, doubts) s'

  unfoldable pub run : PipelineRequest R → State → State × PipelineResponse V
  unfolding call_stage after_intent
  run q s = after_intent q (call_stage intent (intent_payload q) s)
