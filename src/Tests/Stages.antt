-- ===== src/Tests/Stages.antt =====
-- Runs of the hub: a client whose first two posts time out, and a pipeline in which the decision
-- fails.
use haojie.Common.{
  ℕ, ◌+◌, ◌≡◌, refl, true, false, none, some, [], ◌∷◌, List, String, ◌==◌, if◌then◌else◌, arith,
  map,
}
use haojie.Breaker.{allow, record_success, record_failure}
use haojie.Breaker.Invariant.{fresh, fresh-IsValid}
use haojie.Hub.Client.{
  Client, http, embedded, Posted, responded, timeout_exception, Sent, returned, StageCallResult,
  failed_code, call, send_http, verdict,
}
use haojie.Hub.Client.Retries.{Called, call-Called}
use haojie.Hub.Pipeline.{
  PipelineRequest, Clients, Stage, intent, decision, llm, report, partial, stage_failed, run,
}
use haojie.Hub.Pipeline.Stages.{Calls, payloads, stage_of, run-Calls}

abbrev client : Client
client = record {
  mode = http;
  max_retries = 2;
  retry_backoff = 200;
  breaker = fresh 5 30;
  posts = 0;
  slept = 0;
}

abbrev reply : ℕ → Posted ℕ
reply k = if k == 2 then responded 200 (some 7) else timeout_exception

abbrev clock : ℕ → ℕ
clock k = k + 1

abbrev in_process : ℕ → Sent ℕ
in_process k = returned k

called_test : call reply clock in_process 0 client ≡ (
  record client { posts = 3; slept = 600 },
  record { success = true; mode = http; result = some 7; error_code = none },
)
unfolding call allow send_http verdict record_success record_failure
called_test = refl

call-Called_example : Called reply clock in_process 0 client (call reply clock in_process 0 client)
call-Called_example =
    call-Called reply clock in_process 0 client (fresh-IsValid 5 30 (omega arith) (omega arith))
      refl

abbrev only_decision_fails : Stage → StageCallResult (List (String × ℕ))
only_decision_fails decision = record {
  success = false;
  mode = embedded;
  result = none;
  error_code = some failed_code;
}
only_decision_fails _ = record {
  success = true;
  mode = embedded;
  result = some (("confidence", 1) ∷ []);
  error_code = none;
}

abbrev clients : Clients ℕ ℕ
clients = record { State = ℕ; call = λ stage payload s. (s + 1, only_decision_fails stage) }

abbrev request : PipelineRequest ℕ
request = record { include_llm = true; include_report = true; rest = 0 }

run_test :
    ((run clients request 0).0 ≡ 4)
    × ((run clients request 0).1.overall_status ≡ partial)
    × ((run clients request 0).1.warnings ≡ stage_failed decision ∷ [])
    × ((run clients request 0).1.stage_sequence ≡ intent ∷ decision ∷ llm ∷ report ∷ [])
unfolding run
run_test = (refl, refl, refl, refl)

run-Calls_example :
    Calls clients 0 (payloads request (run clients request 0).1) (run clients request 0).0
    × ((run clients request 0).1.stage_sequence
        ≡ map stage_of (payloads request (run clients request 0).1))
run-Calls_example = run-Calls clients request 0
