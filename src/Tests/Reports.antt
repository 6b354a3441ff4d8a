-- ===== src/Tests/Reports.antt =====
-- The report service with one backend, which keeps everything, and texts as contents.
use haojie.Common.{
  ℕ, ◌≡◌, ◌<◌, refl, Bool, true, false, Option, none, some, String, List, [], ◌∷◌, arith, Dict,
  lookup, insert, erase, is_some, lookup-insert_self,
}
use haojie.Breaker
use haojie.Breaker.Registry as Breakers
use haojie.Breaker.Registry.{AllValid}
use haojie.Breaker.Invariant.{fresh-IsValid}
use haojie.Cache
use haojie.Cache.{Redis, Cache, lru}
use haojie.Cache.Memory.{IsValid}
use haojie.Report.Storage.{StoredObject, init}
use haojie.Report.Storage.Refinement.{
  Call, puts, gets, deletes, exists_, run, ideal_run, run-ideal_run,
}
use haojie.Report.Engine.{
  markdown, technical, ReportRequest, ReportResponse, RenderOutput, rendered, StorageResult,
  located, ok, World, Engine, persist, render,
}
use haojie.Report.Engine.Fanout.{Fanned, persist-Fanned}
use haojie.Report.Service.{Service, StoredReport, generate, get_report, cached_answer, infer_format}
use haojie.Report.Service.Hits.{generate-repeated}
use haojie.Report.Service.Retrieval.{IsLawful, get_report-render}

abbrev calls : List (Call ℕ)
calls =
    puts "a" 1 "text/plain" "c1" [] 10
    ∷ gets "a"
    ∷ puts "b" 2 "text/html" "c2" [] 11
    ∷ exists_ "a"
    ∷ deletes "a"
    ∷ gets "a"
    ∷ []

run-ideal_run_example : run calls (init 2) ≡ ideal_run calls (λ id. none)
run-ideal_run_example = run-ideal_run 2 calls (omega arith)

abbrev object_of : String → RenderOutput String → Dict String → StoredObject String
object_of id output metadata = record {
  report_id = id;
  content = output.content;
  content_type = output.content_type;
  checksum = output.checksum;
  stored_at = 0;
  backend = "disk";
  metadata = metadata;
}

abbrev output : RenderOutput String
output = record {
  content = "# Report";
  content_type = "text/markdown; charset=utf-8";
  checksum = "c0";
  size_bytes = 8;
}

abbrev world : World Bool String
world = record {
  State = Dict (StoredObject String);
  now = λ s. 0;
  registered = λ f. true;
  render_as = λ f id r t sections. rendered output;
  available = λ name s. true;
  put = λ name id out metadata s. (insert id (object_of id out metadata) s, located id);
  exists = λ name id s. is_some (lookup id s);
  get = λ name id s. (s, lookup id s);
  delete = λ name id s. (erase id s, some (is_some (lookup id s)));
}

world-IsLawful : IsLawful world
world-IsLawful = record {
  read-put = λ name id out metadata s up put_ok. (
    object_of id out metadata,
    refl,
    rw (lookup-insert_self id (object_of id out metadata) s),
    lookup-insert_self id (object_of id out metadata) s,
    refl,
    refl,
    refl,
    refl,
    refl,
  );
}

abbrev engine : Engine world
engine = record {
  settings = record {
    default_format = markdown;
    default_audience = technical;
    default_language = "zh-CN";
    supported_languages = "zh-CN" ∷ "en" ∷ [];
  };
  storages = "disk" ∷ [];
  breakers = record { failure_threshold = 5; recovery_seconds = 30; breakers = [] };
  world = [];
}

engine_valid : AllValid engine.breakers
unfolding Breakers.breaker_of lookup
engine_valid = record {
  threshold_pos = omega arith;
  recovery_pos = omega arith;
  each = λ p. fresh-IsValid 5 30 (omega arith) (omega arith);
}

persist-Fanned_example :
    (e' : Engine world) × (rs : List StorageResult) × (persist world "r1" output
        ("disk" ∷ [])
        engine
      ≡ (e', ok rs))
    × Fanned world "r1" output ("disk" ∷ []) engine e' rs
persist-Fanned_example = persist-Fanned world "r1" output ("disk" ∷ []) engine engine_valid

-- A report in English that is not to be stored, and then the same again, to be stored.
abbrev request : ReportRequest Bool
request = record {
  request_id = some "r1";
  session_id = none;
  format = none;
  audience = some "customer";
  template_id = none;
  language = some "en";
  payload = true;
  store = false;
}

abbrev stored_request : ReportRequest Bool
stored_request = record request { store = true; request_id = some "r2" }

abbrev result_in : StorageResult
result_in = record { backend = "disk"; success = true; location = some "r2"; bytes_written = 8 }

abbrev response : ReportResponse String
response = record {
  report_id = "r1";
  request_id = some "r1";
  session_id = none;
  format = "markdown";
  audience = "customer";
  template_id = "customer_friendly";
  language = "en";
  output = output;
  sections = "subject" ∷ "decision" ∷ "rationale" ∷ "next_steps" ∷ "closing" ∷ [];
  storage_results = [];
  cached = false;
}

abbrev no_redis : Redis (ReportResponse String)
no_redis = record {
  Server = Unit;
  fetch = λ k s. (s, none);
  setex = λ k ttl raw s. (s, false);
  flushdb = λ s. (s, false);
  loads = λ raw. none;
  dumps = λ v. "";
}

abbrev size : ReportRequest Bool → ℕ
size r = 100

abbrev fingerprint : Option String → Option String → Option String → Option String → Bool → String
fingerprint f a t l p = "key"

abbrev Reports : Type 0
Reports = Service world no_redis size fingerprint

abbrev reports : Reports
reports = record {
  settings = record { cache_enabled = true; max_payload_bytes = 1000; max_batch_size = 4 };
  engine = engine;
  cache = record { mem = lru 10; ttl = 60; namespaced = λ k. k; client = none };
}

abbrev after_first : Reports
after_first = record reports {
  cache = record {
    mem = record { capacity = 10; store = ("key", response) ∷ [] };
    ttl = 60;
    namespaced = λ k. k;
    client = none;
  };
}

first_answer :
    generate world no_redis size fingerprint "x" request reports ≡ (after_first, ok response)
unfolding generate Cache.get Cache.set lru lookup insert erase
first_answer = refl

memory_bound : IsValid reports.cache.mem × (0 < reports.cache.mem.capacity)
unfolding lru
memory_bound = (record { bounded = omega arith; distinct = tt }, omega arith)

generate-repeated_example :
    let p = generate world no_redis size fingerprint "x" stored_request after_first in
    (p.1 ≡ ok (cached_answer world no_redis size fingerprint stored_request response))
    × (p.0.engine ≡ after_first.engine)
generate-repeated_example =
    generate-repeated world no_redis size fingerprint "x" "x" request stored_request response
      reports after_first refl memory_bound first_answer refl (refl, refl, refl, refl, refl)
      (omega arith)

abbrev stored_response : ReportResponse String
stored_response = record response {
  report_id = "r2";
  request_id = some "r2";
  storage_results = result_in ∷ [];
}

abbrev after_render : Reports
after_render = record reports { engine = (render world "x" stored_request engine).0 }

rendered_answer : render world "x" stored_request engine ≡ (after_render.engine, ok stored_response)
unfolding render persist Breakers.get Breakers.put Breaker.ensure_allowed Breaker.init lookup insert
rendered_answer = refl

get_report-render_example :
    (o : StoredReport String) × ((get_report world no_redis size fingerprint "r2" none
        after_render).1
      ≡ ok o)
    × (o.report_id ≡ "r2")
    × (o.content ≡ "# Report")
    × (o.content_type ≡ "text/markdown; charset=utf-8")
    × (o.checksum ≡ "c0")
    × (o.format ≡ infer_format "text/markdown; charset=utf-8")
    × (o.language ≡ "zh-CN")
get_report-render_example =
    get_report-render world no_redis size fingerprint "disk" "x" stored_request stored_response
      engine after_render world-IsLawful engine_valid refl rendered_answer refl
