-- ===== src/Report/Service.antt =====
-- The report service (report/service.py): the cache before the engine, batches, and the reports that
-- were stored.
--
-- The size of a request and the fingerprint of its content are parameters. Metrics, log lines and
-- error texts are left out.
pub mod Hits
pub mod Retrieval
use haojie.Common.{
  ℕ, Bool, true, false, ◌||◌, Option, none, some, String, List, [], ◌∷◌, not, if◌then◌else◌, str_eq,
  any, Dict, lookup, ltb, length, has_part, get_or,
}
use haojie.Cache
use haojie.Cache.{Redis, Cache}
use haojie.Report.Storage.{StoredObject}
use haojie.Report.Engine.{
  ReportRequest, ReportResponse, RenderOutput, EngineSettings, format_value, audience_value,
  or_else, Raised, validation, payload_too_large, report_not_found, storage_error, misconfigured,
  Reply, ok, raise, World, Engine, render,
}

pub record ServiceSettings : Type 0 where
  pub cache_enabled : Bool
  pub max_payload_bytes : ℕ
  pub max_batch_size : ℕ

pub record StoredReport (C : Type 0) : Type 0 where
  pub report_id : String
  pub format : String
  pub language : String
  pub content : C
  pub content_type : String
  pub checksum : String
  pub stored_at : ℕ
  pub backend : String

-- `x or y`, for two optional texts.
unfoldable pub truthy_or : Option String → Option String → Option String
truthy_or none y = y
truthy_or (some x) y = if str_eq x "" then y else some x

-- `_infer_format`
unfoldable pub infer_format : String → String
infer_format content_type =
    if has_part content_type "markdown"
    then "markdown"
    else if has_part content_type "html"
    then "html"
    else if has_part content_type "json"
    then "json"
    else "text"

module _ {P C : Type 0} (w : World P C) (redis : Redis (ReportResponse C))
    (payload_size : ReportRequest P → ℕ)
    (fingerprint : Option String → Option String → Option String → Option String → P → String) where
  -- `_storages_by_name` is a look among the names of the engine's backends.
  pub record Service : Type 0 where
    pub settings : ServiceSettings
    pub engine : Engine w
    pub cache : Cache redis

  -- `request.fingerprint()` when the cache is on
  unfoldable pub key_of : ReportRequest P → Service → Option String
  key_of r s =
      if s.settings.cache_enabled
      then some (fingerprint r.format r.audience r.template_id r.language r.payload)
      else none

  unfoldable pub cached_answer : ReportRequest P → ReportResponse C → ReportResponse C
  unfolding truthy_or
  cached_answer r x = record x {
    cached = true;
    request_id = truthy_or r.request_id x.request_id;
    session_id = truthy_or r.session_id x.session_id;
  }

  look : Option String → Service → Cache redis × Option (ReportResponse C)
  look none s = (s.cache, none)
  look (some key) s = Cache.get redis key s.cache

  memorise : Option String → ReportResponse C → Cache redis → Cache redis
  memorise none x c = c
  memorise (some key) x c = Cache.set redis key x c

  pub after_engine :
      Option String
      → Engine w × Reply (ReportResponse C)
      → Service
      → Service × Reply (ReportResponse C)
  unfolding memorise
  after_engine key (e, ok x) s = (record s { engine = e; cache = memorise key x s.cache }, ok x)
  after_engine key (e, raise x) s = (record s { engine = e }, raise x)

  pub after_look :
      String
      → ReportRequest P
      → Option String
      → Cache redis × Option (ReportResponse C)
      → Service
      → Service × Reply (ReportResponse C)
  unfolding cached_answer after_engine render
  after_look fresh r key (c, some x) s = (record s { cache = c }, ok (cached_answer r x))
  after_look fresh r key (c, none) s =
      after_engine key (render w fresh r s.engine) (record s { cache = c })

  -- `generate`
  unfoldable pub generate : String → ReportRequest P → Service → Service × Reply (ReportResponse C)
  unfolding key_of look after_look
  generate fresh r s =
      if ltb s.settings.max_payload_bytes (payload_size r)
      then (s, raise payload_too_large)
      else after_look fresh r (key_of r s) (look (key_of r s) s) s

  -- What a batch has in the place of a report that failed; its id, made of the clock, is an argument.
  unfoldable pub error_response : String → ReportRequest P → Service → C → ReportResponse C
  error_response id r s empty = record {
    report_id = id;
    request_id = r.request_id;
    session_id = r.session_id;
    format = or_else r.format (format_value s.engine.settings.default_format);
    audience = or_else r.audience (audience_value s.engine.settings.default_audience);
    template_id = or_else r.template_id "unknown";
    language = or_else r.language s.engine.settings.default_language;
    output = record { content = empty; content_type = "text/plain"; checksum = ""; size_bytes = 0 };
    sections = [];
    storage_results = [];
    cached = false;
  }

  -- An item of a batch; the `ValueError` of a breaker is no `ReportError`.
  settled :
      String
      → ReportRequest P
      → C
      → Service × Reply (ReportResponse C)
      → Service × Reply (ReportResponse C)
  unfolding error_response
  settled id r empty (s, ok x) = (s, ok x)
  settled id r empty (s, raise misconfigured) = (s, raise misconfigured)
  settled id r empty (s, raise _) = (s, ok (error_response id r s empty))

  then_item :
      Service × Reply (ReportResponse C)
      → Service × Reply (List (ReportResponse C))
      → Service × Reply (List (ReportResponse C))
  then_item (s, raise x) rest = (s, raise x)
  then_item (s, ok x) (s', ok xs) = (s', ok (x ∷ xs))
  then_item (s, ok x) (s', raise e) = (s', raise e)

  unfoldable pub each_item :
      List (String × String × ReportRequest P)
      → C
      → Service
      → Service × Reply (List (ReportResponse C))
  unfolding generate settled then_item
  each_item [] empty s = (s, ok [])
  each_item ((fresh, id, r) ∷ items) empty s =
      let one = settled id r empty (generate fresh r s) in
      then_item one (each_item items empty one.0)

  -- `generate_batch`; each item comes with the ids that it gets: if it has none, and if it fails.
  unfoldable pub generate_batch :
      List (String × String × ReportRequest P)
      → C
      → Service
      → Service × Reply (List (ReportResponse C))
  unfolding each_item
  generate_batch items empty s =
      if ltb s.settings.max_batch_size (length items)
      then (s, raise validation)
      else each_item items empty s

  with_world : w.State → Service → Service
  with_world at s = record s { engine = record s.engine { world = at } }

  unfoldable pub stored_report : StoredObject C → Service → StoredReport C
  unfolding infer_format
  stored_report o s = record {
    report_id = o.report_id;
    format = infer_format o.content_type;
    language = get_or (lookup "language" o.metadata) s.engine.settings.default_language;
    content = o.content;
    content_type = o.content_type;
    checksum = o.checksum;
    stored_at = o.stored_at;
    backend = o.backend;
  }

  unfoldable pub after_get :
      Service → w.State × Option (StoredObject C) → Service × Reply (StoredReport C)
  unfolding with_world stored_report
  after_get s (at, none) = (with_world at s, raise storage_error)
  after_get s (at, some o) = (with_world at s, ok (stored_report o s))

  -- The backends in their order.
  unfoldable pub search_in : List String → String → Service → Service × Reply (StoredReport C)
  unfolding after_get
  search_in [] id s = (s, raise report_not_found)
  search_in (name ∷ names) id s =
      let rest = search_in names id s in
      let here = after_get s (w.get name id s.engine.world) in
      if w.available name s.engine.world
      then (if w.exists name id s.engine.world then here else rest)
      else rest

  -- `get_report`
  unfoldable pub get_report : String → Option String → Service → Service × Reply (StoredReport C)
  unfolding search_in
  get_report id backend s = elim backend [
    | none ↦ search_in s.engine.storages id s
    | some name ↦
        if str_eq name ""
        then search_in s.engine.storages id s
        else if any (λ x. str_eq x name) s.engine.storages
        then search_in (name ∷ []) id s
        else (s, raise validation)
  ]

  -- `delete_report`: an error counts as nothing deleted.
  unfoldable pub delete_report : String → List String → w.State → w.State × List (String × Bool)
  delete_report id [] at = (at, [])
  delete_report id (name ∷ names) at =
      let (at', removed) = if w.available name at then w.delete name id at else (at, some false) in
      let (at'', rest) = delete_report id names at' in (at'', (name, get_or removed false) ∷ rest)
