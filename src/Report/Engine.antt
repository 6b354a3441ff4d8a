-- ===== src/Report/Engine.antt =====
-- The report engine (report/engine.py): the choice of format, audience, template and language
-- (report/catalog.py), the rendering, and the storage in every backend behind its breaker.
--
-- The renderers are a parameter, as are the backends and the clock, with a state that is threaded
-- through; Storage has one of the backends. Contents are of a type `C`, and their coding to bytes is
-- left out. The breakers are those of llm/circuit_breaker.py under another name. Metrics, latencies
-- and error texts are left out.
pub mod Fanout
use haojie.Common.{
  ℕ, Bool, true, false, Option, none, some, String, List, [], ◌∷◌, not, if◌then◌else◌, str_eq, any,
  Dict, lookup,
}
use haojie.Breaker
use haojie.Breaker.{Breaker, circuit_open_error}
use haojie.Breaker.Registry as Breakers
use haojie.Report.Storage.{StoredObject}

pub data ReportFormat : Type 0 where
  markdown html json plain : ReportFormat

pub data ReportAudience : Type 0 where
  executive technical customer : ReportAudience

abbrev pub format_value : ReportFormat → String
format_value markdown = "markdown"
format_value html = "html"
format_value json = "json"
format_value plain = "text"

abbrev pub audience_value : ReportAudience → String
audience_value executive = "executive"
audience_value technical = "technical"
audience_value customer = "customer"

-- `ReportFormat(value)`
unfoldable pub format_of : String → Option ReportFormat
format_of v =
    if str_eq v "markdown"
    then some markdown
    else if str_eq v "html"
    then some html
    else if str_eq v "json"
    then some json
    else if str_eq v "text"
    then some plain
    else none

-- `ReportAudience(value)`
unfoldable pub audience_of : String → Option ReportAudience
audience_of v =
    if str_eq v "executive"
    then some executive
    else if str_eq v "technical"
    then some technical
    else if str_eq v "customer"
    then some customer
    else none

-- `TemplateMetadata`, without its description; both languages are supported everywhere.
pub record TemplateMetadata : Type 0 where
  pub template_id : String
  pub audience : ReportAudience

unfoldable pub template_registry : Dict TemplateMetadata
template_registry =
    ("executive_summary", record { template_id = "executive_summary"; audience = executive })
    ∷ ("technical_detail", record { template_id = "technical_detail"; audience = technical })
    ∷ ("customer_friendly", record { template_id = "customer_friendly"; audience = customer })
    ∷ []

unfoldable pub default_template_for : ReportAudience → String
default_template_for executive = "executive_summary"
default_template_for technical = "technical_detail"
default_template_for customer = "customer_friendly"

-- `x or y`, for an optional text.
abbrev pub or_else : Option String → String → String
or_else none y = y
or_else (some x) y = if str_eq x "" then y else x

-- The `KeyError` is `none`.
unfoldable pub resolve_template : Option String → ReportAudience → Option TemplateMetadata
unfolding template_registry default_template_for lookup
resolve_template template_id audience =
    lookup (or_else template_id (default_template_for audience)) template_registry

unfoldable pub sections_for_template : String → List String
sections_for_template id =
    if str_eq id "executive_summary"
    then "subject" ∷ "decision" ∷ "rationale" ∷ "next_steps" ∷ []
    else if str_eq id "technical_detail"
    then "subject" ∷ "intent" ∷ "decision" ∷ "rationale" ∷ "trace" ∷ "llm" ∷ "next_steps" ∷ []
    else if str_eq id "customer_friendly"
    then "subject" ∷ "decision" ∷ "rationale" ∷ "next_steps" ∷ "closing" ∷ []
    else "subject" ∷ "decision" ∷ "rationale" ∷ "next_steps" ∷ []

-- `ReportRequest`: `P` is what is to be rendered (buyer, product, intent, decision, llm and the
-- choice of a trace).
pub record ReportRequest (P : Type 0) : Type 0 where
  pub request_id : Option String
  pub session_id : Option String
  pub format : Option String
  pub audience : Option String
  pub template_id : Option String
  pub language : Option String
  pub payload : P
  pub store : Bool

pub record EngineSettings : Type 0 where
  pub default_format : ReportFormat
  pub default_audience : ReportAudience
  pub default_language : String
  pub supported_languages : List String

pub record RenderOutput (C : Type 0) : Type 0 where
  pub content : C
  pub content_type : String
  pub checksum : String
  pub size_bytes : ℕ

pub record StorageResult : Type 0 where
  pub backend : String
  pub success : Bool
  pub location : Option String
  pub bytes_written : ℕ

pub record ReportResponse (C : Type 0) : Type 0 where
  pub report_id : String
  pub request_id : Option String
  pub session_id : Option String
  pub format : String
  pub audience : String
  pub template_id : String
  pub language : String
  pub output : RenderOutput C
  pub sections : List String
  pub storage_results : List StorageResult
  pub cached : Bool

-- What the engine and the service raise; `misconfigured` is the `ValueError` of a breaker's
-- constructor.
pub data Raised : Type 0 where
  unknown_format unknown_audience unknown_template template_error render_failed : Raised
  validation payload_too_large report_not_found storage_error misconfigured : Raised

pub data Reply {ℓ} (A : Type ℓ) : Type ℓ where
  ok : A → Reply A
  raise : Raised → Reply A

-- How a renderer ends: with its output, an error of the program, or any other.
pub data Rendered (C : Type 0) : Type 0 where
  rendered : RenderOutput C → Rendered C
  report_error other_error : Rendered C

-- How the `put` of a backend ends; a failure is an exception.
pub data PutResult : Type 0 where
  located : String → PutResult
  put_failed : PutResult

pub record Targets : Type 0 where
  pub format : ReportFormat
  pub audience : ReportAudience
  pub template : TemplateMetadata
  pub language : String

unfoldable pub resolve_language : EngineSettings → Option String → String
resolve_language s requested =
    let language = or_else requested s.default_language in
    if any (λ x. str_eq x language) s.supported_languages then language else s.default_language

-- `_resolve_targets`
unfoldable pub resolve_targets : {P : Type 0} → EngineSettings → ReportRequest P → Reply Targets
unfolding resolve_template format_of audience_of resolve_language
resolve_targets s r = elim (format_of (or_else r.format (format_value s.default_format))) [
  | none ↦ raise unknown_format
  | some f ↦ elim (audience_of (or_else r.audience (audience_value s.default_audience))) [
    | none ↦ raise unknown_audience
    | some a ↦ elim (resolve_template (some (or_else r.template_id (default_template_for a))) a) [
      | none ↦ raise unknown_template
      | some t ↦ ok (record {
        format = f;
        audience = a;
        template = t;
        language = resolve_language s r.language;
      })
    ]
  ]
]

-- The outside: the renderers that are registered, the backends by name, and the clock. A `get` or a
-- `delete` that raises answers `none`.
pub record World (P C : Type 0) : Type 1 where
  pub State : Type 0
  pub now : State → ℕ
  pub registered : ReportFormat → Bool
  pub render_as : ReportFormat → String → ReportRequest P → Targets → List String → Rendered C
  pub available : String → State → Bool
  pub put : String → String → RenderOutput C → Dict String → State → State × PutResult
  pub exists : String → String → State → Bool
  pub get : String → String → State → State × Option (StoredObject C)
  pub delete : String → String → State → State × Option Bool

module _ {P C : Type 0} (w : World P C) where
  open w use {State, now, registered, render_as, available, put}

  pub record Engine : Type 0 where
    pub settings : EngineSettings
    pub storages : List String
    pub breakers : Breakers.Registry
    pub world : State

  pub failed_result : String → StorageResult
  failed_result name = record {
    backend = name;
    success = false;
    location = none;
    bytes_written = 0;
  }

  -- After the breaker's word, an error is a failure to it; the object of `get` is in the registry.
  pub refused : String → Breaker → Engine → Engine × StorageResult
  unfolding failed_result
  refused name b e = (
    record e { breakers = Breakers.put name (Breaker.record_failure (now e.world) b) e.breakers },
    failed_result name,
  )

  -- After the `put`.
  pub noted :
      String → Breaker → RenderOutput C → Engine → State × PutResult → Engine × StorageResult
  unfolding refused
  noted name b output e (s, located location) = (
    record e { world = s; breakers = Breakers.put name (Breaker.record_success b) e.breakers },
    record {
      backend = name;
      success = true;
      location = some location;
      bytes_written = output.size_bytes;
    },
  )
  noted name b output e (s, put_failed) = refused name b (record e { world = s })

  -- A failed assertion of the breaker is caught like any other exception.
  pub after_ensure :
      String
      → String
      → RenderOutput C
      → Engine
      → Breaker × Breaker.Result (Unit {0})
      → Engine × StorageResult
  unfolding refused noted failed_result
  after_ensure id name output e (b, Breaker.ok _) =
      let e' : Engine = record e { breakers = Breakers.put name b e.breakers } in
      let written = noted name b output e' (put name id output [] e.world) in
      if not (available name e.world) then refused name b e' else written
  after_ensure id name output e (b, Breaker.raise circuit_open_error) =
      (record e { breakers = Breakers.put name b e.breakers }, failed_result name)
  after_ensure id name output e (b, Breaker.raise _) = refused name b e

  -- One round of `_persist`.
  pub store_in : String → String → RenderOutput C → Engine → Engine × Reply StorageResult
  unfolding after_ensure
  store_in id name output e = elim (Breakers.get name e.breakers) [
    | Breaker.raise _ ↦ (e, raise misconfigured)
    | Breaker.ok (breakers, b) ↦
        let (e', r) =
          after_ensure id name output (record e { breakers = breakers })
            (Breaker.ensure_allowed (now e.world) b) in
        (e', ok r)
  ]

  then_rest :
      StorageResult → Engine × Reply (List StorageResult) → Engine × Reply (List StorageResult)
  then_rest r (e, ok rs) = (e, ok (r ∷ rs))
  then_rest r (e, raise x) = (e, raise x)

  after_round :
      Engine × Reply StorageResult
      → Engine × Reply (List StorageResult)
      → Engine × Reply (List StorageResult)
  unfolding then_rest
  after_round (e, ok r) rest = then_rest r rest
  after_round (e, raise x) rest = (e, raise x)

  -- `_persist`
  unfoldable pub persist :
      String → RenderOutput C → List String → Engine → Engine × Reply (List StorageResult)
  unfolding store_in after_round
  persist id output [] e = (e, ok [])
  persist id output (name ∷ names) e =
      let stored = store_in id name output e in
      let rest = persist id output names stored.0 in after_round stored rest

  unfoldable pub respond :
      ReportRequest P
      → Targets
      → String
      → RenderOutput C
      → List String
      → List StorageResult
      → ReportResponse C
  respond r t id output sections results = record {
    report_id = id;
    request_id = r.request_id;
    session_id = r.session_id;
    format = format_value t.format;
    audience = audience_value t.audience;
    template_id = t.template.template_id;
    language = t.language;
    output = output;
    sections = sections;
    storage_results = results;
    cached = false;
  }

  unfoldable pub kept :
      ReportRequest P → String → RenderOutput C → Engine → Engine × Reply (List StorageResult)
  unfolding persist
  kept r id output e = if r.store then persist id output e.storages e else (e, ok [])

  unfoldable pub after_kept :
      ReportRequest P
      → Targets
      → String
      → RenderOutput C
      → Engine × Reply (List StorageResult)
      → Engine × Reply (ReportResponse C)
  unfolding respond sections_for_template
  after_kept r t id output (e, ok rs) =
      (e, ok (respond r t id output (sections_for_template t.template.template_id) rs))
  after_kept r t id output (e, raise x) = (e, raise x)

  unfoldable pub after_render :
      ReportRequest P → Targets → String → Rendered C → Engine → Engine × Reply (ReportResponse C)
  unfolding after_kept kept
  after_render r t id report_error e = (e, raise template_error)
  after_render r t id other_error e = (e, raise render_failed)
  after_render r t id (rendered output) e = after_kept r t id output (kept r id output e)

  unfoldable pub rendering :
      String → ReportRequest P → Reply Targets → Engine → Engine × Reply (ReportResponse C)
  unfolding after_render sections_for_template
  rendering fresh r (raise x) e = (e, raise x)
  rendering fresh r (ok t) e =
      let id = or_else r.request_id fresh in
      if not (registered t.format)
      then (e, raise unknown_format)
      else after_render r t id
          (render_as t.format id r t (sections_for_template t.template.template_id)) e

  -- `render`; the id of a report without one is an argument.
  unfoldable pub render : String → ReportRequest P → Engine → Engine × Reply (ReportResponse C)
  unfolding rendering resolve_targets
  render fresh r e = rendering fresh r (resolve_targets e.settings r) e

  -- `available_backends`
  unfoldable pub available_backends : List String → State → List String
  available_backends [] s = []
  available_backends (name ∷ names) s =
      let rest = available_backends names s in if available name s then name ∷ rest else rest
