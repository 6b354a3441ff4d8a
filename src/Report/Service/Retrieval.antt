-- ===== src/Report/Service/Retrieval.antt =====
-- A report that was stored is read again (report/engine.py, `render`; report/service.py,
-- `get_report`).
use mathlib.Core.Path.{subst}
use haojie.Common.{
  ℕ, ◌≡◌, refl, sym, ap, ◌∙◌, true, false, ◌&&◌, not, Option, none, some, String, List, [], ◌∷◌,
  Dict, lookup, any, arith, if_both, Bool-cases, inl, inr,
}
use haojie.Breaker.Registry.{AllValid}
use haojie.Cache.{Redis}
use haojie.Report.Storage.{StoredObject}
use haojie.Report.Engine.{
  ReportRequest, ReportResponse, RenderOutput, EngineSettings, Rendered, rendered, report_error,
  other_error, Targets, StorageResult, Reply, ok, raise, unknown_format, World, Engine, persist,
  kept, after_render, respond, render, rendering, after_kept, resolve_targets,
  sections_for_template, or_else,
}
use haojie.Report.Engine.Fanout.{is_located, reached, written, Stored, persist-Fanned}
use haojie.Report.Service.{
  Service, infer_format, StoredReport, get_report, stored_report, after_get, search_in,
}

module _ {P C : Type 0} (w : World P C) where
  -- What a backend has stored it can read.
  pub record IsLawful : Type 0 where
    pub read-put :
        (name id : String) (output : RenderOutput C) (metadata : Dict String) (s : w.State)
        → w.available name s ≡ true
        → is_located (w.put name id output metadata s).1 ≡ true
        → let s' = (w.put name id output metadata s).0 in
          (o : StoredObject C) × (w.available name s' ≡ true)
          × (w.exists name id s' ≡ true)
          × ((w.get name id s').1 ≡ some o)
          × (o.report_id ≡ id)
          × (o.content ≡ output.content)
          × (o.content_type ≡ output.content_type)
          × (o.checksum ≡ output.checksum)
          × (o.metadata ≡ metadata)

  -- A response whose report was stored comes of a storage in all backends.
  abbrev Persisted : Engine w → Engine w × Reply (ReportResponse C) → Type 0
  Persisted e p =
      (x : ReportResponse C)
      → p.1 ≡ ok x
      → any (λ r. r.success) x.storage_results ≡ true
      → persist w x.report_id x.output e.storages e ≡ (p.0, ok x.storage_results)

  after_kept-Persisted :
      (r : ReportRequest P) (t : Targets) (id : String) (output : RenderOutput C) (e : Engine w)
      (p : Engine w × Reply (List StorageResult))
      → persist w id output e.storages e ≡ p
      → Persisted e (after_kept w r t id output p)
  unfolding after_kept respond
  after_kept-Persisted r t id output e (e', ok rs) q = λ x h stored.
      let same : respond w r t id output (sections_for_template t.template.template_id) rs ≡ x =
        cc h in
      subst
        (λ (z : ReportResponse C).
          persist w z.report_id z.output e.storages e ≡ (e', ok z.storage_results))
        same q
  after_kept-Persisted r t id output e (e', raise z) q = λ x h stored. absurd (ground (arith, h))

  after_kept-unstored :
      (r : ReportRequest P) (t : Targets) (id : String) (output : RenderOutput C) (e : Engine w)
      → Persisted e (after_kept w r t id output (e, ok []))
  unfolding after_kept respond
  after_kept-unstored r t id output e = λ x h stored.
      let same : respond w r t id output (sections_for_template t.template.template_id) [] ≡ x =
        cc h in
      let never : false ≡ true =
        ap (λ (z : ReportResponse C). any (λ a. a.success) z.storage_results) same ∙ stored in
      absurd (cc never)

  after_render-Persisted :
      (r : ReportRequest P) (t : Targets) (id : String) (d : Rendered C) (e : Engine w)
      → Persisted e (after_render w r t id d e)
  unfolding after_render kept
  after_render-Persisted r t id report_error e = λ x h stored. absurd (ground (arith, h))
  after_render-Persisted r t id other_error e = λ x h stored. absurd (ground (arith, h))
  after_render-Persisted r t id (rendered output) e = elim (Bool-cases r.store) [
    | inl wanted ↦
        rw wanted (after_kept-Persisted r t id output e (persist w id output e.storages e) refl)
    | inr unwanted ↦ rw unwanted (after_kept-unstored r t id output e)
  ]

  rendering-Persisted :
      (fresh : String) (r : ReportRequest P) (t : Reply Targets) (e : Engine w)
      → Persisted e (rendering w fresh r t e)
  unfolding rendering
  rendering-Persisted fresh r (raise z) e = λ x h stored. absurd (ground (arith, h))
  rendering-Persisted fresh r (ok t) e =
      let id = or_else r.request_id fresh in
      let d = w.render_as t.format id r t (sections_for_template t.template.template_id) in
      if_both (λ p. Persisted e p) (not (w.registered t.format)) (e, raise unknown_format)
        (after_render w r t id d e) (λ x h stored. absurd (ground (arith, h)))
        (after_render-Persisted r t id d e)

  render-Persisted :
      (fresh : String) (r : ReportRequest P) (e : Engine w) → Persisted e (render w fresh r e)
  unfolding render
  render-Persisted fresh r e = rendering-Persisted fresh r (resolve_targets e.settings r) e

  -- The one backend of an engine has what the engine says it has stored.
  abbrev Has : String → String → RenderOutput C → Engine w → Type 0
  Has name id output e =
      (o : StoredObject C) × (w.available name e.world ≡ true)
      × (w.exists name id e.world ≡ true)
      × ((w.get name id e.world).1 ≡ some o)
      × (o.report_id ≡ id)
      × (o.content ≡ output.content)
      × (o.content_type ≡ output.content_type)
      × (o.checksum ≡ output.checksum)
      × (o.metadata ≡ [])

  Stored-Has :
      (name id : String) (output : RenderOutput C) (e e' : Engine w) (r : StorageResult)
      → IsLawful
      → Stored w id output name e e' r
      → r.success ≡ true
      → Has name id output e'
  Stored-Has name id output e e' r law s good =
      let both : (reached w name e && is_located (written w id output name e).1) ≡ true =
        sym s.success ∙ good in
      let there : reached w name e ≡ true = ground (arith, both) in
      let up : w.available name e.world ≡ true = ground (arith, there) in
      let put_ok : is_located (written w id output name e).1 ≡ true = ground (arith, both) in
      let at : e'.world ≡ (written w id output name e).0 = s.world ∙ rw there in
      rw at (law.read-put name id output [] e.world up put_ok)

  render-Has :
      (name fresh : String) (r : ReportRequest P) (x : ReportResponse C) (e e' : Engine w)
      → IsLawful
      → AllValid e.breakers
      → e.storages ≡ name ∷ []
      → render w fresh r e ≡ (e', ok x)
      → any (λ a. a.success) x.storage_results ≡ true
      → Has name x.report_id x.output e' × (e'.storages ≡ name ∷ []) × (e'.settings ≡ e.settings)
  render-Has name fresh r x e e' law v one answered stored =
      let (e2, rs, q, (e1, a, rest, rs_is, s, (e2_is, rest_is))) =
        persist-Fanned w x.report_id x.output (name ∷ []) e v in
      let p : persist w x.report_id x.output e.storages e ≡ (e', ok x.storage_results) =
        render-Persisted fresh r e x (ap (λ z. z.1) answered) stored
        ∙ ap (λ z. (z.0, ok x.storage_results)) answered in
      let both : (e', ok x.storage_results) ≡ (e2, ok rs) =
        sym p ∙ ap (λ names. persist w x.report_id x.output names e) one ∙ q in
      let here : e1 ≡ e' = sym e2_is ∙ sym (ap (λ z. z.0) both) in
      let same_results : ok x.storage_results ≡ ok rs = ap (λ z. z.1) both in
      let all : x.storage_results ≡ a ∷ [] = cc same_results ∙ rs_is ∙ ap (λ l. a ∷ l) rest_is in
      let either : any (λ (z : StorageResult). z.success) (a ∷ []) ≡ true =
        ap (any (λ (z : StorageResult). z.success)) (sym all) ∙ stored in
      let good : a.success ≡ true = ground (arith, either) in
      (
        subst (λ z. Has name x.report_id x.output z) here
            (Stored-Has name x.report_id x.output e e1 a law s good),
        sym (ap (λ (z : Engine w). z.storages) here) ∙ s.backends ∙ one,
        sym (ap (λ (z : Engine w). z.settings) here) ∙ s.config,
      )

  module _ (redis : Redis (ReportResponse C)) (payload_size : ReportRequest P → ℕ)
      (fingerprint : Option String
        → Option String
        → Option String
        → Option String
        → P
        → String) where
    abbrev Svc : Type 0
    Svc = Service w redis payload_size fingerprint

    search_in-Has :
        (name id : String) (output : RenderOutput C) (s : Svc)
        → Has name id output s.engine
        → s.engine.storages ≡ name ∷ []
        → (o : StoredReport C) × ((get_report w redis payload_size fingerprint id none s).1 ≡ ok o)
          × (o.report_id ≡ id)
          × (o.content ≡ output.content)
          × (o.content_type ≡ output.content_type)
          × (o.checksum ≡ output.checksum)
          × (o.format ≡ infer_format output.content_type)
          × (o.language ≡ s.engine.settings.default_language)
    unfolding get_report search_in after_get stored_report lookup
    search_in-Has name id output s
          (o, up, there, got, same_id, content, content_type, checksum, bare) one =
        (
          stored_report w redis payload_size fingerprint o s,
          rw (one, up, there, got),
          same_id,
          content,
          content_type,
          checksum,
          ap infer_format content_type,
          rw bare,
        )

    -- With one lawful backend and valid breakers: a report that the engine says it has stored is
    -- what `get_report` answers for its id, with the content, type and checksum of the rendering
    -- and the format that its type names; its language is the default one, whatever the request
    -- asked for.
    pub get_report-render :
        (name fresh : String) (r : ReportRequest P) (x : ReportResponse C) (e : Engine w) (s : Svc)
        → IsLawful
        → AllValid e.breakers
        → e.storages ≡ name ∷ []
        → render w fresh r e ≡ (s.engine, ok x)
        → any (λ a. a.success) x.storage_results ≡ true
        → (o : StoredReport C) × ((get_report w redis payload_size fingerprint x.report_id none s).1
            ≡ ok o)
          × (o.report_id ≡ x.report_id)
          × (o.content ≡ x.output.content)
          × (o.content_type ≡ x.output.content_type)
          × (o.checksum ≡ x.output.checksum)
          × (o.format ≡ infer_format x.output.content_type)
          × (o.language ≡ e.settings.default_language)
    get_report-render name fresh r x e s law v one answered stored =
        let (has, one', config) = render-Has name fresh r x e s.engine law v one answered stored in
        let (o, read, same_id, content, content_type, checksum, format, language) =
          search_in-Has name x.report_id x.output s has one' in
        (
          o,
          read,
          same_id,
          content,
          content_type,
          checksum,
          format,
          language ∙ ap (λ (z : EngineSettings). z.default_language) config,
        )
