-- ===== src/Llm/Router/Targets.antt =====
-- Which models the router tries (llm/router.py, `_resolve_targets`), and the checks before.
use mathlib.Core.List.{append_assoc, append-nil}
use haojie.Common.{
  ◌≡◌, refl, sym, ◌∙◌, true, false, ◌||◌, none, String, List, [], ◌∷◌, ◌++◌, arith, str_eq_iff,
  str_eq_refl, map, Bool-cases, Option-cases, inl, inr,
}
use haojie.Llm.Catalog.{ModelInfo, get_model}
use haojie.Llm.Catalog.Laws.{get_model-id}
use haojie.Llm.Router.{Reply, ok, raise, unknown_model}
use haojie.Llm.Router.Selection.{elem, pad, resolve_models}

-- No id stands twice.
abbrev pub Distinct : List String → Type 0
Distinct [] = Unit
Distinct (x ∷ xs) = (elem x xs ≡ false) × Distinct xs

elem-append : (x : String) (xs ys : List String) → elem x (xs ++ ys) ≡ (elem x xs || elem x ys)
elem-append x [] ys = refl
elem-append x (y ∷ xs) ys = ground (arith, elem-append x xs ys)

Distinct-append_one :
    (x : String) (xs : List String) → Distinct xs → elem x xs ≡ false → Distinct (xs ++ x ∷ [])
Distinct-append_one x [] d h = ground arith
Distinct-append_one x (y ∷ xs) d h =
    ground (
      arith,
      elem-append y xs (x ∷ []),
      str_eq_iff x y,
      str_eq_iff y x,
      Distinct-append_one x xs d.1,
    )

-- Padding a list without repetitions with a chain keeps the list in front, adds just the ids of
-- the chain that are missing, and puts no id twice.
pub pad_lem :
    (x : String) (ids chain : List String)
    → Distinct ids
    → (added : List String) × (pad ids chain ≡ ids ++ added)
      × (elem x (pad ids chain) ≡ (elem x ids || elem x chain))
      × Distinct (pad ids chain)
unfolding pad
pad_lem x ids [] d = ([], sym (append-nil ids), ground arith, d)
pad_lem x ids (c ∷ chain) d = elim (Bool-cases (elem c ids)) [
  | inl old ↦
      let (added, e, mem, u) = pad_lem x ids chain d in
      rw old (added, e, ground (arith, mem, str_eq_iff c x), u)
  | inr new ↦
      let (added, e, mem, u) = pad_lem x (ids ++ c ∷ []) chain (Distinct-append_one c ids d new) in
      rw new (
        c ∷ added,
        e ∙ append_assoc ids (c ∷ []) added,
        ground (arith, mem, elem-append x ids (c ∷ [])),
        u,
      )
]

-- The ids of a list of models.
abbrev pub model_ids : List ModelInfo → List String
model_ids = map (λ m. m.model_id)

-- What the reply of the resolution says of the ids.
pub Resolved : List String → Reply (List ModelInfo) → Type 0
Resolved ids (ok ms) = model_ids ms ≡ ids
Resolved ids (raise e) =
    (id : String) × (e ≡ unknown_model id) × (elem id ids ≡ true) × (get_model id ≡ none)

Resolved-cons :
    (id : String) (ids : List String) (m : ModelInfo) (p : Reply (List ModelInfo))
    → m.model_id ≡ id
    → Resolved ids p
    → Resolved (id ∷ ids) (elim p [ ok ms ↦ ok (m ∷ ms) | raise e ↦ raise e ])
unfolding Resolved
Resolved-cons id ids m (ok ms) e h = ground arith
Resolved-cons id ids m (raise x) e (i, named, mem, absent) = (i, named, ground arith, absent)

-- Either every target is the catalog's model of its id, in the order of the ids, or the error
-- names one of the ids that the catalog does not have.
pub resolve_models-Resolved : (ids : List String) → Resolved ids (resolve_models ids)
unfolding Resolved resolve_models
resolve_models-Resolved [] = refl
resolve_models-Resolved (id ∷ ids) = elim (Option-cases (get_model id)) [
  | inl absent ↦ rw (absent, resolve_models) (id, refl, ground (arith, str_eq_refl id), absent)
  | inr (m, found) ↦
      rw (found, resolve_models)
        (Resolved-cons id ids m (resolve_models ids) (get_model-id id m found)
          (resolve_models-Resolved ids))
]
