-- ===== src/Intent/Rules.antt =====
-- The classifier by keywords (intent/rules.py).
--
-- `str.lower` and the score of a number of matching terms, which is made by `math.exp`, are parameters;
-- scores are in ten-thousandths. An audience is in lower case.
use haojie.Common.{
  ℕ, Bool, String, List, [], ◌∷◌, ◌++◌, take, if◌then◌else◌, str_eq, any, starts_with, has_part,
  Dict, lookup, insert, get_or, map, length,
}
use haojie.Decision.Rules.{ordered}
use haojie.Intent.Taxonomy.{
  IntentDefinition, intent_registry, fallback_intent, intents_for_audience,
}

-- `index.setdefault(key, []).append(x)`
unfoldable pub append_to : String → String → Dict (List String) → Dict (List String)
append_to key x d = insert key (get_or (lookup key d) [] ++ x ∷ []) d

unfoldable pub add_hits : String → List String → Dict (List String) → Dict (List String)
unfolding append_to
add_hits term [] hits = hits
add_hits term (id ∷ ids) hits = add_hits term ids (append_to id term hits)

-- The terms of the index that the text has, by intent.
unfoldable pub hits_in : String → Dict (List String) → Dict (List String) → Dict (List String)
unfolding add_hits
hits_in text [] hits = hits
hits_in text (e ∷ index) hits =
    hits_in text index (if has_part text e.0 then add_hits e.0 e.1 hits else hits)

module _ (lower : String → String) (score : Bool → ℕ → ℕ) where
  unfoldable pub index_terms : String → List String → Dict (List String) → Dict (List String)
  unfolding append_to
  index_terms id [] index = index
  index_terms id (t ∷ ts) index =
      index_terms id ts (if str_eq (lower t) "" then index else append_to (lower t) id index)

  -- `_build_index`, for the keywords of a language.
  unfoldable pub build_index :
      (IntentDefinition → List String)
      → List IntentDefinition
      → Dict (List String)
      → Dict (List String)
  unfolding index_terms
  build_index keywords [] index = index
  build_index keywords (d ∷ ds) index =
      build_index keywords ds (index_terms d.id (keywords d) index)

  unfoldable pub scored : String → Dict (List String) → Dict ℕ
  unfolding intents_for_audience
  scored audience hits =
      map
        (λ (e : String × List String). (
          e.0,
          score (any (λ (d : IntentDefinition). str_eq d.id e.0) (intents_for_audience audience))
              (length e.1),
        ))
        hits

  -- `classify`, whose results are pairs of an intent and its score.
  unfoldable pub classify : String → String → String → ℕ → Dict ℕ
  unfolding build_index intent_registry hits_in scored
  classify text language audience top_k =
      if str_eq text ""
      then (fallback_intent, 0) ∷ []
      else let keywords : IntentDefinition → List String =
          λ d. if starts_with (lower language) "zh" then d.keywords_zh else d.keywords_en in
        let hits = hits_in (lower text) (build_index keywords intent_registry []) [] in
        elim hits [
          | [] ↦ (fallback_intent, 1000) ∷ []
          | e ∷ es ↦ take top_k (ordered (scored audience (e ∷ es)))
        ]

  first_of : Dict ℕ → String × ℕ
  first_of [] = (fallback_intent, 0)
  first_of (e ∷ d) = e

  -- `classify_best`
  unfoldable pub classify_best : String → String → String → String × ℕ
  unfolding classify first_of
  classify_best text language audience = first_of (classify text language audience 1)
