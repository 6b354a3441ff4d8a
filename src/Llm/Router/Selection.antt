-- ===== src/Llm/Router/Selection.antt =====
-- Which strategy and which models a request gets (llm/router.py: `_resolve_strategy`,
-- `_resolve_targets`, `_guard_prompt_size`, and the checks at the start of `run`).
use haojie.Common.{
  ℕ, ◌+◌, Bool, true, false, not, Option, none, some, String, List, [], ◌∷◌, ◌++◌, leb,
  if◌then◌else◌, str_eq, any,
}
use haojie.Llm.Catalog.{ModelInfo, get_model}
use haojie.Llm.Router.{
  Strategy, single, fallback, parallel_any, parallel_vote, confidence, no_provider_available,
  unknown_model, budget_exceeded, Reply, ok, raise,
}

-- What the choice of targets reads of a `CompletionRequest`; the validator has put `strategy` in
-- lower case, and an empty text counts as none.
pub record Request : Type 0 where
  pub strategy : Option String
  pub model_id : Option String
  pub target_model_ids : Option (List String)
  pub prompt_chars : List ℕ

pub record Settings : Type 0 where
  pub default_strategy : Strategy
  pub fallback_chain : List String
  pub max_prompt_chars : ℕ

truthy : String → Bool
truthy s = not (str_eq s "")

-- `LLMStrategy(raw)`; `none` is the `ValueError`.
parse_strategy : String → Option Strategy
parse_strategy s =
    if str_eq s "single"
    then some single
    else if str_eq s "fallback"
    then some fallback
    else if str_eq s "parallel_any"
    then some parallel_any
    else if str_eq s "parallel_vote"
    then some parallel_vote
    else if str_eq s "confidence"
    then some confidence
    else none

unfoldable pub resolve_strategy : Settings → Request → Strategy
unfolding truthy parse_strategy
resolve_strategy c q = elim q.strategy [
  | none ↦ c.default_strategy
  | some s ↦
      if truthy s
      then elim (parse_strategy s) [ some t ↦ t | none ↦ c.default_strategy ]
      else c.default_strategy
]

abbrev pub elem : String → List String → Bool
elem x = any (λ y. str_eq y x)

-- The chain's models that are not yet in the list go to its end.
unfoldable pub pad : List String → List String → List String
pad ids [] = ids
pad ids (extra ∷ chain) = pad (if elem extra ids then ids else ids ++ extra ∷ []) chain

keep_truthy : List String → List String
unfolding truthy
keep_truthy [] = []
keep_truthy (s ∷ ss) = let rest = keep_truthy ss in if truthy s then s ∷ rest else rest

is_single : Strategy → Bool
is_single single = true
is_single _ = false

default_ids : Settings → Strategy → Option String → List String
unfolding truthy is_single pad
default_ids c s none = c.fallback_chain
default_ids c s (some id) =
    if not (truthy id)
    then c.fallback_chain
    else if is_single s
    then id ∷ []
    else pad (id ∷ []) c.fallback_chain

unfoldable pub target_ids : Settings → Strategy → Request → List String
unfolding keep_truthy default_ids
target_ids c s q = elim q.target_model_ids [
  | none ↦ default_ids c s q.model_id
  | some [] ↦ default_ids c s q.model_id
  | some (i ∷ is) ↦ keep_truthy (i ∷ is)
]

-- The catalog's models of the ids; the first unknown one is named.
unfoldable pub resolve_models : List String → Reply (List ModelInfo)
resolve_models [] = ok []
resolve_models (id ∷ ids) = elim (get_model id) [
  | none ↦ raise (unknown_model id)
  | some m ↦ elim (resolve_models ids) [ ok ms ↦ ok (m ∷ ms) | raise e ↦ raise e ]
]

unfoldable pub resolve_targets : Settings → Strategy → Request → Reply (List ModelInfo)
unfolding target_ids resolve_models
resolve_targets c s q = resolve_models (target_ids c s q)

sum : List ℕ → ℕ
sum [] = 0
sum (n ∷ ns) = n + sum ns

-- `_guard_prompt_size`: `true` if the prompt may pass.
unfoldable pub guard_prompt_size : Settings → Request → Bool
unfolding sum
guard_prompt_size c q = leb (sum q.prompt_chars) c.max_prompt_chars

-- The checks of `run` in their order: the strategy and its targets, of which there is at least one.
unfoldable pub prepare : Settings → Request → Reply (Strategy × List ModelInfo)
unfolding resolve_strategy resolve_targets guard_prompt_size
prepare c q =
    let s = resolve_strategy c q in
    elim (resolve_targets c s q) [
      | raise e ↦ raise e
      | ok [] ↦ raise no_provider_available
      | ok (m ∷ ms) ↦ if guard_prompt_size c q then ok (s, m ∷ ms) else raise budget_exceeded
    ]
