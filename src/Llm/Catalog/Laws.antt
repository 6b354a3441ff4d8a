-- ===== src/Llm/Catalog/Laws.antt =====
-- What llm/catalog.py promises: lookups, prices and the cheapest model.
use haojie.Common.{ℕ, ◌+◌, ◌*◌, ◌≤◌, ◌≡◌, refl, some, String, List, [], ◌∷◌, arith, All, str_eq_iff}
use haojie.Llm.Catalog.{
  ModelInfo, round_half_even, estimated_cost, model_catalog, find_model, get_model, cheapest_of,
  cheapest,
}

-- The rounded quotient is within a half of the exact one.
round_half_even_lem :
    (n : ℕ)
    → (round_half_even n 100000 * 100000 ≤ n + 50000)
      × (n ≤ round_half_even n 100000 * 100000 + 50000)
unfolding round_half_even
round_half_even_lem n = ground arith

-- A cost is within half a millionth of a dollar of the exact price of the tokens.
pub estimated_cost_lem :
    (m : ModelInfo) (p c : ℕ)
    → let exact = p * m.price_per_1k_prompt + c * m.price_per_1k_completion in
      (estimated_cost m p c * 100000 ≤ exact + 50000)
      × (exact ≤ estimated_cost m p c * 100000 + 50000)
unfolding estimated_cost
estimated_cost_lem m p c =
    round_half_even_lem (p * m.price_per_1k_prompt + c * m.price_per_1k_completion)

find_model-id :
    (id : String) (ms : List ModelInfo) (m : ModelInfo)
    → find_model id ms ≡ some m
    → m.model_id ≡ id
unfolding find_model
find_model-id id [] m h = cc
find_model-id id (n ∷ ms) m h = ground (arith, str_eq_iff n.model_id id, find_model-id id ms m)

-- A model that the catalog returns has the id asked for.
pub get_model-id : (id : String) (m : ModelInfo) → get_model id ≡ some m → m.model_id ≡ id
unfolding get_model
get_model-id id m h = find_model-id id model_catalog m h

-- No other model of the list has a lower prompt price than the cheapest.
abbrev pub AtLeast : ℕ → List ModelInfo → Type 0
AtLeast p = All (λ m. p ≤ m.price_per_1k_prompt)

AtLeast-trans : (p q : ℕ) (ms : List ModelInfo) → p ≤ q → AtLeast q ms → AtLeast p ms
AtLeast-trans p q [] h a = tt
AtLeast-trans p q (m ∷ ms) h a = (omega arith, AtLeast-trans p q ms h a.1)

cheapest_of_lem :
    (best : ModelInfo) (ms : List ModelInfo)
    → AtLeast (cheapest_of best ms).price_per_1k_prompt (best ∷ ms)
unfolding cheapest_of
cheapest_of_lem best [] = omega arith
cheapest_of_lem best (m ∷ ms) = ground (arith, cheapest_of_lem best ms, cheapest_of_lem m ms)

-- A list with a model in it has a cheapest one, and none of its models has a lower prompt price.
pub cheapest_lem :
    (best : ModelInfo) (ms : List ModelInfo)
    → (m : ModelInfo) × (cheapest (best ∷ ms) ≡ some m) × AtLeast m.price_per_1k_prompt (best ∷ ms)
unfolding cheapest
cheapest_lem best ms = (cheapest_of best ms, refl, cheapest_of_lem best ms)
