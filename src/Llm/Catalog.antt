-- ===== src/Llm/Catalog.antt =====
-- The model catalog of llm/catalog.py.
--
-- A price is in units of 10⁻⁸ USD for 1000 tokens, in which every price of the catalog is whole, and
-- a cost in units of 10⁻⁶ USD, to which the source rounds.
pub mod Laws
use haojie.Common.{
  ℕ, ◌+◌, ◌*◌, ◌/◌, ◌%◌, Bool, true, false, ◌||◌, Option, none, some, String, List, [], ◌∷◌, leb,
  ltb, ◌==◌, if◌then◌else◌, str_eq, any,
}

pub record ModelCapabilities : Type 0 where
  pub chat : Bool
  pub completion : Bool
  pub embedding : Bool
  pub vision : Bool
  pub tools : Bool
  pub streaming : Bool

-- The defaults of the fields.
abbrev pub default_capabilities : ModelCapabilities
default_capabilities = record {
  chat = true;
  completion = true;
  embedding = false;
  vision = false;
  tools = false;
  streaming = false;
}

pub record ModelInfo : Type 0 where
  pub model_id : String
  pub provider : String
  pub remote_name : String
  pub context_window : ℕ
  pub max_output_tokens : ℕ
  pub price_per_1k_prompt : ℕ
  pub price_per_1k_completion : ℕ
  pub capabilities : ModelCapabilities
  pub audiences : List String

-- `round(x, 6)` of `n / d`: to the nearest, and to the even one between two.
unfoldable pub round_half_even : ℕ → ℕ → ℕ
round_half_even n d =
    let q = n / d in
    let r = 2 * (n % d) in if ltb d r then q + 1 else if r == d then q + q % 2 else q

-- 1000 for the price's tokens, 100 from 10⁻⁸ to 10⁻⁶.
unfoldable pub estimated_cost : ModelInfo → ℕ → ℕ → ℕ
unfolding round_half_even
estimated_cost m prompt_tokens completion_tokens =
    round_half_even
      (prompt_tokens * m.price_per_1k_prompt + completion_tokens * m.price_per_1k_completion) 100000

-- An entry of `_RAW` with default capabilities and audiences.
entry : String → String → String → ℕ → ℕ → ℕ → ℕ → ModelInfo
entry model_id provider remote_name context_window max_output_tokens prompt completion = record {
  model_id = model_id;
  provider = provider;
  remote_name = remote_name;
  context_window = context_window;
  max_output_tokens = max_output_tokens;
  price_per_1k_prompt = prompt;
  price_per_1k_completion = completion;
  capabilities = default_capabilities;
  audiences = "any" ∷ [];
}

with_tools : ModelInfo → ModelInfo
with_tools m = record m { capabilities = record default_capabilities { tools = true } }

with_vision_and_tools : ModelInfo → ModelInfo
with_vision_and_tools m = record m {
  capabilities = record default_capabilities { vision = true; tools = true };
}

-- `MODEL_CATALOG` in its order.
unfoldable pub model_catalog : List ModelInfo
unfolding entry with_tools with_vision_and_tools
model_catalog =
    entry "stub-small" "stub" "stub-small" 8192 1024 0 0
    ∷ entry "stub-fast" "stub" "stub-fast" 8192 512 0 0
    ∷ with_vision_and_tools (entry "gpt-4o" "openai" "gpt-4o" 128_000 4_096 500_000 1_500_000)
    ∷ with_tools (entry "gpt-4o-mini" "openai" "gpt-4o-mini" 128_000 16_384 15_000 60_000)
    ∷ with_vision_and_tools (
        entry "claude-3-5-sonnet" "anthropic" "claude-3-5-sonnet-20241022" 200_000 8_192 300_000
          1_500_000)
    ∷ entry "claude-3-haiku" "anthropic" "claude-3-haiku-20240307" 200_000 4_096 25_000 125_000
    ∷ with_vision_and_tools
        (entry "gemini-1.5-pro" "google" "gemini-1.5-pro" 1_000_000 8_192 125_000 500_000)
    ∷ with_vision_and_tools (entry "azure-gpt-4o" "azure" "gpt-4o" 128_000 4_096 500_000 1_500_000)
    ∷ []

unfoldable pub find_model : String → List ModelInfo → Option ModelInfo
find_model model_id [] = none
find_model model_id (m ∷ ms) = if str_eq m.model_id model_id then some m else find_model model_id ms

-- `none` is the `KeyError`.
unfoldable pub get_model : String → Option ModelInfo
unfolding find_model model_catalog
get_model model_id = find_model model_id model_catalog

select : (ModelInfo → Bool) → List ModelInfo → List ModelInfo
select p [] = []
select p (m ∷ ms) = let rest = select p ms in if p m then m ∷ rest else rest

unfoldable pub models_for_provider : String → List ModelInfo
unfolding select model_catalog
models_for_provider provider = select (λ m. str_eq m.provider provider) model_catalog

-- The audience is already in lower case, and `any` where it was empty.
unfoldable pub models_for_audience : String → List ModelInfo
unfolding select model_catalog
models_for_audience audience =
    if str_eq audience "any"
    then model_catalog
    else select (λ m. any (str_eq audience) m.audiences || any (str_eq "any") m.audiences)
        model_catalog

-- `min(…, key=price)`: the first of the cheapest.
pub cheapest_of : ModelInfo → List ModelInfo → ModelInfo
cheapest_of best [] = best
cheapest_of best (m ∷ ms) =
    cheapest_of (if ltb m.price_per_1k_prompt best.price_per_1k_prompt then m else best) ms

unfoldable pub cheapest : List ModelInfo → Option ModelInfo
unfolding cheapest_of
cheapest [] = none
cheapest (m ∷ ms) = some (cheapest_of m ms)
