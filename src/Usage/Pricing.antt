-- ===== src/Usage/Pricing.antt =====
-- The model catalog and its prices (src/ai/providers/model-catalog.ts), and `creditsFor` and
-- `costUsdFor` of src/usage/usage.service.ts. A price is a number of millionths of a dollar per
-- million tokens. What is charged is computed in doubles, the recorded cost exactly.
pub mod Laws
use Prim.Native.Nat.{max}
use gomer.Base.{
  ℕ, ◌+◌, ◌-◌, ◌*◌, Bool, true, false, ◌||◌, Option, none, some, List, [], ◌∷◌, ◌++◌, find,
  if◌then◌else◌, or_else,
}
use gomer.Base.Text.{String, str_eq}
use gomer.Base.Doubles.{one, rounded, double, plus, times, divide, ceil}

pub data ProviderId : Type 0 where
  anthropic gateway : ProviderId

pub record ModelDefinition : Type 0 where
  pub id : String
  pub name : String
  pub provider : ProviderId
  pub input_price_per_million : ℕ
  pub output_price_per_million : ℕ
  pub cost_input_price_per_million : Option ℕ
  pub cost_output_price_per_million : Option ℕ
  pub supports_tools : Bool
  pub supports_remote_mcp : Bool

abbrev pub credits_per_dollar : ℕ
credits_per_dollar = 400

abbrev credit_margin : ℕ
credit_margin = 1

abbrev pub anthropic_models : List ModelDefinition
anthropic_models =
    record {
      id = "claude-sonnet-5";
      name = "Claude Sonnet 5";
      provider = anthropic;
      input_price_per_million = 3_000_000;
      output_price_per_million = 15_000_000;
      cost_input_price_per_million = none;
      cost_output_price_per_million = none;
      supports_tools = true;
      supports_remote_mcp = true;
    }
    ∷ record {
      id = "claude-opus-4-8";
      name = "Claude Opus 4.8";
      provider = anthropic;
      input_price_per_million = 5_000_000;
      output_price_per_million = 25_000_000;
      cost_input_price_per_million = none;
      cost_output_price_per_million = none;
      supports_tools = true;
      supports_remote_mcp = true;
    }
    ∷ []

-- One entry of the configured JSON array; an empty text is a missing one.
pub record GatewayModelConfig : Type 0 where
  pub id : String
  pub name : String
  pub input_price_per_million : ℕ
  pub output_price_per_million : ℕ
  pub supports_tools : Option Bool

-- What `AI_GATEWAY_MODELS` holds, once read as JSON.
pub data GatewayConfig : Type 0 where
  blank invalid_json not_array : GatewayConfig
  entries : List GatewayModelConfig → GatewayConfig

gateway_model : GatewayModelConfig → ModelDefinition
gateway_model entry = record {
  id = entry.id;
  name = entry.name;
  provider = gateway;
  input_price_per_million = entry.input_price_per_million;
  output_price_per_million = entry.output_price_per_million;
  cost_input_price_per_million = none;
  cost_output_price_per_million = none;
  supports_tools = or_else entry.supports_tools false;
  supports_remote_mcp = false;
}

-- The loop of `parseGatewayModels`.
gateway_models : List GatewayModelConfig → List ModelDefinition
unfolding gateway_model
gateway_models [] = []
gateway_models (entry ∷ rest) =
    if str_eq entry.id "" || str_eq entry.name ""
    then gateway_models rest
    else gateway_model entry ∷ gateway_models rest

parse_gateway_models : GatewayConfig → List ModelDefinition
unfolding gateway_models
parse_gateway_models (entries list) = gateway_models list
parse_gateway_models _ = []

unfoldable pub build_catalog : GatewayConfig → List ModelDefinition
unfolding parse_gateway_models
build_catalog config = anthropic_models ++ parse_gateway_models config

-- Credits per thousand tokens, in doubles.
pub record Rates : Type 0 where
  pub input : ℕ
  pub output : ℕ

-- A price in dollars.
abbrev dollars : ℕ → ℕ
dollars price = rounded (price * one) 1_000_000

-- `perCredit`, a double.
unfoldable per_credit : ℕ → ℕ
unfolding rounded double times divide
per_credit price =
    times (times (divide (dollars price) (double 1_000)) (double credits_per_dollar))
      (double credit_margin)

unfoldable pub credit_rates : ModelDefinition → Rates
unfolding per_credit
credit_rates model = record {
  input = per_credit model.input_price_per_million;
  output = per_credit model.output_price_per_million;
}

-- `UNKNOWN_MODEL_RATES`
unfoldable pub unknown_model_rates : Rates
unfolding double
unknown_model_rates = record { input = double 2; output = double 10 }

unfoldable pub definition_for : GatewayConfig → String → Option ModelDefinition
unfolding build_catalog
definition_for config model = find (λ candidate. str_eq candidate.id model) (build_catalog config)

pub rates_of : Option ModelDefinition → Rates
unfolding credit_rates unknown_model_rates
rates_of none = unknown_model_rates
rates_of (some definition) = credit_rates definition

-- The last two lines of `creditsFor`, in doubles.
unfoldable pub credits_at : Rates → ℕ → ℕ → ℕ
unfolding double plus times divide
credits_at rates input_tokens output_tokens =
    let input = times (divide (double input_tokens) (double 1_000)) rates.input in
    let output = times (divide (double output_tokens) (double 1_000)) rates.output in
    max 1 (ceil (plus input output))

unfoldable pub credits_for : GatewayConfig → String → ℕ → ℕ → ℕ
unfolding definition_for rates_of credits_at
credits_for config model input_tokens output_tokens =
    credits_at (rates_of (definition_for config model)) input_tokens output_tokens

-- In units of 1 / 10_000_000_000_000 dollar: a cache write costs twice a plain token, a read a
-- tenth.
unfoldable pub list_cost_usd : ModelDefinition → ℕ → ℕ → ℕ → ℕ → ℕ
list_cost_usd model input_tokens output_tokens cache_write_tokens cache_read_tokens =
    let input_price = or_else model.cost_input_price_per_million model.input_price_per_million in
    let output_price = or_else model.cost_output_price_per_million model.output_price_per_million in
    let uncached = input_tokens - cache_write_tokens - cache_read_tokens in
    10 * (uncached * input_price)
    + 20 * (cache_write_tokens * input_price)
    + cache_read_tokens * input_price
    + 10 * (output_tokens * output_price)
