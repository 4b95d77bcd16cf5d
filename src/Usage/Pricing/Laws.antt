-- ===== src/Usage/Pricing/Laws.antt =====
-- What a run is charged and what it is recorded as having cost (src/usage/usage.service.ts,
-- src/ai/providers/model-catalog.ts).
use gomer.Base.{ap, ◌∙◌, ℕ, ◌+◌, ◌-◌, ◌*◌, ◌≤◌, ◌≡◌, arith, or_else}
use gomer.Usage.Pricing.{ModelDefinition, list_cost_usd}

-- When the cached slices fit in the prompt, the recorded cost is the whole prompt and the output at
-- their plain prices, plus once more for each token written to the cache, less nine tenths for each
-- token read from it.
pub list_cost_usd-cache :
    (m : ModelDefinition) (tokens out w r : ℕ)
    → w + r ≤ tokens
    → let p = or_else m.cost_input_price_per_million m.input_price_per_million in
      let q = or_else m.cost_output_price_per_million m.output_price_per_million in
      list_cost_usd m tokens out w r + 9 * (r * p)
      ≡ 10 * (tokens * p) + 10 * (w * p) + 10 * (out * q)
unfolding list_cost_usd
list_cost_usd-cache m tokens out w r h =
    let p = or_else m.cost_input_price_per_million m.input_price_per_million in
    let split : tokens ≡ (tokens - w - r) + w + r = omega arith in
    let parts : tokens * p ≡ (tokens - w - r) * p + w * p + r * p =
      ap (λ (t : ℕ). t * p) split ∙ omega arith in
    omega (arith, parts)
