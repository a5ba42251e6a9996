-- ===== src/Pricing.antt =====
-- internal/pricing/pricing.go and internal/pricing/registry.go: what a call is estimated to cost.
-- `math/big` is a parameter: `set_string` reads a price as a number of some unit that divides all
-- prices, and `print` is `FloatString(10)`. `to_lower` is `strings.ToLower`.
pub mod Labels
pub mod Lookups
use Prim.Native.String.{◌++◌}
use virgil.Base.{
  ℕ, String, is_empty, str_eq, if◌then◌else◌, Bool, true, false, ◌&&◌, ◌||◌, not, Option, none,
  some, Result, ok, err, ◌>>=◌, fail_if, or_fail, is_some,
}
use virgil.Base.Dict.{Dict, get, put}
use virgil.Base.Int.{ℤ, pos, ◌+ℤ◌, ◌-ℤ◌, ◌*ℤ◌, is_negative, ltb_ℤ}

-- internal/telemetry/usage.go.
pub record Usage : Type 0 where
  pub source : String
  pub input_tokens : Option ℤ
  pub output_tokens : Option ℤ
  pub cached_tokens : Option ℤ

pub record PriceTable : Type 0 where
  pub version : String
  pub currency : String
  pub input_per_token : String
  pub output_per_token : String
  pub cached_per_token : String

pub record Cost : Type 0 where
  pub actual_cost : Option String
  pub estimated_cost : Option String

pub record PriceEntry : Type 0 where
  pub provider : String
  pub model : String
  pub input_per_token : String
  pub output_per_token : String
  pub cached_per_token : String

pub data PriceError : Type 0 where
  invalid_price invalid_cached_count no_price : PriceError

abbrev pub no_cost : Cost
no_cost = record { actual_cost = none; estimated_cost = none }

-- The cost of the input tokens; the cached ones have their own price, if there is one.
unfoldable pub input_cost : Option ℤ → Option ℤ → ℤ → Option ℤ → Result PriceError ℤ
input_cost none cached price cached_price = ok (pos 0)
input_cost (some input) (some cached) price (some cached_price) =
    if is_negative cached || ltb_ℤ input cached
    then err invalid_cached_count
    else ok (cached *ℤ cached_price +ℤ (input -ℤ cached) *ℤ price)
input_cost (some input) _ price _ = ok (input *ℤ price)

abbrev pub output_cost : Option ℤ → ℤ → ℤ
output_cost none price = pos 0
output_cost (some output) price = output *ℤ price

-- The field of the cost that the source of the usage selects.
unfoldable pub labelled_cost : String → String → Cost
labelled_cost source text =
    if str_eq source "provider"
    then record { actual_cost = some text; estimated_cost = none }
    else if str_eq source "estimated"
    then record { actual_cost = none; estimated_cost = some text }
    else no_cost

module _ (set_string : String → Option ℤ) (print : ℤ → String) where
  -- The price of cached tokens; an empty text is no price.
  abbrev pub cached_price : String → Result PriceError (Option ℤ)
  cached_price text =
      if is_empty text
      then ok none
      else elim (set_string text) [ none ↦ err invalid_price | some p ↦ ok (some p) ]

  unfoldable pub calculate : Usage → PriceTable → Result PriceError Cost
  calculate usage table =
      if str_eq usage.source "unknown"
      then ok no_cost
      else if is_empty table.input_per_token || is_empty table.output_per_token
      then ok no_cost
      else if not (is_some usage.input_tokens) && not (is_some usage.output_tokens)
      then ok no_cost
      else do
        in_price ← or_fail (set_string table.input_per_token) invalid_price
        out_price ← or_fail (set_string table.output_per_token) invalid_price
        cached ← cached_price table.cached_per_token
        input ← input_cost usage.input_tokens usage.cached_tokens in_price cached
        ok (labelled_cost usage.source (print (input +ℤ output_cost usage.output_tokens out_price)))

-- The registry: entries under "provider:model", lowercased.
module _ (to_lower : String → String) where
  abbrev pub price_key : String → String → String
  price_key provider model = to_lower (provider ++ (":" ++ model))

  unfoldable pub set_price : Dict PriceEntry → PriceEntry → Dict PriceEntry
  set_price entries e = put entries (price_key e.provider e.model) e

  -- `Lookup`: the entry of the provider, or else the one for any provider.
  unfoldable pub lookup : Dict PriceEntry → String → String → Option PriceEntry
  lookup entries provider model = elim (get entries (price_key provider model)) [
    | some e ↦ some e
    | none ↦ get entries (to_lower (":" ++ model))
  ]

  module _ (set_string : String → Option ℤ) (print : ℤ → String) where
    unfoldable pub estimate_cost_usd :
        Dict PriceEntry → String → String → ℤ → ℤ → Result PriceError String
    estimate_cost_usd entries provider model input output = do
      e ← or_fail (lookup entries provider model) no_price
      input_rate ← or_fail (set_string e.input_per_token) invalid_price
      output_rate ← or_fail (set_string e.output_per_token) invalid_price
      ok (print (input_rate *ℤ input +ℤ output_rate *ℤ output))
