-- ===== src/Pricing/Labels.antt =====
-- What an estimated cost is labelled with, and that an event may carry it.
use virgil.Base.{
  String, is_empty, str_eq, Bool, true, ◌&&◌, ◌||◌, not, Option, none, some, ok, is_some, ◌≡◌, refl,
  sym, ap, ◌∙◌, arith, Bool-cases, Option-cases, Result-cases, inl, inr,
}
use virgil.Base.Int.{ℤ, ◌+ℤ◌}
use virgil.Pricing.{
  Usage, PriceTable, Cost, no_cost, labelled_cost, cached_price, input_cost, output_cost, calculate,
}
use virgil.Telemetry.{Facts, check_costs, decimal_text}

-- No cost, or one text under the label of the source, for counts that are there.
data IsLabelled (usage : Usage) (cost : Cost) : Type 0 where
  free : cost ≡ no_cost → IsLabelled usage cost
  labelled : (text : String) → cost ≡ labelled_cost usage.source text → IsLabelled usage cost

module _ (set_string : String → Option ℤ) (print : ℤ → String) where
  calculate-IsLabelled :
      (usage : Usage) (table : PriceTable) (cost : Cost)
      → calculate set_string print usage table ≡ ok cost
      → IsLabelled usage cost
  unfolding calculate
  calculate-IsLabelled usage table cost h = elim (Bool-cases (str_eq usage.source "unknown")) [
    | inl y ↦ free (ground arith)
    | inr known ↦
        elim (Bool-cases (is_empty table.input_per_token || is_empty table.output_per_token)) [
          | inl y ↦ free (ground arith)
          | inr priced ↦
              elim (Bool-cases
                (not (is_some usage.input_tokens) && not (is_some usage.output_tokens))) [
                  | inl y ↦ free (ground arith)
                  | inr counted ↦ elim (Option-cases (set_string table.input_per_token)) [
                    | inl a ↦ absurd (ground arith)
                    | inr (p, a) ↦ elim (Option-cases (set_string table.output_per_token)) [
                      | inl b ↦ absurd (ground arith)
                      | inr (o, b) ↦
                          elim (Result-cases
                            (cached_price set_string print table.cached_per_token)) [
                              | inl (x, c) ↦ absurd (ground arith)
                              | inr (q, c) ↦
                                  elim (Result-cases
                                    (input_cost usage.input_tokens usage.cached_tokens p q)) [
                                      | inl (x, d) ↦ absurd (ground arith)
                                      | inr (i, d) ↦
                                          labelled (print (i +ℤ output_cost usage.output_tokens o))
                                            (ground arith)
                                    ]
                            ]
                    ]
                  ]
                ]
        ]
  ]

-- The facts of an event with this cost.
abbrev pub with_cost : Facts → Cost → Facts
with_cost f cost = record f { actual_cost = cost.actual_cost; estimated_cost = cost.estimated_cost }

-- The usage that the facts report.
abbrev pub usage_of : Facts → Usage
usage_of f = record {
  source = f.usage_source;
  input_tokens = f.input_tokens;
  output_tokens = f.output_tokens;
  cached_tokens = f.cached_tokens;
}

abbrev pub is_plain : Option String → Bool
is_plain none = true
is_plain (some text) = decimal_text text

labelled_accepted :
    (f : Facts) (text : String)
    → is_plain (labelled_cost f.usage_source text).actual_cost ≡ true
    → is_plain (labelled_cost f.usage_source text).estimated_cost ≡ true
    → check_costs (with_cost f (labelled_cost f.usage_source text)) ≡ ok tt
unfolding check_costs labelled_cost
labelled_accepted f text a b = elim (Bool-cases (str_eq f.usage_source "provider")) [
  | inl y ↦ rw y (ground arith)
  | inr n ↦ elim (Bool-cases (str_eq f.usage_source "estimated")) [
    | inl y ↦ rw (n, y) (ground arith)
    | inr m ↦ rw (n, m) refl
  ]
]

-- A cost that `Calculate` returns for the usage of an event may stand in the event: it passes the tests
-- of `Build` and `ValidateEvent` on costs, by its label and the source of the usage, if it is printed
-- as a decimal.
pub calculate-check_costs :
    (set_string : String → Option ℤ) (print : ℤ → String) (f : Facts) (table : PriceTable)
    (cost : Cost)
    → calculate set_string print (usage_of f) table ≡ ok cost
    → is_plain cost.actual_cost ≡ true
    → is_plain cost.estimated_cost ≡ true
    → check_costs (with_cost f cost) ≡ ok tt
unfolding check_costs
calculate-check_costs set_string print f table cost h a b =
    elim (calculate-IsLabelled set_string print (usage_of f) table cost h) [
      | free q ↦ rw q refl
      | labelled text q ↦ rw q (
          labelled_accepted f text (ap (λ (x : Cost). is_plain x.actual_cost) (sym q) ∙ a)
            (ap (λ (x : Cost). is_plain x.estimated_cost) (sym q) ∙ b))
    ]
