-- ===== src/Pricing/Lookups.antt =====
-- Which price a model has.
use Prim.Native.String.{◌++◌}
use virgil.Base.{String, str_eq, false, some, ◌≡◌, refl, arith, ◌∙◌, eq_refl}
use virgil.Base.Dict.{Dict, get, get-put}
use virgil.Pricing.{PriceEntry, set_price, lookup, price_key}

lookup_found :
    (to_lower : String → String) (entries : Dict PriceEntry) (provider model : String)
    (e : PriceEntry)
    → get entries (price_key to_lower provider model) ≡ some e
    → lookup to_lower entries provider model ≡ some e
unfolding lookup
lookup_found to_lower entries provider model e h = rw (lookup, h) refl

lookup_same :
    (to_lower : String → String) (entries entries' : Dict PriceEntry) (provider model : String)
    → get entries' (price_key to_lower provider model)
      ≡ get entries (price_key to_lower provider model)
    → get entries' (to_lower (":" ++ model)) ≡ get entries (to_lower (":" ++ model))
    → lookup to_lower entries' provider model ≡ lookup to_lower entries provider model
unfolding lookup
lookup_same to_lower entries entries' provider model h k = ground arith

-- A price that is set is found under its provider and model, and every other lookup under a key that
-- differs from it, fallback included, answers as before.
lookup-set_price :
    (to_lower : String → String) (entries : Dict PriceEntry) (e : PriceEntry)
    → (lookup to_lower (set_price to_lower entries e) e.provider e.model ≡ some e)
      × ((provider model : String)
          → str_eq (price_key to_lower e.provider e.model) (price_key to_lower provider model)
            ≡ false
          → str_eq (price_key to_lower e.provider e.model) (to_lower (":" ++ model)) ≡ false
          → lookup to_lower (set_price to_lower entries e) provider model
            ≡ lookup to_lower entries provider model)
unfolding set_price
lookup-set_price to_lower entries e =
    let key = price_key to_lower e.provider e.model in
    (
      lookup_found to_lower (set_price to_lower entries e) e.provider e.model e
          (get-put entries key key e ∙ rw (eq_refl key) refl),
      λ provider model a b.
          lookup_same to_lower entries (set_price to_lower entries e) provider model
            (get-put entries key (price_key to_lower provider model) e ∙ rw a refl)
            (get-put entries key (to_lower (":" ++ model)) e ∙ rw b refl),
    )
