-- ===== src/Channels/Pricing/Kinds.antt =====
-- The prices that src/channels.rs stores fit their kind.
use yunova.Base.{
  ℕ, ◌≡◌, refl, Bool, true, false, ◌&&◌, ◌||◌, Option, none, some, List, [], ◌∷◌, all, any, String,
  arith, inl, inr, Bool-cases, not,
}
use text.Mathlib.Text.{◌==◌ as str_eq}
use yunova.Base.Int.{ℤ, pos, ltb_ℤ, eqb_ℤ, leb_ℤ}
use yunova.Schema.{Tables, ModelPrice}
use yunova.Db.{Env, Conn}
use yunova.Db.Rules.{IsStable, Keeps, statement-Keeps}
use yunova.Channels.Pricing.{
  PricingInput, or_none, no_rows, is_size, check_rules, check_video, validate_pricing_input,
  positive, row_of, set_price, bind_channels, upsert_price, without_model, delete_one, delete_all,
}

unfoldable pub is_nonneg : Option ℤ → Bool
is_nonneg none = true
is_nonneg (some v) = leb_ℤ (pos 0) v

unfoldable pub is_none : {A : Type 0} → Option A → Bool
is_none none = true
is_none (some a) = false

abbrev pub is_zero : ℤ → Bool
is_zero v = eqb_ℤ v (pos 0)

unfoldable pub prices_nonneg : ModelPrice → Bool
prices_nonneg p =
    leb_ℤ (pos 0) p.input_price
    && leb_ℤ (pos 0) p.output_price
    && is_nonneg p.cached_input_price
    && leb_ℤ (pos 0) p.per_call_price
    && leb_ℤ (pos 0) p.base_price
    && leb_ℤ (pos 0) p.per_second_price

-- What is of another kind is cleared.
unfoldable pub others_cleared : ModelPrice → Bool
others_cleared p =
    (str_eq p.kind "chat"
      || is_zero p.input_price && is_zero p.output_price && is_none p.cached_input_price)
    && (str_eq p.kind "image" || is_zero p.per_call_price)
    && (str_eq p.kind "video"
        || is_zero p.base_price
          && is_zero p.per_second_price
          && is_none p.allowed_seconds
          && is_none p.size_rules)

abbrev pub is_rule : String × ℤ → Bool
is_rule r = is_size r.0 && ltb_ℤ (pos 0) r.1

-- A video has durations and sizes that a charge can use.
unfoldable pub video_complete : ModelPrice → Bool
video_complete p =
    not (str_eq p.kind "video")
    || not (no_rows (or_none p.allowed_seconds))
      && all (λ s. ltb_ℤ (pos 0) s) (or_none p.allowed_seconds)
      && not (no_rows (or_none p.size_rules))
      && all is_rule (or_none p.size_rules)

abbrev pub fits_kind : Option ModelPrice → Bool
fits_kind none = true
fits_kind (some p) = prices_nonneg p && others_cleared p && video_complete p

-- Every stored price is complete for its kind, without what belongs to another kind.
abbrev pub IsPriced : Tables → Type 0
IsPriced t = (model : String) → fits_kind (t.pricing model) ≡ true

all_positive :
    (xs : List ℤ) → any (λ s. leb_ℤ s (pos 0)) xs ≡ false → all (λ s. ltb_ℤ (pos 0) s) xs ≡ true
all_positive [] h = refl
all_positive (x ∷ xs) h = ground (arith, all_positive xs)

check_rules-all : (rules : List (String × ℤ)) → check_rules rules ≡ none → all is_rule rules ≡ true
unfolding check_rules
check_rules-all [] h = refl
check_rules-all ((size, multiplier) ∷ rules) h = ground (arith, check_rules-all rules)

positive-is_nonneg : (v : Option ℤ) → is_nonneg (positive v) ≡ true
unfolding positive is_nonneg
positive-is_nonneg none = refl
positive-is_nonneg (some v) = ground arith

module _ (input : PricingInput) (valid : validate_pricing_input input ≡ none) where
  checked_prices :
      (leb_ℤ (pos 0) input.input_price ≡ true)
      × (leb_ℤ (pos 0) input.output_price ≡ true)
      × (leb_ℤ (pos 0) input.per_call_price ≡ true)
  unfolding validate_pricing_input
  checked_prices = ground arith

  checked_video : str_eq input.kind "video" ≡ true → check_video input ≡ none
  unfolding validate_pricing_input
  checked_video v = ground arith

  video_prices :
      check_video input ≡ none
      → (leb_ℤ (pos 0) input.base_price ≡ true) × (leb_ℤ (pos 0) input.per_second_price ≡ true)
  unfolding check_video
  video_prices h = ground arith

  row_prices : prices_nonneg (row_of input) ≡ true
  unfolding row_of prices_nonneg is_nonneg
  row_prices =
      let (i, o, p) = checked_prices in
      let c = positive-is_nonneg input.cached_input_price in
      elim (Bool-cases (str_eq input.kind "video")) [
        | inl v ↦ let (b, q) = video_prices (checked_video v) in ground (arith, i, o, p, c, b, q, v)
        | inr n ↦ ground (arith, i, o, p, c, n)
      ]

  row_others : others_cleared (row_of input) ≡ true
  unfolding row_of others_cleared is_none
  row_others = ground arith

  row_video : video_complete (row_of input) ≡ true
  unfolding validate_pricing_input check_video row_of video_complete
  row_video = ground (
    arith,
    all_positive (or_none input.allowed_seconds),
    check_rules-all (or_none input.size_rules),
  )

  row_of-fits_kind : fits_kind (some (row_of input)) ≡ true
  row_of-fits_kind = rw (row_prices, row_others, row_video) refl

set_price-IsPriced :
    (model : String) (p : Option ModelPrice) (t : Tables)
    → fits_kind p ≡ true
    → IsPriced t
    → IsPriced (set_price model p t)
unfolding set_price
set_price-IsPriced model p t fit h m = ground (arith, h m)

bind_channels-IsPriced :
    (input : PricingInput) (t : Tables) → IsPriced t → IsPriced (bind_channels input t)
unfolding bind_channels
bind_channels-IsPriced input t h m = ground (arith, h m)

delete_all-IsPriced :
    (models : List String) (n : ℕ) (t : Tables) → IsPriced t → IsPriced (delete_all models n t).1
unfolding delete_all delete_one
delete_all-IsPriced [] n t h = h
delete_all-IsPriced (model ∷ models) n t h = delete_all-IsPriced models _ _ (
    set_price-IsPriced model none
      (record t { channel_models = without_model model t.channel_models }) refl h)

-- Whichever statements fail, and whatever other requests do between them that keeps it so, a price
-- that the check admits leaves every stored price complete for its kind: its prices are not negative,
-- the columns that other kinds charge by are cleared, and a video has positive durations and sizes
-- with positive multipliers.
pub upsert_price-IsPriced :
    (e : Env) (input : PricingInput) (c : Conn)
    → IsStable IsPriced e
    → validate_pricing_input input ≡ none
    → IsPriced c.tables
    → IsPriced (upsert_price input e c).1.tables
unfolding upsert_price
upsert_price-IsPriced e input c s valid h = (stored).apply c h
  where
    stored : Keeps IsPriced e (upsert_price input)
    stored = statement-Keeps _ s (λ t k.
        bind_channels-IsPriced input (set_price input.model (some (row_of input)) t)
          (set_price-IsPriced input.model (some (row_of input)) t (row_of-fits_kind input valid) k))
