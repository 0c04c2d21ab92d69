-- ===== src/Channels/Pricing.antt =====
-- The price rules of src/channels.rs: what an administrator may store, and what the store does with
-- it. `display_name` and `context_limit`, which no charge reads, are left out.
pub mod Kinds
use yunova.Base.{
  ℕ, suc, ◌*◌, ◌+◌, ◌-◌, ◌^◌, Bool, true, false, ◌&&◌, ◌||◌, Option, none, some, List, [], ◌∷◌, any,
  String, if◌then◌else◌, ◌==◌, leb, not,
}
use text.Mathlib.Text.{◌==◌ as str_eq}
use yunova.Base.Int.{ℤ, pos, ltb_ℤ, leb_ℤ}
use yunova.Base.Text.{codes, trim, parse_digits, split_once}
use yunova.Schema.{Tables, ChannelModel, ModelPrice}
use yunova.Db.{Action, pure, statement, select, ◌>>=◌, ◌>>◌}

pub record PricingInput : Type 0 where
  pub model : String
  pub kind : String
  pub channel_ids : Option (List ℕ)
  pub enabled : Bool
  pub protocol : String
  pub input_price : ℤ
  pub output_price : ℤ
  pub cached_input_price : Option ℤ
  pub per_call_price : ℤ
  pub base_price : ℤ
  pub per_second_price : ℤ
  pub allowed_seconds : Option (List ℤ)
  pub size_rules : Option (List (String × ℤ))

-- The messages of `validate_pricing_input`.
pub data PricingError : Type 0 where
  empty_model negative_price negative_cached_price negative_base_price : PricingError
  negative_per_second_price no_seconds bad_seconds no_sizes bad_size bad_multiplier : PricingError

abbrev pub is_negative : ℤ → Bool
is_negative v = ltb_ℤ v (pos 0)

unfoldable pub some_negative : Option ℤ → Bool
some_negative none = false
some_negative (some v) = is_negative v

unfoldable pub or_none : {A : Type 0} → Option (List A) → List A
or_none none = []
or_none (some xs) = xs

unfoldable pub no_rows : {A : Type 0} → List A → Bool
no_rows [] = true
no_rows (x ∷ xs) = false

unfoldable pub in_u32 : Option ℕ → Bool
in_u32 none = false
in_u32 (some n) = leb n (2 ^ 32 - 1)

-- `parse::<u32>().is_ok()`: a sign `+` at most, at least one digit, and the range of the type.
unfoldable pub is_u32 : List ℕ → Bool
is_u32 [] = false
is_u32 (c ∷ []) = in_u32 (parse_digits 0 (c ∷ []))
is_u32 (c ∷ d ∷ cs) =
    let rest = in_u32 (parse_digits 0 (d ∷ cs)) in
    if c == b'+' then rest else in_u32 (parse_digits 0 (c ∷ d ∷ cs))

unfoldable pub is_size : String → Bool
is_size size = elim (split_once b'x' (codes size)) [
  | none ↦ false
  | some (w, h) ↦ is_u32 w && is_u32 h
]

unfoldable pub check_rules : List (String × ℤ) → Option PricingError
check_rules [] = none
check_rules ((size, multiplier) ∷ rules) =
    let rest = check_rules rules in
    if not (is_size size)
    then some bad_size
    else if leb_ℤ multiplier (pos 0)
    then some bad_multiplier
    else rest

-- The part of `validate_pricing_input` for videos.
unfoldable pub check_video : PricingInput → Option PricingError
check_video input =
    if is_negative input.base_price
    then some negative_base_price
    else if is_negative input.per_second_price
    then some negative_per_second_price
    else if no_rows (or_none input.allowed_seconds)
    then some no_seconds
    else if any (λ s. leb_ℤ s (pos 0)) (or_none input.allowed_seconds)
    then some bad_seconds
    else if no_rows (or_none input.size_rules)
    then some no_sizes
    else check_rules (or_none input.size_rules)

-- `none` is `Ok(())`.
unfoldable pub validate_pricing_input : PricingInput → Option PricingError
validate_pricing_input input =
    if no_rows (trim (codes input.model))
    then some empty_model
    else if is_negative input.input_price
        || is_negative input.output_price
        || is_negative input.per_call_price
    then some negative_price
    else if some_negative input.cached_input_price
    then some negative_cached_price
    else if not (str_eq input.kind "video")
    then none
    else check_video input

-- `filter(|v| *v > 0)`
unfoldable pub positive : Option ℤ → Option ℤ
positive none = none
positive (some v) = if ltb_ℤ (pos 0) v then some v else none

-- The row that is written: the columns of other kinds are cleared.
unfoldable pub row_of : PricingInput → ModelPrice
row_of input =
    let is_video = str_eq input.kind "video" in
    let is_chat = str_eq input.kind "chat" in
    let is_image = str_eq input.kind "image" in
    record {
      model = input.model;
      kind = input.kind;
      enabled = input.enabled;
      protocol = input.protocol;
      input_price = if is_chat then input.input_price else pos 0;
      output_price = if is_chat then input.output_price else pos 0;
      cached_input_price = if is_chat then positive input.cached_input_price else none;
      per_call_price = if is_image then input.per_call_price else pos 0;
      base_price = if is_video then input.base_price else pos 0;
      per_second_price = if is_video then input.per_second_price else pos 0;
      allowed_seconds = if is_video then input.allowed_seconds else none;
      size_rules = if is_video then input.size_rules else none;
    }

unfoldable pub set_price : String → Option ModelPrice → Tables → Tables
set_price model price t = record t { pricing = λ m. if str_eq m model then price else t.pricing m }

-- `DELETE FROM channel_models WHERE model = ?`
unfoldable pub without_model : String → List ChannelModel → List ChannelModel
without_model model [] = []
without_model model (b ∷ bs) =
    let rest = without_model model bs in if str_eq b.model model then rest else b ∷ rest

-- The sorted set of the ids.
unfoldable pub insert_id : ℕ → List ℕ → List ℕ
insert_id n [] = n ∷ []
insert_id n (m ∷ ms) =
    let later = insert_id n ms in
    if n == m then m ∷ ms else if leb n m then n ∷ m ∷ ms else m ∷ later

unfoldable pub unique_ids : List ℕ → List ℕ
unique_ids [] = []
unique_ids (n ∷ ns) = insert_id n (unique_ids ns)

unfoldable pub add_bindings : String → List ℕ → List ChannelModel → List ChannelModel
add_bindings model [] bs = bs
add_bindings model (id ∷ ids) bs =
    record { channel_id = id; model = model; upstream_id = none } ∷ add_bindings model ids bs

-- The bindings of a model are replaced where the input names channels.
unfoldable pub bind_channels : PricingInput → Tables → Tables
bind_channels input t = elim input.channel_ids [
  | none ↦ t
  | some ids ↦ record t {
    channel_models =
        add_bindings input.model (unique_ids ids) (without_model input.model t.channel_models);
  }
]

-- One transaction, hence one statement.
unfoldable pub upsert_price : PricingInput → Action (Unit {0})
upsert_price input =
    statement (λ t. some (tt, bind_channels input (set_price input.model (some (row_of input)) t)))

-- `SELECT … FROM model_pricing WHERE model = ?`; a stored cache price of 0 reads as none.
unfoldable pub parse_price_row : ModelPrice → ModelPrice
parse_price_row p = record p { cached_input_price = positive p.cached_input_price }

unfoldable pub get_price : String → Action (Option ModelPrice)
get_price model =
    select (λ t. elim (t.pricing model) [ none ↦ none | some p ↦ some (parse_price_row p) ])

unfoldable pub present : Option ModelPrice → ℕ
present none = 0
present (some p) = 1

unfoldable pub delete_one : String → Tables → Tables
delete_one model t =
    set_price model none (record t { channel_models = without_model model t.channel_models })

-- The loop of `delete_prices`, with the number of rows that it deletes.
unfoldable pub delete_all : List String → ℕ → Tables → ℕ × Tables
delete_all [] deleted t = (deleted, t)
delete_all (model ∷ models) deleted t =
    delete_all models (deleted + present (t.pricing model)) (delete_one model t)

-- One transaction; without models there is none.
unfoldable pub delete_prices : List String → Action ℕ
delete_prices [] = pure 0
delete_prices (model ∷ models) = statement (λ t. some (delete_all (model ∷ models) 0 t))

unfoldable pub delete_price : String → Action (Unit {0})
delete_price model = do delete_prices (model ∷ []); pure tt
