-- ===== src/Workflows/Nodes.antt =====
-- The nodes of src/workflows.rs and the check of each.
use yunova.Base.{
  ℕ, ◌+◌, ◌-◌, ◌*◌, ◌^◌, ◌%◌, Bool, true, false, not, ◌&&◌, ◌||◌, Option, none, some, List, [], ◌∷◌,
  all, String, if◌then◌else◌, ◌==◌, leb, ltb,
}
use text.Mathlib.Text.{◌==◌ as str_eq}
use yunova.Base.Int.{ℤ, pos, negsuc, ltb_ℤ, leb_ℤ}
use yunova.Base.Text.{codes, trim, is_digit}
use yunova.Usage.Json.{Value, string, get, value_i64}

abbrev pub max_node_data_bytes : ℕ
max_node_data_bytes = 64 * 1024

-- A finite `f64` is a whole number of units of 2 ^ -1074; `none` is one that is not finite.
abbrev pub F64 : Type 0
F64 = ℤ

abbrev pub f64 : ℕ → F64
f64 n = pos (n * 2 ^ 1074)

-- The field `data` is `config` here.
pub record WorkflowNode : Type 0 where
  pub id : String
  pub node_type : String
  pub x : Option F64
  pub y : Option F64
  pub config : Value

pub data OutputKind : Type 0 where
  image video : OutputKind

unfoldable pub output_kind : String → Option OutputKind
output_kind t =
    if str_eq t "image_generation"
    then some image
    else if str_eq t "video_generation" || str_eq t "video_trim" || str_eq t "video_merge"
    then some video
    else none

-- The messages of `validate_node_config`.
pub data ConfigError : Type 0 where
  missing_text too_long bad_trim bad_output unknown_type : ConfigError

-- The bytes of a text in UTF-8.
unfoldable pub utf8_len : List ℕ → ℕ
utf8_len [] = 0
utf8_len (c ∷ cs) =
    let rest = utf8_len cs in
    if ltb c 0x80
    then 1 + rest
    else if ltb c 0x800
    then 2 + rest
    else if ltb c 0x10000
    then 3 + rest
    else 4 + rest

unfoldable pub filled : List ℕ → Option (List ℕ)
filled [] = none
filled (c ∷ cs) = some (c ∷ cs)

unfoldable pub data_string : WorkflowNode → String → Option (List ℕ)
data_string node key = elim (get key node.config) [
  | some (string s) ↦ filled (trim (codes s))
  | _ ↦ none
]

unfoldable pub data_i64 : WorkflowNode → String → Option ℤ
data_i64 node key = elim (get key node.config) [ none ↦ none | some v ↦ value_i64 v ]

unfoldable pub is_missing : Option (List ℕ) → Bool
is_missing none = true
is_missing (some t) = false

unfoldable pub is_longer : ℕ → Option (List ℕ) → Bool
is_longer limit none = false
is_longer limit (some t) = ltb limit (utf8_len t)

unfoldable pub or_default : {A : Type 0} → A → Option A → A
or_default d none = d
or_default d (some a) = a

unfoldable pub in_frame : ℤ → Bool
in_frame n = leb_ℤ (pos 256) n && leb_ℤ n (pos 3840)

unfoldable pub is_odd : ℤ → Bool
is_odd (pos n) = not (n % 2 == 0)
is_odd (negsuc n) = n % 2 == 0

-- `as_f64` is the reading of `serde_json`, whose numbers are finite.
module _ (as_f64 : Value → Option F64) where
  unfoldable pub data_f64 : WorkflowNode → String → Option F64
  data_f64 node key = elim (get key node.config) [ none ↦ none | some v ↦ as_f64 v ]

  unfoldable pub check_trim : WorkflowNode → Option ConfigError
  check_trim node =
      let minus_one : F64 = negsuc (2 ^ 1074 - 1) in
      let start = or_default minus_one (data_f64 node "start") in
      let end = or_default minus_one (data_f64 node "end") in
      if ltb_ℤ start (f64 0) || leb_ℤ end start || ltb_ℤ (f64 21_600) end
      then some bad_trim
      else none

  unfoldable pub check_merge : WorkflowNode → Option ConfigError
  check_merge node =
      let width = or_default (pos 1280) (data_i64 node "width") in
      let height = or_default (pos 720) (data_i64 node "height") in
      if not (in_frame width) || not (in_frame height) || is_odd width || is_odd height
      then some bad_output
      else none

  unfoldable pub check_image : WorkflowNode → Option ConfigError
  check_image node =
      let model = data_string node "model" in
      let prompt = data_string node "prompt" in
      if is_missing model || is_missing prompt
      then some missing_text
      else if is_longer 255 model || is_longer 50_000 prompt
      then some too_long
      else none

  unfoldable pub check_video : WorkflowNode → Option ConfigError
  check_video node =
      let model = data_string node "model" in
      let prompt = data_string node "prompt" in
      let size = data_string node "size" in
      if is_missing model
        || is_missing prompt
        || is_missing size
        || leb_ℤ (or_default (pos 0) (data_i64 node "seconds")) (pos 0)
      then some missing_text
      else if is_longer 255 model || is_longer 50_000 prompt || is_longer 64 size
      then some too_long
      else none

  -- `none` is `Ok(())`.
  unfoldable pub validate_node_config : WorkflowNode → Option ConfigError
  validate_node_config node =
      if str_eq node.node_type "image_generation"
      then check_image node
      else if str_eq node.node_type "video_generation"
      then check_video node
      else if str_eq node.node_type "video_trim"
      then check_trim node
      else if str_eq node.node_type "video_merge"
      then check_merge node
      else some unknown_type

unfoldable pub is_id_char : ℕ → Bool
is_id_char c =
    is_digit c || leb b'a' c && leb c b'z' || leb b'A' c && leb c b'Z' || c == b'-' || c == b'_'

unfoldable pub is_node_id : List ℕ → Bool
is_node_id [] = false
is_node_id (c ∷ cs) = leb (utf8_len (c ∷ cs)) 96 && all is_id_char (c ∷ cs)
