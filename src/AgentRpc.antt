-- ===== src/AgentRpc.antt =====
-- src/agent_rpc.rs: the framing of JSON records, commands, and the classes of frames. `parse` is
-- `serde_json::from_str`, and `print` is `serde_json::to_string`, whose failure is `none`.
pub mod Lossless
pub mod Stream
use yunova.Base.{
  ℕ, zero, suc, Bool, true, false, ◌||◌, Option, none, some, List, [], ◌∷◌, ◌++◌, String,
  if◌then◌else◌, ◌==◌, length, any,
}
use text.Mathlib.Text.{◌==◌ as str_eq}
use yunova.Base.Text.{codes, trim, split_once}
use yunova.Usage.Json.{
  Value, Items, Fields, string, boolean, array, obj, nil, cons, end, field, null, number,
  other_number, get,
}

-- What was received and not yet ended by a line feed.
pub record JsonlDecoder : Type 0 where
  pub buffer : List ℕ

unfoldable pub new : JsonlDecoder
new = record { buffer = [] }

-- A trailing `\r` is stripped.
unfoldable pub without_cr : List ℕ → List ℕ
without_cr [] = []
without_cr (c ∷ []) = if c == 13 then [] else c ∷ []
without_cr (c ∷ d ∷ cs) = c ∷ without_cr (d ∷ cs)

abbrev pub is_blank : List ℕ → Bool
is_blank cs = length (trim cs) == 0

abbrev pub parsed_list : Option Value → List Value
parsed_list none = []
parsed_list (some v) = v ∷ []

module _ (parse : List ℕ → Option Value) where
  -- The value of a line, if it has one.
  unfoldable pub record_of : List ℕ → List Value
  record_of l = if is_blank (without_cr l) then [] else parsed_list (parse (without_cr l))

  -- The loop of `push`, with fuel for each line: the values, and what is left of the buffer.
  unfoldable pub drain : ℕ → List ℕ → List Value × List ℕ
  drain zero buffer = ([], buffer)
  drain (suc fuel) buffer = elim (split_once 10 buffer) [
    | none ↦ ([], buffer)
    | some (l, rest) ↦ let (more, left) = drain fuel rest in (record_of l ++ more, left)
  ]

  unfoldable pub push : JsonlDecoder → List ℕ → List Value × JsonlDecoder
  push d chunk =
      let buffer = d.buffer ++ chunk in
      let (values, left) = drain (length buffer) buffer in (values, record { buffer = left })

  unfoldable pub push_all : JsonlDecoder → List (List ℕ) → List Value × JsonlDecoder
  push_all d [] = ([], d)
  push_all d (chunk ∷ chunks) =
      let (values, next) = push d chunk in
      let (more, last) = push_all next chunks in (values ++ more, last)

abbrev pub or_braces : Option (List ℕ) → List ℕ
or_braces none = codes "{}"
or_braces (some cs) = cs

unfoldable pub encode : (Value → Option (List ℕ)) → Value → List ℕ
encode print command = or_braces (print command) ++ 10 ∷ []

-- The commands.
abbrev with_field : String → Option String → Fields → Fields
with_field k none fs = fs
with_field k (some s) fs = field k (string s) fs

abbrev pub cmd : String → String → Fields → Value
cmd id kind fs = obj (field "id" (string id) (field "type" (string kind) fs))

abbrev pub cmd_prompt : String → String → Option String → Value
cmd_prompt id message streaming_behavior =
    cmd id "prompt"
      (field "message" (string message) (with_field "streamingBehavior" streaming_behavior end))

abbrev pub cmd_abort : String → Value
cmd_abort id = cmd id "abort" end

abbrev pub cmd_set_model : String → String → String → Value
cmd_set_model id provider model_id =
    cmd id "set_model" (field "provider" (string provider) (field "modelId" (string model_id) end))

abbrev pub thinking_levels : List String
thinking_levels = "off" ∷ "minimal" ∷ "low" ∷ "medium" ∷ "high" ∷ "xhigh" ∷ "max" ∷ []

unfoldable pub is_thinking_level : String → Bool
is_thinking_level level = any (λ l. str_eq l level) thinking_levels

abbrev pub cmd_set_thinking_level : String → String → Value
cmd_set_thinking_level id level = cmd id "set_thinking_level" (field "level" (string level) end)

abbrev pub cmd_get_available_thinking_levels : String → Value
cmd_get_available_thinking_levels id = cmd id "get_available_thinking_levels" end

-- `Value::as_str`, `Value::as_bool` and `Value::as_array` of a member, and their defaults.
unfoldable pub value_str : Option Value → Option String
value_str (some (string s)) = some s
value_str _ = none

unfoldable pub value_bool : Option Value → Option Bool
value_bool (some (boolean b)) = some b
value_bool _ = none

unfoldable pub value_items : Option Value → Items
value_items (some (array xs)) = xs
value_items _ = nil

abbrev pub or_default : String → Option String → String
or_default d none = d
or_default d (some s) = s

abbrev pub or_false : Option Bool → Bool
or_false none = false
or_false (some b) = b

keep_level : Option String → List String → List String
keep_level none ls = ls
keep_level (some l) ls = if is_thinking_level l then l ∷ ls else ls

unfoldable pub levels_of : Items → List String
unfolding keep_level
levels_of nil = []
levels_of (cons v vs) = keep_level (value_str (some v)) (levels_of vs)

unfoldable pub parse_thinking_levels : Value → List String
parse_thinking_levels v = levels_of (value_items (get "levels" v))

abbrev pub cmd_get_entries : String → Option String → Value
cmd_get_entries id since = cmd id "get_entries" (with_field "since" since end)

abbrev ui_response : String → Fields → Value
ui_response id fs = obj (field "type" (string "extension_ui_response") (field "id" (string id) fs))

abbrev pub extension_ui_value : String → String → Value
extension_ui_value id value = ui_response id (field "value" (string value) end)

abbrev pub extension_ui_confirm : String → Bool → Value
extension_ui_confirm id confirmed = ui_response id (field "confirmed" (boolean confirmed) end)

abbrev pub extension_ui_cancel : String → Value
extension_ui_cancel id = ui_response id (field "cancelled" (boolean true) end)

pub data Inbound : Type 0 where
  response : Option String → String → Bool → Option String → Option Value → Inbound
  ui_request : String → String → Bool → Value → Inbound
  event : String → Value → Inbound

unfoldable pub is_blocking_ui : String → Bool
is_blocking_ui method =
    str_eq method "select"
    || str_eq method "confirm"
    || str_eq method "input"
    || str_eq method "editor"

abbrev pub str_of : String → Value → Option String
str_of k v = value_str (get k v)

unfoldable pub classify : Value → Inbound
classify frame =
    let ty = or_default "" (str_of "type" frame) in
    let method = or_default "" (str_of "method" frame) in
    if str_eq ty "response"
    then response (str_of "id" frame) (or_default "" (str_of "command" frame))
        (or_false (value_bool (get "success" frame))) (str_of "error" frame) (get "data" frame)
    else if str_eq ty "extension_ui_request"
    then ui_request (or_default "" (str_of "id" frame)) method (is_blocking_ui method) frame
    else event ty frame

unfoldable pub is_settled : String → Bool
is_settled kind = str_eq kind "agent_settled"

pub record MirroredEntry : Type 0 where
  pub entry_id : String
  pub parent_id : Option String
  pub kind : String
  pub payload : Value

keep_entry : Option String → Value → List MirroredEntry → List MirroredEntry
keep_entry none v es = es
keep_entry (some id) v es =
    record {
      entry_id = id;
      parent_id = str_of "parentId" v;
      kind = or_default "message" (str_of "type" v);
      payload = v;
    }
    ∷ es

unfoldable pub entries_of : Items → List MirroredEntry
unfolding keep_entry
entries_of nil = []
entries_of (cons v vs) = keep_entry (str_of "id" v) v (entries_of vs)

unfoldable pub parse_entries : Value → List MirroredEntry
parse_entries v = entries_of (value_items (get "entries" v))
