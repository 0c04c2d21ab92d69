-- ===== src/Approval.antt =====
-- src/agent_approval.rs: which tools of an agent stop for a human.
use yunova.Base.{
  ℕ, ◌≡◌, refl, Bool, false, ◌||◌, Option, none, some, List, [], ◌∷◌, any, String, if◌then◌else◌,
  ltb, arith,
}
use text.Mathlib.Text.{◌==◌ as str_eq}
use yunova.Base.Text.{codes, same, trim, to_ascii_lowercase}

pub data ApprovalMode : Type 0 where
  always commands never : ApprovalMode

-- The text is one of these words.
unfoldable pub is_one_of : List ℕ → List String → Bool
is_one_of s [] = false
is_one_of s (w ∷ ws) = same s (codes w) || is_one_of s ws

unfoldable pub parse_word : List ℕ → Option ApprovalMode
unfolding is_one_of
parse_word s =
    if is_one_of s ("always" ∷ "ask" ∷ "0" ∷ "off" ∷ "false" ∷ "no" ∷ [])
    then some always
    else if is_one_of s ("commands" ∷ "command" ∷ "shell" ∷ [])
    then some commands
    else if is_one_of s ("never" ∷ "auto" ∷ "1" ∷ "on" ∷ "true" ∷ "yes" ∷ [])
    then some never
    else none

unfoldable pub parse : List ℕ → Option ApprovalMode
parse raw = parse_word (to_ascii_lowercase (trim raw))

unfoldable pub gated : ApprovalMode → List String
gated always = "bash" ∷ "powershell" ∷ "write" ∷ "edit" ∷ []
gated commands = "bash" ∷ "powershell" ∷ []
gated never = []

unfoldable pub as_str : ApprovalMode → String
as_str always = "always"
as_str commands = "commands"
as_str never = "never"

unfoldable pub strictness : ApprovalMode → ℕ
strictness never = 0
strictness commands = 1
strictness always = 2

unfoldable pub strictest : ApprovalMode → ApprovalMode → ApprovalMode
strictest self other = if ltb (strictness self) (strictness other) then other else self

-- A call of this tool stops for a human.
abbrev pub is_gated : String → ApprovalMode → Bool
is_gated tool mode = any (str_eq tool) (gated mode)

-- The stricter of two modes stops exactly the tools that one of them stops.
strictest_gates :
    (tool : String) (a b : ApprovalMode)
    → is_gated tool (strictest a b) ≡ (is_gated tool a || is_gated tool b)
unfolding strictest strictness gated
strictest_gates tool always always = ground arith
strictest_gates tool always commands = ground arith
strictest_gates tool always never = ground arith
strictest_gates tool commands always = ground arith
strictest_gates tool commands commands = ground arith
strictest_gates tool commands never = ground arith
strictest_gates tool never always = ground arith
strictest_gates tool never commands = ground arith
strictest_gates tool never never = ground arith

-- The wire spelling of a mode is read back as that mode.
parse-as_str : (mode : ApprovalMode) → parse (codes (as_str mode)) ≡ some mode
unfolding parse parse_word as_str trim to_ascii_lowercase same
parse-as_str always = refl
parse-as_str commands = refl
parse-as_str never = refl
