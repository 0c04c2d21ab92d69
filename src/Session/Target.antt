-- ===== src/Session/Target.antt =====
-- `Target` of src/agent_session.rs: where the tools of a session run.
use yunova.Base.{◌≡◌, refl, Option, none, some, String, if◌then◌else◌}
use text.Mathlib.Text.{◌==◌ as str_eq}

pub data Target : Type 0 where
  cloud device : Target

unfoldable pub as_str : Target → String
as_str cloud = "cloud"
as_str device = "device"

unfoldable pub parse : String → Option Target
parse s = if str_eq s "cloud" then some cloud else if str_eq s "device" then some device else none

-- A target that is stored is read back.
pub parse_stored : (t : Target) → parse (as_str t) ≡ some t
unfolding parse as_str
parse_stored cloud = refl
parse_stored device = refl
