-- ===== src/Session/Steps.antt =====
-- The steps of a live session in any order.
use yunova.Base.{ℕ, ◌+◌, Bool, true, false, ◌&&◌, Option, String, if◌then◌else◌}
use text.Mathlib.Text.{◌==◌ as str_eq}
use yunova.Usage.Json.{Value}
use yunova.Session.{
  LiveSession, SessionEvent, register, forget, deliver, ask, emit, resolve_approval,
  set_close_reason, finish, Resolution, resolved, already_handled, not_sent,
}

pub data Step : LiveSession → LiveSession → Type 0 where
  registers : {s : LiveSession} → Step s (register s).1
  forgets : {s : LiveSession} (id : ℕ) → Step s (forget id s)
  delivers : {s : LiveSession} (id : Option ℕ) (v : Value) → Step s (deliver id v s)
  asks :
      {s : LiveSession} (id : String) (blocking : Bool) (raw : Value)
      → Step s (ask id blocking raw s)
  emits : {s : LiveSession} (event : SessionEvent) → Step s (emit event s)
  resolves : {s : LiveSession} (id : String) (sent : Bool) → Step s (resolve_approval id sent s).1
  sets_reason : {s : LiveSession} (reason : String) → Step s (set_close_reason reason s)
  finishes : {s : LiveSession} → Step s (finish s)

-- Any number of steps.
pub data Reach : LiveSession → LiveSession → Type 0 where
  here : {s : LiveSession} → Reach s s
  then : {s t u : LiveSession} → Reach s t → Step t u → Reach s u

-- The sum of a number for each step.
unfoldable pub total : ((s t : LiveSession) → Step s t → ℕ) → (s t : LiveSession) → Reach s t → ℕ
total f _ _ Reach.here = 0
total f s u (Reach.then {t = t} r step) = total f s t r + f t u step

-- One for a command that is sent.
abbrev pub registrations : (s t : LiveSession) → Step s t → ℕ
registrations _ _ Step.registers = 1
registrations _ _ _ = 0

-- One for a dialog under this key that waits for an answer.
abbrev pub askings : String → (s t : LiveSession) → Step s t → ℕ
askings key _ _ (Step.asks id blocking raw) = if blocking && str_eq id key then 1 else 0
askings key _ _ _ = 0

abbrev pub is_taken : Resolution → Bool
is_taken resolved = true
is_taken not_sent = true
is_taken already_handled = false

-- One for an answer under this key that is not told that the dialog is handled already.
abbrev pub takings : String → (s t : LiveSession) → Step s t → ℕ
takings key s _ (Step.resolves id sent) =
    if str_eq id key && is_taken (resolve_approval id sent s).0 then 1 else 0
takings key _ _ _ = 0
