-- ===== src/Tests/Session.antt =====
-- Examples of a session that two devices answer.
use yunova.Base.{◌≡◌, ◌≤◌, ◌<◌, ◌^◌, ◌+◌, min, arith, refl, true, some}
use yunova.Usage.Json.{null}
use yunova.Session.{
  LiveSession, new, count_key, register, deliver, ask, resolve_approval, set_close_reason, finish,
  resolved, already_handled,
}
use yunova.Session.Steps.{Step, Reach, total, takings, askings, registrations}
use yunova.Session.Once.{occurs, replied_once}
use yunova.Session.Approvals.{answered_once}

-- A command is sent and answered twice; the runtime then ends.
abbrev replied : LiveSession
replied = finish (deliver (some 1) null (deliver (some 1) null (register new).1))

abbrev replied_run : Reach new replied
replied_run =
    Reach.then
      (Reach.then (Reach.then (Reach.then Reach.here Step.registers) (Step.delivers (some 1) null))
        (Step.delivers (some 1) null))
      Step.finishes

few_commands : total registrations new replied replied_run < 2 ^ 64
unfolding total
few_commands = omega arith

replied_once_example : occurs 1 replied ≤ 1
replied_once_example = replied_once replied 1 replied_run few_commands

-- A dialog that two devices answer.
abbrev raced : LiveSession
raced = (resolve_approval "d1" true (resolve_approval "d1" true (ask "d1" true null new)).1).1

abbrev raced_run : Reach new raced
raced_run =
    Reach.then
      (Reach.then (Reach.then Reach.here (Step.asks "d1" true null)) (Step.resolves "d1" true))
      (Step.resolves "d1" true)

answered_once_example :
    let taken = total (takings "d1") new raced raced_run in
    let asked = total (askings "d1") new raced raced_run in
    (taken + count_key "d1" raced.approvals ≤ asked)
    × (min 1 asked ≤ taken + count_key "d1" raced.approvals)
    × (count_key "d1" raced.answered ≡ taken)
answered_once_example = answered_once raced "d1" raced_run

-- The first device is told that the dialog is resolved, the second that it is handled already.
second_refused :
    let first = resolve_approval "d1" true (ask "d1" true null new) in
    (first.0 ≡ resolved) × ((resolve_approval "d1" true first.1).0 ≡ already_handled)
unfolding resolve_approval ask new
second_refused = (refl, refl)

abbrev ended : LiveSession
ended = set_close_reason "out of time" new

ended_reason : ended.close_reason ≡ some "out of time"
unfolding set_close_reason new
ended_reason = refl
