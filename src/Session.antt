-- ===== src/Session.antt =====
-- The live session of src/agent_session.rs: waiting commands, pending approvals and what subscribers
-- see. The correlation id `s{session}-{n}` is the number n; maps are lists of their keys. Each
-- operation is one step: what it holds a lock for is atomic, and the rest of it touches no other
-- map. `replies` and `answered` record what waiters got, and the dialogs whose answers were handed to
-- the transport.
pub mod Steps
pub mod Once
pub mod Approvals
pub mod Reason
pub mod Target
use yunova.Base.{
  ℕ, suc, ◌+◌, ◌%◌, ◌^◌, Bool, true, false, not, Option, none, some, List, [], ◌∷◌, ◌++◌, map,
  String, if◌then◌else◌, ◌==◌, ltb,
}
use text.Mathlib.Text.{◌==◌ as str_eq}
use yunova.Usage.Json.{Value}

-- `SessionEvent`
pub data SessionEvent : Type 0 where
  frame : Value → SessionEvent
  approval_resolved : String → SessionEvent
  settled : SessionEvent
  closed : String → SessionEvent

-- An answer of the runtime, or the failure that stands for one.
pub data Reply : Type 0 where
  response : Value → Reply
  failed : String → Reply

pub record LiveSession : Type 0 where
  pub next_id : ℕ
  pub inflight : List ℕ
  pub approvals : List String
  pub close_reason : Option String
  pub events : List SessionEvent
  pub replies : List (ℕ × Reply)
  pub answered : List String

-- The session that `attach` makes.
unfoldable pub new : LiveSession
new = record {
  next_id = 1;
  inflight = [];
  approvals = [];
  close_reason = none;
  events = [];
  replies = [];
  answered = [];
}

abbrev pub count_id : ℕ → List ℕ → ℕ
count_id id [] = 0
count_id id (j ∷ js) = let rest = count_id id js in if j == id then suc rest else rest

abbrev pub remove_id : ℕ → List ℕ → List ℕ
remove_id id [] = []
remove_id id (j ∷ js) = let rest = remove_id id js in if j == id then rest else j ∷ rest

abbrev pub count_key : String → List String → ℕ
count_key key [] = 0
count_key key (k ∷ ks) = let rest = count_key key ks in if str_eq k key then suc rest else rest

abbrev pub remove_key : String → List String → List String
remove_key key [] = []
remove_key key (k ∷ ks) = let rest = remove_key key ks in if str_eq k key then rest else k ∷ rest

-- `request` up to the send: a new id with its waiter. The counter of 64 bits wraps around, and a waiter
-- that has the id already is replaced.
unfoldable pub register : LiveSession → ℕ × LiveSession
register s = (
  s.next_id,
  record s {
    next_id = (s.next_id + 1) % 2 ^ 64;
    inflight = s.next_id ∷ remove_id s.next_id s.inflight;
  },
)

-- `request` where the send fails or the time is over.
unfoldable pub forget : ℕ → LiveSession → LiveSession
forget id s = record s { inflight = remove_id id s.inflight }

-- A response frame in the loop of `attach`.
unfoldable pub deliver : Option ℕ → Value → LiveSession → LiveSession
deliver none v s = s
deliver (some id) v s =
    if ltb 0 (count_id id s.inflight)
    then record s { inflight = remove_id id s.inflight; replies = (id, response v) ∷ s.replies }
    else s

-- A dialog in the loop of `attach`: only a blocking one waits for an answer.
unfoldable pub ask : String → Bool → Value → LiveSession → LiveSession
ask id blocking raw s =
    if blocking
    then record s { approvals = id ∷ remove_key id s.approvals; events = frame raw ∷ s.events }
    else record s { events = frame raw ∷ s.events }

-- Another frame in the loop of `attach`, and the end of the task that a settled one starts.
unfoldable pub emit : SessionEvent → LiveSession → LiveSession
emit event s = record s { events = event ∷ s.events }

-- The answer of `resolve_approval`: `Ok`, or one of its two errors.
pub data Resolution : Type 0 where
  resolved already_handled not_sent : Resolution

-- `sent` is the outcome of `notify`.
unfoldable pub resolve_approval : String → Bool → LiveSession → Resolution × LiveSession
resolve_approval id sent s =
    if ltb 0 (count_key id s.approvals)
    then (
      if sent then resolved else not_sent,
      record s {
        approvals = remove_key id s.approvals;
        answered = id ∷ s.answered;
        events = if sent then approval_resolved id ∷ s.events else s.events;
      },
    )
    else (already_handled, s)

-- First writer wins.
unfoldable pub set_close_reason : String → LiveSession → LiveSession
set_close_reason reason s = elim s.close_reason [
  | some old ↦ s
  | none ↦ record s { close_reason = some reason }
]

unfoldable pub closed_reason : LiveSession → String
closed_reason s = elim s.close_reason [ none ↦ "运行时已退出" | some r ↦ r ]

unfoldable pub fail_all : String → List ℕ → List (ℕ × Reply)
fail_all reason [] = []
fail_all reason (id ∷ ids) = (id, failed reason) ∷ fail_all reason ids

unfoldable pub fail_inflight : String → LiveSession → LiveSession
fail_inflight reason s = record s {
  inflight = [];
  replies = fail_all reason s.inflight ++ s.replies;
}

-- The end of the loop of `attach`, where the runtime is gone.
unfoldable pub finish : LiveSession → LiveSession
finish s = emit (closed (closed_reason s)) (fail_inflight (closed_reason s) s)
