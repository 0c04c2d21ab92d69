-- ===== src/Session/Approvals.antt =====
-- The answers to a dialog.
use yunova.Base.{
  ℕ, ◌+◌, ◌≤◌, min, ◌≡◌, refl, Bool, true, false, Option, none, some, List, [], ◌∷◌, String,
  if◌then◌else◌, ltb, arith, inl, inr, Bool-cases, eq_iff, subst,
}
use text.Mathlib.Text.{◌==◌ as str_eq}
use yunova.Usage.Json.{Value}
use yunova.Session.{
  LiveSession, new, count_key, remove_key, register, forget, deliver, ask, emit, resolve_approval,
  set_close_reason, fail_inflight, finish,
}
use yunova.Session.Steps.{Step, Reach, total, askings, takings}

-- After a run that asked a dialog `n` times and took `m` answers to it: it was handed to the transport
-- once for each answer taken; an asking is behind each of them, and behind its waiting; and where it was
-- asked, there is an answer taken, or it waits.
record IsAsked (key : String) (n m : ℕ) (s : LiveSession) : Type 0 where
  handed : count_key key s.answered ≡ m
  asked : m + count_key key s.approvals ≤ n
  kept : min 1 n ≤ m + count_key key s.approvals

count_remove_key :
    (key k : String) (ks : List String)
    → count_key key (remove_key k ks) ≡ (if str_eq k key then 0 else count_key key ks)
count_remove_key key k [] = ground arith
count_remove_key key k (j ∷ js) =
    ground (arith, count_remove_key key k js, eq_iff j k, eq_iff k key, eq_iff j key)

IsAsked-same :
    (key : String) (n m : ℕ) (s t : LiveSession)
    → t.answered ≡ s.answered
    → t.approvals ≡ s.approvals
    → IsAsked key n m s
    → IsAsked key (n + 0) (m + 0) t
IsAsked-same key n m s t a p h = record {
  handed = rw a (omega (arith, h.handed));
  asked = rw p (omega (arith, h.asked));
  kept = rw p (omega (arith, h.kept));
}

module _ (key : String) (n m : ℕ) (s : LiveSession) (h : IsAsked key n m s) where
  IsAsked-ask :
      (id : String) (blocking : Bool) (raw : Value)
      → IsAsked key
          (n + askings key s (ask id blocking raw s) (Step.asks id blocking raw))
          (m + 0)
          (ask id blocking raw s)
  unfolding ask
  IsAsked-ask id true raw = record {
    handed = omega (arith, h.handed);
    asked = ground (arith, h.asked, count_remove_key key id s.approvals);
    kept = ground (arith, h.kept, count_remove_key key id s.approvals);
  }
  IsAsked-ask id false raw = IsAsked-same key n m s _ refl refl h

  IsAsked-resolve_approval :
      (id : String) (sent : Bool)
      → IsAsked key
          (n + 0)
          (m + takings key s (resolve_approval id sent s).1 (Step.resolves id sent))
          (resolve_approval id sent s).1
  unfolding resolve_approval
  IsAsked-resolve_approval id sent = elim (Bool-cases (ltb 0 (count_key id s.approvals))) [
    | inr gone ↦ rw gone (record {
      handed = ground (arith, h.handed);
      asked = ground (arith, h.asked);
      kept = ground (arith, h.kept);
    })
    | inl waits ↦ rw waits (elim (Bool-cases (str_eq id key)) [
      | inl e ↦
          let same : id ≡ key = ground (arith, eq_iff id key) in
          let here : ltb 0 (count_key key s.approvals) ≡ true =
            subst (λ k. ltb 0 (count_key k s.approvals) ≡ true) same waits in
          record {
            handed = ground (arith, e, h.handed);
            asked = ground (arith, e, here, h.asked, count_remove_key key id s.approvals);
            kept = ground (arith, e, h.kept);
          }
      | inr d ↦ record {
        handed = ground (arith, d, h.handed);
        asked = ground (arith, d, h.asked, count_remove_key key id s.approvals);
        kept = ground (arith, d, h.kept, count_remove_key key id s.approvals);
      }
    ])
  ]

  IsAsked-deliver : (id : Option ℕ) (v : Value) → IsAsked key (n + 0) (m + 0) (deliver id v s)
  unfolding deliver
  IsAsked-deliver none v = IsAsked-same key n m s _ refl refl h
  IsAsked-deliver (some j) v = IsAsked-same key n m s _ (ground arith) (ground arith) h

  IsAsked-Step :
      {t : LiveSession} (step : Step s t)
      → IsAsked key (n + askings key s t step) (m + takings key s t step) t
  unfolding register forget emit fail_inflight finish set_close_reason
  IsAsked-Step Step.registers = IsAsked-same key n m s _ refl refl h
  IsAsked-Step (Step.forgets id) = IsAsked-same key n m s _ refl refl h
  IsAsked-Step (Step.delivers id v) = IsAsked-deliver id v
  IsAsked-Step (Step.asks id b raw) = IsAsked-ask id b raw
  IsAsked-Step (Step.emits event) = IsAsked-same key n m s _ refl refl h
  IsAsked-Step (Step.resolves id sent) = IsAsked-resolve_approval id sent
  IsAsked-Step (Step.sets_reason r) = IsAsked-same key n m s _ (ground arith) (ground arith) h
  IsAsked-Step Step.finishes = IsAsked-same key n m s _ refl refl h

IsAsked-new : (key : String) → IsAsked key 0 0 new
unfolding new
IsAsked-new key = record { handed = refl; asked = omega arith; kept = omega arith }

IsAsked-Reach :
    (key : String) (s : LiveSession) (r : Reach new s)
    → IsAsked key (total (askings key) new s r) (total (takings key) new s r) s
unfolding total
IsAsked-Reach key _ Reach.here = IsAsked-new key
IsAsked-Reach key s (Reach.then {t = t} r step) =
    IsAsked-Step key (total (askings key) new t r) (total (takings key) new t r) t
      (IsAsked-Reach key t r) step

-- In any order of steps from a new session, the answers taken for a dialog are the calls of
-- `resolve_approval` under its key that are not told that it is handled already. They, and one more while
-- the dialog waits, are at most as many as the times it was asked, and at least one if it was asked at all:
-- a dialog that is asked once either waits or has taken just one answer. The transport was handed one
-- answer for each one taken.
pub answered_once :
    (s : LiveSession) (key : String) (r : Reach new s)
    → let taken = total (takings key) new s r in
      let asked = total (askings key) new s r in
      (taken + count_key key s.approvals ≤ asked)
      × (min 1 asked ≤ taken + count_key key s.approvals)
      × (count_key key s.answered ≡ taken)
answered_once s key r = let h = IsAsked-Reach key s r in (h.asked, h.kept, h.handed)
