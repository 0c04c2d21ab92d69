-- ===== src/Session/Once.antt =====
-- The replies for a command.
use yunova.Base.{
  ℕ, suc, ◌+◌, ◌%◌, ◌^◌, ◌<◌, subst, ◌≤◌, ◌≡◌, refl, Bool, true, false, Option, none, some, List,
  [], ◌∷◌, ◌++◌, String, if◌then◌else◌, ◌==◌, ltb, arith, inl, inr, Bool-cases,
}
use yunova.Usage.Json.{Value}
use yunova.Session.{
  LiveSession, Reply, new, count_id, remove_id, count_key, register, forget, deliver, ask, emit,
  resolve_approval, set_close_reason, closed_reason, fail_all, fail_inflight, finish,
}
use yunova.Session.Steps.{Step, Reach, total, registrations}

-- The replies for a command.
abbrev pub count_replies : ℕ → List (ℕ × Reply) → ℕ
count_replies id [] = 0
count_replies id (r ∷ rs) = let rest = count_replies id rs in if r.0 == id then suc rest else rest

-- Its replies and its waiters.
abbrev pub occurs : ℕ → LiveSession → ℕ
occurs id s = count_id id s.inflight + count_replies id s.replies

count_remove_id :
    (id j : ℕ) (js : List ℕ)
    → count_id id (remove_id j js) ≡ (if j == id then 0 else count_id id js)
count_remove_id id j [] = ground arith
count_remove_id id j (k ∷ ks) = ground (arith, count_remove_id id j ks)

count_fail_all :
    (id : ℕ) (reason : String) (ids : List ℕ) (rs : List (ℕ × Reply))
    → count_replies id (fail_all reason ids ++ rs) ≡ count_id id ids + count_replies id rs
unfolding fail_all
count_fail_all id reason [] rs = omega arith
count_fail_all id reason (j ∷ js) rs = ground (arith, count_fail_all id reason js rs)

-- After `k` commands the counter is one more, no id above `k` occurs, and none occurs twice.
pub record IsOnce (k : ℕ) (s : LiveSession) : Type 0 where
  pub counter : s.next_id ≡ (k + 1) % 2 ^ 64
  pub fresh : (id : ℕ) → k < id → occurs id s ≡ 0
  pub once : (id : ℕ) → occurs id s ≤ 1

IsOnce-register :
    (k : ℕ) (s : LiveSession) → k + 1 < 2 ^ 64 → IsOnce k s → IsOnce (k + 1) (register s).1
unfolding register
IsOnce-register k s bound h =
    let next : s.next_id ≡ k + 1 = omega (arith, h.counter, bound) in
    record {
      counter = omega (arith, next, bound);
      fresh = λ id a. ground (arith, next, h.fresh id, count_remove_id id s.next_id s.inflight);
      once = λ id.
          ground (arith, next, h.once id, h.fresh id, count_remove_id id s.next_id s.inflight);
    }

IsOnce-forget : (k id : ℕ) (s : LiveSession) → IsOnce k s → IsOnce k (forget id s)
unfolding forget
IsOnce-forget k j s h = record {
  counter = h.counter;
  fresh = λ id a. ground (arith, h.fresh id, count_remove_id id j s.inflight);
  once = λ id. ground (arith, h.once id, count_remove_id id j s.inflight);
}

IsOnce-deliver :
    (k : ℕ) (id : Option ℕ) (v : Value) (s : LiveSession) → IsOnce k s → IsOnce k (deliver id v s)
unfolding deliver
IsOnce-deliver k none v s h = h
IsOnce-deliver k (some j) v s h = elim (Bool-cases (ltb 0 (count_id j s.inflight))) [
  | inr absent ↦ rw absent h
  | inl waits ↦ rw waits (record {
    counter = h.counter;
    fresh = λ id a. ground (arith, waits, h.fresh id, count_remove_id id j s.inflight);
    once = λ id. ground (arith, waits, h.once id, count_remove_id id j s.inflight);
  })
]

IsOnce-finish : (k : ℕ) (s : LiveSession) → IsOnce k s → IsOnce k (finish s)
unfolding finish fail_inflight emit
IsOnce-finish k s h = record {
  counter = h.counter;
  fresh =
      λ id a. omega (arith, h.fresh id a, count_fail_all id (closed_reason s) s.inflight s.replies);
  once = λ id. omega (arith, h.once id, count_fail_all id (closed_reason s) s.inflight s.replies);
}

-- A step that touches neither commands nor replies.
IsOnce-same :
    (k : ℕ) (s t : LiveSession)
    → t.next_id ≡ s.next_id
    → t.inflight ≡ s.inflight
    → t.replies ≡ s.replies
    → IsOnce k s
    → IsOnce k t
IsOnce-same k s t n i r h = record {
  counter = omega (arith, n, h.counter);
  fresh = λ id a. rw (i, r) (h.fresh id a);
  once = λ id. rw (i, r) (h.once id);
}

IsOnce-resolve_approval :
    (k : ℕ) (id : String) (sent : Bool) (s : LiveSession)
    → IsOnce k s
    → IsOnce k (resolve_approval id sent s).1
unfolding resolve_approval
IsOnce-resolve_approval k id sent s h = elim (Bool-cases (ltb 0 (count_key id s.approvals))) [
  | inl y ↦ rw y (IsOnce-same k s _ refl refl refl h)
  | inr n ↦ rw n h
]

IsOnce-ask :
    (k : ℕ) (id : String) (blocking : Bool) (raw : Value) (s : LiveSession)
    → IsOnce k s
    → IsOnce k (ask id blocking raw s)
unfolding ask
IsOnce-ask k id true raw s h = IsOnce-same k s _ refl refl refl h
IsOnce-ask k id false raw s h = IsOnce-same k s _ refl refl refl h

IsOnce-set_close_reason :
    (k : ℕ) (r : String) (s : LiveSession) → IsOnce k s → IsOnce k (set_close_reason r s)
unfolding set_close_reason
IsOnce-set_close_reason k r s h =
    IsOnce-same k s (set_close_reason r s) (ground arith) (ground arith) (ground arith) h

same_count : (k : ℕ) (s : LiveSession) → IsOnce k s → IsOnce (k + 0) s
same_count k s = subst (λ n. IsOnce n s) (let e : k ≡ k + 0 = omega arith in e)

IsOnce-Step :
    (k : ℕ) {s t : LiveSession} (step : Step s t)
    → k + registrations s t step < 2 ^ 64
    → IsOnce k s
    → IsOnce (k + registrations s t step) t
unfolding emit
IsOnce-Step k (Step.registers {s = s}) b h = IsOnce-register k s b h
IsOnce-Step k (Step.forgets {s = s} id) b h = same_count k _ (IsOnce-forget k id s h)
IsOnce-Step k (Step.delivers {s = s} id v) b h = same_count k _ (IsOnce-deliver k id v s h)
IsOnce-Step k (Step.asks {s = s} id w raw) b h = same_count k _ (IsOnce-ask k id w raw s h)
IsOnce-Step k (Step.emits {s = s} event) b h = same_count k _ (IsOnce-same k s _ refl refl refl h)
IsOnce-Step k (Step.resolves {s = s} id sent) b h =
    same_count k _ (IsOnce-resolve_approval k id sent s h)
IsOnce-Step k (Step.sets_reason {s = s} r) b h = same_count k _ (IsOnce-set_close_reason k r s h)
IsOnce-Step k (Step.finishes {s = s}) b h = same_count k _ (IsOnce-finish k s h)

IsOnce-new : IsOnce 0 new
unfolding new
IsOnce-new = record { counter = refl; fresh = λ id a. refl; once = λ id. omega arith }

IsOnce-Reach :
    (s : LiveSession) (r : Reach new s)
    → total registrations new s r < 2 ^ 64
    → IsOnce (total registrations new s r) s
unfolding total
IsOnce-Reach _ Reach.here b = IsOnce-new
IsOnce-Reach s (Reach.then {t = t} r step) b =
    IsOnce-Step (total registrations new t r) step b (IsOnce-Reach t r (omega arith))

-- In every state that a new session reaches, in any order of steps with fewer than 2 ^ 64 commands, so
-- that the counter has not come round, a command has one reply at most, and none while it still waits.
pub replied_once :
    (s : LiveSession) (id : ℕ) (r : Reach new s)
    → total registrations new s r < 2 ^ 64
    → occurs id s ≤ 1
replied_once s id r bound = (IsOnce-Reach s r bound).once id
