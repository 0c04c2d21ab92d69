-- ===== src/Payments/Replay.antt =====
-- Notifications as a whole: authenticity and replays.
use yunova.Base.{
  ℕ, ◌≡◌, ◌≢◌, refl, sym, subst, Bool, true, false, Option, none, some, List, [], ◌∷◌, String,
  eq_iff, arith, inl, inr, Bool-cases,
}
use text.Mathlib.Text.{◌==◌ as str_eq}
use yunova.Base.Text.{codes}
use yunova.Schema.{Account, Order, LedgerRow}
use yunova.Db.{Env, Conn}
use yunova.Db.Rules.{IsStable, Keeps, pure-Keeps, bind-Keeps, if-Keeps}
use yunova.Quota.Accounts.Writes.{get_setting-Keeps, get_setting_bool-Keeps}
use yunova.Payments.{
  Params, param, Notice, fail, notice, verify, epay_sign, same_ignoring_case, or_empty,
  count_pending, is_pending, mark_paid, settle_notice, settle_if_any, process_notify,
}
use yunova.Payments.Settlement.{IsSettled, settle_notice-Keeps}

-- What the checks of a notification establish.
pub record IsAuthentic (md5 : List ℕ → List ℕ) (params : Params) (pid key : String) (n : Notice)
    : Type 0 where
  pub merchant : param "pid" params ≡ some pid
  pub configured : (pid ≢ "") × (key ≢ "")
  pub signature : String
  pub sent : param "sign" params ≡ some signature
  pub matches : same_ignoring_case (epay_sign md5 params key) (codes signature) ≡ true
  pub paid : param "trade_status" params ≡ some "TRADE_SUCCESS"
  pub order : param "out_trade_no" params ≡ some n.out_trade_no

success_status :
    (o : Option String) → str_eq (or_empty o) "TRADE_SUCCESS" ≡ true → o ≡ some "TRADE_SUCCESS"
success_status none h = ground (arith, eq_iff "" "TRADE_SUCCESS")
success_status (some v) h = ground (arith, eq_iff v "TRADE_SUCCESS")

-- Where the checks of a notification pass a notice on, its parameters name the configured merchant and
-- the order of the notice, the merchant and the key are not empty, the signature sent is that of the
-- parameters under the key, in any case, and the status is `TRADE_SUCCESS`.
pub verify-IsAuthentic :
    (md5 : List ℕ → List ℕ) (params : Params) (pid key : String) (n : Notice)
    → verify md5 params pid key ≡ some n
    → IsAuthentic md5 params pid key n
unfolding verify notice
verify-IsAuthentic md5 params pid key n e =
    authentic (param "pid" params) (param "sign" params) (param "out_trade_no" params) refl refl
      refl
  where
    authentic :
        (p s o : Option String)
        → param "pid" params ≡ p
        → param "sign" params ≡ s
        → param "out_trade_no" params ≡ o
        → IsAuthentic md5 params pid key n
    authentic none s o hp hs ho = absurd (ground arith)
    authentic (some p) none o hp hs ho = absurd (ground arith)
    authentic (some p) (some s) none hp hs ho = absurd (ground arith)
    authentic (some p) (some s) (some o) hp hs ho = record {
      merchant = ground (arith, eq_iff p pid);
      configured = (ground (arith, eq_iff pid ""), ground (arith, eq_iff key ""));
      signature = s;
      sent = hs;
      matches = ground arith;
      paid = ground (arith, success_status (param "trade_status" params));
      order = ground arith;
    }

paid_not_pending :
    (number : String) (tn : Option String) (o : Order)
    → is_pending number (record o { status = "paid"; trade_no = tn }) ≡ false
unfolding is_pending
paid_not_pending number tn o = ground arith

-- No order with a number is pending once the orders with it that were pending are paid.
pub count_pending-mark_paid :
    (number : String) (tn : Option String) (os : List Order)
    → count_pending number (mark_paid number tn os) ≡ 0
unfolding count_pending mark_paid
count_pending-mark_paid number tn [] = refl
count_pending-mark_paid number tn (o ∷ os) = elim (Bool-cases (is_pending number o)) [
  | inl p ↦ rw (p, paid_not_pending number tn o) (count_pending-mark_paid number tn os)
  | inr q ↦ rw (q, q) (count_pending-mark_paid number tn os)
]

module _ (md5 : List ℕ → List ℕ) (params : Params) (number : String)
    (named : param "out_trade_no" params ≡ some number) {e : Env} (b : ℕ → Option Account)
    (l : List LedgerRow) (s : IsStable (IsSettled number b l) e) where
  settle_if_any-Keeps :
      (pid key : String) (r : Option Notice)
      → verify md5 params pid key ≡ r
      → Keeps (IsSettled number b l) e (settle_if_any r)
  unfolding settle_if_any
  settle_if_any-Keeps pid key none q = pure-Keeps fail
  settle_if_any-Keeps pid key (some n) q =
      let same : number ≡ n.out_trade_no =
        cc (named, (verify-IsAuthentic md5 params pid key n q).order) in
      subst (λ m. Keeps (IsSettled m b l) e (settle_notice n)) (sym same)
        (settle_notice-Keeps b l n (subst (λ m. IsStable (IsSettled m b l) e) same s))

  process_notify-Keeps :
      (installed : Bool) → Keeps (IsSettled number b l) e (process_notify md5 installed params)
  unfolding process_notify
  process_notify-Keeps installed = if-Keeps _ (pure-Keeps fail) (
      bind-Keeps (get_setting_bool-Keeps "epay_enabled" false s) λ enabled.
        if-Keeps _ (pure-Keeps fail) (
          bind-Keeps (get_setting-Keeps "epay_pid" s) λ pid.
            bind-Keeps (get_setting-Keeps "epay_key" s)
              λ key. settle_if_any-Keeps (or_empty pid) (or_empty key) _ refl))

-- Where no order has the number of a notification that is pending, the notification changes no balance
-- and no row of the ledger, and leaves no such order pending: whichever statements fail, and whatever
-- other requests do between them that keeps all this.
pub process_notify-replay :
    (md5 : List ℕ → List ℕ) (installed : Bool) (params : Params) (number : String) (e : Env)
    (b : ℕ → Option Account) (l : List LedgerRow)
    → IsStable (IsSettled number b l) e
    → param "out_trade_no" params ≡ some number
    → (c : Conn) → IsSettled number b l c.tables
    → IsSettled number b l (process_notify md5 installed params e c).1.tables
process_notify-replay md5 installed params number e b l s named c h =
    (process_notify-Keeps md5 params number named b l s installed).apply c h
