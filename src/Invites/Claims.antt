-- ===== src/Invites/Claims.antt =====
-- An invite is rewarded once.
use yunova.Base.{ℕ, ◌≡◌, refl, Bool, false, Option, none, some, List, [], ◌∷◌, String, arith}
use yunova.Schema.{Tables, Account, LedgerRow, User}
use yunova.Db.{Env, Conn}
use yunova.Db.Rules.{
  IsStable, Keeps, Lands, Answers, IfSome, pure-Keeps, attempt-Keeps, bind-Keeps, then-Keeps,
  if-Keeps, select-Keeps, statement-Ensures, attempt-Ensures, checked-Keeps,
}
use yunova.Quota.Accounts.Writes.{get_setting_i64-Keeps}
use yunova.Invites.{
  put_inviter, count_unclaimed, claim_row, set_invited_by, reward, reward_if_any, redeem,
  resolve_inviter, or_false,
}

-- The user's invite is claimed, and the balances and the ledger are these.
pub record IsClaimed (uid : ℕ) (b : ℕ → Option Account) (l : List LedgerRow) (t : Tables)
    : Type 0 where
  pub none_unclaimed : count_unclaimed uid t.users ≡ 0
  pub balances : t.balances ≡ b
  pub ledger : t.ledger ≡ l

count_unclaimed-put_inviter :
    (uid inviter : ℕ) (us : List User) → count_unclaimed uid (put_inviter uid inviter us) ≡ 0
unfolding count_unclaimed put_inviter
count_unclaimed-put_inviter uid inviter [] = refl
count_unclaimed-put_inviter uid inviter (u ∷ us) =
    ground (arith, count_unclaimed-put_inviter uid inviter us)

module _ (uid inviter : ℕ) (b : ℕ → Option Account) (l : List LedgerRow) where
  claim_row-Lands :
      (t : Tables) → IsClaimed uid b l t → Lands (IsClaimed uid b l) (claim_row uid inviter t)
  unfolding claim_row
  claim_row-Lands t h = record {
    none_unclaimed = count_unclaimed-put_inviter uid inviter t.users;
    balances = h.balances;
    ledger = h.ledger;
  }

  claim_row-Answers :
      (t : Tables) → IsClaimed uid b l t → Answers (λ won. won ≡ false) (claim_row uid inviter t)
  unfolding claim_row
  claim_row-Answers t h = rw h.none_unclaimed refl

refused : (claim : Option Bool) → IfSome (λ won. won ≡ false) claim → or_false claim ≡ false
unfolding or_false
refused none h = refl
refused (some won) h = h

module _ (uid : ℕ) (username : String) {e : Env} (b : ℕ → Option Account) (l : List LedgerRow)
    (s : IsStable (IsClaimed uid b l) e) where
  reward-Keeps : (inviter : ℕ) → Keeps (IsClaimed uid b l) e (reward uid username inviter)
  unfolding reward set_invited_by
  reward-Keeps inviter =
      checked-Keeps
        (attempt-Ensures (
          statement-Ensures (claim_row uid inviter) s (claim_row-Lands uid inviter b l)
            (claim_row-Answers uid inviter b l)))
        (λ claim q. rw (refused claim q) (
          bind-Keeps (get_setting_i64-Keeps "invite_grant_inviter" _ s) λ x.
            bind-Keeps (get_setting_i64-Keeps "invite_grant_invitee" _ s)
              λ y. then-Keeps (pure-Keeps none) (then-Keeps (pure-Keeps none) (pure-Keeps tt))))

  reward_if_any-Keeps :
      (inviter : Option ℕ) → Keeps (IsClaimed uid b l) e (reward_if_any uid username inviter)
  unfolding reward_if_any
  reward_if_any-Keeps none = pure-Keeps tt
  reward_if_any-Keeps (some inviter) = reward-Keeps inviter

  redeem-Keeps : (raw : List ℕ) → Keeps (IsClaimed uid b l) e (redeem uid username raw)
  unfolding redeem resolve_inviter
  redeem-Keeps raw =
      bind-Keeps
        (if-Keeps _ (pure-Keeps none)
          (bind-Keeps (attempt-Keeps (select-Keeps _ s)) (λ row. pure-Keeps _)))
        reward_if_any-Keeps

-- Where a user's invite is claimed, and other requests keep that, the balances and the ledger, then no
-- code that the user gives again is rewarded, whichever statements fail.
pub redeem_again :
    (uid : ℕ) (username : String) (raw : List ℕ) (e : Env) (b : ℕ → Option Account)
    (l : List LedgerRow)
    → IsStable (IsClaimed uid b l) e
    → (c : Conn) → IsClaimed uid b l c.tables
    → IsClaimed uid b l (redeem uid username raw e c).1.tables
redeem_again uid username raw e b l s c h = (redeem-Keeps uid username b l s raw).apply c h
