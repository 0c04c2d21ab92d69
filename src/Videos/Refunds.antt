-- ===== src/Videos/Refunds.antt =====
-- A job of src/videos.rs is refunded once.
use yunova.Base.{ℕ, ◌≡◌, refl, ◌∙◌, Option, none, some, List, [], ◌∷◌, String, arith}
use yunova.Base.Int.{ℤ}
use yunova.Schema.{Tables, Account, LedgerRow, VideoJob}
use yunova.Db.{Env, Conn}
use yunova.Db.Rules.{
  IsStable, Keeps, Lands, Answers, pure-Keeps, if-Keeps, statement-Ensures, attempt-Ensures,
  checked-Keeps, then-Keeps, attempt-Keeps, statement-Keeps,
}
use yunova.Videos.{
  mark_refunded, count_unrefunded, claim_refund, grant_claimed, or_zero_rows, refund_job,
  update_jobs, update_job, set_retries, set_given_up, handle_download_failure,
}

-- The job was refunded, and the balances and the ledger are these.
pub record IsRefunded (id : ℕ) (b : ℕ → Option Account) (l : List LedgerRow) (t : Tables)
    : Type 0 where
  pub claimed : count_unrefunded id t.video_jobs ≡ 0
  pub balances : t.balances ≡ b
  pub ledger : t.ledger ≡ l

-- After a claim nothing is left to claim.
pub count_unrefunded-mark_refunded :
    (id : ℕ) (js : List VideoJob) → count_unrefunded id (mark_refunded id js) ≡ 0
unfolding count_unrefunded mark_refunded
count_unrefunded-mark_refunded id [] = refl
count_unrefunded-mark_refunded id (j ∷ js) = ground (arith, count_unrefunded-mark_refunded id js)

-- A change of a job that is no refund claims nothing.
pub count_unrefunded-update_jobs :
    (id i : ℕ) (f : VideoJob → VideoJob)
    → ((j : VideoJob) → (f j).id ≡ j.id)
    → ((j : VideoJob) → (f j).refunded ≡ j.refunded)
    → (js : List VideoJob) → count_unrefunded id (update_jobs f i js) ≡ count_unrefunded id js
unfolding count_unrefunded update_jobs
count_unrefunded-update_jobs id i f same_id same_refunded [] = refl
count_unrefunded-update_jobs id i f same_id same_refunded (j ∷ js) = ground (
  arith,
  same_id j,
  same_refunded j,
  count_unrefunded-update_jobs id i f same_id same_refunded js,
)

module _ (id : ℕ) (b : ℕ → Option Account) (l : List LedgerRow) where
  claim_refund-Lands :
      (t : Tables) → IsRefunded id b l t → Lands (IsRefunded id b l) (claim_refund id t)
  unfolding claim_refund
  claim_refund-Lands t h = record {
    claimed = count_unrefunded-mark_refunded id t.video_jobs;
    balances = h.balances;
    ledger = h.ledger;
  }

  claim_refund-Answers :
      (t : Tables) → IsRefunded id b l t → Answers (λ rows. rows ≡ 0) (claim_refund id t)
  unfolding claim_refund
  claim_refund-Answers t h = h.claimed

  refund_job-Keeps :
      {e : Env} (uid : ℕ) (model : String) (cost : ℤ) (reason : String)
      → IsStable (IsRefunded id b l) e
      → Keeps (IsRefunded id b l) e (refund_job id uid model cost reason)
  unfolding refund_job grant_claimed or_zero_rows
  refund_job-Keeps uid model cost reason s = if-Keeps _ (pure-Keeps none) (
      checked-Keeps
        (attempt-Ensures
          (statement-Ensures (claim_refund id) s claim_refund-Lands claim_refund-Answers))
        (elim [ none ↦ λ q. pure-Keeps none | some rows ↦ λ q. rw q (pure-Keeps none) ]))

  update_job-Lands :
      (i : ℕ) (f : VideoJob → VideoJob)
      → ((j : VideoJob) → (f j).id ≡ j.id)
      → ((j : VideoJob) → (f j).refunded ≡ j.refunded)
      → (t : Tables) → IsRefunded id b l t
      → Lands (IsRefunded id b l) (update_job f i t)
  unfolding update_job
  update_job-Lands i f same_id same_refunded t h = record {
    claimed = count_unrefunded-update_jobs id i f same_id same_refunded t.video_jobs ∙ h.claimed;
    balances = h.balances;
    ledger = h.ledger;
  }

  handle_download_failure-Keeps :
      {e : Env} (now : String) (job : VideoJob) (msg reason : String)
      → job.id ≡ id
      → IsStable (IsRefunded id b l) e
      → Keeps (IsRefunded id b l) e (handle_download_failure now job msg reason)
  unfolding handle_download_failure set_retries set_given_up
  handle_download_failure-Keeps now job msg reason same s =
      if-Keeps _
        (then-Keeps
          (attempt-Keeps (statement-Keeps _ s (update_job-Lands job.id _ (λ j. refl) (λ j. refl))))
          (pure-Keeps none))
        (then-Keeps
          (attempt-Keeps (statement-Keeps _ s (update_job-Lands job.id _ (λ j. refl) (λ j. refl))))
          (rw same (refund_job-Keeps job.user_id job.model job.cost_quota reason s)))

-- Where a job was refunded, to refund it again or to handle one more failed download of it changes no
-- balance and no row of the ledger, and it stays refunded: whichever statements fail, and whatever other
-- requests do between them that keeps all this.
pub refund_job-IsRefunded :
    (job : VideoJob) (now msg reason suffixed : String) (e : Env) (b : ℕ → Option Account)
    (l : List LedgerRow)
    → IsStable (IsRefunded job.id b l) e
    → (c : Conn) → IsRefunded job.id b l c.tables
    → IsRefunded job.id b l
        (refund_job job.id job.user_id job.model job.cost_quota suffixed e c).1.tables
      × IsRefunded job.id b l (handle_download_failure now job msg reason e c).1.tables
refund_job-IsRefunded job now msg reason suffixed e b l s c h = (
  (refund_job-Keeps job.id b l job.user_id job.model job.cost_quota suffixed s).apply c h,
  (handle_download_failure-Keeps job.id b l now job msg reason refl s).apply c h,
)
