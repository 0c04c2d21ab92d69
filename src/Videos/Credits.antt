-- ===== src/Videos/Credits.antt =====
-- What the refund of a job in src/videos.rs gives back, where no statement fails.
use yunova.Base.{ℕ, suc, ◌≡◌, refl, ◌∙◌, ap, some, String, arith, false, ◌==◌}
use yunova.Base.Int.{ℤ, pos, ltb_ℤ, leb_ℤ, ◌≤ℤ◌, add_i64}
use yunova.Schema.{Tables, Account, LedgerMeta, VideoJob}
use yunova.Db.{Conn, quiet, running, attempt}
use yunova.Quota.LedgerMeta
use yunova.Quota.Accounts.{
  grant, ensure_account, update_account, insert_ledger, set_account, add_row, credit,
}
use yunova.Quota.Accounts.Covered.{grant_known}
use yunova.Videos.{
  count_unrefunded, claim_refund, grant_claimed, or_zero_rows, refund_job, update_jobs, update_job,
  set_given_up, handle_download_failure,
}
use yunova.Videos.Refunds.{count_unrefunded-mark_refunded, count_unrefunded-update_jobs}

grant_jobs :
    (uid : ℕ) (delta : ℤ) (reason : String) (meta : LedgerMeta) (a : Account) (c : Conn)
    → c.tables.balances uid ≡ some a
    → (grant uid delta reason meta quiet c).1.tables.video_jobs ≡ c.tables.video_jobs
unfolding grant ensure_account update_account insert_ledger set_account add_row running
grant_jobs uid delta reason meta a c known = ground arith

-- The account has the cost back, and nothing of the job is left to claim.
abbrev Refunded : ℕ → ℕ → ℤ → Account → Tables → Type 0
Refunded id uid cost a t =
    (t.balances uid ≡ some (credit cost a)) × (count_unrefunded id t.video_jobs ≡ 0)

claimed_grant :
    (id uid : ℕ) (model : String) (cost : ℤ) (reason : String) (a : Account) (n : ℕ) (c : Conn)
    → c.tables.balances uid ≡ some a
    → count_unrefunded id c.tables.video_jobs ≡ 0
    → Refunded id uid cost a (grant_claimed uid model cost reason (some (suc n)) quiet c).1.tables
unfolding grant_claimed or_zero_rows attempt
claimed_grant id uid model cost reason a n c known none_left =
    let claimed : (suc n == 0) ≡ false = ground arith in
    rw claimed (
      grant_known uid cost reason (LedgerMeta.refund_video model) a c known,
      ap (count_unrefunded id)
            (grant_jobs uid cost reason (LedgerMeta.refund_video model) a c known)
          ∙ none_left,
    )

refund_job-Refunded :
    (id uid : ℕ) (model : String) (cost : ℤ) (reason : String) (a : Account) (n : ℕ) (c : Conn)
    → c.tables.balances uid ≡ some a
    → count_unrefunded id c.tables.video_jobs ≡ suc n
    → pos 1 ≤ℤ cost
    → Refunded id uid cost a (refund_job id uid model cost reason quiet c).1.tables
unfolding refund_job claim_refund running
refund_job-Refunded id uid model cost reason a n c known unclaimed p =
    let e : leb_ℤ cost (pos 0) ≡ false = ground arith in
    rw (e, unclaimed)
      (claimed_grant id uid model cost reason a n _ known
        (count_unrefunded-mark_refunded id c.tables.video_jobs))

fifth : ltb_ℤ (add_i64 (pos 4) (pos 1)) (pos 5) ≡ false
unfolding add_i64
fifth = refl

abbrev given_up : String → ℕ → String → Conn → Conn
given_up now id msg c = record {
  tables = record c.tables {
    video_jobs =
        update_jobs (set_given_up now (add_i64 (pos 4) (pos 1)) msg) id c.tables.video_jobs;
  };
  tick = suc c.tick;
}

-- The fifth failure to download a job that was not refunded gives its cost back, and leaves nothing to
-- refund. No statement fails.
pub handle_download_failure-credits :
    (now : String) (job : VideoJob) (msg reason : String) (a : Account) (n : ℕ) (c : Conn)
    → c.tables.balances job.user_id ≡ some a
    → count_unrefunded job.id c.tables.video_jobs ≡ suc n
    → pos 1 ≤ℤ job.cost_quota
    → job.download_retries ≡ pos 4
    → let t = (handle_download_failure now job msg reason quiet c).1.tables in
      (t.balances job.user_id ≡ some (credit job.cost_quota a))
      × (count_unrefunded job.id t.video_jobs ≡ 0)
unfolding handle_download_failure update_job set_given_up running
handle_download_failure-credits now job msg reason a n c known unclaimed p fourth =
    let still : count_unrefunded job.id (given_up now job.id msg c).tables.video_jobs ≡ suc n =
      count_unrefunded-update_jobs job.id job.id _ (λ j. refl) (λ j. refl) c.tables.video_jobs
      ∙ unclaimed in
    rw (fourth, fifth)
      (refund_job-Refunded job.id job.user_id job.model job.cost_quota reason a n
        (given_up now job.id msg c) known still p)
