-- ===== src/Videos.antt =====
-- src/videos.rs: what a clip costs, and how its job gives the cost back.
pub mod Durations
pub mod Credits
pub mod Ranges
pub mod Refunds
use yunova.Base.{
  ℕ, zero, suc, ◌+◌, Bool, true, false, not, ◌&&◌, ◌||◌, Option, none, some, List, [], ◌∷◌, any,
  String, if◌then◌else◌, ◌==◌, leb,
}
use text.Mathlib.Text.{◌==◌ as str_eq}
use yunova.Base.Int.{ℤ, pos, eqb_ℤ, leb_ℤ, ltb_ℤ, add_i64, mul_i64, quot}
use yunova.Base.Text.{codes, trim, take, to_ascii_lowercase, same, strip_prefix}
use yunova.Schema.{Tables, ModelPrice, VideoJob}
use yunova.Db.{Action, pure, attempt, statement, ◌>>=◌, ◌>>◌}
use yunova.Quota.LedgerMeta
use yunova.Quota.Pricing.{QuotaRate, micro_quota_for_micro_usd}
use yunova.Quota.Accounts.{grant}

abbrev pub grok_video_max_seconds : ℕ
grok_video_max_seconds = 15

unfoldable pub starts_with : String → List ℕ → Bool
starts_with prefix t = elim (strip_prefix (codes prefix) t) [ none ↦ false | some rest ↦ true ]

unfoldable pub is_grok_video_model : String → Bool
is_grok_video_model model =
    let normalized = to_ascii_lowercase (trim (codes model)) in
    same normalized (codes "grok-imagine-video") || starts_with "grok-imagine-video-" normalized

-- `(first..=last)`, of `m` numbers from `i` on.
unfoldable pub range_from : ℕ → ℕ → List ℤ
range_from i zero = []
range_from i (suc m) = pos i ∷ range_from (suc i) m

unfoldable pub insert_sorted : ℤ → List ℤ → List ℤ
insert_sorted v [] = v ∷ []
insert_sorted v (w ∷ ws) =
    let later = insert_sorted v ws in if leb_ℤ v w then v ∷ w ∷ ws else w ∷ later

unfoldable pub sort_unstable : List ℤ → List ℤ
sort_unstable [] = []
sort_unstable (v ∷ vs) = insert_sorted v (sort_unstable vs)

unfoldable pub dedup_after : ℤ → List ℤ → List ℤ
dedup_after v [] = []
dedup_after v (w ∷ ws) = if eqb_ℤ v w then dedup_after v ws else w ∷ dedup_after w ws

unfoldable pub dedup : List ℤ → List ℤ
dedup [] = []
dedup (v ∷ vs) = v ∷ dedup_after v vs

unfoldable pub or_no_seconds : Option (List ℤ) → List ℤ
or_no_seconds none = []
or_no_seconds (some seconds) = seconds

unfoldable pub effective_allowed_seconds : ModelPrice → List ℤ
effective_allowed_seconds p =
    if is_grok_video_model p.model
    then range_from 1 grok_video_max_seconds
    else dedup (sort_unstable (or_no_seconds p.allowed_seconds))

unfoldable pub supports_seconds : ModelPrice → ℤ → Bool
supports_seconds p seconds =
    if is_grok_video_model p.model
    then leb_ℤ (pos 1) seconds && leb_ℤ seconds (pos grok_video_max_seconds)
    else any (eqb_ℤ seconds) (or_no_seconds p.allowed_seconds)

unfoldable pub find_rule : String → List (String × ℤ) → Option ℤ
find_rule size [] = none
find_rule size ((s, multiplier) ∷ rules) =
    if str_eq s size then some multiplier else find_rule size rules

unfoldable pub multiplier_of : String → Option (List (String × ℤ)) → Option ℤ
multiplier_of size none = none
multiplier_of size (some rules) = find_rule size rules

unfoldable pub price_at : ModelPrice → ℤ → ℤ → ℤ
price_at p seconds mult =
    let raw = mul_i64 (add_i64 p.base_price (mul_i64 p.per_second_price seconds)) mult in
    quot (add_i64 raw (pos 50)) 100

unfoldable pub compute_price : ModelPrice → ℤ → String → Option ℤ
compute_price p seconds size =
    if not (supports_seconds p seconds) then none else elim (multiplier_of size p.size_rules) [
      | none ↦ none
      | some mult ↦ some (price_at p seconds mult)
    ]

unfoldable pub compute_cost : QuotaRate → ModelPrice → ℤ → String → Option ℤ
compute_cost rate p seconds size = elim (compute_price p seconds size) [
  | none ↦ none
  | some micro ↦ some (micro_quota_for_micro_usd rate micro)
]

-- `UPDATE video_jobs SET refunded = 1 WHERE id = ? AND refunded <> 1`
unfoldable pub mark_refunded : ℕ → List VideoJob → List VideoJob
mark_refunded id [] = []
mark_refunded id (j ∷ js) =
    let rest = mark_refunded id js in
    if j.id == id && not j.refunded then record j { refunded = true } ∷ rest else j ∷ rest

unfoldable pub count_unrefunded : ℕ → List VideoJob → ℕ
count_unrefunded id [] = 0
count_unrefunded id (j ∷ js) =
    let rest = count_unrefunded id js in if j.id == id && not j.refunded then suc rest else rest

unfoldable pub claim_refund : ℕ → Tables → Option (ℕ × Tables)
claim_refund id t =
    some (count_unrefunded id t.video_jobs, record t { video_jobs = mark_refunded id t.video_jobs })

unfoldable pub or_zero_rows : Option ℕ → ℕ
or_zero_rows none = 0
or_zero_rows (some n) = n

unfoldable pub grant_claimed : ℕ → String → ℤ → String → Option ℕ → Action (Option ℤ)
grant_claimed uid model cost reason rows =
    if or_zero_rows rows == 0
    then pure none
    else attempt (grant uid cost reason (LedgerMeta.refund_video model))

-- `reason` is `refund_video_{model}_{suffix}`.
unfoldable pub refund_job : ℕ → ℕ → String → ℤ → String → Action (Option ℤ)
refund_job id uid model cost reason =
    if leb_ℤ cost (pos 0)
    then pure none
    else do rows ← attempt (statement (claim_refund id)); grant_claimed uid model cost reason rows

-- `UPDATE video_jobs SET … WHERE id = ?`
unfoldable pub update_jobs : (VideoJob → VideoJob) → ℕ → List VideoJob → List VideoJob
update_jobs f id [] = []
update_jobs f id (j ∷ js) =
    let rest = update_jobs f id js in if j.id == id then f j ∷ rest else j ∷ rest

unfoldable pub update_job : (VideoJob → VideoJob) → ℕ → Tables → Option (Unit {0} × Tables)
update_job f id t = some (tt, record t { video_jobs = update_jobs f id t.video_jobs })

-- A message is cut to 500 characters where it is stored.
unfoldable pub set_error : String → VideoJob → VideoJob
set_error msg j = record j { error = some (take 500 (codes msg)) }

unfoldable pub set_failed : String → String → VideoJob → VideoJob
set_failed now msg j = record j {
  status = "failed";
  error = some (take 500 (codes msg));
  finished_at = some now;
}

unfoldable pub set_retries : ℤ → String → VideoJob → VideoJob
set_retries retries msg j = record j {
  download_retries = retries;
  error = some (take 500 (codes msg));
}

unfoldable pub set_given_up : String → ℤ → String → VideoJob → VideoJob
set_given_up now retries msg j = record j {
  status = "failed";
  download_retries = retries;
  error = some (take 500 (codes msg));
  finished_at = some now;
}

unfoldable pub mark_error_only : ℕ → String → Action (Option (Unit {0}))
mark_error_only id error = attempt (statement (update_job (set_error error) id))

-- `now` is the database's clock.
unfoldable pub mark_job_failed : String → ℕ → String → Action (Option (Unit {0}))
mark_job_failed now id error = attempt (statement (update_job (set_failed now error) id))

-- `reason` is `refund_video_{model}_download_failed`.
unfoldable pub handle_download_failure : String → VideoJob → String → String → Action (Option ℤ)
handle_download_failure now job msg reason =
    let retries = add_i64 job.download_retries (pos 1) in
    if ltb_ℤ retries (pos 5)
    then (do attempt (statement (update_job (set_retries retries msg) job.id)); pure none)
    else do
      attempt (statement (update_job (set_given_up now retries msg) job.id))
      refund_job job.id job.user_id job.model job.cost_quota reason
