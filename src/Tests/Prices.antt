-- ===== src/Tests/Prices.antt =====
-- Examples of stored prices and of charges for images and clips.
use yunova.Base.{◌≤◌, ◌<◌, ◌≡◌, refl, true, false, none, some, [], ◌∷◌, if◌then◌else◌, ◌==◌}
use text.Mathlib.Text.{◌==◌ as str_eq}
use yunova.Base.Int.{pos, ◌*ℤ◌, mul_i128, add_i128, clamp, ◌+ℤ◌, ◌-ℤ◌, int_laws}
use yunova.Base.Text.{split_once, trim, trim_start, trim_end, parse_digits}
use yunova.Schema.{Account, ModelPrice, VideoJob}
use yunova.Db.{Conn, quiet, running}
use yunova.Db.Rules.{IsStable}
use yunova.Quota.Settings.{get_setting, get_setting_i64}
use yunova.Quota.Pricing.{micro_quota_for_micro_usd}
use yunova.Quota.Rate
use yunova.Quota.Accounts.{
  try_deduct, ensure_account, deduct, deduct_if_covered, insert_ledger, spend, credit, set_account,
  add_row,
}
use yunova.Channels.Pricing.{
  get_price, parse_price_row, positive, PricingInput, validate_pricing_input, check_video,
  check_rules, is_size, is_u32, in_u32, no_rows, or_none, some_negative, upsert_price,
}
use yunova.Channels.Pricing.Kinds.{IsPriced, upsert_price-IsPriced}
use yunova.Channels.Billing.{
  enabled_price, open_price, call_quota, deduct_price, outcome_of, try_deduct_per_call, charged,
  per_call_quota, deduct_image_quota, refund_image_quota,
}
use yunova.Channels.Billing.Images.{deduct_image_quota-refund_image_quota}
use yunova.Videos.{refund_job, count_unrefunded, handle_download_failure}
use yunova.Videos.Credits.{handle_download_failure-credits}
use yunova.Videos.Ranges.{
  parse_video_range, parts_range, range_at, end_of, closed_range, suffix_range, min, parse_u64,
  in_u64, parse_video_range-IsWithin,
}
use yunova.Videos.Refunds.{IsRefunded, refund_job-IsRefunded}
use yunova.Tests.Data.{order, account, tables, conn, shaky}

abbrev clip_input : PricingInput
clip_input = record {
  model = "clip";
  kind = "video";
  channel_ids = some (2 ∷ 1 ∷ 2 ∷ []);
  enabled = true;
  protocol = "openai";
  input_price = pos 5;
  output_price = pos 0;
  cached_input_price = none;
  per_call_price = pos 0;
  base_price = pos 100;
  per_second_price = pos 5_000;
  allowed_seconds = some (pos 8 ∷ pos 4 ∷ []);
  size_rules = some (("1280x720", pos 100) ∷ []);
}

clip_valid : validate_pricing_input clip_input ≡ none
unfolding validate_pricing_input check_video check_rules is_size split_once is_u32 in_u32 no_rows
    or_none some_negative trim trim_start trim_end parse_digits
clip_valid = refl

prices-IsStable : IsStable IsPriced shaky
prices-IsStable n t h = h

upsert_price-IsPriced_example : IsPriced (upsert_price clip_input shaky (conn order)).1.tables
upsert_price-IsPriced_example =
    upsert_price-IsPriced shaky clip_input (conn order) prices-IsStable clip_valid (λ model. refl)

abbrev picture : ModelPrice
picture = record {
  model = "picture";
  kind = "image";
  enabled = true;
  protocol = "openai";
  input_price = pos 0;
  output_price = pos 0;
  cached_input_price = none;
  per_call_price = pos 30;
  base_price = pos 0;
  per_second_price = pos 0;
  allowed_seconds = none;
  size_rules = none;
}

abbrev priced : Account → ModelPrice → Conn
priced a p = record {
  tables = record (tables order) {
    balances = λ u. if u == 1 then some a else none;
    pricing = λ model. if str_eq model "picture" then some p else none;
  };
  tick = 0;
}

abbrev charged_account : Account
charged_account = record { balance = pos 470; lifetime_used = pos 30 }

-- The price is raised to 40 before the refund.
abbrev before_refund : Conn
before_refund = priced charged_account (record picture { per_call_price = pos 40 })

quota_of_30 :
    (per_call_quota "picture" "image" quiet (priced account picture)).0 ≡ some (some (pos 30))
unfolding per_call_quota enabled_price open_price call_quota get_price parse_price_row positive
    Rate.load get_setting get_setting_i64 micro_quota_for_micro_usd mul_i128 add_i128 clamp running
    ◌*ℤ◌ ◌+ℤ◌
quota_of_30 = refl

quota_of_40 : (per_call_quota "picture" "image" quiet before_refund).0 ≡ some (some (pos 40))
unfolding per_call_quota enabled_price open_price call_quota get_price parse_price_row positive
    Rate.load get_setting get_setting_i64 micro_quota_for_micro_usd mul_i128 add_i128 clamp running
    ◌*ℤ◌ ◌+ℤ◌
quota_of_40 = refl

charged_30 :
    before_refund.tables.balances 1
    ≡ (deduct_image_quota 1 "openai" "picture" "image_openai" quiet
          (priced account picture)).1.tables.balances
        1
unfolding deduct_image_quota try_deduct_per_call deduct_price outcome_of enabled_price open_price
    get_price parse_price_row positive Rate.load get_setting get_setting_i64
    micro_quota_for_micro_usd mul_i128 add_i128 clamp running ◌*ℤ◌ ◌+ℤ◌ ◌-ℤ◌ try_deduct
    ensure_account deduct deduct_if_covered insert_ledger spend set_account add_row
charged_30 = refl

deduct_image_quota-refund_image_quota_example :
    ((deduct_image_quota 1 "openai" "picture" "image_openai" quiet (priced account picture)).0
      ≡ some (charged (account.balance -ℤ pos 30, pos 30)))
    × ((refund_image_quota 1 "picture" "refund_image_picture" quiet before_refund).1.tables.balances
          1
        ≡ some (record {
          balance = account.balance -ℤ pos 30 +ℤ pos 40;
          lifetime_used = account.lifetime_used +ℤ pos 30;
        }))
deduct_image_quota-refund_image_quota_example =
    deduct_image_quota-refund_image_quota 1 "openai" "picture" "image_openai" "refund_image_picture"
      (pos 30) (pos 40) account (priced account picture) before_refund refl quota_of_30
      (omega int_laws) charged_30 quota_of_40

abbrev clip : ModelPrice
clip = record picture {
  model = "clip";
  kind = "video";
  allowed_seconds = some (pos 8 ∷ pos 4 ∷ pos 8 ∷ []);
}

abbrev refunded_job : VideoJob
refunded_job = record {
  id = 3;
  user_id = 1;
  token = "t";
  model = "clip";
  prompt = "waves";
  seconds = pos 8;
  size = "1280x720";
  input_image_path = none;
  upstream_video_id = some "v";
  channel_id = none;
  cost_quota = pos 90;
  status = "in_progress";
  progress = pos 100;
  video_path = none;
  error = none;
  refunded = true;
  download_retries = pos 4;
  polling = false;
  last_polled_at = none;
  created_at = "2025-01-01 00:00:00";
  finished_at = none;
}

abbrev after_refund : Conn
after_refund = record {
  tables = record (tables order) { video_jobs = refunded_job ∷ [] };
  tick = 0;
}

after_refund-IsRefunded :
    IsRefunded 3 after_refund.tables.balances after_refund.tables.ledger after_refund.tables
unfolding count_unrefunded
after_refund-IsRefunded = record { claimed = refl; balances = refl; ledger = refl }

refund-IsStable :
    IsStable (IsRefunded 3 after_refund.tables.balances after_refund.tables.ledger) shaky
refund-IsStable n t h = record { claimed = h.claimed; balances = h.balances; ledger = h.ledger }

refund_job-IsRefunded_example :
    IsRefunded 3 after_refund.tables.balances after_refund.tables.ledger
      (refund_job 3 1 "clip" (pos 90) "refund_video_clip_timeout" shaky after_refund).1.tables
    × IsRefunded 3 after_refund.tables.balances after_refund.tables.ledger
        (handle_download_failure "2025-01-02 00:00:00" refunded_job "no file"
          "refund_video_clip_download_failed" shaky after_refund).1.tables
refund_job-IsRefunded_example =
    refund_job-IsRefunded refunded_job "2025-01-02 00:00:00" "no file"
      "refund_video_clip_download_failed" "refund_video_clip_timeout" shaky
      after_refund.tables.balances after_refund.tables.ledger refund-IsStable after_refund
      after_refund-IsRefunded

abbrev failing_job : VideoJob
failing_job = record refunded_job { refunded = false }

abbrev before_failure : Conn
before_failure = record {
  tables = record (tables order) { video_jobs = failing_job ∷ [] };
  tick = 0;
}

one_claim : count_unrefunded 3 before_failure.tables.video_jobs ≡ 1
unfolding count_unrefunded
one_claim = refl

handle_download_failure-credits_example :
    let t =
      (handle_download_failure "2025-01-02 00:00:00" failing_job "no file"
        "refund_video_clip_download_failed" quiet before_failure).1.tables in
    (t.balances 1 ≡ some (credit (pos 90) account)) × (count_unrefunded 3 t.video_jobs ≡ 0)
handle_download_failure-credits_example =
    handle_download_failure-credits "2025-01-02 00:00:00" failing_job "no file"
      "refund_video_clip_download_failed" account 0 before_failure refl one_claim (omega int_laws)
      refl

last_hundred : parse_video_range "900-" 1000 ≡ some (900, 999)
unfolding parse_video_range trim trim_start trim_end split_once parse_digits parts_range range_at
    end_of min closed_range parse_u64 in_u64
last_hundred = refl

suffix_hundred : parse_video_range "-100" 1000 ≡ some (900, 999)
unfolding parse_video_range trim trim_start trim_end split_once parse_digits parts_range
    suffix_range min parse_u64 in_u64
suffix_hundred = refl

parse_video_range-IsWithin_example : (900 ≤ 999) × (999 < 1000)
parse_video_range-IsWithin_example = parse_video_range-IsWithin "900-" 1000 900 999 last_hundred
