-- ===== src/Quota/Settings.antt =====
-- The key-value settings of src/quota.rs (`app_settings`).
use yunova.Base.{Bool, true, false, ◌||◌, Option, none, some, String, if◌then◌else◌}
use text.Mathlib.Text.{◌==◌ as str_eq}
use yunova.Base.Int.{ℤ}
use yunova.Base.Text.{codes, parse_i64}
use yunova.Schema.{Tables}
use yunova.Db.{Action, pure, statement, attempt, select, ◌>>=◌}

flatten {ℓ} : {A : Type ℓ} → Option (Option A) → Option A
flatten (some r) = r
flatten none = none

unfoldable pub get_setting : String → Action (Option String)
unfolding flatten
get_setting key = do row ← attempt (select (λ t. t.settings key)); pure (flatten row)

parsed_or : ℤ → Option ℤ → ℤ
parsed_or default none = default
parsed_or default (some n) = n

setting_i64 : ℤ → Option String → ℤ
unfolding parsed_or parse_i64
setting_i64 default none = default
setting_i64 default (some v) = parsed_or default (parse_i64 (codes v))

unfoldable pub get_setting_i64 : String → ℤ → Action ℤ
unfolding setting_i64
get_setting_i64 key default = do v ← get_setting key; pure (setting_i64 default v)

setting_bool : Bool → Option String → Bool
setting_bool default none = default
setting_bool default (some v) =
    if str_eq v "true" || str_eq v "1" || str_eq v "yes"
    then true
    else if str_eq v "false" || str_eq v "0" || str_eq v "no"
    then false
    else default

unfoldable pub get_setting_bool : String → Bool → Action Bool
unfolding setting_bool
get_setting_bool key default = do v ← get_setting key; pure (setting_bool default v)

write_setting : String → String → Tables → Option (Unit {0} × Tables)
write_setting key val t =
    some (tt, record t { settings = λ k. if str_eq k key then some val else t.settings k })

unfoldable pub set_setting : String → String → Action (Unit {0})
unfolding write_setting
set_setting key val = statement (write_setting key val)
