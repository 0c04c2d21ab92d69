-- ===== src/Tests/Usage.antt =====
-- Examples of frames.
use mathlib.Core.List.{Permᴰ}
use yunova.Base.{◌≡◌, refl, none, some, [], ◌∷◌, ℕ}
use yunova.Base.Int.{pos, ◌≤ℤ◌}
use yunova.Usage.{extract_usage, count, parse_usage_object, usage_if_any}
use yunova.Usage.Json.{Value, obj, field, end, number, get, is_object, value_i64}
use yunova.Usage.Subset.{extract_subset}
use yunova.Usage.Accumulator.{new, ingest_all}
use yunova.Usage.Accumulator.Laws.{ingest_all-Perm, ingest_all_twice}

-- { usage: { prompt_tokens: 9, completion_tokens: n } }
abbrev frame : ℕ → Value
frame n = obj (
    field "usage"
      (obj
        (field "prompt_tokens" (number (pos 9)) (field "completion_tokens" (number (pos n)) end)))
      end)

frame_foreign : get "usageMetadata" (frame 4) ≡ none
unfolding get
frame_foreign = refl

frame_usage :
    extract_usage (frame 4) ≡ some (record { input = pos 9; output = pos 4; cached_input = pos 0 })
unfolding extract_usage get count parse_usage_object is_object usage_if_any value_i64
frame_usage = refl

extract_subset_example : pos 0 ≤ℤ pos 9
extract_subset_example =
    extract_subset (frame 4) (record { input = pos 9; output = pos 4; cached_input = pos 0 })
      frame_foreign frame_usage

ingest_all-Perm_example :
    ingest_all new (frame 4 ∷ frame 7 ∷ []) ≡ ingest_all new (frame 7 ∷ frame 4 ∷ [])
ingest_all-Perm_example = ingest_all-Perm new ∣ Permᴰ.swap refl refl ∣₁

ingest_all_twice_example :
    ingest_all (ingest_all new (frame 4 ∷ frame 7 ∷ [])) (frame 4 ∷ frame 7 ∷ [])
    ≡ ingest_all new (frame 4 ∷ frame 7 ∷ [])
ingest_all_twice_example = ingest_all_twice new (frame 4 ∷ frame 7 ∷ [])
