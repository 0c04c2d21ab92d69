-- ===== src/Usage/Accumulator/Laws.antt =====
-- The accumulator takes the maximum of each counter: order and repetition of frames do not matter, and
-- where a stream is cut between lines does not either.
use mathlib.Core.Logic.{∥∥₁_elim}
use mathlib.Core.List.{Perm, Permᴰ}
use yunova.Base.{ℕ, ◌≡◌, refl, sym, ◌∙◌, ap, Option, none, some, List, [], ◌∷◌, ◌++◌, arith}
use yunova.Base.Int.{ℤ, max_ℤ, eq_of_parts}
use yunova.Base.Text.{lines, lines_from, lines_from-append}
use yunova.Schema.{TokenUsage}
use yunova.Usage.{extract_usage}
use yunova.Usage.Json.{Value}
use yunova.Usage.Accumulator.{
  UsageAccumulator, merge, merge_any, ingest_json, ingest_all, ingest_line, ingest_lines,
  ingest_sse_chunk,
}

max_comm : (a b c : ℤ) → max_ℤ (max_ℤ a b) c ≡ max_ℤ (max_ℤ a c) b
max_comm a b c = ground (arith, eq_of_parts b c, eq_of_parts a b, eq_of_parts a c)

max_twice : (a b : ℤ) → max_ℤ (max_ℤ a b) b ≡ max_ℤ a b
max_twice a b = ground arith

merge_comm :
    (acc : UsageAccumulator) (u v : TokenUsage) → merge (merge acc u) v ≡ merge (merge acc v) u
unfolding merge
merge_comm acc u v = λ i. record {
  usage = record {
    input = max_comm acc.usage.input u.input v.input i;
    output = max_comm acc.usage.output u.output v.output i;
    cached_input = max_comm acc.usage.cached_input u.cached_input v.cached_input i;
  };
}

ingest_json_comm :
    (acc : UsageAccumulator) (v w : Value)
    → ingest_json (ingest_json acc v) w ≡ ingest_json (ingest_json acc w) v
unfolding ingest_json
ingest_json_comm acc v w = go (extract_usage v) (extract_usage w)
  where
    go : (a b : Option TokenUsage) → merge_any (merge_any acc a) b ≡ merge_any (merge_any acc b) a
    go none none = refl
    go none (some y) = refl
    go (some x) none = refl
    go (some x) (some y) = merge_comm acc x y

UsageAccumulator-set : IsSet UsageAccumulator
UsageAccumulator-set = hlevel

ingest_all-Permᴰ :
    {vs ws : List Value}
    → Permᴰ vs ws
    → (acc : UsageAccumulator) → ingest_all acc vs ≡ ingest_all acc ws
unfolding ingest_all
ingest_all-Permᴰ Permᴰ.nil acc = refl
ingest_all-Permᴰ (Permᴰ.cons {b = w} {l₁ = vs} e p) acc =
    ap (λ x. ingest_all (ingest_json acc x) vs) e ∙ ingest_all-Permᴰ p (ingest_json acc w)
ingest_all-Permᴰ (Permᴰ.swap {a = v} {b = w} {a' = w'} {b' = v'} {l = vs} e f) acc =
    ap (λ a. ingest_all a vs) (ingest_json_comm acc v w)
    ∙ ap (λ x. ingest_all (ingest_json (ingest_json acc x) v) vs) f
    ∙ ap (λ x. ingest_all (ingest_json (ingest_json acc w') x) vs) e
ingest_all-Permᴰ (Permᴰ.trans p q) acc = ingest_all-Permᴰ p acc ∙ ingest_all-Permᴰ q acc

-- Frames in another order give the same counters.
pub ingest_all-Perm :
    {vs ws : List Value} (acc : UsageAccumulator)
    → Perm vs ws
    → ingest_all acc vs ≡ ingest_all acc ws
ingest_all-Perm acc p = ∥∥₁_elim p (UsageAccumulator-set _ _) (λ q. ingest_all-Permᴰ q acc)

merge_any_twice :
    (acc : UsageAccumulator) (u : Option TokenUsage)
    → merge_any (merge_any acc u) u ≡ merge_any acc u
unfolding merge merge_any
merge_any_twice acc none = refl
merge_any_twice acc (some u) = λ i. record {
  usage = record {
    input = max_twice acc.usage.input u.input i;
    output = max_twice acc.usage.output u.output i;
    cached_input = max_twice acc.usage.cached_input u.cached_input i;
  };
}

ingest_json_twice :
    (acc : UsageAccumulator) (v : Value) → ingest_json (ingest_json acc v) v ≡ ingest_json acc v
unfolding ingest_json
ingest_json_twice acc v = merge_any_twice acc (extract_usage v)

-- `v` can be moved past the frames after it.
ingest_all-last :
    (acc : UsageAccumulator) (v : Value) (vs : List Value)
    → ingest_all (ingest_json acc v) vs ≡ ingest_json (ingest_all acc vs) v
unfolding ingest_all
ingest_all-last acc v [] = refl
ingest_all-last acc v (w ∷ vs) =
    ap (λ a. ingest_all a vs) (ingest_json_comm acc v w) ∙ ingest_all-last (ingest_json acc w) v vs

-- Frames that are all ingested a second time change nothing.
pub ingest_all_twice :
    (acc : UsageAccumulator) (vs : List Value)
    → ingest_all (ingest_all acc vs) vs ≡ ingest_all acc vs
unfolding ingest_all
ingest_all_twice acc [] = refl
ingest_all_twice acc (v ∷ vs) =
    ap (λ a. ingest_all a vs)
      (sym (ingest_all-last (ingest_json acc v) v vs)
        ∙ ap (λ a. ingest_all a vs) (ingest_json_twice acc v))
    ∙ ingest_all_twice (ingest_json acc v) vs

module _ (parse : List ℕ → Option Value) where
  ingest_lines-append :
      (acc : UsageAccumulator) (ls ms : List (List ℕ))
      → ingest_lines parse acc (ls ++ ms) ≡ ingest_lines parse (ingest_lines parse acc ls) ms
  unfolding ingest_lines
  ingest_lines-append acc [] ms = refl
  ingest_lines-append acc (l ∷ ls) ms = ingest_lines-append (ingest_line parse acc l) ls ms

  -- A chunk that is cut in two after a line feed counts as it does whole.
  ingest_sse_chunk-append :
      (acc : UsageAccumulator) (a b : List ℕ)
      → ingest_sse_chunk parse acc (a ++ 10 ∷ b)
        ≡ ingest_sse_chunk parse (ingest_sse_chunk parse acc (a ++ 10 ∷ [])) b
  unfolding ingest_sse_chunk lines
  ingest_sse_chunk-append acc a b =
      ap (ingest_lines parse acc) (lines_from-append [] a b)
      ∙ ingest_lines-append acc (lines_from [] (a ++ 10 ∷ [])) (lines_from [] b)
