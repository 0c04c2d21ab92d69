-- ===== src/Videos/Durations.antt =====
-- The durations of src/videos.rs: what a listing offers is what a price supports.
use yunova.Base.{
  ℕ, zero, suc, ◌+◌, ◌≡◌, refl, sym, ap, ◌∙◌, false, ◌&&◌, ◌||◌, List, [], ◌∷◌, any, leb, ltb,
  arith, inl, inr, Bool-cases,
}
use yunova.Base.Int.{ℤ, pos, negsuc, eqb_ℤ, leb_ℤ}
use yunova.Schema.{ModelPrice}
use yunova.Videos.{
  is_grok_video_model, range_from, insert_sorted, sort_unstable, dedup_after, dedup, or_no_seconds,
  effective_allowed_seconds, supports_seconds, grok_video_max_seconds,
}

any-insert_sorted :
    (s v : ℤ) (vs : List ℤ) → any (eqb_ℤ s) (insert_sorted v vs) ≡ eqb_ℤ s v || any (eqb_ℤ s) vs
unfolding insert_sorted
any-insert_sorted s v [] = refl
any-insert_sorted s v (w ∷ ws) = ground (arith, any-insert_sorted s v ws)

any-sort_unstable : (s : ℤ) (vs : List ℤ) → any (eqb_ℤ s) (sort_unstable vs) ≡ any (eqb_ℤ s) vs
unfolding sort_unstable
any-sort_unstable s [] = refl
any-sort_unstable s (v ∷ vs) =
    any-insert_sorted s v (sort_unstable vs) ∙ ap (λ b. eqb_ℤ s v || b) (any-sort_unstable s vs)

any-dedup_after :
    (s v : ℤ) (ws : List ℤ)
    → eqb_ℤ s v || any (eqb_ℤ s) (dedup_after v ws) ≡ eqb_ℤ s v || any (eqb_ℤ s) ws
unfolding dedup_after
any-dedup_after s v [] = refl
any-dedup_after s v (w ∷ ws) = ground (arith, any-dedup_after s v ws, any-dedup_after s w ws)

any-dedup : (s : ℤ) (vs : List ℤ) → any (eqb_ℤ s) (dedup vs) ≡ any (eqb_ℤ s) vs
unfolding dedup
any-dedup s [] = refl
any-dedup s (v ∷ vs) = any-dedup_after s v vs

any-range_from : (n i m : ℕ) → any (eqb_ℤ (pos n)) (range_from i m) ≡ leb i n && ltb n (i + m)
unfolding range_from
any-range_from n i zero = ground arith
any-range_from n i (suc m) = ground (arith, any-range_from n (suc i) m)

no_negative : (n i m : ℕ) → any (eqb_ℤ (negsuc n)) (range_from i m) ≡ false
unfolding range_from
no_negative n i zero = refl
no_negative n i (suc m) = ground (arith, no_negative n (suc i) m)

grok_range :
    (s : ℤ)
    → leb_ℤ (pos 1) s && leb_ℤ s (pos grok_video_max_seconds)
      ≡ any (eqb_ℤ s) (range_from 1 grok_video_max_seconds)
grok_range (pos n) = ground (arith, any-range_from n 1 grok_video_max_seconds)
grok_range (negsuc n) = ground (arith, no_negative n 1 grok_video_max_seconds)

-- A duration is charged for exactly when it is among those that the listing of the model offers.
supports_seconds-effective_allowed_seconds :
    (p : ModelPrice) (seconds : ℤ)
    → supports_seconds p seconds ≡ any (eqb_ℤ seconds) (effective_allowed_seconds p)
unfolding supports_seconds effective_allowed_seconds
supports_seconds-effective_allowed_seconds p seconds =
    elim (Bool-cases (is_grok_video_model p.model)) [
      | inl y ↦ rw y (grok_range seconds)
      | inr n ↦ rw n (
          sym (
            any-dedup seconds (sort_unstable (or_no_seconds p.allowed_seconds))
            ∙ any-sort_unstable seconds (or_no_seconds p.allowed_seconds)))
    ]
