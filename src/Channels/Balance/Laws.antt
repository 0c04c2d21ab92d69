-- ===== src/Channels/Balance/Laws.antt =====
-- The balanced chain has the same channels, tier by tier, and each channel of a tier gets its turn.
use mathlib.Core.List.{Perm}
use native.Mathlib.Nat.{mod-eq_of_lt, mod-eq-sub-mod, mod-lt}
use mathlib.Core.List.Permᴰ
use yunova.Base.{
  ℕ, zero, suc, ◌+◌, ◌-◌, ◌%◌, ◌≤◌, ◌<◌, ◌≡◌, refl, sym, ap, subst, ◌∙◌, List, [], ◌∷◌, ◌++◌,
  length, arith, inl, inr, Bool-cases,
}
use yunova.Base.Int.{ℤ, eqb_ℤ}
use yunova.Channels.Select.{ChannelChoice}
use yunova.Channels.Balance.{tier, after_tier, at_index, picks, rotate}

abbrev pub drop : ℕ → List ChannelChoice → List ChannelChoice
drop zero cs = cs
drop (suc n) [] = []
drop (suc n) (c ∷ cs) = drop n cs

abbrev pub take : ℕ → List ChannelChoice → List ChannelChoice
take zero cs = []
take (suc n) [] = []
take (suc n) (c ∷ cs) = c ∷ take n cs

take-drop : (n : ℕ) (cs : List ChannelChoice) → take n cs ++ drop n cs ≡ cs
take-drop zero cs = refl
take-drop (suc n) [] = refl
take-drop (suc n) (c ∷ cs) = ap (◌∷◌ c) (take-drop n cs)

-- From the position `i` on.
straight : ChannelChoice → List ChannelChoice → ℕ → ℕ → List ChannelChoice
straight d group i zero = []
straight d group i (suc m) = at_index i d group ∷ straight d group (suc i) m

straight_tail :
    (d c : ChannelChoice) (cs : List ChannelChoice) (i m : ℕ)
    → straight d (c ∷ cs) (suc i) m ≡ straight d cs i m
unfolding straight at_index
straight_tail d c cs i zero = refl
straight_tail d c cs i (suc m) = ap (◌∷◌ (at_index i d cs)) (straight_tail d c cs (suc i) m)

straight-take :
    (d : ChannelChoice) (cs : List ChannelChoice) (m : ℕ)
    → m ≤ length cs
    → straight d cs 0 m ≡ take m cs
unfolding straight at_index
straight-take d cs zero h = refl
straight-take d [] (suc m) h = absurd (omega arith)
straight-take d (c ∷ cs) (suc m) h =
    ap (◌∷◌ c) (straight_tail d c cs 0 m ∙ straight-take d cs m (omega arith))

take_all : (cs : List ChannelChoice) → take (length cs) cs ≡ cs
take_all [] = refl
take_all (c ∷ cs) = ap (◌∷◌ c) (take_all cs)

straight-drop :
    (d : ChannelChoice) (cs : List ChannelChoice) (i m : ℕ)
    → i + m ≡ length cs
    → straight d cs i m ≡ drop i cs
unfolding straight at_index
straight-drop d cs zero m h =
    let e : m ≡ length cs = omega arith in
    straight-take d cs m (omega arith) ∙ ap (λ n. take n cs) e ∙ take_all cs
straight-drop d [] (suc i) m h = absurd (omega arith)
straight-drop d (c ∷ cs) (suc i) m h =
    straight_tail d c cs i m ∙ straight-drop d cs i m (omega arith)

pub mod_small : (x n : ℕ) → x < n → x % n ≡ x
mod_small x n h = mod-eq_of_lt h

mod_over : (x j n : ℕ) → x ≡ n + j → j < n → x % n ≡ j
mod_over x j n e h =
    let f : x - n ≡ j = omega arith in
    mod-eq-sub-mod (omega arith) ∙ ap (λ y. y % n) f ∙ mod_small j n h

module _ (d : ChannelChoice) (group : List ChannelChoice) (start : ℕ) where
  picks-append :
      (k a b : ℕ)
      → picks d group start k (a + b) ≡ picks d group start k a ++ picks d group start (k + a) b
  unfolding picks
  picks-append k zero b =
      let e : k + 0 ≡ k = omega arith in let f : 0 + b ≡ b = omega arith in rw (e, f) refl
  picks-append k (suc a) b =
      let e : suc a + b ≡ suc (a + b) = omega arith in
      let f : k + suc a ≡ suc k + a = omega arith in
      rw (e, f)
        (ap (λ cs. at_index ((start + k) % length group) d group ∷ cs) (picks-append (suc k) a b))

  picks_low :
      (k m : ℕ)
      → start + k + m ≤ length group
      → picks d group start k m ≡ straight d group (start + k) m
  unfolding picks straight
  picks_low k zero h = refl
  picks_low k (suc m) h =
      let f : start + suc k ≡ suc (start + k) = omega arith in
      rw (mod_small (start + k) (length group) (omega arith)) (
        ap (λ cs. at_index (start + k) d group ∷ cs)
          (picks_low (suc k) m (omega arith) ∙ ap (λ i. straight d group i m) f))

  picks_high :
      (k j m : ℕ)
      → start + k ≡ length group + j
      → j + m ≤ length group
      → picks d group start k m ≡ straight d group j m
  unfolding picks straight
  picks_high k j zero h l = refl
  picks_high k j (suc m) h l = rw (mod_over (start + k) j (length group) h (omega arith)) (
      ap (λ cs. at_index j d group ∷ cs) (picks_high (suc k) (suc j) m (omega arith) (omega arith)))

  picks_rotate :
      start < length group
      → picks d group start 0 (length group) ≡ drop start group ++ take start group
  picks_rotate h =
      let n = length group in
      let e : n ≡ (n - start) + start = omega arith in
      let z : start + 0 ≡ start = omega arith in
      let low =
        picks_low 0 (n - start) (omega arith)
        ∙ ap (λ i. straight d group i (n - start)) z
        ∙ straight-drop d group start (n - start) (omega arith) in
      let high =
        picks_high (0 + (n - start)) 0 start (omega arith) (omega arith)
        ∙ straight-take d group start (omega arith) in
      ap (picks d group start 0) e
      ∙ picks-append 0 (n - start) start
      ∙ ap (λ cs. cs ++ picks d group start (0 + (n - start)) start) low
      ∙ ap (λ cs. drop start group ++ cs) high

pub mod_below : (x n : ℕ) → 0 < n → x % n < n
mod_below x n h = mod-lt x h

-- A rotation of a tier is the tier cut in two, the halves swapped.
pub rotate_cut :
    (d : ChannelChoice) (group : List ChannelChoice) (counter : ℕ)
    → 0 < length group
    → let s = counter % length group in rotate d group counter ≡ drop s group ++ take s group
unfolding rotate
rotate_cut d group counter h =
    picks_rotate d group (counter % length group) (mod_below counter (length group) h)

pub rotate-Perm :
    (d : ChannelChoice) (group : List ChannelChoice) (counter : ℕ)
    → 0 < length group
    → Perm (rotate d group counter) group
rotate-Perm d group counter h =
    let s = counter % length group in
    subst (λ cs. Perm cs group) (sym (rotate_cut d group counter h))
      (subst (Perm (drop s group ++ take s group)) (take-drop s group)
        (∣ Permᴰ.append_comm (drop s group) (take s group) ∣₁))

pub tier_split : (prio : ℤ) (cs : List ChannelChoice) → tier prio cs ++ after_tier prio cs ≡ cs
unfolding tier after_tier
tier_split prio [] = refl
tier_split prio (c ∷ cs) = elim (Bool-cases (eqb_ℤ c.channel.priority prio)) [
  | inl y ↦ rw y (ap (◌∷◌ c) (tier_split prio cs))
  | inr n ↦ rw n refl
]
