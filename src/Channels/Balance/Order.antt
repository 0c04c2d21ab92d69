-- ===== src/Channels/Balance/Order.antt =====
-- `balance_chain` of src/channels.rs keeps the channels of a chain and the order of the priorities.
use mathlib.Core.List.{Perm}
use mathlib.Core.List.Perm
use yunova.Base.{
  ℕ, zero, suc, ◌+◌, ◌%◌, ◌≤◌, ◌≡◌, refl, sym, ap, subst, ◌∙◌, true, List, [], ◌∷◌, ◌++◌, length,
  map, ltb, arith, inl, inr, Bool-cases,
}
use yunova.Base.Int.{ℤ, eqb_ℤ, eq_of_parts}
use yunova.Channels.Select.{ChannelChoice}
use yunova.Channels.Balance.{
  Counters, tier, after_tier, at_index, picks, rotate, balance_tier, balance_from, balance_chain,
}
use yunova.Channels.Balance.Laws.{rotate-Perm, tier_split}

eqb_ℤ_refl : (p : ℤ) → eqb_ℤ p p ≡ true
eqb_ℤ_refl p = grind arith

after_tier_shorter : (prio : ℤ) (cs : List ChannelChoice) → length (after_tier prio cs) ≤ length cs
unfolding after_tier
after_tier_shorter prio [] = omega arith
after_tier_shorter prio (c ∷ cs) = elim (Bool-cases (eqb_ℤ c.channel.priority prio)) [
  | inl y ↦ rw y (let h = after_tier_shorter prio cs in omega arith)
  | inr n ↦ rw n (omega arith)
]

longer_than_one : (n : ℕ) → ltb 1 (suc (suc n)) ≡ true
longer_than_one n = ground arith

-- The group that a round of the loop puts out, from the tier that it found.
balance_tier-Perm :
    (c : ChannelChoice) (more : List ChannelChoice) (counters : Counters)
    → Perm (balance_tier c (c ∷ more) counters).0 (c ∷ more)
unfolding balance_tier
balance_tier-Perm c [] counters = Perm.refl _
balance_tier-Perm c (d ∷ more) counters =
    rw (longer_than_one (length more))
      (rotate-Perm c (c ∷ d ∷ more) (counters c.channel.priority) (omega arith))

-- The tier of the first channel starts with it.
tier_head :
    (c : ChannelChoice) (cs : List ChannelChoice)
    → let p = c.channel.priority in
      (tier p (c ∷ cs) ≡ c ∷ tier p cs) × (after_tier p (c ∷ cs) ≡ after_tier p cs)
unfolding tier after_tier
tier_head c cs = rw (eqb_ℤ_refl c.channel.priority) (refl, refl)

balance_from-Perm :
    (fuel : ℕ) (chain : List ChannelChoice) (counters : Counters)
    → length chain ≤ fuel
    → Perm (balance_from fuel chain counters).0 chain
unfolding balance_from
balance_from-Perm zero [] counters h = Perm.refl _
balance_from-Perm zero (c ∷ cs) counters h = absurd (omega arith)
balance_from-Perm (suc fuel) [] counters h = Perm.refl _
balance_from-Perm (suc fuel) (c ∷ cs) counters h =
    let p = c.channel.priority in
    let (front, back) = tier_head c cs in
    rw (front, back)
      (Perm.trans
        (Perm.append (balance_tier-Perm c (tier p cs) counters) (
          balance_from-Perm fuel (after_tier p cs) _
            (let k = after_tier_shorter p cs in omega arith)))
        (subst (Perm (c ∷ tier p cs ++ after_tier p cs)) (ap (◌∷◌ c) (tier_split p cs))
          (Perm.refl _)))

abbrev pub priorities : List ChannelChoice → List ℤ
priorities cs = map (λ (c : ChannelChoice). c.channel.priority) cs

priorities-append :
    (xs ys : List ChannelChoice) → priorities (xs ++ ys) ≡ priorities xs ++ priorities ys
priorities-append [] ys = refl
priorities-append (x ∷ xs) ys = ap (λ ps. x.channel.priority ∷ ps) (priorities-append xs ys)

repeat : ℕ → ℤ → List ℤ
repeat zero p = []
repeat (suc n) p = p ∷ repeat n p

abbrev HasPriority : ℤ → List ChannelChoice → Type 0
HasPriority p [] = Unit {0}
HasPriority p (c ∷ cs) = (c.channel.priority ≡ p) × HasPriority p cs

eqb_ℤ_sound : (a b : ℤ) → eqb_ℤ a b ≡ true → a ≡ b
eqb_ℤ_sound a b h = eq_of_parts a b (grind arith)

tier-HasPriority : (p : ℤ) (cs : List ChannelChoice) → HasPriority p (tier p cs)
unfolding tier
tier-HasPriority p [] = tt
tier-HasPriority p (c ∷ cs) = elim (Bool-cases (eqb_ℤ c.channel.priority p)) [
  | inl y ↦ rw y (eqb_ℤ_sound c.channel.priority p y, tier-HasPriority p cs)
  | inr n ↦ rw n tt
]

HasPriority-repeat :
    (p : ℤ) (cs : List ChannelChoice) → HasPriority p cs → priorities cs ≡ repeat (length cs) p
unfolding repeat
HasPriority-repeat p [] h = refl
HasPriority-repeat p (c ∷ cs) h = rw (h.0, HasPriority-repeat p cs h.1) refl

module _ (p : ℤ) (d : ChannelChoice) (from_d : d.channel.priority ≡ p) where
  at_index-HasPriority :
      (i : ℕ) (cs : List ChannelChoice) → HasPriority p cs → (at_index i d cs).channel.priority ≡ p
  unfolding at_index
  at_index-HasPriority i [] h = from_d
  at_index-HasPriority zero (c ∷ cs) h = h.0
  at_index-HasPriority (suc i) (c ∷ cs) h = at_index-HasPriority i cs h.1

  picks-HasPriority :
      (group : List ChannelChoice) (start k m : ℕ)
      → HasPriority p group
      → priorities (picks d group start k m) ≡ repeat m p
  unfolding picks repeat
  picks-HasPriority group start k zero h = refl
  picks-HasPriority group start k (suc m) h =
      rw
        (
          at_index-HasPriority ((start + k) % length group) group h,
          picks-HasPriority group start (suc k) m h,
        )
        refl

balance_tier-priorities :
    (c : ChannelChoice) (more : List ChannelChoice) (counters : Counters)
    → HasPriority c.channel.priority (c ∷ more)
    → priorities (balance_tier c (c ∷ more) counters).0 ≡ priorities (c ∷ more)
unfolding balance_tier rotate
balance_tier-priorities c [] counters h = refl
balance_tier-priorities c (d ∷ more) counters h =
    let p = c.channel.priority in
    rw (longer_than_one (length more)) (
      picks-HasPriority p c refl (c ∷ d ∷ more) (counters p % suc (suc (length more))) 0
        (suc (suc (length more))) h
      ∙ sym (HasPriority-repeat p (c ∷ d ∷ more) h))

balance_from-priorities :
    (fuel : ℕ) (chain : List ChannelChoice) (counters : Counters)
    → length chain ≤ fuel
    → priorities (balance_from fuel chain counters).0 ≡ priorities chain
unfolding balance_from
balance_from-priorities zero [] counters h = refl
balance_from-priorities zero (c ∷ cs) counters h = absurd (omega arith)
balance_from-priorities (suc fuel) [] counters h = refl
balance_from-priorities (suc fuel) (c ∷ cs) counters h =
    let p = c.channel.priority in
    let (front, back) = tier_head c cs in
    let shorter = after_tier_shorter p cs in
    let (out, next) = balance_tier c (c ∷ tier p cs) counters in
    rw (front, back)
      (priorities-append out (balance_from fuel (after_tier p cs) next).0
        ∙ ap (λ ps. ps ++ priorities (balance_from fuel (after_tier p cs) next).0)
            (balance_tier-priorities c (tier p cs) counters (refl, tier-HasPriority p cs))
        ∙ ap (λ ps. p ∷ priorities (tier p cs) ++ ps)
            (balance_from-priorities fuel (after_tier p cs) next (omega arith))
        ∙ sym (priorities-append (c ∷ tier p cs) (after_tier p cs))
        ∙ ap (λ ds. p ∷ priorities ds) (tier_split p cs))

-- A balanced chain has the channels of the chain, each as often, and at each position a channel of
-- the priority that stood there, whatever the counters are: the tiers keep their order.
pub balance_chain-Perm :
    (chain : List ChannelChoice) (counters : Counters)
    → let balanced = (balance_chain chain counters).0 in
      Perm balanced chain × (priorities balanced ≡ priorities chain)
unfolding balance_chain
balance_chain-Perm chain counters = (
  balance_from-Perm (length chain) chain counters (omega arith),
  balance_from-priorities (length chain) chain counters (omega arith),
)
