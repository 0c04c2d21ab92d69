-- ===== src/Channels/Balance.antt =====
-- `balance_chain` and `rr_next` of src/channels.rs. The counters of one key prefix are a function of
-- the priority; a counter is a `u64` and wraps around.
pub mod Laws
pub mod Order
pub mod Turns
use yunova.Base.{
  ℕ, zero, suc, ◌+◌, ◌%◌, ◌^◌, Bool, Option, List, [], ◌∷◌, ◌++◌, length, if◌then◌else◌, ltb,
}
use yunova.Base.Int.{ℤ, eqb_ℤ}
use yunova.Channels.Select.{ChannelChoice}

abbrev pub Counters : Type 0
Counters = ℤ → ℕ

-- `rr_next` at a priority: the counters after it.
unfoldable pub bump : ℤ → Counters → Counters
bump prio counters = λ p. if eqb_ℤ p prio then (counters p + 1) % 2 ^ 64 else counters p

-- The inner loop: the tier at the head of a chain, and the rest.
unfoldable pub tier : ℤ → List ChannelChoice → List ChannelChoice
tier prio [] = []
tier prio (c ∷ cs) =
    let more = tier prio cs in if eqb_ℤ c.channel.priority prio then c ∷ more else []

unfoldable pub after_tier : ℤ → List ChannelChoice → List ChannelChoice
after_tier prio [] = []
after_tier prio (c ∷ cs) =
    let rest = after_tier prio cs in if eqb_ℤ c.channel.priority prio then rest else c ∷ cs

unfoldable pub at_index : ℕ → ChannelChoice → List ChannelChoice → ChannelChoice
at_index n d [] = d
at_index zero d (c ∷ cs) = c
at_index (suc n) d (c ∷ cs) = at_index n d cs

-- `group[(start + k) % group.len()]` for `m` numbers from `k` on; `d` is never read.
unfoldable pub picks : ChannelChoice → List ChannelChoice → ℕ → ℕ → ℕ → List ChannelChoice
picks d group start k zero = []
picks d group start k (suc m) =
    at_index ((start + k) % length group) d group ∷ picks d group start (suc k) m

unfoldable pub rotate : ChannelChoice → List ChannelChoice → ℕ → List ChannelChoice
rotate d group counter = picks d group (counter % length group) 0 (length group)

-- One round of the outer loop, on the tier of `c`.
unfoldable pub balance_tier :
    ChannelChoice → List ChannelChoice → Counters → List ChannelChoice × Counters
balance_tier c group counters =
    let prio = c.channel.priority in
    if ltb 1 (length group)
    then (rotate c group (counters prio), bump prio counters)
    else (c ∷ [], counters)

-- The outer loop, with fuel for each round.
unfoldable pub balance_from : ℕ → List ChannelChoice → Counters → List ChannelChoice × Counters
balance_from zero chain counters = ([], counters)
balance_from (suc fuel) [] counters = ([], counters)
balance_from (suc fuel) (c ∷ cs) counters =
    let prio = c.channel.priority in
    let (out, next) = balance_tier c (tier prio (c ∷ cs)) counters in
    let (more, last) = balance_from fuel (after_tier prio (c ∷ cs)) next in (out ++ more, last)

unfoldable pub balance_chain : List ChannelChoice → Counters → List ChannelChoice × Counters
balance_chain chain counters = balance_from (length chain) chain counters
