-- ===== src/Base/Int.antt =====
-- Signed integers over the native numbers: the `i64` and `i128` values of the source, with the
-- wrap-around of Rust's release arithmetic written out.
use Prim.Native.Nat.{ℕ, suc, ◌+◌, ◌-◌, ◌*◌, ◌/◌, ◌%◌, ◌^◌, ◌≤◌}
use mathlib.Core.Path.{◌≡◌, refl}
use mathlib.Core.Bool.{Bool, ◌&&◌}
use native.Mathlib.Omega.{arith}
use yunova.Base.Tests.{ltb, leb, ◌==◌, if◌then◌else◌}

-- `negsuc n` is -(n + 1).
pub data ℤ : Type 0 where
  pos : ℕ → ℤ
  negsuc : ℕ → ℤ

abbrev pub pos_part : ℤ → ℕ
pos_part (pos n) = n
pos_part (negsuc n) = 0

abbrev pub neg_part : ℤ → ℕ
neg_part (pos n) = 0
neg_part (negsuc n) = suc n

-- a - b, as an integer.
abbrev pub sub_ℕ : ℕ → ℕ → ℤ
sub_ℕ a b = if leb b a then pos (a - b) else negsuc (b - a - 1)

infixl 65 ◌+ℤ◌ ◌-ℤ◌
infixl 70 ◌*ℤ◌
infix 50 ◌≤ℤ◌
unfoldable pub ◌+ℤ◌ : ℤ → ℤ → ℤ
a +ℤ b = sub_ℕ (pos_part a + pos_part b) (neg_part a + neg_part b)

unfoldable pub ◌-ℤ◌ : ℤ → ℤ → ℤ
a -ℤ b = sub_ℕ (pos_part a + neg_part b) (neg_part a + pos_part b)

unfoldable pub ◌*ℤ◌ : ℤ → ℤ → ℤ
a *ℤ b =
    sub_ℕ (pos_part a * pos_part b + neg_part a * neg_part b)
      (pos_part a * neg_part b + neg_part a * pos_part b)

abbrev pub ◌≤ℤ◌ : ℤ → ℤ → Type 0
a ≤ℤ b = pos_part a + neg_part b ≤ pos_part b + neg_part a

abbrev pub ltb_ℤ : ℤ → ℤ → Bool
ltb_ℤ a b = ltb (pos_part a + neg_part b) (pos_part b + neg_part a)

abbrev pub leb_ℤ : ℤ → ℤ → Bool
leb_ℤ a b = leb (pos_part a + neg_part b) (pos_part b + neg_part a)

abbrev pub eqb_ℤ : ℤ → ℤ → Bool
eqb_ℤ a b = pos_part a + neg_part b == pos_part b + neg_part a

-- `Ord::max` and `Ord::min`.
abbrev pub max_ℤ : ℤ → ℤ → ℤ
max_ℤ a b = if ltb_ℤ b a then a else b

abbrev pub min_ℤ : ℤ → ℤ → ℤ
min_ℤ a b = if ltb_ℤ b a then b else a

-- Two's complement at `w` bits, `half` being `2 ^ (w - 1)`: the value that is left after wrapping.
abbrev pub wrap : ℕ → ℤ → ℤ
wrap half a =
    let r = (pos_part a + 2 * half - neg_part a % (2 * half)) % (2 * half) in
    if leb_ℤ (negsuc (half - 1)) a && leb_ℤ a (pos (half - 1))
    then a
    else if ltb r half
    then pos r
    else negsuc (2 * half - r - 1)

abbrev pub wrap_i64 : ℤ → ℤ
wrap_i64 = wrap (2 ^ 63)

abbrev pub wrap_i128 : ℤ → ℤ
wrap_i128 = wrap (2 ^ 127)

abbrev pub max_i64 : ℤ
max_i64 = pos (2 ^ 63 - 1)

-- Rust's `/` on signed integers, by a positive number: it rounds towards zero.
abbrev pub quot : ℤ → ℕ → ℤ
quot (pos n) d = pos (n / d)
quot (negsuc n) d = sub_ℕ 0 (suc n / d)

pub +ℤ_parts :
    (a b : ℤ)
    → pos_part (a +ℤ b) + neg_part a + neg_part b ≡ neg_part (a +ℤ b) + pos_part a + pos_part b
unfolding ◌+ℤ◌
+ℤ_parts a b = ground arith

pub -ℤ_parts :
    (a b : ℤ)
    → pos_part (a -ℤ b) + neg_part a + pos_part b ≡ neg_part (a -ℤ b) + pos_part a + neg_part b
unfolding ◌-ℤ◌
-ℤ_parts a b = ground arith

pub eq_of_parts : (a b : ℤ) → pos_part a + neg_part b ≡ pos_part b + neg_part a → a ≡ b
eq_of_parts a b h = ground arith

-- One law for each operation lets `omega` work with the operations shut.
pub ruleset int_laws = (arith, +ℤ_parts, -ℤ_parts, eq_of_parts)

wraps_below : wrap_i64 (negsuc (2 ^ 63)) ≡ max_i64
wraps_below = refl

-- The operators of `i64` and `i128`.
unfoldable pub sub_i64 : ℤ → ℤ → ℤ
unfolding ◌-ℤ◌
sub_i64 a b = wrap_i64 (a -ℤ b)

unfoldable pub add_i64 : ℤ → ℤ → ℤ
unfolding ◌+ℤ◌
add_i64 a b = wrap_i64 (a +ℤ b)

unfoldable pub mul_i64 : ℤ → ℤ → ℤ
unfolding ◌*ℤ◌
mul_i64 a b = wrap_i64 (a *ℤ b)

unfoldable pub add_i128 : ℤ → ℤ → ℤ
unfolding ◌+ℤ◌
add_i128 a b = wrap_i128 (a +ℤ b)

unfoldable pub mul_i128 : ℤ → ℤ → ℤ
unfolding ◌*ℤ◌
mul_i128 a b = wrap_i128 (a *ℤ b)

-- `Ord::clamp`
unfoldable pub clamp : ℤ → ℤ → ℤ → ℤ
clamp a lo hi = if ltb_ℤ a lo then lo else if ltb_ℤ hi a then hi else a

-- Within the range of the type the operators are those of the integers.
pub wrap-pos : (half n : ℕ) → n + 1 ≤ half → wrap half (pos n) ≡ pos n
wrap-pos half n h = ground arith

pub add_i128-pos : (a b : ℕ) → a + b + 1 ≤ 2 ^ 127 → add_i128 (pos a) (pos b) ≡ pos (a + b)
unfolding add_i128
add_i128-pos a b h = ground arith

pub mul_i128-pos : (a b : ℕ) → a * b + 1 ≤ 2 ^ 127 → mul_i128 (pos a) (pos b) ≡ pos (a * b)
unfolding mul_i128
mul_i128-pos a b h = ground arith

pub sub_i64-pos : (a b : ℕ) → b ≤ a → a + 1 ≤ 2 ^ 63 → sub_i64 (pos a) (pos b) ≡ pos (a - b)
unfolding sub_i64
sub_i64-pos a b h k = ground arith
