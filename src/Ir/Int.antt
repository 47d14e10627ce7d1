-- ===== src/Ir/Int.antt =====
-- What ir/eval.go uses of Go's `big.Int`. `negsuc n` is -(n + 1).
use Prim.Native.Nat.{bit_and, bit_or, bit_xor}
use qk.Prelude.{
  ℕ, suc, ◌+◌, ◌-◌, ◌*◌, ◌/◌, ◌%◌, ◌^◌, Bool, true, false, not, ◌&&◌, ◌||◌, Option, none, some,
  List, [], ◌∷◌, ltb, leb, ◌==◌, if◌then◌else◌,
}
use mathlib.Core.Option
use qk.Tokeniser.Number.{digit_value}

pub data ℤ : Type 0 where
  pos : ℕ → ℤ
  negsuc : ℕ → ℤ

abbrev pub pos_part : ℤ → ℕ
pos_part (pos n) = n
pos_part (negsuc n) = 0

abbrev pub neg_part : ℤ → ℕ
neg_part (pos n) = 0
neg_part (negsuc n) = suc n

-- a - b, as an integer.
abbrev pub sub_ℕ : ℕ → ℕ → ℤ
sub_ℕ a b = if leb b a then pos (a - b) else negsuc (b - a - 1)

infixl 65 ◌+ℤ◌ ◌-ℤ◌
infixl 70 ◌*ℤ◌
unfoldable pub ◌+ℤ◌ : ℤ → ℤ → ℤ
a +ℤ b = sub_ℕ (pos_part a + pos_part b) (neg_part a + neg_part b)

unfoldable pub ◌-ℤ◌ : ℤ → ℤ → ℤ
a -ℤ b = sub_ℕ (pos_part a + neg_part b) (neg_part a + pos_part b)

unfoldable pub ◌*ℤ◌ : ℤ → ℤ → ℤ
a *ℤ b =
    sub_ℕ (pos_part a * pos_part b + neg_part a * neg_part b)
      (pos_part a * neg_part b + neg_part a * pos_part b)

abbrev pub neg : ℤ → ℤ
neg a = sub_ℕ (neg_part a) (pos_part a)

abbrev pub magnitude : ℤ → ℕ
magnitude a = pos_part a + neg_part a

abbrev pub is_zero : ℤ → Bool
is_zero a = magnitude a == 0

abbrev pub is_negative : ℤ → Bool
is_negative (pos n) = false
is_negative (negsuc n) = true

-- A magnitude with a sign.
abbrev pub with_sign : Bool → ℕ → ℤ
with_sign true n = sub_ℕ 0 n
with_sign false n = pos n

abbrev xor_bool : Bool → Bool → Bool
xor_bool true b = not b
xor_bool false b = b

-- `Quo` and `Rem`: the quotient is rounded to zero, and the remainder has the sign of the dividend.
unfoldable pub quo : ℤ → ℤ → ℤ
quo a b = with_sign (xor_bool (is_negative a) (is_negative b)) (magnitude a / magnitude b)

unfoldable pub rem : ℤ → ℤ → ℤ
rem a b = with_sign (is_negative a) (magnitude a % magnitude b)

-- `And`, `Or`, `Xor` and `Not` on two's complement without an end.
abbrev pub complement : ℤ → ℤ
complement (pos n) = negsuc n
complement (negsuc n) = pos n

unfoldable pub and_ℤ : ℤ → ℤ → ℤ
and_ℤ (pos a) (pos b) = pos (bit_and a b)
and_ℤ (pos a) (negsuc b) = pos (a - bit_and a b)
and_ℤ (negsuc a) (pos b) = pos (b - bit_and a b)
and_ℤ (negsuc a) (negsuc b) = negsuc (bit_or a b)

unfoldable pub or_ℤ : ℤ → ℤ → ℤ
or_ℤ (pos a) (pos b) = pos (bit_or a b)
or_ℤ (pos a) (negsuc b) = negsuc (b - bit_and a b)
or_ℤ (negsuc a) (pos b) = negsuc (a - bit_and a b)
or_ℤ (negsuc a) (negsuc b) = negsuc (bit_and a b)

unfoldable pub xor_ℤ : ℤ → ℤ → ℤ
xor_ℤ (pos a) (pos b) = pos (bit_xor a b)
xor_ℤ (pos a) (negsuc b) = negsuc (bit_xor a b)
xor_ℤ (negsuc a) (pos b) = negsuc (bit_xor a b)
xor_ℤ (negsuc a) (negsuc b) = pos (bit_xor a b)

-- `Lsh` and `Rsh`; the second rounds down.
unfoldable pub shift_left : ℤ → ℕ → ℤ
shift_left a n = with_sign (is_negative a) (magnitude a * 2 ^ n)

unfoldable pub shift_right : ℤ → ℕ → ℤ
shift_right (pos a) n = pos (a / 2 ^ n)
shift_right (negsuc a) n = negsuc (a / 2 ^ n)

-- `Cmp`
pub data Order : Type 0 where
  less same more : Order

unfoldable pub compare_ℤ : ℤ → ℤ → Order
compare_ℤ a b =
    if ltb (pos_part a + neg_part b) (pos_part b + neg_part a)
    then less
    else if pos_part a + neg_part b == pos_part b + neg_part a
    then same
    else more

-- `SetString` with the base 0, behind the sign and the prefix: an underscore may stand before a digit
-- if a digit or the prefix is before it. `last` says whether the character before is an underscore,
-- and `any` whether there was a digit.
unfoldable pub scan_digits : ℕ → Bool → Bool → ℕ → List ℕ → Option ℕ
unfolding digit_value
scan_digits base last any acc [] = if any && not last then some acc else none
scan_digits base last any acc (c ∷ s) =
    if c == b'_'
    then (if last then none else scan_digits base true any acc s)
    else if ltb (digit_value c) base
    then scan_digits base false true (acc * base + digit_value c) s
    else none

-- The prefix of a number names the base; a leading zero with no letter names the base 8.
unfoldable pub scan_unsigned : List ℕ → Option ℕ
scan_unsigned [] = none
scan_unsigned (c ∷ []) = scan_digits 10 true false 0 (c ∷ [])
scan_unsigned (c ∷ (d ∷ s)) =
    if not (c == b'0')
    then scan_digits 10 true false 0 (c ∷ d ∷ s)
    else if d == b'b' || d == b'B'
    then scan_digits 2 false false 0 s
    else if d == b'o' || d == b'O'
    then scan_digits 8 false false 0 s
    else if d == b'x' || d == b'X'
    then scan_digits 16 false false 0 s
    else scan_digits 8 false true 0 (d ∷ s)

unfoldable pub set_string : List ℕ → Option ℤ
unfolding scan_unsigned
set_string [] = none
set_string (c ∷ s) =
    if c == b'-'
    then Option.map (with_sign true) (scan_unsigned s)
    else if c == b'+'
    then Option.map (with_sign false) (scan_unsigned s)
    else Option.map (with_sign false) (scan_unsigned (c ∷ s))
