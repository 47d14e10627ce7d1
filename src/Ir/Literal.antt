-- ===== src/Ir/Literal.antt =====
-- Integer constants of ir/eval.go: what the digits that tokeniser/tokeniser.go gives are at compile
-- time.
use qk.Prelude.{
  ℕ, zero, suc, ◌+◌, ◌*◌, ◌/◌, ◌%◌, ◌≤◌, ◌<◌, ◌≡◌, refl, sym, ap, ◌∙◌, inl, inr, Bool, true, false,
  ◌||◌, Option, some, List, [], ◌∷◌, ltb, ◌==◌, arith, Bool-cases,
}
use mathlib.Core.Option
use qk.Types.Syntax.{Ty}
use qk.Types.Equals.{Resolver}
use qk.Tokeniser.Number.{digit_value, number_of, decimal_loop, decimal}
use qk.Tokeniser.Lexemes.{All}
use qk.Tokeniser.Numerals.{
  decimal_loop-small, decimal_loop-large, below, not_below, shorter, number_of-decimal,
}
use qk.Ir.Int.{pos, with_sign, scan_digits, scan_unsigned, set_string}
use qk.Ir.Instr.{int_const}
use qk.Ir.Value.{FloatOps, EvalValue, Memory, ok, eval_integer}
use qk.Ir.Operand.{operand}

abbrev is_digit_of : ℕ → ℕ → Bool
is_digit_of base c = ltb (digit_value c) base

not_underscore : (base c : ℕ) → base ≤ 16 → is_digit_of base c ≡ true → (c == b'_') ≡ false
unfolding digit_value
not_underscore base c b h = ground arith

-- Digits with no underscore have their value.
scan_digits-number_of :
    (base : ℕ) (last : Bool) (acc c : ℕ) (s : List ℕ)
    → base ≤ 16
    → All (is_digit_of base) (c ∷ s)
    → (any : Bool) → scan_digits base last any acc (c ∷ s) ≡ some (number_of base acc (c ∷ s))
unfolding scan_digits number_of
scan_digits-number_of base last acc c [] b (h, _) any = rw (not_underscore base c b h) (rw h)
scan_digits-number_of base last acc c (d ∷ s) b (h, r) any =
    rw (not_underscore base c b h)
      (rw h (scan_digits-number_of base false (acc * base + digit_value c) d s b r true))

-- Decimal digits with no zero in front have their value.
scan_unsigned-decimal :
    (c : ℕ) (s : List ℕ)
    → (c == b'0') ≡ false
    → All (is_digit_of 10) (c ∷ s)
    → scan_unsigned (c ∷ s) ≡ some (number_of 10 0 (c ∷ s))
unfolding scan_unsigned
scan_unsigned-decimal c [] n h = scan_digits-number_of 10 true 0 c [] (omega arith) h false
scan_unsigned-decimal c (d ∷ s) n h =
    rw n (scan_digits-number_of 10 true 0 c (d ∷ s) (omega arith) h false)

-- Digits of the base 10 that do not begin with a zero.
abbrev Leads : List ℕ → Type 0
Leads l =
    (c : ℕ) × (s : List ℕ) × (l ≡ c ∷ s) × ((c == b'0') ≡ false) × All (is_digit_of 10) (c ∷ s)

is_digit-digit : (n : ℕ) → n < 10 → is_digit_of 10 (b'0' + n) ≡ true
unfolding digit_value
is_digit-digit n h = ground arith

decimal_loop-Leads :
    (rounds n : ℕ) (acc : List ℕ)
    → n < rounds
    → 0 < n
    → All (is_digit_of 10) acc
    → Leads (decimal_loop rounds n acc)
decimal_loop-Leads zero n acc h z a = absurd (omega arith)
decimal_loop-Leads (suc rounds) n acc h z a = elim (Bool-cases (ltb n 10)) [
  | inl k ↦ (
    b'0' + n,
    acc,
    decimal_loop-small rounds n acc k,
    ground arith,
    (is_digit-digit n (below n k), a),
  )
  | inr k ↦ rw (decimal_loop-large rounds n acc k) (
      decimal_loop-Leads rounds (n / 10) ((b'0' + n % 10) ∷ acc) (shorter rounds n h k)
        (omega (arith, not_below n k)) (is_digit-digit (n % 10) (omega arith), a))
]

digit-unsigned : (c : ℕ) → is_digit_of 10 c ≡ true → ((c == b'-') ≡ false) × ((c == b'+') ≡ false)
unfolding digit_value
digit-unsigned c h = (ground arith, ground arith)

-- The digits of a number and what `scan_unsigned` and `set_string` make of them.
scan_unsigned-printed : (n : ℕ) → scan_unsigned (decimal n) ≡ some n
unfolding decimal
scan_unsigned-printed zero =
    unfold scan_unsigned in unfold scan_digits in unfold decimal_loop in unfold digit_value in refl
scan_unsigned-printed (suc n) =
    let (c, s, e, z, h) =
      decimal_loop-Leads (suc (suc n)) (suc n) [] (omega arith) (omega arith) tt in
    rw e (
      scan_unsigned-decimal c s z h
      ∙ ap some (ap (number_of 10 0) (sym e) ∙ number_of-decimal (suc n)))

decimal-digit : (n : ℕ) → (c : ℕ) × (s : List ℕ) × (decimal n ≡ c ∷ s) × (is_digit_of 10 c ≡ true)
unfolding decimal
decimal-digit zero = (b'0', [], unfold decimal_loop in refl, unfold digit_value in refl)
decimal-digit (suc n) =
    let (c, s, e, z, h) =
      decimal_loop-Leads (suc (suc n)) (suc n) [] (omega arith) (omega arith) tt in
    (c, s, e, h.0)

set_string-printed : (n : ℕ) → set_string (decimal n) ≡ some (pos n)
unfolding set_string
set_string-printed n =
    let (c, s, e, h) = decimal-digit n in
    let (no_minus, no_plus) = digit-unsigned c h in
    rw e (
      rw no_minus (
        rw no_plus
          (ap (Option.map (with_sign false)) (ap scan_unsigned (sym e) ∙ scan_unsigned-printed n))))

set_string-negative : (n : ℕ) → set_string (b'-' ∷ decimal n) ≡ some (with_sign true n)
unfolding set_string
set_string-negative n = rw (scan_unsigned-printed n)

octal-no_prefix :
    (c : ℕ)
    → is_digit_of 8 c ≡ true
    → ((c == b'b' || c == b'B') ≡ false)
      × ((c == b'o' || c == b'O') ≡ false)
      × ((c == b'x' || c == b'X') ≡ false)
unfolding digit_value
octal-no_prefix c h = (ground arith, ground arith, ground arith)

set_string-leading_zero :
    (c : ℕ) (s : List ℕ)
    → All (is_digit_of 8) (c ∷ s)
    → set_string (b'0' ∷ c ∷ s) ≡ some (pos (number_of 8 0 (c ∷ s)))
unfolding set_string scan_unsigned
set_string-leading_zero c s h =
    let (no_b, no_o, no_x) = octal-no_prefix c h.0 in
    rw no_b (rw no_o (rw no_x (rw (scan_digits-number_of 8 false 0 c s (omega arith) h true))))

module _ (F : FloatOps) (k : Resolver) (levels : ℕ) (t : Ty) where
  open F use {Float}

  -- The decimal digits of a number, as the tokeniser prints them, are that number as an integer
  -- constant at compile time, and with a minus sign the negated number.
  pub operand-printed :
      (n : ℕ) (values : ℕ → Option (EvalValue Float)) (m : Memory F)
      → (operand F k levels (int_const (decimal n) t) values m
          ≡ ok (eval_integer F (pos n) (some t), m))
        × (operand F k levels (int_const (b'-' ∷ decimal n) t) values m
            ≡ ok (eval_integer F (with_sign true n) (some t), m))
  unfolding operand
  operand-printed n values m = (rw (set_string-printed n), rw (set_string-negative n))

  -- An integer constant of a zero with octal digits behind it has at compile time the value of
  -- those digits in base 8.
  pub operand-leading_zero :
      (c : ℕ) (s : List ℕ) (values : ℕ → Option (EvalValue Float)) (m : Memory F)
      → All (is_digit_of 8) (c ∷ s)
      → operand F k levels (int_const (b'0' ∷ c ∷ s) t) values m
        ≡ ok (eval_integer F (pos (number_of 8 0 (c ∷ s))) (some t), m)
  unfolding operand
  operand-leading_zero c s values m h = rw (set_string-leading_zero c s h)
