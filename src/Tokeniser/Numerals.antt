-- ===== src/Tokeniser/Numerals.antt =====
-- ReadNumber of tokeniser/tokeniser.go on numbers with a prefix.
use qk.Prelude.{
  ℕ, zero, suc, ◌+◌, ◌-◌, ◌/◌, ◌%◌, ◌≤◌, ◌<◌, ◌≡◌, ◌≢◌, refl, sym, ap, ◌∙◌, inl, inr, true, false,
  some, List, [], ◌∷◌, ltb, leb, length, arith, Bool-cases,
}
use qk.Tokeniser.Token.{Token}
use qk.Tokeniser.Cursor.{Tokeniser, code_at, peek, next}
use qk.Tokeniser.Read.{ok}
use qk.Tokeniser.Number.{
  digit_value, may_be_digit, dot_digit, number_prefix, read_digits, finish_number, read_unsigned,
  read_number, number_of, decimal_loop, decimal,
}
use qk.Tokeniser.Place.{place, Reads, Reads-length, lt-of_code_at, inc-place, incs-place}
use qk.Tokeniser.Lexemes.{All, IsMarker}
use qk.Tokeniser.Lexemes.Numbers.{next-place, read_digits-on, read_digits-off}

pub digit_value-digit : (n : ℕ) → n < 10 → digit_value (b'0' + n) ≡ n
unfolding digit_value
digit_value-digit n h = ground arith

pub decimal_loop-small :
    (rounds n : ℕ) (acc : List ℕ)
    → ltb n 10 ≡ true
    → decimal_loop (suc rounds) n acc ≡ (b'0' + n) ∷ acc
unfolding decimal_loop
decimal_loop-small rounds n acc h = rw (h, decimal_loop)

pub decimal_loop-large :
    (rounds n : ℕ) (acc : List ℕ)
    → ltb n 10 ≡ false
    → decimal_loop (suc rounds) n acc ≡ decimal_loop rounds (n / 10) ((b'0' + n % 10) ∷ acc)
unfolding decimal_loop
decimal_loop-large rounds n acc h = rw (h, decimal_loop)

pub below : (n : ℕ) → ltb n 10 ≡ true → n < 10
below n h = ground arith

pub not_below : (n : ℕ) → ltb n 10 ≡ false → 10 ≤ n
not_below n h = ground arith

pub shorter : (rounds n : ℕ) → n < suc rounds → ltb n 10 ≡ false → n / 10 < rounds
shorter rounds n h k = omega (arith, not_below n k)

number_of-decimal_loop :
    (rounds n : ℕ) (acc : List ℕ)
    → n < rounds
    → number_of 10 0 (decimal_loop rounds n acc) ≡ number_of 10 n acc
unfolding number_of
number_of-decimal_loop zero n acc h = absurd (omega arith)
number_of-decimal_loop (suc rounds) n acc h = elim (Bool-cases (ltb n 10)) [
  | inl k ↦
      rw (decimal_loop-small rounds n acc k)
        (ap (λ (m : ℕ). number_of 10 m acc) (omega (arith, digit_value-digit n (below n k))))
  | inr k ↦ rw (decimal_loop-large rounds n acc k) (
      number_of-decimal_loop rounds (n / 10) ((b'0' + n % 10) ∷ acc) (shorter rounds n h k)
      ∙ ap (λ (m : ℕ). number_of 10 m acc)
          (omega (arith, digit_value-digit (n % 10) (omega arith))))
]

pub number_of-decimal : (n : ℕ) → number_of 10 0 (decimal n) ≡ n
unfolding decimal number_of
number_of-decimal n = number_of-decimal_loop (suc n) n [] (omega arith)

pub digit-may_be :
    (c base : ℕ) → base ≤ 16 → ltb (digit_value c) base ≡ true → may_be_digit c ≡ true
unfolding digit_value
digit-may_be c base b h = ground arith

not_leb : (a b : ℕ) → ltb a b ≡ true → leb b a ≡ false
not_leb a b h = ground arith

read_digits_complete :
    (text : List ℕ) (ts : List Token) (base n p q : ℕ) (s : List ℕ)
    → base ≤ 16
    → Reads text p s q
    → All (λ d. ltb (digit_value d) base) s
    → may_be_digit (code_at text q) ≡ false
    → length s ≤ n
    → read_digits base n (place text ts p) ≡ ok (s, place text ts q)
unfolding read_digits
read_digits_complete text ts base zero p q [] b r a z l =
    ap (λ (u : Tokeniser). ok ([], u)) (ap (place text ts) r)
read_digits_complete text ts base (suc n) p q [] b r a z l =
    rw r (rw (read_digits-off base n (place text ts q) z))
read_digits_complete text ts base zero p q (c ∷ s) b r a z l = absurd (omega arith)
read_digits_complete text ts base (suc n) p q (c ∷ s) b r a z l =
    rw
      (read_digits-on base n (place text ts p) (rw r.0 (digit-may_be c base b a.0))
        (rw r.0 (not_leb (digit_value c) base a.0)))
      (rw (inc-place text ts p) (
        rw (read_digits_complete text ts base n (suc p) q s b r.1 a.1 z (omega arith))
          (ap (λ (d : ℕ). ok (d ∷ s, place text ts q)) r.0)))

digit-ne-zero : (c base : ℕ) → base ≤ 16 → ltb (digit_value c) base ≡ true → c ≢ 0
unfolding digit_value
digit-ne-zero c base b h = ground arith

-- Digits stand in the text.
digits-within :
    (text : List ℕ) (base p q c : ℕ) (s : List ℕ)
    → base ≤ 16
    → Reads text p (c ∷ s) q
    → All (λ d. ltb (digit_value d) base) (c ∷ s)
    → q ≤ length text
digits-within text base p q c [] b (x, r) (a, _) =
    let within : p < length text =
      lt-of_code_at text p (λ e. digit-ne-zero c base b a (sym x ∙ e)) in
    omega arith
digits-within text base p q c (d ∷ s) b (x, r) (a, as') =
    digits-within text base (suc p) q d s b r as'

IsMarker-le : (m base : ℕ) → IsMarker m base → base ≤ 16
IsMarker-le m base h = grind arith

number_prefix-marker :
    (t : Tokeniser) (m base : ℕ)
    → IsMarker m base
    → peek t ≡ b'0'
    → next t ≡ m
    → number_prefix t ≡ some base
unfolding number_prefix
number_prefix-marker t m base k e f = grind arith

read_unsigned-prefixed :
    (text : List ℕ) (ts : List Token) (p q m base c : ℕ) (s : List ℕ)
    → IsMarker m base
    → All (λ d. ltb (digit_value d) base) (c ∷ s)
    → Reads text p (b'0' ∷ m ∷ c ∷ s) q
    → may_be_digit (code_at text q) ≡ false
    → dot_digit (place text ts q) ≡ false
    → read_unsigned (place text ts p)
      ≡ ok (decimal (number_of base 0 (c ∷ s)), base, place text ts q)
unfolding read_unsigned finish_number
read_unsigned-prefixed text ts p q m base c s k a (z, (x, r)) b d =
    rw (number_prefix-marker (place text ts p) m base k z (next-place text ts p ∙ x)) (
      rw (incs-place text ts p (suc (suc p)) (b'0' ∷ m ∷ []) (z, (x, refl))) (
        rw
          (read_digits_complete text ts base (length text - suc (suc p)) (suc (suc p)) q (c ∷ s)
            (IsMarker-le m base k) r a b
            (omega (
              arith,
              Reads-length text (suc (suc p)) q (c ∷ s) r,
              digits-within text base (suc (suc p)) q c s (IsMarker-le m base k) r a,
            )))
          (rw d)))

-- A minus sign, a prefix for the base 2, 8 or 16 and one or more digits of that base, with no
-- letter, digit, or dot and digit behind them, are read as a minus sign and decimal digits of the
-- same value, with the base kept.
pub read_number-prefixed :
    (text : List ℕ) (ts : List Token) (p q m base c : ℕ) (s : List ℕ)
    → IsMarker m base
    → All (λ d. ltb (digit_value d) base) (c ∷ s)
    → Reads text p (b'-' ∷ b'0' ∷ m ∷ c ∷ s) q
    → may_be_digit (code_at text q) ≡ false
    → dot_digit (place text ts q) ≡ false
    → (v : List ℕ) × (read_number (place text ts p) ≡ ok (b'-' ∷ v, base, place text ts q))
      × (number_of 10 0 v ≡ number_of base 0 (c ∷ s))
unfolding read_number
read_number-prefixed text ts p q m base c s k a (z, r) b d = (
  decimal (number_of base 0 (c ∷ s)),
  rw z (
      rw (inc-place text ts p)
        (rw (read_unsigned-prefixed text ts (suc p) q m base c s k a r b d))),
  number_of-decimal (number_of base 0 (c ∷ s)),
)
