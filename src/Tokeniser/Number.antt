-- ===== src/Tokeniser/Number.antt =====
-- tokeniser/tokeniser.go: ReadNumber and digitValue, with the conversions of `big.Int` that it uses.
use qk.Prelude.{
  ℕ, zero, suc, ◌+◌, ◌-◌, ◌*◌, ◌/◌, ◌%◌, Bool, true, false, not, ◌&&◌, ◌||◌, Option, none, some,
  List, [], ◌∷◌, ◌++◌, ltb, leb, ◌==◌, if◌then◌else◌,
}
use qk.Tokeniser.Cursor.{Tokeniser, peek, next, inc, incs, is_alpha, is_num, is_space, get_loc}
use qk.Tokeniser.Read.{
  invalid_digit, expected_digits, prefixed_float, invalid_in_float, Read, ok, failed, ◌>>=◌,
  remaining, read_while,
}

unfoldable pub digit_value : ℕ → ℕ
digit_value c =
    if leb b'0' c && leb c b'9'
    then c - b'0'
    else if leb b'a' c && leb c b'f'
    then c - b'a' + 10
    else if leb b'A' c && leb c b'F'
    then c - b'A' + 10
    else 36

-- `SetString` on digits of the base.
unfoldable pub number_of : ℕ → ℕ → List ℕ → ℕ
unfolding digit_value
number_of base acc [] = acc
number_of base acc (c ∷ s) = number_of base (acc * base + digit_value c) s

-- `integer.String()`: the digits from the last to the first.
unfoldable pub decimal_loop : ℕ → ℕ → List ℕ → List ℕ
decimal_loop zero n acc = acc
decimal_loop (suc rounds) n acc = elim (ltb n 10) [
  | true ↦ (b'0' + n) ∷ acc
  | false ↦ decimal_loop rounds (n / 10) ((b'0' + n % 10) ∷ acc)
]

unfoldable pub decimal : ℕ → List ℕ
unfolding decimal_loop
decimal n = decimal_loop (suc n) n []

-- The base that a prefix names, and none if there is no prefix.
unfoldable pub number_prefix : Tokeniser → Option ℕ
number_prefix t =
    if peek t == b'0'
    then (if next t == b'b' || next t == b'B'
        then some 2
        else if next t == b'o' || next t == b'O'
        then some 8
        else if next t == b'x' || next t == b'X'
        then some 16
        else none)
    else none

abbrev pub prefix_base : Option ℕ → ℕ
prefix_base none = 10
prefix_base (some base) = base

abbrev pub prefix_width : Option ℕ → ℕ
prefix_width none = 0
prefix_width (some base) = 2

-- The test of the loop over the digits, and its break.
abbrev pub may_be_digit : ℕ → Bool
may_be_digit c = not (is_space c) && not (c == b'\n') && (is_alpha c || is_num c)

unfoldable pub read_digits : ℕ → ℕ → Tokeniser → Read (List ℕ × Tokeniser)
read_digits base zero t = ok ([], t)
read_digits base (suc n) t = elim (may_be_digit (peek t)) [
  | true ↦ elim (leb base (digit_value (peek t))) [
    | true ↦ failed (get_loc t) (invalid_digit (peek t) base)
    | false ↦ do (s, u) ← read_digits base n (inc t); ok (peek t ∷ s, u)
  ]
  | false ↦ ok ([], t)
]

abbrev pub dot_digit : Tokeniser → Bool
dot_digit t = peek t == b'.' && is_num (next t)

-- What follows the loop over the digits of a fraction.
unfoldable pub finish_fraction : List ℕ → List ℕ × Tokeniser → Read (List ℕ × ℕ × Tokeniser)
finish_fraction s (f, u) =
    if is_alpha (peek u) then failed (get_loc u) (invalid_in_float (peek u)) else ok (s ++ f, 10, u)

-- The dot and the fraction behind the digits of a decimal.
unfoldable pub read_fraction : List ℕ → Tokeniser → Read (List ℕ × ℕ × Tokeniser)
read_fraction s t =
    finish_fraction (s ++ peek t ∷ []) (read_while is_num (remaining (inc t)) (inc t))

-- What follows the loop over the digits.
unfoldable pub finish_number : Option ℕ → List ℕ → Tokeniser → Read (List ℕ × ℕ × Tokeniser)
finish_number p [] t = failed (get_loc t) (expected_digits (prefix_base p))
finish_number none (c ∷ s) t = if dot_digit t then read_fraction (c ∷ s) t else ok (c ∷ s, 10, t)
finish_number (some base) (c ∷ s) t =
    if dot_digit t
    then failed (get_loc t) (prefixed_float base)
    else ok (decimal (number_of base 0 (c ∷ s)), base, t)

-- `ReadNumber` behind the sign.
unfoldable pub read_unsigned : Tokeniser → Read (List ℕ × ℕ × Tokeniser)
read_unsigned t =
    let p = number_prefix t in
    let u = incs (prefix_width p) t in
    do (s, v) ← read_digits (prefix_base p) (remaining u) u; finish_number p s v

-- `ReadNumber`.
unfoldable pub read_number : Tokeniser → Read (List ℕ × ℕ × Tokeniser)
read_number t =
    if peek t == b'-'
    then (do (s, base, u) ← read_unsigned (inc t); ok (b'-' ∷ s, base, u))
    else read_unsigned t
