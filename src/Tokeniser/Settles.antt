-- ===== src/Tokeniser/Settles.antt =====
-- The readers of tokeniser/tokeniser.go that always return, with a value or an error.
use qk.Prelude.{
  ℕ, zero, suc, inl, inr, not, Option, none, some, List, [], ◌∷◌, ◌++◌, ◌==◌, leb, Bool-cases,
  Option-cases,
}
use qk.Tokeniser.Token.{Location, TokenKind}
use qk.Tokeniser.Cursor.{Tokeniser, peek, inc, incs, is_num, is_alpha}
use qk.Tokeniser.Read.{Fault, Read, ok, failed, endless, ◌>>=◌, read_while, remaining}
use qk.Tokeniser.Number.{
  digit_value, may_be_digit, read_digits, dot_digit, finish_fraction, read_fraction, finish_number,
  read_unsigned, read_number, prefix_base, prefix_width, number_prefix,
}
use qk.Tokeniser.Text.{escape_of, handle_escape}
use qk.Tokeniser.Step.{take_symbol, symbol_turn, number_turn, char_turn}
use qk.Tokeniser.Lexemes.Words.{Gives}
use qk.Tokeniser.Lexemes.Texts.{handle_escape-plain, handle_escape-escaped}
use qk.Tokeniser.Lexemes.Numbers.{read_digits-off, read_digits-invalid, read_digits-on}
use qk.Tokeniser.Lexemes.Symbols.{if-Else}

-- A reader that ends, with a value or an error.
pub data Settles {A : Type 0} : Read A → Type 0 where
  gives : (a : A) → Settles (ok a)
  fails : (l : Location) (e : Fault) → Settles (failed l e)

pub Settles-bind :
    {A B : Type 0} (P : A → Type 0) (m : Read A) (f : A → Read B)
    → Gives P m
    → Settles m
    → ((a : A) → P a → Settles (f a))
    → Settles (m >>= f)
Settles-bind P (ok a) f h (gives b) k = k a h
Settles-bind P (failed l e) f h s k = fails l e
Settles-bind P (endless u) f h s k = elim s [ ]

pub Gives-any : {A : Type 0} (m : Read A) → Gives (λ a. Unit {0}) m
Gives-any (ok a) = tt
Gives-any (failed l e) = tt
Gives-any (endless u) = tt

pub Settles-chain :
    {A B : Type 0} (m : Read A) (f : A → Read B)
    → Settles m
    → ((a : A) → Settles (f a))
    → Settles (m >>= f)
Settles-chain m f s k = Settles-bind (λ a. Unit {0}) m f (Gives-any m) s (λ a _. k a)

pub handle_escape-Settles : (t : Tokeniser) → Settles (handle_escape t)
handle_escape-Settles t = elim (Bool-cases (peek t == b'\\')) [
  | inl h ↦ rw (handle_escape-escaped t h) (elim (Option-cases (escape_of (peek (inc t)))) [
    | inl e ↦ rw e (fails _ _)
    | inr (c, e) ↦ rw e (gives _)
  ])
  | inr h ↦ rw (handle_escape-plain t h) (gives _)
]

read_digits-Settles : (base n : ℕ) (t : Tokeniser) → Settles (read_digits base n t)
unfolding read_digits
read_digits-Settles base zero t = gives _
read_digits-Settles base (suc n) t = elim (Bool-cases (may_be_digit (peek t))) [
  | inl m ↦ elim (Bool-cases (leb base (digit_value (peek t)))) [
    | inl k ↦ rw (read_digits-invalid base n t m k) (fails _ _)
    | inr k ↦ rw (read_digits-on base n t m k) (
        Settles-chain (read_digits base n (inc t)) _ (read_digits-Settles base n (inc t))
          (λ r. gives _))
  ]
  | inr m ↦ rw (read_digits-off base n t m) (gives _)
]

finish_fraction-Settles : (s : List ℕ) (r : List ℕ × Tokeniser) → Settles (finish_fraction s r)
unfolding finish_fraction
finish_fraction-Settles s (f, u) =
    if-Else Settles (is_alpha (peek u)) _ _ (λ _. fails _ _) (gives _)

finish_number-Settles : (o : Option ℕ) (s : List ℕ) (t : Tokeniser) → Settles (finish_number o s t)
unfolding finish_number read_fraction
finish_number-Settles o [] t = fails _ _
finish_number-Settles none (c ∷ s) t =
    if-Else Settles (dot_digit t) _ _
      (λ _.
        finish_fraction-Settles ((c ∷ s) ++ peek t ∷ [])
          (read_while is_num (remaining (inc t)) (inc t)))
      (gives _)
finish_number-Settles (some base) (c ∷ s) t =
    if-Else Settles (dot_digit t) _ _ (λ _. fails _ _) (gives _)

read_unsigned-Settles : (t : Tokeniser) → Settles (read_unsigned t)
unfolding read_unsigned
read_unsigned-Settles t =
    let o = number_prefix t in
    let u = incs (prefix_width o) t in
    Settles-chain (read_digits (prefix_base o) (remaining u) u) _
      (read_digits-Settles (prefix_base o) (remaining u) u) (λ r. finish_number-Settles o r.0 r.1)

read_number-Settles : (t : Tokeniser) → Settles (read_number t)
unfolding read_number
read_number-Settles t =
    if-Else Settles (peek t == b'-') _ _
      (λ _. Settles-chain (read_unsigned (inc t)) _ (read_unsigned-Settles (inc t)) (λ r. gives _))
      (read_unsigned-Settles t)

take_symbol-Settles : (o : Option (TokenKind × ℕ)) (t : Tokeniser) → Settles (take_symbol o t)
unfolding take_symbol
take_symbol-Settles none t = fails _ _
take_symbol-Settles (some (k, n)) t = gives _

pub symbol_turn-Settles : (t : Tokeniser) → Settles (symbol_turn t)
unfolding symbol_turn
symbol_turn-Settles t = take_symbol-Settles _ t

pub number_turn-Settles : (t : Tokeniser) → Settles (number_turn t)
unfolding number_turn
number_turn-Settles t = Settles-chain (read_number t) _ (read_number-Settles t) (λ r. gives _)

pub char_turn-Settles : (t : Tokeniser) → Settles (char_turn t)
unfolding char_turn
char_turn-Settles t =
    Settles-chain (handle_escape (inc t)) _ (handle_escape-Settles (inc t))
      (λ r. if-Else Settles (not (peek r.1 == b'\'')) _ _ (λ _. fails _ _) (gives _))
