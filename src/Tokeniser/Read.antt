-- ===== src/Tokeniser/Read.antt =====
-- tokeniser/tokeniser.go: what a reader of the tokeniser gives, and the loops over characters.
use qk.Prelude.{ℕ, zero, suc, ◌-◌, Bool, true, false, List, [], ◌∷◌, length}
use qk.Tokeniser.Token.{Location}
use qk.Tokeniser.Cursor.{Tokeniser, peek, inc, is_legal_word_char}

-- The calls of `shared.NewError`, without their texts.
pub data Fault : Type 0 where
  invalid_digit : ℕ → ℕ → Fault
  expected_digits : ℕ → Fault
  prefixed_float : ℕ → Fault
  invalid_in_float : ℕ → Fault
  invalid_escape string_start string_end char_end : Fault
  unexpected_character : ℕ → Fault

-- `endless` is a loop that still runs after the rounds that it was given, and its state.
pub data Read (A : Type 0) : Type 0 where
  ok : A → Read A
  failed : Location → Fault → Read A
  endless : Tokeniser → Read A

infixl 5 ◌>>=◌
abbrev pub ◌>>=◌ : {A B : Type 0} → Read A → (A → Read B) → Read B
ok a >>= f = f a
failed l e >>= f = failed l e
endless t >>= f = endless t

-- The characters that are left.
abbrev pub remaining : Tokeniser → ℕ
remaining t = length t.text - t.pos

-- `for test(t.Peek()) { s.WriteRune(t.Consume()) }`
unfoldable pub read_while : (ℕ → Bool) → ℕ → Tokeniser → List ℕ × Tokeniser
unfolding inc
read_while test zero t = ([], t)
read_while test (suc n) t = elim (test (peek t)) [
  | true ↦ let (s, u) = read_while test n (inc t) in (peek t ∷ s, u)
  | false ↦ ([], t)
]

-- `ReadWord`.
unfoldable pub read_word : Tokeniser → List ℕ × Tokeniser
unfolding read_while
read_word t = read_while is_legal_word_char (remaining t) t
