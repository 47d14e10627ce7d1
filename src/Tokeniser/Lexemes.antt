-- ===== src/Tokeniser/Lexemes.antt =====
-- What the tokens of a text are, with no tokeniser: the spellings of the kinds of tokens, what may
-- stand between tokens, and how both make up a text. tokeniser/tokeniser.go has to implement it.
pub mod Words
pub mod Texts
pub mod Numbers
pub mod Gaps
pub mod Symbols
pub mod Turned
pub mod Turns
pub mod Tokens
pub mod Order
use qk.Prelude.{
  ltb, ℕ, suc, ◌+◌, ◌≤◌, ◌<◌, ◌≡◌, ◌≢◌, ◌⊎◌, Bool, true, false, not, ◌&&◌, ◌||◌, Option, none, some,
  List, [], ◌∷◌, ◌++◌, ◌==◌, if◌then◌else◌, length,
}
use qk.Target.{codes}
use qk.Tokeniser.Token.{
  TokenKind, eof, newline, keyword, identifier, number, float, string, c_string, char, Token,
  is_keyword, symbol_text,
}
use qk.Tokeniser.Cursor.{
  code_at, is_alpha, is_num, is_space, is_legal_word_start, is_legal_word_char,
}
use qk.Tokeniser.Number.{digit_value, number_of, decimal}
use qk.Tokeniser.Text.{escape_of}
use qk.Tokeniser.Step.{has_char}
use qk.Tokeniser.Place.{Reads, token_at}

abbrev pub All : (ℕ → Bool) → List ℕ → Type 0
All test [] = Unit
All test (c ∷ s) = (test c ≡ true) × All test s

-- How a character of a literal is written: as itself, or by an escape.
pub data Escaped : List ℕ → ℕ → Type 0 where
  plain : (c : ℕ) → (c == b'\\') ≡ false → Escaped (c ∷ []) c
  escape : (b d c : ℕ) → (b == b'\\') ≡ true → escape_of d ≡ some c → Escaped (b ∷ d ∷ []) c

-- How the characters of a string are written.
pub data Body : List ℕ → List ℕ → Type 0 where
  nil : Body [] []
  cons :
      (d c : ℕ) (s s' v : List ℕ)
      → (d == b'"' || d == b'\n') ≡ false
      → Escaped (d ∷ s) c
      → Body s' v
      → Body (d ∷ (s ++ s')) (c ∷ v)

-- The letter of a base.
abbrev pub IsMarker : ℕ → ℕ → Type 0
IsMarker m base =
    ((m ≡ b'b') ⊎ (m ≡ b'B')) × (base ≡ 2)
    ⊎ ((m ≡ b'o') ⊎ (m ≡ b'O')) × (base ≡ 8)
    ⊎ ((m ≡ b'x') ⊎ (m ≡ b'X')) × (base ≡ 16)

-- How a number without a sign is written, its base and its value.
pub data Numeral : List ℕ → ℕ → List ℕ → Type 0 where
  whole : (c : ℕ) (s : List ℕ) → All is_num (c ∷ s) → Numeral (c ∷ s) 10 (c ∷ s)
  fraction :
      (c : ℕ) (s f : List ℕ)
      → All is_num (c ∷ s)
      → All is_num f
      → Numeral ((c ∷ s) ++ b'.' ∷ f) 10 ((c ∷ s) ++ b'.' ∷ f)
  prefixed :
      (m base c : ℕ) (s : List ℕ)
      → IsMarker m base
      → All (λ d. ltb (digit_value d) base) (c ∷ s)
      → Numeral (b'0' ∷ m ∷ c ∷ s) base (decimal (number_of base 0 (c ∷ s)))

-- The characters of a kind that has one spelling.
abbrev pub spelling : TokenKind → List ℕ
spelling newline = b'\n' ∷ []
spelling k = symbol_text k

-- The kinds with one spelling.
unfoldable pub is_symbol : TokenKind → Bool
is_symbol eof = false
is_symbol keyword = false
is_symbol identifier = false
is_symbol number = false
is_symbol float = false
is_symbol string = false
is_symbol c_string = false
is_symbol char = false
is_symbol _ = true

-- The spelling of a token by its kind, value and base, and the character behind it.
pub data Spells : List ℕ → TokenKind → List ℕ → ℕ → ℕ → Type 0 where
  word :
      (c : ℕ) (s : List ℕ) (behind : ℕ)
      → is_legal_word_start c ≡ true
      → All is_legal_word_char s
      → is_legal_word_char behind ≡ false
      → Spells (c ∷ s) (if is_keyword (c ∷ s) then keyword else identifier) (c ∷ s) 0 behind
  numeral :
      (s v : List ℕ) (base behind : ℕ)
      → Numeral s base v
      → (is_alpha behind || is_num behind) ≡ false
      → Spells s (if has_char b'.' v then float else number) v base behind
  negative :
      (s v : List ℕ) (base behind : ℕ)
      → Numeral s base v
      → (is_alpha behind || is_num behind) ≡ false
      → Spells
          (b'-' ∷ s)
          (if has_char b'.' (b'-' ∷ v) then float else number)
          (b'-' ∷ v)
          base
          behind
  text : (s v : List ℕ) (behind : ℕ) → Body s v → Spells (b'"' ∷ (s ++ b'"' ∷ [])) string v 0 behind
  c_text :
      (s v : List ℕ) (behind : ℕ)
      → Body s v
      → Spells (b'c' ∷ b'"' ∷ (s ++ b'"' ∷ [])) c_string v 0 behind
  character :
      (s : List ℕ) (c behind : ℕ)
      → Escaped s c
      → Spells (b'\'' ∷ (s ++ b'\'' ∷ [])) char (c ∷ []) 0 behind
  symbol : (k : TokenKind) (behind : ℕ) → is_symbol k ≡ true → Spells (spelling k) k [] 0 behind

-- The rest of a comment, up to the first end mark or the end of the text.
pub data Block (text : List ℕ) : ℕ → ℕ → Type 0 where
  close : (p : ℕ) → code_at text p ≡ b'*' → code_at text (suc p) ≡ b'/' → Block text p (suc (suc p))
  end : (p : ℕ) → code_at text p ≡ 0 → Block text p p
  inside :
      (p q : ℕ)
      → (code_at text p == b'*' && code_at text (suc p) == b'/') ≡ false
      → code_at text p ≢ 0
      → Block text (suc p) q
      → Block text p q

-- What may stand between tokens.
pub data Gap (text : List ℕ) : ℕ → ℕ → Type 0 where
  space : (p : ℕ) → is_space (code_at text p) ≡ true → Gap text p (suc p)
  continuation : (p q : ℕ) → Reads text p (b'\\' ∷ b'\n' ∷ []) q → Gap text p q
  line_comment :
      (p q : ℕ) (s : List ℕ)
      → Reads text p (b'/' ∷ b'/' ∷ s) q
      → All (λ c. not (c == b'\n')) s
      → code_at text q ≡ b'\n'
      → Gap text p q
  block_comment : (p r q : ℕ) → Reads text p (b'/' ∷ b'*' ∷ []) r → Block text r q → Gap text p q

-- A gap, or a token with its place.
pub data Part (text : List ℕ) : ℕ → ℕ → List Token → Type 0 where
  gap : (p q : ℕ) → Gap text p q → Part text p q []
  lexeme :
      (p q : ℕ) (s : List ℕ) (k : TokenKind) (v : List ℕ) (base : ℕ)
      → Reads text p s q
      → p < q
      → q ≤ length text
      → Spells s k v base (code_at text q)
      → Part text p q (token_at text p q k v base ∷ [])

-- The tokens of a text from an offset on.
pub data Lexes (text : List ℕ) : ℕ → List Token → Type 0 where
  end : (p : ℕ) → code_at text p ≡ 0 → Lexes text p (token_at text p p eof [] 0 ∷ [])
  part :
      (p q : ℕ) (new rest : List Token)
      → Part text p q new
      → Lexes text q rest
      → Lexes text p (new ++ rest)
