-- ===== src/Tokeniser/Cursor.antt =====
-- tokeniser/tokeniser.go: the tokeniser's state and the methods that move it over the text.
use qk.Prelude.{
  ℕ, zero, suc, ◌+◌, Bool, true, false, not, ◌&&◌, ◌||◌, Option, none, some, List, [], ◌∷◌, ◌++◌,
  ltb, leb, ◌==◌, if◌then◌else◌, length,
}
use qk.Tokeniser.Token.{
  TokenKind, eof, keyword, identifier, number, float, string, c_string, char, close_paren,
  close_curly, close_square, LineCol, Location, Token, token_width,
}
use qk.Target.{codes, codes_eq}

-- `Tokeniser`; a place behind the text reads as the code point 0.
pub record Tokeniser : Type 0 where
  pub pos : ℕ
  pub line : ℕ
  pub col : ℕ
  pub text : List ℕ
  pub tokens : List Token

-- `NewTokeniser`.
abbrev pub new_tokeniser : List ℕ → Tokeniser
new_tokeniser text = record { pos = 0; line = 1; col = 1; text = text; tokens = [] }

unfoldable pub code_at : List ℕ → ℕ → ℕ
code_at [] i = 0
code_at (c ∷ cs) zero = c
code_at (c ∷ cs) (suc i) = code_at cs i

abbrev pub peek : Tokeniser → ℕ
peek t = code_at t.text t.pos

-- `Next`
abbrev pub next : Tokeniser → ℕ
next t = code_at t.text (t.pos + 1)

-- How a code point moves the line and the column.
unfoldable pub advance : ℕ → LineCol → LineCol
advance c lc =
    if c == b'\n'
    then record { line = lc.line + 1; col = 1 }
    else if not (c == b'\r')
    then record { line = lc.line; col = lc.col + 1 }
    else lc

abbrev pub line_col : Tokeniser → LineCol
line_col t = record { line = t.line; col = t.col }

unfoldable pub inc : Tokeniser → Tokeniser
unfolding advance code_at
inc t =
    let lc = advance (peek t) (line_col t) in
    record t { pos = t.pos + 1; line = lc.line; col = lc.col }

-- `Inc` so many times.
unfoldable pub incs : ℕ → Tokeniser → Tokeniser
unfolding inc
incs zero t = t
incs (suc n) t = incs n (inc t)

abbrev pub is_alpha : ℕ → Bool
is_alpha c = (leb b'a' c && leb c b'z') || (leb b'A' c && leb c b'Z')

abbrev pub is_num : ℕ → Bool
is_num c = leb b'0' c && leb c b'9'

abbrev pub is_legal_word_start : ℕ → Bool
is_legal_word_start c = is_alpha c || c == b'_'

abbrev pub is_legal_word_char : ℕ → Bool
is_legal_word_char c = is_legal_word_start c || is_num c

abbrev pub is_space : ℕ → Bool
is_space c = c == b' ' || c == b'\t' || c == b'\r'

-- `GetLoc`.
abbrev pub get_loc : Tokeniser → Location
get_loc t = record { lc = line_col t; end_lc = line_col t; offset = t.pos; end_offset = t.pos }

-- The loop of `AddToken` over the width of a token.
unfoldable pub widen_loc : ℕ → List ℕ → Location → Location
unfolding advance code_at
widen_loc zero text loc = loc
widen_loc (suc n) text loc =
    let longer = widen_loc n text (record loc {
      end_offset = loc.end_offset + 1;
      end_lc = advance (code_at text loc.end_offset) loc.end_lc;
    }) in
    if ltb loc.end_offset (length text) then longer else loc

unfoldable pub is_eof : TokenKind → Bool
is_eof eof = true
is_eof _ = false

-- The location that `AddToken` gives a token that began at `loc`.
unfoldable pub token_loc : TokenKind → Location → Tokeniser → Location
unfolding widen_loc token_width is_eof
token_loc k loc t =
    if t.pos == loc.offset && not (is_eof k)
    then widen_loc (token_width k) t.text loc
    else record loc { end_lc = line_col t; end_offset = t.pos }

-- `AddToken`, with the `NumberBase` that the caller may set.
unfoldable pub add_token : TokenKind → Location → List ℕ → ℕ → Tokeniser → Tokeniser
unfolding token_loc
add_token k loc value base t = record t {
  tokens =
      t.tokens
      ++ (record { kind = k; value = value; loc = token_loc k loc t; number_base = base } ∷ []);
}

unfoldable pub last_token : List Token → Option Token
last_token [] = none
last_token (t ∷ []) = some t
last_token (t ∷ (t' ∷ ts)) = last_token (t' ∷ ts)

unfoldable pub ends_expression : Token → Bool
unfolding codes_eq
ends_expression t = elim t.kind [
  | identifier ↦ true
  | number ↦ true
  | float ↦ true
  | string ↦ true
  | c_string ↦ true
  | char ↦ true
  | close_paren ↦ true
  | close_curly ↦ true
  | close_square ↦ true
  | keyword ↦
      codes_eq t.value (codes "true")
      || codes_eq t.value (codes "false")
      || codes_eq t.value (codes "nil")
  | _ ↦ false
]

-- `previousTokenEndsExpressionHere`.
unfoldable pub previous_ends_expression_here : Tokeniser → Bool
unfolding last_token ends_expression
previous_ends_expression_here t = elim (last_token t.tokens) [
  | none ↦ false
  | some p ↦ if not (p.loc.end_offset == t.pos) then false else ends_expression p
]

unfoldable pub is_minus : TokenKind → Bool
is_minus TokenKind.minus = true
is_minus _ = false

-- `previousTokenIsHere(TokenMinus)`.
unfoldable pub previous_minus_here : Tokeniser → Bool
unfolding last_token is_minus
previous_minus_here t = elim (last_token t.tokens) [
  | none ↦ false
  | some p ↦ is_minus p.kind && p.loc.end_offset == t.pos
]
