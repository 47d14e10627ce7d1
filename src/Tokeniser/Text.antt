-- ===== src/Tokeniser/Text.antt =====
-- tokeniser/tokeniser.go: escapes, strings and comments.
use qk.Prelude.{
  ℕ, zero, suc, true, false, not, ◌&&◌, ◌||◌, Option, none, some, List, [], ◌∷◌, ◌==◌,
  if◌then◌else◌,
}
use qk.Tokeniser.Cursor.{Tokeniser, peek, next, inc, incs, get_loc}
use qk.Tokeniser.Read.{
  invalid_escape, string_start, string_end, Read, ok, failed, endless, ◌>>=◌, remaining,
}

-- The character that a letter behind a backslash stands for.
unfoldable pub escape_of : ℕ → Option ℕ
escape_of c =
    if c == b'\\'
    then some b'\\'
    else if c == b'"'
    then some b'"'
    else if c == b'n'
    then some 10
    else if c == b'r'
    then some 13
    else if c == b't'
    then some 9
    else if c == b'b'
    then some 8
    else if c == b'f'
    then some 12
    else if c == b'v'
    then some 11
    else if c == b'a'
    then some 7
    else if c == b'0'
    then some 0
    else none

-- `HanldeEscape`.
unfoldable pub handle_escape : Tokeniser → Read (ℕ × Tokeniser)
handle_escape t =
    if not (peek t == b'\\') then ok (peek t, inc t) else elim (escape_of (peek (inc t))) [
      | some c ↦ ok (c, incs 2 t)
      | none ↦ failed (get_loc (incs 2 t)) invalid_escape
    ]

-- The loop of `ReadString`, of so many rounds at most.
unfoldable pub read_string_loop : ℕ → Tokeniser → Read (List ℕ × Tokeniser)
read_string_loop zero t = endless t
read_string_loop (suc limit) t = elim (peek t == b'"' || peek t == b'\n') [
  | true ↦ ok ([], t)
  | false ↦ do (c, u) ← handle_escape t; (s, v) ← read_string_loop limit u; ok (c ∷ s, v)
]

-- `ReadString`.
unfoldable pub read_string : ℕ → Tokeniser → Read (List ℕ × Tokeniser)
read_string limit t = if not (peek t == b'"') then failed (get_loc t) string_start else do
  (s, u) ← read_string_loop limit (inc t)
  if not (peek u == b'"') then failed (get_loc u) string_end else ok (s, inc u)

-- The loop of `IgnoreComment`, of so many rounds at most.
unfoldable pub skip_line : ℕ → Tokeniser → Read Tokeniser
skip_line zero t = endless t
skip_line (suc limit) t = elim (peek t == b'\n') [ true ↦ ok t | false ↦ skip_line limit (inc t) ]

-- `IgnoreComment`.
unfoldable pub ignore_comment : ℕ → Tokeniser → Read Tokeniser
ignore_comment limit t = skip_line limit (incs 2 t)

-- The loop of `IgnoreMultilineComment`; behind the text it returns.
unfoldable pub skip_block : ℕ → Tokeniser → Tokeniser
unfolding inc incs
skip_block zero t = t
skip_block (suc n) t = elim (peek t == b'*' && next t == b'/') [
  | true ↦ incs 2 t
  | false ↦ elim (peek t == 0) [ true ↦ t | false ↦ skip_block n (inc t) ]
]

-- `IgnoreMultilineComment`.
unfoldable pub ignore_multiline_comment : Tokeniser → Tokeniser
unfolding skip_block incs
ignore_multiline_comment t = skip_block (remaining (incs 2 t)) (incs 2 t)
