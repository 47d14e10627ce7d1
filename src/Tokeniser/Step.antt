-- ===== src/Tokeniser/Step.antt =====
-- tokeniser/tokeniser.go: Tokenise, one round of its loop and the loop.
use qk.Prelude.{
  ℕ, zero, suc, ◌+◌, Bool, false, not, ◌&&◌, ◌||◌, Option, none, some, List, [], ◌∷◌, ◌==◌,
  if◌then◌else◌,
}
use qk.Tokeniser.Token.{
  TokenKind, eof, newline, keyword, identifier, number, float, string, c_string, char, open_paren,
  close_paren, open_curly, close_curly, open_square, close_square, equals, equals_equals,
  not_equals, less, greater, less_equals, greater_equals, plus, minus, no_initializer, asterisk,
  slash, percent, ampersand, logical_and, pipe, logical_or, caret, tilde, shift_left, shift_right,
  inc_by, dec_by, mul_by, div_by, mod_by, bitwise_and_by, bitwise_or_by, bitwise_xor_by,
  shift_left_by, shift_right_by, semicolon, comma, exclam, colon, dot, two_dots, three_dots, arrow,
  fat_arrow, at, dollar, Token, is_keyword,
}
use qk.Tokeniser.Cursor.{
  Tokeniser, code_at, peek, next, inc, incs, is_num, is_space, is_legal_word_start, get_loc,
  add_token, previous_ends_expression_here, previous_minus_here,
}
use qk.Tokeniser.Read.{char_end, unexpected_character, Read, ok, failed, endless, ◌>>=◌, read_word}
use qk.Tokeniser.Number.{read_number}
use qk.Tokeniser.Text.{handle_escape, read_string, ignore_comment, ignore_multiline_comment}

-- A symbol that may be followed by one more character.
abbrev pub with_second : ℕ → ℕ → TokenKind → TokenKind → TokenKind × ℕ
with_second n c long short = if n == c then (long, 2) else (short, 1)

-- The cases of one character that add the token before they move: its kind and how often they call
-- `Inc`, from the character, the next one and the one behind it.
unfoldable pub symbol : ℕ → ℕ → ℕ → Option (TokenKind × ℕ)
symbol c n d =
    if c == b'\n'
    then some (newline, 1)
    else if c == b'('
    then some (open_paren, 1)
    else if c == b')'
    then some (close_paren, 1)
    else if c == b'{'
    then some (open_curly, 1)
    else if c == b'}'
    then some (close_curly, 1)
    else if c == b'['
    then some (open_square, 1)
    else if c == b']'
    then some (close_square, 1)
    else if c == b'='
    then some (if n == b'>' then (fat_arrow, 2) else with_second n b'=' equals_equals equals)
    else if c == b'!'
    then some (with_second n b'=' not_equals exclam)
    else if c == b'<'
    then some (
        if n == b'<' && d == b'='
        then (shift_left_by, 3)
        else if n == b'<'
        then (shift_left, 2)
        else with_second n b'=' less_equals less)
    else if c == b'>'
    then some (
        if n == b'>' && d == b'='
        then (shift_right_by, 3)
        else if n == b'>'
        then (shift_right, 2)
        else with_second n b'=' greater_equals greater)
    else if c == b'+'
    then some (with_second n b'=' inc_by plus)
    else if c == b'-'
    then some (
        if n == b'-' && d == b'-'
        then (no_initializer, 3)
        else if n == b'='
        then (dec_by, 2)
        else with_second n b'>' arrow minus)
    else if c == b'*'
    then some (with_second n b'=' mul_by asterisk)
    else if c == b'/'
    then some (with_second n b'=' div_by slash)
    else if c == b'%'
    then some (with_second n b'=' mod_by percent)
    else if c == b'&'
    then some (if n == b'=' then (bitwise_and_by, 2) else with_second n b'&' logical_and ampersand)
    else if c == b'|'
    then some (if n == b'=' then (bitwise_or_by, 2) else with_second n b'|' logical_or pipe)
    else if c == b'^'
    then some (with_second n b'=' bitwise_xor_by caret)
    else if c == b'~'
    then some (tilde, 1)
    else if c == b';'
    then some (semicolon, 1)
    else if c == b','
    then some (comma, 1)
    else if c == b':'
    then some (colon, 1)
    else if c == b'@'
    then some (at, 1)
    else if c == b'$'
    then some (dollar, 1)
    else if c == b'.'
    then some (dot, 1)
    else none

-- The state after a round, or the tokens.
pub data Turn : Type 0 where
  more : Tokeniser → Turn
  finished : List Token → Turn

-- The token from where `t` stands to where `u` does.
abbrev pub emit : TokenKind → List ℕ → ℕ → Tokeniser → Tokeniser → Read Turn
emit k value base t u = ok (more (add_token k (get_loc t) value base u))

-- The token of a symbol and the calls of `Inc`, or the error behind the switch.
unfoldable pub take_symbol : Option (TokenKind × ℕ) → Tokeniser → Read Turn
take_symbol (some (k, n)) t = ok (more (incs n (add_token k (get_loc t) [] 0 t)))
take_symbol none t = failed (get_loc t) (unexpected_character (peek t))

unfoldable pub symbol_turn : Tokeniser → Read Turn
symbol_turn t = take_symbol (symbol (peek t) (next t) (code_at t.text (t.pos + 2))) t

unfoldable pub word_turn : Tokeniser → Read Turn
word_turn t =
    let (w, u) = read_word t in emit (if is_keyword w then keyword else identifier) w 0 t u

-- `strings.ContainsRune`
unfoldable pub has_char : ℕ → List ℕ → Bool
has_char c [] = false
has_char c (d ∷ s) = d == c || has_char c s

unfoldable pub number_turn : Tokeniser → Read Turn
number_turn t = do
  (s, base, u) ← read_number t
  emit (if has_char b'.' s then float else number) s base t u

unfoldable pub string_turn : ℕ → Tokeniser → Read Turn
string_turn limit t = do (s, u) ← read_string limit t; emit string s 0 t u

unfoldable pub c_string_turn : ℕ → Tokeniser → Read Turn
c_string_turn limit t = do (s, u) ← read_string limit (inc t); emit c_string s 0 t u

unfoldable pub char_turn : Tokeniser → Read Turn
char_turn t = do
  (c, u) ← handle_escape (inc t)
  if not (peek u == b'\'') then failed (get_loc t) char_end else emit char (c ∷ []) 0 t (inc u)

-- A symbol of dots is added after the tokeniser has moved, a dot before.
unfoldable pub dots_turn : Tokeniser → Read Turn
dots_turn t =
    if next t == b'.'
    then (if next (inc t) == b'.'
        then emit three_dots [] 0 t (incs 3 t)
        else emit two_dots [] 0 t (incs 2 t))
    else symbol_turn t

unfoldable pub minus_turn : Tokeniser → Read Turn
minus_turn t =
    if next t == b'-' && code_at t.text (t.pos + 2) == b'-'
    then symbol_turn t
    else if is_num (next t) && not (previous_ends_expression_here t) && not (previous_minus_here t)
    then number_turn t
    else symbol_turn t

unfoldable pub slash_turn : ℕ → Tokeniser → Read Turn
slash_turn limit t =
    if next t == b'/'
    then (do u ← ignore_comment limit t; ok (more u))
    else if next t == b'*'
    then ok (more (ignore_multiline_comment t))
    else symbol_turn t

-- The `switch` of `Tokenise`.
unfoldable pub switch_turn : ℕ → Tokeniser → Read Turn
switch_turn limit t =
    if peek t == b'"'
    then string_turn limit t
    else if peek t == b'\\'
    then ok (more (if next t == b'\n' then incs 2 t else t))
    else if peek t == b'-'
    then minus_turn t
    else if peek t == b'/'
    then slash_turn limit t
    else if peek t == b'.'
    then dots_turn t
    else if peek t == b'\''
    then char_turn t
    else symbol_turn t

-- One round of the loop of `Tokenise`; its own loops take as many rounds as the limit.
unfoldable pub turn : ℕ → Tokeniser → Read Turn
turn limit t =
    if peek t == 0
    then ok (finished (add_token eof (get_loc t) [] 0 t).tokens)
    else if is_space (peek t)
    then ok (more (inc t))
    else if peek t == b'c' && next t == b'"'
    then c_string_turn limit t
    else if is_legal_word_start (peek t)
    then word_turn t
    else if is_num (peek t)
    then number_turn t
    else switch_turn limit t

-- What a round means for the loop.
unfoldable pub after_turn : (Tokeniser → Read (List Token)) → Read Turn → Read (List Token)
after_turn go_on (ok (more u)) = go_on u
after_turn go_on (ok (finished ts)) = ok ts
after_turn go_on (failed l e) = failed l e
after_turn go_on (endless u) = endless u

-- `Tokenise`, of so many rounds at most.
unfoldable pub tokenise : ℕ → ℕ → Tokeniser → Read (List Token)
tokenise limit zero t = endless t
tokenise limit (suc rounds) t = after_turn (λ u. tokenise limit rounds u) (turn limit t)
