-- ===== src/Tokeniser/Tests.antt =====
-- Runs of the model of tokeniser/tokeniser.go on small texts.
use qk.Prelude.{ℕ, ◌≡◌, refl, inl, inr, List, [], ◌∷◌, ◌++◌, length, arith}
use qk.Target.{codes}
use qk.Tokeniser.Token.{
  eof, newline, identifier, number, float, inc_by, shift_left_by, minus, Token, is_keyword,
}
use qk.Tokeniser.Cursor.{
  new_tokeniser, code_at, incs, add_token, previous_ends_expression_here, previous_minus_here,
}
use qk.Tokeniser.Read.{ok, endless, read_word}
use qk.Tokeniser.Number.{
  digit_value, number_of, decimal, read_number, read_unsigned, read_digits, finish_number,
  number_prefix, read_fraction, finish_fraction,
}
use qk.Tokeniser.Text.{
  handle_escape, escape_of, read_string, ignore_comment, skip_line, ignore_multiline_comment,
}
use qk.Tokeniser.Step.{
  more, symbol, take_symbol, symbol_turn, word_turn, has_char, number_turn, string_turn,
  c_string_turn, char_turn, dots_turn, minus_turn, slash_turn, switch_turn, turn, after_turn,
  tokenise,
}
use qk.Tokeniser.Place.{place, locate, token_at}
use qk.Tokeniser.Lexemes.{Lexes, nil, cons, plain, escape, spelling, is_symbol}
use qk.Tokeniser.Lexemes.Tokens.{tokenise-Lexes}
use qk.Tokeniser.Lexemes.Order.{Placed, tokenise-Placed}
use qk.Tokeniser.Termination.{Ends, tokenise-Ends, tokenise-stuck}
use qk.Tokeniser.Endless.{tokenise-open_comment, tokenise-open_string}
use qk.Tokeniser.Numerals.{read_number-prefixed}
use qk.Tokeniser.RoundTrip.{read_string_complete, turn-spelling}

abbrev sample : List ℕ
sample = codes "a <<= 0x1F\n- -2.5 // b\n"

abbrev sample_tokens : List Token
sample_tokens =
    token_at sample 0 1 identifier (codes "a") 0
    ∷ token_at sample 2 5 shift_left_by [] 0
    ∷ token_at sample 6 10 number (codes "31") 16
    ∷ token_at sample 10 11 newline [] 0
    ∷ token_at sample 11 12 minus [] 0
    ∷ token_at sample 13 17 float (codes "-2.5") 10
    ∷ token_at sample 22 23 newline [] 0
    ∷ token_at sample 23 23 eof [] 0
    ∷ []

sample_run : tokenise 30 30 (new_tokeniser sample) ≡ ok sample_tokens
unfolding tokenise after_turn turn switch_turn slash_turn minus_turn dots_turn char_turn
    c_string_turn string_turn number_turn word_turn symbol_turn take_symbol symbol has_char
    read_string ignore_comment skip_line ignore_multiline_comment handle_escape escape_of
    read_number previous_ends_expression_here previous_minus_here add_token is_keyword read_word
    incs locate read_unsigned read_digits number_prefix digit_value finish_number read_fraction
    finish_fraction decimal number_of
sample_run = refl

tokenise-Lexes_example : Lexes sample 0 sample_tokens
tokenise-Lexes_example = tokenise-Lexes sample 30 30 sample_tokens sample_run

tokenise-Placed_example : Placed sample 0 sample_tokens
tokenise-Placed_example = tokenise-Placed sample 30 30 sample_tokens sample_run

tokenise-Ends_example : Ends (tokenise 24 24 (new_tokeniser sample))
unfolding code_at
tokenise-Ends_example = tokenise-Ends sample 22 24 24 refl refl (omega arith) (omega arith)

tokenise-stuck_example :
    tokenise 9 9 (place (codes "a \\ b\n") [] 2) ≡ endless (place (codes "a \\ b\n") [] 2)
unfolding code_at
tokenise-stuck_example = tokenise-stuck (codes "a \\ b\n") [] 9 9 2 refl (omega arith)

tokenise-open_comment_example :
    (q : ℕ) × (tokenise 9 9 (place (codes "// end") [] 0) ≡ endless (place (codes "// end") [] q))
unfolding code_at
tokenise-open_comment_example =
    tokenise-open_comment (codes "// end") [] 9 9 0 (codes " end") refl refl
      (6, (refl, (refl, (refl, (refl, refl)))), (refl, (refl, (refl, (refl, tt)))), omega arith)

tokenise-open_string_example :
    (q : ℕ) × (tokenise 9 9 (place (codes "\"ab") [] 0) ≡ endless (place (codes "\"ab") [] q))
unfolding code_at
tokenise-open_string_example =
    tokenise-open_string (codes "\"ab") [] 9 9 0 (codes "ab") refl
      (3, (refl, (refl, refl)), (refl, (refl, tt)), omega arith)

read_number-prefixed_example :
    (v : List ℕ) × (read_number (place (codes "-0x1f;") [] 0)
      ≡ ok (b'-' ∷ v, 16, place (codes "-0x1f;") [] 5))
    × (number_of 10 0 v ≡ number_of 16 0 (codes "1f"))
unfolding code_at digit_value
read_number-prefixed_example =
    read_number-prefixed (codes "-0x1f;") [] 0 5 b'x' 16 b'1' (codes "f")
      (inr (inr (inl refl, refl))) (refl, (refl, tt)) (refl, (refl, (refl, (refl, (refl, refl)))))
      refl refl

read_string_complete_example :
    read_string 9 (place (codes "\"a\\n\"") [] 0)
    ≡ ok (b'a' ∷ b'\n' ∷ [], place (codes "\"a\\n\"") [] 5)
unfolding code_at escape_of
read_string_complete_example =
    read_string_complete (codes "\"a\\n\"") [] 9 0 5 (codes "a\\n") (b'a' ∷ b'\n' ∷ [])
      (cons b'a' b'a' [] (codes "\\n") (b'\n' ∷ []) refl (plain b'a' refl)
        (cons b'\\' b'\n' (b'n' ∷ []) [] [] refl (escape b'\\' b'n' b'\n' refl refl) nil))
      (refl, (refl, (refl, (refl, (refl, refl))))) (omega arith)

turn-spelling_example :
    turn 1 (new_tokeniser (spelling inc_by ++ b' ' ∷ codes "1"))
    ≡ ok (
        more (
          place
            (spelling inc_by ++ b' ' ∷ codes "1")
            (token_at (spelling inc_by ++ b' ' ∷ codes "1") 0 (length (spelling inc_by)) inc_by [] 0
              ∷ [])
            (length (spelling inc_by))))
unfolding is_symbol
turn-spelling_example = turn-spelling 1 inc_by (codes "1") refl
