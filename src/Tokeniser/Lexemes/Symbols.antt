-- ===== src/Tokeniser/Lexemes/Symbols.antt =====
-- The symbols of tokeniser/tokeniser.go: what the switch of Tokenise takes for a symbol is spelled
-- as the kind is, and as wide as tokenWidth says.
mod Spelled
unfoldable pub use Spelled.*
use qk.Prelude.{ℕ, refl, Option, some, if◌then◌else◌}
use qk.Tokeniser.Token.{
  TokenKind, newline, open_paren, close_paren, open_curly, close_curly, open_square, close_square,
  fat_arrow, equals_equals, equals, not_equals, exclam, shift_left_by, shift_left, less_equals,
  less, shift_right_by, shift_right, greater_equals, greater, inc_by, plus, no_initializer, dec_by,
  arrow, minus, mul_by, asterisk, div_by, slash, mod_by, percent, bitwise_and_by, logical_and,
  ampersand, bitwise_or_by, logical_or, pipe, bitwise_xor_by, caret, tilde, semicolon, comma, colon,
  at, dollar, dot, token_width, symbol_text,
}
use qk.Tokeniser.Step.{symbol}
use qk.Tokeniser.Lexemes.{is_symbol}

pub symbol-SpelledBy : (c n d : ℕ) → SpelledBy c n d (symbol c n d)
unfolding symbol symbol_text is_symbol token_width
symbol-SpelledBy c n d =
    let P : Option (TokenKind × ℕ) → Type 0 = SpelledBy c n d in
    if-On P _ _ _ (λ h. one_char c n d newline b'\n' (refl, refl, refl) h)
      (λ _.
        if-On P _ _ _ (λ h. one_char c n d open_paren b'(' (refl, refl, refl) h)
          (λ _.
            if-On P _ _ _ (λ h. one_char c n d close_paren b')' (refl, refl, refl) h)
              (λ _.
                if-On P _ _ _ (λ h. one_char c n d open_curly b'{' (refl, refl, refl) h)
                  (λ _.
                    if-On P _ _ _ (λ h. one_char c n d close_curly b'}' (refl, refl, refl) h)
                      (λ _.
                        if-On P _ _ _ (λ h. one_char c n d open_square b'[' (refl, refl, refl) h)
                          (λ _.
                            if-On P _ _ _
                              (λ h. one_char c n d close_square b']' (refl, refl, refl) h)
                              (λ _.
                                if-On P _ _ _
                                  (λ h.
                                    if-On (λ r. SpelledBy c n d (some r)) _ _ _
                                      (λ e.
                                        two_chars c n d fat_arrow b'=' 61 (refl, refl, refl) h e)
                                      (λ _.
                                        second_char c n d equals_equals equals b'=' 60
                                          (refl, refl, refl) (refl, refl, refl) h))
                                  (λ _.
                                    if-On P _ _ _
                                      (λ h.
                                        second_char c n d not_equals exclam b'!' 60
                                          (refl, refl, refl) (refl, refl, refl) h)
                                      (λ _.
                                        if-On P _ _ _
                                          (λ h.
                                            if-On (λ r. SpelledBy c n d (some r)) _ _ _
                                              (λ e.
                                                three_chars c n d shift_left_by b'<' b'<' 60
                                                  (refl, refl, refl) h e)
                                              (λ _.
                                                if-On (λ r. SpelledBy c n d (some r)) _ _ _
                                                  (λ e.
                                                    two_chars c n d shift_left b'<' 59
                                                      (refl, refl, refl) h e)
                                                  (λ _.
                                                    second_char c n d less_equals less b'<' 60
                                                      (refl, refl, refl) (refl, refl, refl) h)))
                                          (λ _.
                                            if-On P _ _ _
                                              (λ h.
                                                if-On (λ r. SpelledBy c n d (some r)) _ _ _
                                                  (λ e.
                                                    three_chars c n d shift_right_by b'>' b'>' 60
                                                      (refl, refl, refl) h e)
                                                  (λ _.
                                                    if-On (λ r. SpelledBy c n d (some r)) _ _ _
                                                      (λ e.
                                                        two_chars c n d shift_right b'>' 61
                                                          (refl, refl, refl) h e)
                                                      (λ _.
                                                        second_char c n d greater_equals greater
                                                          b'>' 60 (refl, refl, refl)
                                                          (refl, refl, refl) h)))
                                              (λ _.
                                                if-On P _ _ _
                                                  (λ h.
                                                    second_char c n d inc_by plus b'+' 60
                                                      (refl, refl, refl) (refl, refl, refl) h)
                                                  (λ _.
                                                    if-On P _ _ _
                                                      (λ h.
                                                        if-On (λ r. SpelledBy c n d (some r)) _ _ _
                                                          (λ e.
                                                            three_chars c n d no_initializer b'-'
                                                            b'-' 44 (refl, refl, refl) h e)
                                                          (λ _.
                                                            if-On (λ r. SpelledBy c n d (some r)) _
                                                            _ _
                                                            (λ e.
                                                            two_chars c n d dec_by b'-' 60
                                                            (refl, refl, refl) h e)
                                                            (λ _.
                                                            second_char c n d arrow minus b'-' 61
                                                            (refl, refl, refl) (refl, refl, refl)
                                                            h)))
                                                      (λ _.
                                                        if-On P _ _ _
                                                          (λ h.
                                                            second_char c n d mul_by asterisk b'*'
                                                            60 (refl, refl, refl) (refl, refl, refl)
                                                            h)
                                                          (λ _.
                                                            if-On P _ _ _
                                                            (λ h.
                                                            second_char c n d div_by slash b'/' 60
                                                            (refl, refl, refl) (refl, refl, refl) h)
                                                            (λ _.
                                                            if-On P _ _ _
                                                            (λ h.
                                                            second_char c n d mod_by percent b'%' 60
                                                            (refl, refl, refl) (refl, refl, refl) h)
                                                            (λ _.
                                                            if-On P _ _ _
                                                            (λ h.
                                                            if-On (λ r. SpelledBy c n d (some r)) _
                                                            _ _
                                                            (λ e.
                                                            two_chars c n d bitwise_and_by b'&' 60
                                                            (refl, refl, refl) h e)
                                                            (λ _.
                                                            second_char c n d logical_and ampersand
                                                            b'&' 37 (refl, refl, refl)
                                                            (refl, refl, refl) h))
                                                            (λ _.
                                                            if-On P _ _ _
                                                            (λ h.
                                                            if-On (λ r. SpelledBy c n d (some r)) _
                                                            _ _
                                                            (λ e.
                                                            two_chars c n d bitwise_or_by b'|' 60
                                                            (refl, refl, refl) h e)
                                                            (λ _.
                                                            second_char c n d logical_or pipe b'|'
                                                            123 (refl, refl, refl)
                                                            (refl, refl, refl) h))
                                                            (λ _.
                                                            if-On P _ _ _
                                                            (λ h.
                                                            second_char c n d bitwise_xor_by caret
                                                            b'^' 60 (refl, refl, refl)
                                                            (refl, refl, refl) h)
                                                            (λ _.
                                                            if-On P _ _ _
                                                            (λ h.
                                                            one_char c n d tilde b'~'
                                                            (refl, refl, refl) h)
                                                            (λ _.
                                                            if-On P _ _ _
                                                            (λ h.
                                                            one_char c n d semicolon b';'
                                                            (refl, refl, refl) h)
                                                            (λ _.
                                                            if-On P _ _ _
                                                            (λ h.
                                                            one_char c n d comma b','
                                                            (refl, refl, refl) h)
                                                            (λ _.
                                                            if-On P _ _ _
                                                            (λ h.
                                                            one_char c n d colon b':'
                                                            (refl, refl, refl) h)
                                                            (λ _.
                                                            if-On P _ _ _
                                                            (λ h.
                                                            one_char c n d at b'@'
                                                            (refl, refl, refl) h)
                                                            (λ _.
                                                            if-On P _ _ _
                                                            (λ h.
                                                            one_char c n d dollar b'$'
                                                            (refl, refl, refl) h)
                                                            (λ _.
                                                            if-On P _ _ _
                                                            (λ h.
                                                            one_char c n d dot b'.'
                                                            (refl, refl, refl) h)
                                                            (λ _. nothing))))))))))))))))))))))))))
