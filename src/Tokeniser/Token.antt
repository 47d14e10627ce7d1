-- ===== src/Tokeniser/Token.antt =====
-- tokeniser/token.go and shared/utils.go: tokens, their places in the text and their spelling. Text
-- is a list of code points. The path and the text of the file, which every Go `Location` repeats, are
-- left out.
use qk.Prelude.{ℕ, String, Bool, List, [], ◌∷◌, ◌++◌}
use qk.Target.{codes, one_of}

pub data TokenKind : Type 0 where
  eof newline : TokenKind
  keyword identifier number float string c_string char : TokenKind
  open_paren close_paren open_curly close_curly open_square close_square : TokenKind
  equals equals_equals not_equals less greater less_equals greater_equals : TokenKind
  plus minus no_initializer asterisk slash percent ampersand logical_and : TokenKind
  pipe logical_or caret tilde shift_left shift_right : TokenKind
  inc_by dec_by mul_by div_by mod_by bitwise_and_by bitwise_or_by bitwise_xor_by : TokenKind
  shift_left_by shift_right_by : TokenKind
  semicolon comma exclam colon dot two_dots three_dots arrow fat_arrow at dollar : TokenKind

pub record LineCol : Type 0 where
  pub line : ℕ
  pub col : ℕ

-- `Loc`: the half-open span of a token, by line and column and by offset.
pub record Location : Type 0 where
  pub lc : LineCol
  pub end_lc : LineCol
  pub offset : ℕ
  pub end_offset : ℕ

pub record Token : Type 0 where
  pub kind : TokenKind
  pub value : List ℕ
  pub loc : Location
  pub number_base : ℕ

abbrev pub keywords : List String
keywords =
    "let" ∷ "mut" ∷ "struct" ∷ "enum" ∷ "union" ∷ "opaque" ∷ "trait" ∷ "dyn" ∷ "type" ∷ "alias"
    ∷ "if" ∷ "match" ∷ "as" ∷ "when" ∷ "else" ∷ "for" ∷ "break" ∷ "continue" ∷ "return" ∷ "defer"
    ∷ "import" ∷ "module" ∷ "pub" ∷ "true" ∷ "false" ∷ "nil" ∷ "in" ∷ []

-- `IsKeyword`.
unfoldable pub is_keyword : List ℕ → Bool
unfolding one_of
is_keyword w = one_of keywords w

-- `Token.String` of the kinds that have one spelling; those that carry a value, and the kinds that
-- it does not know, have none.
unfoldable pub symbol_text : TokenKind → List ℕ
symbol_text newline = codes "\\n"
symbol_text dollar = codes "$"
symbol_text open_paren = codes "("
symbol_text close_paren = codes ")"
symbol_text open_curly = codes "{"
symbol_text close_curly = codes "}"
symbol_text open_square = codes "["
symbol_text close_square = codes "]"
symbol_text equals = codes "="
symbol_text equals_equals = codes "=="
symbol_text not_equals = codes "!="
symbol_text less = codes "<"
symbol_text greater = codes ">"
symbol_text less_equals = codes "<="
symbol_text greater_equals = codes ">="
symbol_text plus = codes "+"
symbol_text minus = codes "-"
symbol_text no_initializer = codes "---"
symbol_text asterisk = codes "*"
symbol_text slash = codes "/"
symbol_text percent = codes "%"
symbol_text ampersand = codes "&"
symbol_text logical_and = codes "&&"
symbol_text pipe = codes "|"
symbol_text logical_or = codes "||"
symbol_text caret = codes "^"
symbol_text tilde = codes "~"
symbol_text shift_left = codes "<<"
symbol_text shift_right = codes ">>"
symbol_text inc_by = codes "+="
symbol_text dec_by = codes "-="
symbol_text mul_by = codes "*="
symbol_text div_by = codes "/="
symbol_text mod_by = codes "%="
symbol_text bitwise_and_by = codes "&="
symbol_text bitwise_or_by = codes "|="
symbol_text bitwise_xor_by = codes "^="
symbol_text shift_left_by = codes "<<="
symbol_text shift_right_by = codes ">>="
symbol_text semicolon = codes ";"
symbol_text comma = codes ","
symbol_text exclam = codes "!"
symbol_text colon = codes ":"
symbol_text dot = codes "."
symbol_text two_dots = codes ".."
symbol_text three_dots = codes "..."
symbol_text arrow = codes "->"
symbol_text fat_arrow = codes "=>"
symbol_text at = codes "@"
symbol_text eof = codes "<eof>"
symbol_text _ = codes "{UNKNOWN}"

-- `Token.String`.
unfoldable pub token_string : Token → List ℕ
unfolding symbol_text
token_string t = elim t.kind [
  | keyword ↦ codes "kw(" ++ t.value ++ codes ")"
  | identifier ↦ codes "ident(" ++ t.value ++ codes ")"
  | number ↦ codes "num(" ++ t.value ++ codes ")"
  | float ↦ codes "float(" ++ t.value ++ codes ")"
  | string ↦ codes "str(" ++ t.value ++ codes ")"
  | char ↦ codes "ch(" ++ t.value ++ codes ")"
  | k ↦ symbol_text k
]

-- `tokenWidth`.
unfoldable pub token_width : TokenKind → ℕ
token_width no_initializer = 3
token_width shift_left_by = 3
token_width shift_right_by = 3
token_width three_dots = 3
token_width equals_equals = 2
token_width not_equals = 2
token_width less_equals = 2
token_width greater_equals = 2
token_width shift_left = 2
token_width shift_right = 2
token_width inc_by = 2
token_width dec_by = 2
token_width mul_by = 2
token_width div_by = 2
token_width mod_by = 2
token_width bitwise_and_by = 2
token_width bitwise_or_by = 2
token_width bitwise_xor_by = 2
token_width logical_and = 2
token_width logical_or = 2
token_width two_dots = 2
token_width arrow = 2
token_width fat_arrow = 2
token_width _ = 1
