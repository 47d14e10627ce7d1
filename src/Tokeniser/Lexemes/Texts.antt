-- ===== src/Tokeniser/Lexemes/Texts.antt =====
-- HanldeEscape and ReadString of tokeniser/tokeniser.go read what the spellings of characters and
-- strings allow.
use qk.Prelude.{
  ℕ, zero, suc, ◌≤◌, ◌≡◌, refl, sym, ap, ◌∙◌, inl, inr, true, false, not, ◌||◌, none, some, List,
  [], ◌∷◌, ◌++◌, ◌==◌, if◌then◌else◌, length, arith, Bool-cases, Option-cases,
}
use qk.Tokeniser.Token.{Token}
use qk.Tokeniser.Cursor.{Tokeniser, code_at, peek, inc, incs, get_loc}
use qk.Tokeniser.Read.{invalid_escape, string_end, ok, failed, ◌>>=◌}
use qk.Tokeniser.Text.{escape_of, handle_escape, read_string_loop, read_string}
use qk.Tokeniser.Place.{place, Reads, Reads-append, inc-place, incs-place, lt-of_code_at}
use qk.Tokeniser.Lexemes.{Escaped, plain, escape, Body, nil, cons}
use qk.Tokeniser.Lexemes.Words.{Gives, Gives-bind}

abbrev pub EscapeRead : List ℕ → List Token → ℕ → ℕ × Tokeniser → Type 0
EscapeRead text ts p r =
    (q : ℕ) × (s : List ℕ) × (r.1 ≡ place text ts q)
    × Reads text p (code_at text p ∷ s) q
    × Escaped (code_at text p ∷ s) r.0

pub handle_escape-plain :
    (t : Tokeniser) → (peek t == b'\\') ≡ false → handle_escape t ≡ ok (peek t, inc t)
unfolding handle_escape
handle_escape-plain t h = rw h

pub handle_escape-escaped :
    (t : Tokeniser)
    → (peek t == b'\\') ≡ true
    → handle_escape t ≡ elim (escape_of (peek (inc t))) [
      | some c ↦ ok (c, incs 2 t)
      | none ↦ failed (get_loc (incs 2 t)) invalid_escape
    ]
unfolding handle_escape
handle_escape-escaped t h = rw h

pub handle_escape-reads :
    (text : List ℕ) (ts : List Token) (p : ℕ)
    → Gives (EscapeRead text ts p) (handle_escape (place text ts p))
handle_escape-reads text ts p = elim (Bool-cases (code_at text p == b'\\')) [
  | inl h ↦
      rw (handle_escape-escaped (place text ts p) h)
        (elim (Option-cases (escape_of (peek (inc (place text ts p))))) [
          | inl e ↦ rw e tt
          | inr (c, e) ↦ rw e (
            suc (suc p),
            code_at text (suc p) ∷ [],
            incs-place text ts p (suc (suc p)) (code_at text p ∷ code_at text (suc p) ∷ [])
                (refl, (refl, refl)),
            (refl, (refl, refl)),
            escape (code_at text p) (code_at text (suc p)) c h
                (ap (λ (t : Tokeniser). escape_of (peek t)) (sym (inc-place text ts p)) ∙ e),
          )
        ])
  | inr h ↦
      rw (handle_escape-plain (place text ts p) h)
        (suc p, [], inc-place text ts p, (refl, refl), plain (code_at text p) h)
]

pub read_string_loop-done :
    (limit : ℕ) (t : Tokeniser)
    → (peek t == b'"' || peek t == b'\n') ≡ true
    → read_string_loop (suc limit) t ≡ ok ([], t)
unfolding read_string_loop
read_string_loop-done limit t h = rw (h, read_string_loop)

pub read_string_loop-more :
    (limit : ℕ) (t : Tokeniser)
    → (peek t == b'"' || peek t == b'\n') ≡ false
    → read_string_loop (suc limit) t
      ≡ (do (c, u) ← handle_escape t; (s, v) ← read_string_loop limit u; ok (c ∷ s, v))
unfolding read_string_loop
read_string_loop-more limit t h = rw (h, read_string_loop)

abbrev BodyRead : List ℕ → List Token → ℕ → List ℕ × Tokeniser → Type 0
BodyRead text ts p r =
    (q : ℕ) × (s : List ℕ) × (r.1 ≡ place text ts q) × Reads text p s q × Body s r.0

read_string_loop-reads :
    (text : List ℕ) (ts : List Token) (limit p : ℕ)
    → Gives (BodyRead text ts p) (read_string_loop limit (place text ts p))
unfolding read_string_loop
read_string_loop-reads text ts zero p = tt
read_string_loop-reads text ts (suc limit) p =
    elim (Bool-cases (code_at text p == b'"' || code_at text p == b'\n')) [
      | inl h ↦ rw (read_string_loop-done limit (place text ts p) h) (p, [], refl, refl, nil)
      | inr h ↦ rw (read_string_loop-more limit (place text ts p) h) (
          Gives-bind (EscapeRead text ts p) (BodyRead text ts p) (handle_escape (place text ts p))
            (λ a. read_string_loop limit a.1 >>= (λ b. ok (a.0 ∷ b.0, b.1)))
            (handle_escape-reads text ts p)
            (λ a (q, s, e, r, w). rw e (
              Gives-bind (BodyRead text ts q) (BodyRead text ts p)
                (read_string_loop limit (place text ts q)) (λ b. ok (a.0 ∷ b.0, b.1))
                (read_string_loop-reads text ts limit q)
                (λ b (q', s', e', r', w'). (
                  q',
                  code_at text p ∷ (s ++ s'),
                  e',
                  Reads-append text p q q' (code_at text p ∷ s) s' r r',
                  cons (code_at text p) a.0 s s' b.0 h w w',
                )))))
    ]

abbrev pub StringRead : List ℕ → List Token → ℕ → List ℕ × Tokeniser → Type 0
StringRead text ts p r =
    (q : ℕ) × (s : List ℕ) × (r.1 ≡ place text ts q)
    × Reads text p (b'"' ∷ (s ++ b'"' ∷ [])) q
    × Body s r.0
    × (q ≤ length text)

pub string_end-reads :
    (text : List ℕ) (ts : List Token) (p : ℕ) (r : List ℕ × Tokeniser)
    → (code_at text p == b'"') ≡ true
    → BodyRead text ts (suc p) r
    → Gives
        (StringRead text ts p)
        (if not (peek r.1 == b'"') then failed (get_loc r.1) string_end else ok (r.0, inc r.1))
string_end-reads text ts p (v, u) h (q, s, e, r, w) =
    rw e (elim (Bool-cases (code_at text q == b'"')) [
      | inl k ↦ rw k (
        suc q,
        s,
        inc-place text ts q,
        (ground arith, Reads-append text (suc p) q (suc q) s (b'"' ∷ []) r (ground arith, refl)),
        w,
        lt-of_code_at text q (ground arith),
      )
      | inr k ↦ rw k tt
    ])

pub read_string-reads :
    (text : List ℕ) (ts : List Token) (limit p : ℕ)
    → Gives (StringRead text ts p) (read_string limit (place text ts p))
unfolding read_string
read_string-reads text ts limit p = elim (Bool-cases (code_at text p == b'"')) [
  | inl h ↦ rw h (
      Gives-bind (BodyRead text ts (suc p)) (StringRead text ts p)
        (read_string_loop limit (inc (place text ts p))) _
        (rw (inc-place text ts p) (read_string_loop-reads text ts limit (suc p)))
        (λ a b. string_end-reads text ts p a h b))
  | inr h ↦ rw h tt
]
