-- ===== src/Tokeniser/Lexemes/Gaps.antt =====
-- IgnoreComment and IgnoreMultilineComment of tokeniser/tokeniser.go skip comments.
use qk.Prelude.{
  ℕ, zero, suc, ◌+◌, ◌-◌, ◌≤◌, ◌≡◌, refl, ap, ◌∙◌, inl, inr, true, false, not, ◌&&◌, List, [], ◌∷◌,
  ◌==◌, length, arith, Bool-cases,
}
use qk.Tokeniser.Token.{Token}
use qk.Tokeniser.Cursor.{Tokeniser, code_at, peek, next, inc, incs}
use qk.Tokeniser.Read.{ok, remaining}
use qk.Tokeniser.Text.{skip_line, ignore_comment, skip_block, ignore_multiline_comment}
use qk.Tokeniser.Place.{place, Reads, inc-place, incs-place, code_at-behind}
use qk.Tokeniser.Lexemes.{All, Block, close, end, inside, Gap, line_comment, block_comment}
use qk.Tokeniser.Lexemes.Words.{Gives, Gives-map}
use qk.Tokeniser.Lexemes.Numbers.{next-place}

pub skip_line-done :
    (limit : ℕ) (t : Tokeniser) → (peek t == b'\n') ≡ true → skip_line (suc limit) t ≡ ok t
unfolding skip_line
skip_line-done limit t h = rw (h, skip_line)

pub skip_line-more :
    (limit : ℕ) (t : Tokeniser)
    → (peek t == b'\n') ≡ false
    → skip_line (suc limit) t ≡ skip_line limit (inc t)
unfolding skip_line
skip_line-more limit t h = rw (h, skip_line)

abbrev LineSkipped : List ℕ → List Token → ℕ → Tokeniser → Type 0
LineSkipped text ts p u =
    (q : ℕ) × (s : List ℕ) × (u ≡ place text ts q)
    × Reads text p s q
    × All (λ c. not (c == b'\n')) s
    × (code_at text q ≡ b'\n')

skip_line-skips :
    (text : List ℕ) (ts : List Token) (limit p : ℕ)
    → Gives (LineSkipped text ts p) (skip_line limit (place text ts p))
unfolding skip_line
skip_line-skips text ts zero p = tt
skip_line-skips text ts (suc limit) p = elim (Bool-cases (code_at text p == b'\n')) [
  | inl h ↦ rw (skip_line-done limit (place text ts p) h) (p, [], refl, refl, tt, ground arith)
  | inr h ↦ rw (skip_line-more limit (place text ts p) h) (
      rw (inc-place text ts p) (
        Gives-map (LineSkipped text ts (suc p)) (LineSkipped text ts p)
          (skip_line limit (place text ts (suc p)))
          (λ u (q, s, e, r, a, n). (q, code_at text p ∷ s, e, (refl, r), (ap not h, a), n))
          (skip_line-skips text ts limit (suc p))))
]

-- A state behind a gap.
abbrev pub Skipped : List ℕ → List Token → ℕ → Tokeniser → Type 0
Skipped text ts p u = (q : ℕ) × (u ≡ place text ts q) × Gap text p q

pub ignore_comment-Skipped :
    (text : List ℕ) (ts : List Token) (limit p : ℕ)
    → code_at text p ≡ b'/'
    → code_at text (suc p) ≡ b'/'
    → Gives (Skipped text ts p) (ignore_comment limit (place text ts p))
unfolding ignore_comment
ignore_comment-Skipped text ts limit p h k =
    rw (incs-place text ts p (suc (suc p)) (b'/' ∷ b'/' ∷ []) (h, (k, refl))) (
      Gives-map (LineSkipped text ts (suc (suc p))) (Skipped text ts p)
        (skip_line limit (place text ts (suc (suc p))))
        (λ u (q, s, e, r, a, n). (q, e, line_comment p q s (h, (k, r)) a n))
        (skip_line-skips text ts limit (suc (suc p))))

skip_block-close :
    (n : ℕ) (t : Tokeniser)
    → (peek t == b'*' && next t == b'/') ≡ true
    → skip_block (suc n) t ≡ incs 2 t
unfolding skip_block
skip_block-close n t h = rw (h, skip_block)

skip_block-end :
    (n : ℕ) (t : Tokeniser)
    → (peek t == b'*' && next t == b'/') ≡ false
    → (peek t == 0) ≡ true
    → skip_block (suc n) t ≡ t
unfolding skip_block
skip_block-end n t h k = rw (h, skip_block) (rw k)

skip_block-more :
    (n : ℕ) (t : Tokeniser)
    → (peek t == b'*' && next t == b'/') ≡ false
    → (peek t == 0) ≡ false
    → skip_block (suc n) t ≡ skip_block n (inc t)
unfolding skip_block
skip_block-more n t h k = rw (h, skip_block) (rw k)

skip_block-Block :
    (text : List ℕ) (ts : List Token) (n p : ℕ)
    → length text ≤ n + p
    → (q : ℕ) × (skip_block n (place text ts p) ≡ place text ts q) × Block text p q
unfolding skip_block
skip_block-Block text ts zero p h = (p, refl, end p (code_at-behind text p (omega arith)))
skip_block-Block text ts (suc n) p h =
    let second = next-place text ts p in
    elim (Bool-cases (code_at text p == b'*' && next (place text ts p) == b'/')) [
      | inl k ↦ rw (skip_block-close n (place text ts p) k) (
        suc (suc p),
        incs-place text ts p (suc (suc p)) (code_at text p ∷ code_at text (suc p) ∷ [])
            (refl, (refl, refl)),
        close p (ground arith) (ground arith),
      )
      | inr k ↦ elim (Bool-cases (code_at text p == 0)) [
        | inl z ↦ rw (skip_block-end n (place text ts p) k z) (p, refl, end p (ground arith))
        | inr z ↦
            let (q, e, b) = skip_block-Block text ts n (suc p) (omega arith) in
            rw (skip_block-more n (place text ts p) k z) (
              q,
              ap (skip_block n) (inc-place text ts p) ∙ e,
              inside p q (ground arith) (ground arith) b,
            )
      ]
    ]

pub ignore_multiline_comment-Skipped :
    (text : List ℕ) (ts : List Token) (p : ℕ)
    → code_at text p ≡ b'/'
    → code_at text (suc p) ≡ b'*'
    → Skipped text ts p (ignore_multiline_comment (place text ts p))
unfolding ignore_multiline_comment
ignore_multiline_comment-Skipped text ts p h k =
    let two = incs-place text ts p (suc (suc p)) (b'/' ∷ b'*' ∷ []) (h, (k, refl)) in
    let (q, e, b) =
      skip_block-Block text ts (length text - suc (suc p)) (suc (suc p)) (omega arith) in
    (
      q,
      ap (λ t. skip_block (remaining t) t) two ∙ e,
      block_comment p (suc (suc p)) q (h, (k, refl)) b,
    )
