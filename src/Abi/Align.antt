-- ===== src/Abi/Align.antt =====
-- codegen/llvm/foreign_abi.go: `alignTo`, and what it computes at the alignments in use.
use Prim.Native.Nat.{digits, bit_and, bit_and-bitwise}
use qk.Prelude.{
  ℕ, zero, suc, ◌+◌, ◌-◌, ◌*◌, ◌/◌, ◌%◌, ◌≤◌, ◌<◌, min, ◌≡◌, refl, ◌∙◌, ◌⊎◌, inl, inr, arith,
}

-- Go's `v &^ m` on numbers that are not negative.
unfoldable pub and_not : ℕ → ℕ → ℕ
and_not v m = v - bit_and v m

-- `alignTo`.
unfoldable pub align_to : ℕ → ℕ → ℕ
unfolding and_not
align_to v a = and_not (v + a - 1) (a - 1)

-- More rounds than the number has digits change nothing.
rounds_suffice :
    (b k j x : ℕ) → b ≤ k → b ≤ j → digits (λ _. zero) min k b x ≡ digits (λ _. zero) min j b x
rounds_suffice zero zero zero x h l = refl
rounds_suffice zero zero (suc j) x h l = refl
rounds_suffice zero (suc k) zero x h l = refl
rounds_suffice zero (suc k) (suc j) x h l = refl
rounds_suffice (suc b) zero j x h l = elim h [ ]
rounds_suffice (suc b) (suc k) zero x h l = elim l [ ]
rounds_suffice (suc b) (suc k) (suc j) x h l =
    omega (arith, rounds_suffice (suc b / 2) k j (x / 2) (omega arith) (omega arith))

no_common : (k b : ℕ) → digits (λ _. zero) min k b 0 ≡ 0
no_common zero b = refl
no_common (suc k) zero = refl
no_common (suc k) (suc b) = omega (arith, no_common k (suc b / 2))

bit_and-zero : (v : ℕ) → bit_and v 0 ≡ 0
bit_and-zero v = bit_and-bitwise v 0 ∙ no_common v v

-- The lowest bit, and the bits above it.
bit_and_low : (v m : ℕ) → bit_and v m ≡ min (v % 2) (m % 2) + 2 * bit_and (v / 2) (m / 2)
bit_and_low zero m = omega (arith, bit_and-bitwise 0 m, bit_and-bitwise 0 (m / 2))
bit_and_low (suc v) m =
    let half = suc v / 2 in
    let same = rounds_suffice half v half (m / 2) (omega arith) (omega arith) in
    omega (arith, bit_and-bitwise (suc v) m, bit_and-bitwise half (m / 2), same)

bit_and-one : (a : ℕ) → bit_and a 1 ≡ a % 2
bit_and-one a = omega (arith, bit_and_low a 1, bit_and-zero (a / 2))

bit_and-three : (a : ℕ) → bit_and a 3 ≡ a % 4
bit_and-three a = omega (arith, bit_and_low a 3, bit_and-one (a / 2))

bit_and-seven : (a : ℕ) → bit_and a 7 ≡ a % 8
bit_and-seven a = omega (arith, bit_and_low a 7, bit_and-three (a / 2))

-- The alignments that layouts have.
abbrev pub IsAlign : ℕ → Type 0
IsAlign a = ((a ≡ 1) ⊎ (a ≡ 2)) ⊎ ((a ≡ 4) ⊎ (a ≡ 8))

-- `align_to v a` is the least multiple of `a` from `v` on.
pub record RoundsUp (v a w : ℕ) : Type 0 where
  pub above : v ≤ w
  pub near : w < v + a
  pub multiple : w % a ≡ 0

rounds_at_one : (v : ℕ) → RoundsUp v 1 (align_to v 1)
unfolding align_to
rounds_at_one v = omega (arith, bit_and-zero (v + 1 - 1))

rounds_at_two : (v : ℕ) → RoundsUp v 2 (align_to v 2)
unfolding align_to
rounds_at_two v = omega (arith, bit_and-one (v + 2 - 1))

rounds_at_four : (v : ℕ) → RoundsUp v 4 (align_to v 4)
unfolding align_to
rounds_at_four v = omega (arith, bit_and-three (v + 4 - 1))

rounds_at_eight : (v : ℕ) → RoundsUp v 8 (align_to v 8)
unfolding align_to
rounds_at_eight v = omega (arith, bit_and-seven (v + 8 - 1))

-- At the alignments 1, 2, 4 and 8 alignTo computes the least multiple of the alignment from the
-- value on.
pub align_to-RoundsUp : (v a : ℕ) → IsAlign a → RoundsUp v a (align_to v a)
align_to-RoundsUp v a (inl (inl e)) = rw e (rounds_at_one v)
align_to-RoundsUp v a (inl (inr e)) = rw e (rounds_at_two v)
align_to-RoundsUp v a (inr (inl e)) = rw e (rounds_at_four v)
align_to-RoundsUp v a (inr (inr e)) = rw e (rounds_at_eight v)

-- A multiple of the alignment is left alone.
pub align_to-of_multiple : (v a : ℕ) → IsAlign a → v % a ≡ 0 → align_to v a ≡ v
align_to-of_multiple v a (inl (inl e)) h = rw e (omega (arith, rounds_at_one v, rw e at h))
align_to-of_multiple v a (inl (inr e)) h = rw e (omega (arith, rounds_at_two v, rw e at h))
align_to-of_multiple v a (inr (inl e)) h = rw e (omega (arith, rounds_at_four v, rw e at h))
align_to-of_multiple v a (inr (inr e)) h = rw e (omega (arith, rounds_at_eight v, rw e at h))
