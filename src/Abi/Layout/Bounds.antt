-- ===== src/Abi/Layout/Bounds.antt =====
-- codegen/llvm/foreign_abi.go: what holds of every layout.
use native.Mathlib.Nat.{mul-zero, mul-suc}
use qk.Prelude.{
  Holds, Holds-bind, Holds-of_eq, Holds-self, Holds-any, ℕ, zero, suc, ◌+◌, ◌*◌, ◌%◌, max, true,
  false, String, Option, none, some, ◌≡◌, ◌⊎◌, inl, inr, arith,
}
use qk.Types.Primitive.{Primitive, isz, usz, i64, u64, f64}
use qk.Types.Syntax.{
  Ty, Fields, Cells, primitive, defined, alias_ref, struct_type, union_type, enum_type, flags_type,
  pointer, slice, array, trait_pointer, field_nil, field_cons,
}
use qk.Types.Underlying.{target}
use qk.Abi.Align.{IsAlign, align_to-RoundsUp}
use qk.Abi.Layout.{
  Machine, Layout, layout, AliasLayout, word, word_pair, primitive_layout, place, overlay, pad,
  layout_of, packed_size, struct_layout, union_layout, alias_layout, type_size_align,
}

-- A machine whose pointers, where known, have 4 or 8 bytes, and whose 64-bit scalars are aligned
-- to 4 or 8.
pub record IsMachine (e : Machine) : Type 0 where
  pub pointer_width : (p : ℕ) → e.pointer_bytes ≡ some p → (p ≡ 4) ⊎ (p ≡ 8)
  pub scalar_align : (e.scalar64_align ≡ 4) ⊎ (e.scalar64_align ≡ 8)

-- The alignment is 1, 2, 4 or 8, and the size is a multiple of it.
pub record IsLayout (l : Layout) : Type 0 where
  pub is_align : IsAlign l.align
  pub whole : l.size % l.align ≡ 0

max-IsAlign : (a b : ℕ) → IsAlign a → IsAlign b → IsAlign (max a b)
max-IsAlign a b h k = ground arith

pub multiple-add : (a s t : ℕ) → IsAlign a → s % a ≡ 0 → t % a ≡ 0 → (s + t) % a ≡ 0
multiple-add a s t (inl (inl e)) h k = rw e (omega arith)
multiple-add a s t (inl (inr e)) h k = rw e (omega (arith, rw e at h, rw e at k))
multiple-add a s t (inr (inl e)) h k = rw e (omega (arith, rw e at h, rw e at k))
multiple-add a s t (inr (inr e)) h k = rw e (omega (arith, rw e at h, rw e at k))

pub multiple-zero : (a : ℕ) → IsAlign a → 0 % a ≡ 0
multiple-zero a h = ground arith

multiple-mul : (a s n : ℕ) → IsAlign a → s % a ≡ 0 → (s * n) % a ≡ 0
multiple-mul a s zero h k = rw mul-zero (multiple-zero a h)
multiple-mul a s (suc n) h k = rw mul-suc (multiple-add a (s * n) s h (multiple-mul a s n h k) k)

word_at : (p : ℕ) → (p ≡ 4) ⊎ (p ≡ 8) → IsLayout (layout p p)
word_at p h = ground arith

word_pair_at : (p : ℕ) → (p ≡ 4) ⊎ (p ≡ 8) → IsLayout (layout (p * 2) p)
word_pair_at p h = ground arith

scalar_at : (a : ℕ) → (a ≡ 4) ⊎ (a ≡ 8) → IsLayout (layout 8 a)
scalar_at a h = ground arith

packed_at : (s : ℕ) → IsLayout (layout s 1)
packed_at s = omega arith

alias_target-IsLayout :
    (f : Ty → Option Layout) (o : Option Ty)
    → ((t : Ty) → Holds IsLayout (f t))
    → Holds IsLayout (elim o [ none ↦ none | some t ↦ f t ])
alias_target-IsLayout f none h = tt
alias_target-IsLayout f (some t) h = h t

pub place-IsAlign :
    (acc l : Layout) → IsAlign acc.align → IsAlign l.align → IsAlign (place acc l).align
unfolding place
place-IsAlign acc l h k = max-IsAlign acc.align l.align h k

pub overlay-IsAlign :
    (acc l : Layout) → IsAlign acc.align → IsAlign l.align → IsAlign (overlay acc l).align
unfolding overlay
overlay-IsAlign acc l h k = max-IsAlign acc.align l.align h k

pub pad-IsLayout : (acc : Layout) → IsAlign acc.align → IsLayout (pad acc)
unfolding pad
pad-IsLayout acc h = record {
  is_align = h;
  whole = (align_to-RoundsUp acc.size acc.align h).multiple;
}

module _ (e : Machine) (ok : IsMachine e) where
  word-IsLayout : Holds IsLayout (word e)
  unfolding word
  word-IsLayout =
      Holds-bind (λ p. e.pointer_bytes ≡ some p) IsLayout e.pointer_bytes _
        (Holds-self e.pointer_bytes) λ p h. word_at p (ok.pointer_width p h)

  word_pair-IsLayout : Holds IsLayout (word_pair e)
  unfolding word_pair
  word_pair-IsLayout =
      Holds-bind (λ p. e.pointer_bytes ≡ some p) IsLayout e.pointer_bytes _
        (Holds-self e.pointer_bytes) λ p h. word_pair_at p (ok.pointer_width p h)

  primitive_layout-IsLayout : (p : Primitive) → Holds IsLayout (primitive_layout e p)
  unfolding primitive_layout
  primitive_layout-IsLayout isz = word-IsLayout
  primitive_layout-IsLayout usz = word-IsLayout
  primitive_layout-IsLayout i64 = scalar_at e.scalar64_align ok.scalar_align
  primitive_layout-IsLayout u64 = scalar_at e.scalar64_align ok.scalar_align
  primitive_layout-IsLayout f64 = scalar_at e.scalar64_align ok.scalar_align
  primitive_layout-IsLayout _ = omega arith

  module _ (al : AliasLayout)
      (al_ok : (m n : String) (r : Option ℕ) → Holds IsLayout (al m n r)) where
    mutual
      unfolding layout_of

      pub layout_of-IsLayout : (t : Ty) → Holds IsLayout (layout_of al e t)
      layout_of-IsLayout (primitive p) = primitive_layout-IsLayout p
      layout_of-IsLayout (defined m n u g as') = layout_of-IsLayout u
      layout_of-IsLayout (alias_ref m n r) = al_ok m n r
      layout_of-IsLayout (pointer t m) = word-IsLayout
      layout_of-IsLayout (trait_pointer t m) = word_pair-IsLayout
      layout_of-IsLayout (slice t m) = word_pair-IsLayout
      layout_of-IsLayout (array t n) =
          Holds-bind IsLayout IsLayout (layout_of al e t) _ (layout_of-IsLayout t) λ l h. record {
            is_align = h.is_align;
            whole = multiple-mul l.align l.size n h.is_align h.whole;
          }
      layout_of-IsLayout (enum_type m n i vs ws) = omega arith
      layout_of-IsLayout (flags_type p vs ws) = primitive_layout-IsLayout p
      layout_of-IsLayout (struct_type fs true i) =
          Holds-bind (λ s. Unit) IsLayout (packed_size al e fs 0) _ (Holds-any _) λ s h. packed_at s
      layout_of-IsLayout (struct_type fs false i) =
          Holds-bind (λ l. IsAlign l.align) IsLayout (struct_layout al e fs (layout 0 1)) _
            (struct_layout-IsAlign fs (layout 0 1) (omega arith)) pad-IsLayout
      layout_of-IsLayout (union_type m n fs) =
          Holds-bind (λ l. IsAlign l.align) IsLayout (union_layout al e fs (layout 0 1)) _
            (union_layout-IsAlign fs (layout 0 1) (omega arith)) pad-IsLayout
      layout_of-IsLayout _ = tt

      pub struct_layout-IsAlign :
          (fs : Fields) (acc : Layout)
          → IsAlign acc.align
          → Holds (λ l. IsAlign l.align) (struct_layout al e fs acc)
      struct_layout-IsAlign field_nil acc h = h
      struct_layout-IsAlign (field_cons n t fs) acc h =
          Holds-bind IsLayout (λ l. IsAlign l.align) (layout_of al e t) _ (layout_of-IsLayout t)
            λ l k. struct_layout-IsAlign fs (place acc l) (place-IsAlign acc l h k.is_align)

      pub union_layout-IsAlign :
          (fs : Fields) (acc : Layout)
          → IsAlign acc.align
          → Holds (λ l. IsAlign l.align) (union_layout al e fs acc)
      union_layout-IsAlign field_nil acc h = h
      union_layout-IsAlign (field_cons n t fs) acc h =
          Holds-bind IsLayout (λ l. IsAlign l.align) (layout_of al e t) _ (layout_of-IsLayout t)
            λ l k. union_layout-IsAlign fs (overlay acc l) (overlay-IsAlign acc l h k.is_align)

  pub alias_layout-IsLayout :
      (cells : Cells) (fuel : ℕ) (m n : String) (r : Option ℕ)
      → Holds IsLayout (alias_layout cells e fuel m n r)
  unfolding alias_layout
  alias_layout-IsLayout cells zero m n r = tt
  alias_layout-IsLayout cells (suc fuel) m n r =
      alias_target-IsLayout (layout_of (alias_layout cells e fuel) e) (target cells r)
        (layout_of-IsLayout (alias_layout cells e fuel) (alias_layout-IsLayout cells fuel))

  -- On a target whose pointers have 4 or 8 bytes and whose 64-bit scalars are aligned to 4 or 8,
  -- every alignment that typeSizeAlign computes is 1, 2, 4 or 8, and every size is a multiple of
  -- the alignment.
  pub type_size_align-IsLayout :
      (cells : Cells) (fuel : ℕ) (t : Ty) {l : Layout}
      → type_size_align cells e fuel t ≡ some l
      → IsLayout l
  unfolding type_size_align
  type_size_align-IsLayout cells fuel t h =
      Holds-of_eq IsLayout (layout_of (alias_layout cells e fuel) e t)
        (layout_of-IsLayout (alias_layout cells e fuel) (alias_layout-IsLayout cells fuel) t) h
