-- ===== src/Abi/SysV/Classify.antt =====
-- codegen/llvm/abi_sysvamd64.go: `classifySysVAggregate` never indexes outside its slices.
use qk.Prelude.{
  ℕ, ◌+◌, ◌*◌, ◌≤◌, ◌<◌, true, false, Bool, String, Option, none, some, if◌then◌else◌, Returns,
  Returns-bind, Holds, Holds-of_eq, bind-eq-some, ◌≡◌, ◌≢◌, ap, arith,
}
use qk.Types.Primitive.{Primitive, void, is_float}
use qk.Types.Syntax.{
  Ty, Fields, primitive, defined, alias_ref, struct_type, union_type, enum_type, flags_type,
  pointer, slice, array, field_nil, field_cons,
}
use qk.Abi.Align.{align_to, IsAlign, align_to-RoundsUp}
use qk.Abi.Layout.{
  Machine, Layout, layout, word, word_pair, primitive_layout, place, overlay, pad, layout_of,
  packed_size, struct_layout, union_layout,
}
use qk.Abi.Layout.Bounds.{
  IsMachine, IsLayout, layout_of-IsLayout, struct_layout-IsAlign, union_layout-IsAlign,
}
use qk.Abi.SysV.{
  class_sse, class_integer, Classes, Names, mark_class, add_float, classify_primitive, classify,
  classify_struct, classify_union,
}
use qk.Abi.SysV.Bounds.{
  Sized, mark_class-Returns, add_float-Returns, rounds-Returns, IsCField, AreCFields,
  primitive_layout-pos,
}

size_eq : {a l : Layout} → some a ≡ some l → a.size ≡ l.size
size_eq e = ap (λ o. elim o [ none ↦ 0 | some x ↦ x.size ]) e

word-size : (e : Machine) {l : Layout} → e.pointer_bytes ≡ some 8 → word e ≡ some l → l.size ≡ 8
unfolding word
word-size e h eq = ground arith

word_pair-size :
    (e : Machine) {l : Layout} → e.pointer_bytes ≡ some 8 → word_pair e ≡ some l → l.size ≡ 16
unfolding word_pair
word_pair-size e h eq = ground arith

record_float-Returns :
    (n base : ℕ) (p : Primitive) (b : Bool) (st : Classes)
    → Sized n st
    → base < 8 * n
    → Returns (Sized n) (if b then add_float base p st else some st)
record_float-Returns n base p true st h lt = add_float-Returns n base p st h lt
record_float-Returns n base p false st h lt = h

classify_primitive-Returns :
    (n : ℕ) (e : Machine) (p : Primitive) (base : ℕ) (st : Classes) (l : Layout)
    → e.pointer_bytes ≡ some 8
    → p ≢ void
    → primitive_layout e p ≡ some l
    → Sized n st
    → base + l.size ≤ 8 * n
    → Returns (Sized n) (classify_primitive e p base st)
unfolding classify_primitive
classify_primitive-Returns n e p base st l h nv eq sized le =
    let pos = primitive_layout-pos e p h nv eq in
    let c = if is_float p then class_sse else class_integer in
    rw eq (
      Returns-bind (Sized n) (Sized n) (mark_class base l.size c st) _
        (mark_class-Returns n base l.size c st sized pos le)
        λ st' m h'. record_float-Returns n base p (is_float p) st' h' (omega arith))

module _ (k : Names) (e : Machine) (ok : IsMachine e)
    (al_ok : (m n : String) (r : Option ℕ) → Holds IsLayout (k.layout_at m n r)) where
  field_IsLayout : (t : Ty) {l : Layout} → layout_of k.layout_at e t ≡ some l → IsLayout l
  field_IsLayout t h =
      Holds-of_eq IsLayout (layout_of k.layout_at e t) (layout_of-IsLayout e ok k.layout_at al_ok t)
        h

  -- The layouts of the fields before never shrink.
  packed_size-le :
      (fs : Fields) (s : ℕ) {s' : ℕ} → packed_size k.layout_at e fs s ≡ some s' → s ≤ s'
  unfolding layout_of
  packed_size-le field_nil s h = ground arith
  packed_size-le (field_cons n t fs) s h =
      let (l, f, rest) = bind-eq-some (layout_of k.layout_at e t) _ h in
      omega (arith, packed_size-le fs (s + l.size) rest)

  place-le : (acc l : Layout) → IsLayout l → acc.size + l.size ≤ (place acc l).size
  unfolding place
  place-le acc l h = omega (arith, (align_to-RoundsUp acc.size l.align h.is_align).above)

  struct_layout-le :
      (fs : Fields) (acc : Layout) {acc' : Layout}
      → struct_layout k.layout_at e fs acc ≡ some acc'
      → acc.size ≤ acc'.size
  unfolding layout_of
  struct_layout-le field_nil acc h = ground arith
  struct_layout-le (field_cons n t fs) acc h =
      let (l, f, rest) = bind-eq-some (layout_of k.layout_at e t) _ h in
      omega (arith, place-le acc l (field_IsLayout t f), struct_layout-le fs (place acc l) rest)

  overlay-le :
      (acc l : Layout) → (acc.size ≤ (overlay acc l).size) × (l.size ≤ (overlay acc l).size)
  unfolding overlay
  overlay-le acc l = omega arith

  union_layout-le :
      (fs : Fields) (acc : Layout) {acc' : Layout}
      → union_layout k.layout_at e fs acc ≡ some acc'
      → acc.size ≤ acc'.size
  unfolding layout_of
  union_layout-le field_nil acc h = ground arith
  union_layout-le (field_cons n t fs) acc h =
      let (l, f, rest) = bind-eq-some (layout_of k.layout_at e t) _ h in
      omega (arith, overlay-le acc l, union_layout-le fs (overlay acc l) rest)

  pad-le : (acc : Layout) → IsAlign acc.align → acc.size ≤ (pad acc).size
  unfolding pad
  pad-le acc h = (align_to-RoundsUp acc.size acc.align h).above

  struct_align :
      (fs : Fields) {acc : Layout}
      → struct_layout k.layout_at e fs (layout 0 1) ≡ some acc
      → IsAlign acc.align
  struct_align fs h =
      Holds-of_eq (λ l. IsAlign l.align) (struct_layout k.layout_at e fs (layout 0 1))
        (struct_layout-IsAlign e ok k.layout_at al_ok fs (layout 0 1) (omega arith)) h

  union_align :
      (fs : Fields) {acc : Layout}
      → union_layout k.layout_at e fs (layout 0 1) ≡ some acc
      → IsAlign acc.align
  union_align fs h =
      Holds-of_eq (λ l. IsAlign l.align) (union_layout k.layout_at e fs (layout 0 1))
        (union_layout-IsAlign e ok k.layout_at al_ok fs (layout 0 1) (omega arith)) h

  slot-le : (i n s : ℕ) → i < n → i * s + s ≤ s * n
  slot-le i n s h = grind arith

  module _ (wide : e.pointer_bytes ≡ some 8) (n : ℕ) where
    abbrev Fits : ℕ → Layout → Type 0
    Fits base l = base + l.size ≤ 8 * n

    mutual
      unfolding classify layout_of IsCField

      pub classify-Returns :
          (t : Ty) (base : ℕ) (st : Classes) (l : Layout)
          → IsCField t
          → layout_of k.layout_at e t ≡ some l
          → Sized n st
          → Fits base l
          → Returns (Sized n) (classify k e t base st)
      classify-Returns (primitive p) base st l c h sized le =
          classify_primitive-Returns n e p base st l wide c h sized le
      classify-Returns (flags_type p vs ws) base st l c h sized le = rw h (
          mark_class-Returns n base l.size class_integer st sized
            (primitive_layout-pos e p wide c h) le)
      classify-Returns (pointer t m) base st l c h sized le =
          mark_class-Returns n base 8 class_integer st sized (omega arith)
            (omega (arith, word-size e wide h))
      classify-Returns (slice t m) base st l c h sized le = rw wide (
          Returns-bind (Sized n) (Sized n) (mark_class base 8 class_integer st) _
            (mark_class-Returns n base 8 class_integer st sized (omega arith)
              (omega (arith, word_pair-size e wide h)))
            λ st' q sized'.
              mark_class-Returns n (base + 8) 8 class_integer st' sized' (omega arith)
                (omega (arith, word_pair-size e wide h)))
      classify-Returns (enum_type m n' i vs ws) base st l c h sized le =
          mark_class-Returns n base 4 class_integer st sized (omega arith)
            (omega (arith, size_eq h))
      classify-Returns (array t len) base st l c h sized le =
          let (l', f, g) = bind-eq-some (layout_of k.layout_at e t) _ h in
          rw f (
            rounds-Returns (Sized n) len (λ i s. classify k e t (base + i * l'.size) s)
              (λ i s lt sized'.
                classify-Returns t (base + i * l'.size) s l' c f sized'
                  (omega (arith, slot-le i len l'.size lt, size_eq g)))
              len 0 st (omega arith) sized)
      classify-Returns (struct_type fs true i) base st l c h sized le =
          let (s, f, g) = bind-eq-some (packed_size k.layout_at e fs 0) _ h in
          classify_packed-Returns fs base 0 st s c f sized (omega (arith, size_eq g))
      classify-Returns (struct_type fs false i) base st l c h sized le =
          let (acc, f, g) = bind-eq-some (struct_layout k.layout_at e fs (layout 0 1)) _ h in
          classify_struct-Returns fs base (layout 0 1) st acc c f sized
            (omega (arith, size_eq g, pad-le acc (struct_align fs f)))
      classify-Returns (union_type m n' fs) base st l c h sized le =
          let (acc, f, g) = bind-eq-some (union_layout k.layout_at e fs (layout 0 1)) _ h in
          classify_union-Returns fs base (layout 0 1) st acc c f sized
            (omega (arith, size_eq g, pad-le acc (union_align fs f)))
      classify-Returns (defined m n' u g as') base st l c h sized le =
          classify-Returns u base st l c h sized le
      classify-Returns (alias_ref m n' r) base st l c h sized le = absurd c
      classify-Returns _ base st l c h sized le = absurd c

      classify_packed-Returns :
          (fs : Fields) (base offset : ℕ) (st : Classes) (s : ℕ)
          → AreCFields fs
          → packed_size k.layout_at e fs offset ≡ some s
          → Sized n st
          → base + s ≤ 8 * n
          → Returns (Sized n) (classify_struct k e fs true base offset st)
      classify_packed-Returns field_nil base offset st s c h sized le = sized
      classify_packed-Returns (field_cons m t fs) base offset st s c h sized le =
          let (l, f, rest) = bind-eq-some (layout_of k.layout_at e t) _ h in
          rw f (
            Returns-bind (Sized n) (Sized n) (classify k e t (base + offset) st) _
              (classify-Returns t (base + offset) st l c.0 f sized
                (omega (arith, packed_size-le fs (offset + l.size) rest)))
              λ st' q sized'.
                classify_packed-Returns fs base (offset + l.size) st' s c.1 rest sized' le)

      classify_struct-Returns :
          (fs : Fields) (base : ℕ) (acc : Layout) (st : Classes) (acc' : Layout)
          → AreCFields fs
          → struct_layout k.layout_at e fs acc ≡ some acc'
          → Sized n st
          → base + acc'.size ≤ 8 * n
          → Returns (Sized n) (classify_struct k e fs false base acc.size st)
      classify_struct-Returns field_nil base acc st acc' c h sized le = sized
      classify_struct-Returns (field_cons m t fs) base acc st acc' c h sized le =
          let (l, f, rest) = bind-eq-some (layout_of k.layout_at e t) _ h in
          rw f (
            Returns-bind (Sized n) (Sized n) (classify k e t (base + align_to acc.size l.align) st)
              _
              (classify-Returns t (base + align_to acc.size l.align) st l c.0 f sized
                (omega (arith, struct_layout-le fs (place acc l) rest)))
              λ st' q sized'.
                classify_struct-Returns fs base (place acc l) st' acc' c.1 rest sized' le)

      classify_union-Returns :
          (fs : Fields) (base : ℕ) (acc : Layout) (st : Classes) (acc' : Layout)
          → AreCFields fs
          → union_layout k.layout_at e fs acc ≡ some acc'
          → Sized n st
          → base + acc'.size ≤ 8 * n
          → Returns (Sized n) (classify_union k e fs base st)
      classify_union-Returns field_nil base acc st acc' c h sized le = sized
      classify_union-Returns (field_cons m t fs) base acc st acc' c h sized le =
          let (l, f, rest) = bind-eq-some (layout_of k.layout_at e t) _ h in
          Returns-bind (Sized n) (Sized n) (classify k e t base st) _
            (classify-Returns t base st l c.0 f sized
              (omega (arith, overlay-le acc l, union_layout-le fs (overlay acc l) rest)))
            λ st' q sized'.
              classify_union-Returns fs base (overlay acc l) st' acc' c.1 rest sized' le
