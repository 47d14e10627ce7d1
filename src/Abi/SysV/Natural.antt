-- ===== src/Abi/SysV/Natural.antt =====
-- codegen/llvm/abi_sysvamd64.go: without packed structs no field is unaligned, so the size alone
-- decides whether an aggregate goes through memory.
use mathlib.Core.Path.{subst}
use qk.Prelude.{
  sym, ℕ, ◌+◌, ◌%◌, ◌≤◌, true, false, Bool, String, Option, none, some, ◌>>=◌, if◌then◌else◌, ltb,
  Holds, Holds-of_eq, bind-eq-some, ◌≡◌, refl, ap, arith, not, ◌==◌,
}
use qk.Types.Syntax.{Ty, Fields, defined, alias_ref, struct_type, union_type, field_nil, field_cons}
use qk.Abi.Align.{align_to, IsAlign, align_to-RoundsUp}
use qk.Abi.Layout.{Machine, Layout, layout, place, overlay, layout_of, struct_layout, union_layout}
use qk.Abi.Layout.Bounds.{
  IsMachine, IsLayout, layout_of-IsLayout, struct_layout-IsAlign, union_layout-IsAlign,
  place-IsAlign, overlay-IsAlign, multiple-add, multiple-zero,
}
use qk.Abi.SysV.{
  Names, has_unaligned_field, unaligned_struct, unaligned_union, in_memory, sysv_requires_sret,
}

-- No packed struct, and no alias reference, stands where `hasUnalignedAggregateField` looks.
unfoldable mutual
  pub IsNatural : Ty → Type 0
  IsNatural (struct_type fs true i) = ⊥
  IsNatural (struct_type fs false i) = AreNatural fs
  IsNatural (union_type m n fs) = AreNatural fs
  IsNatural (defined m n u g as') = IsNatural u
  IsNatural (alias_ref m n r) = ⊥
  IsNatural _ = Unit

  pub AreNatural : Fields → Type 0
  AreNatural field_nil = Unit
  AreNatural (field_cons n t fs) = IsNatural t × AreNatural fs

divides-IsAlign : (a b base : ℕ) → IsAlign a → IsAlign b → a ≤ b → base % b ≡ 0 → base % a ≡ 0
divides-IsAlign a b base h k le m = ground arith

-- The alignment of the fields before grows to that of the whole.
place-align-le :
    (acc l : Layout) → (acc.align ≤ (place acc l).align) × (l.align ≤ (place acc l).align)
unfolding place
place-align-le acc l = omega arith

overlay-align-le :
    (acc l : Layout) → (acc.align ≤ (overlay acc l).align) × (l.align ≤ (overlay acc l).align)
unfolding overlay
overlay-align-le acc l = omega arith

align_eq : {a l : Layout} → some a ≡ some l → a.align ≡ l.align
align_eq e = ap (λ o. elim o [ none ↦ 0 | some x ↦ x.align ]) e

decided : (b : Bool) → (if b then some true else some false) ≡ some b
decided true = refl
decided false = refl

-- One round of either loop, where the field is aligned and holds no unaligned field.
round-aligned :
    (m a : ℕ) (inner rest : Option Bool)
    → m % a ≡ 0
    → inner ≡ some false
    → rest ≡ some false
    → ((if not (m % a == 0) then some true else inner) >>= λ b. if b then some true else rest)
      ≡ some false
round-aligned m a inner rest h i r = ground arith

module _ (k : Names) (e : Machine) (ok : IsMachine e)
    (al_ok : (m n : String) (r : Option ℕ) → Holds IsLayout (k.layout_at m n r)) where
  field_IsAlign : (t : Ty) {l : Layout} → layout_of k.layout_at e t ≡ some l → IsAlign l.align
  field_IsAlign t h =
      (Holds-of_eq IsLayout (layout_of k.layout_at e t)
        (layout_of-IsLayout e ok k.layout_at al_ok t) h).is_align

  struct_align-le :
      (fs : Fields) (acc : Layout) {acc' : Layout}
      → struct_layout k.layout_at e fs acc ≡ some acc'
      → acc.align ≤ acc'.align
  unfolding layout_of
  struct_align-le field_nil acc h = ground arith
  struct_align-le (field_cons n t fs) acc h =
      let (l, f, rest) = bind-eq-some (layout_of k.layout_at e t) _ h in
      omega (arith, place-align-le acc l, struct_align-le fs (place acc l) rest)

  union_align-le :
      (fs : Fields) (acc : Layout) {acc' : Layout}
      → union_layout k.layout_at e fs acc ≡ some acc'
      → acc.align ≤ acc'.align
  unfolding layout_of
  union_align-le field_nil acc h = ground arith
  union_align-le (field_cons n t fs) acc h =
      let (l, f, rest) = bind-eq-some (layout_of k.layout_at e t) _ h in
      omega (arith, overlay-align-le acc l, union_align-le fs (overlay acc l) rest)

  struct_IsAlign :
      (fs : Fields) (acc : Layout) {acc' : Layout}
      → IsAlign acc.align
      → struct_layout k.layout_at e fs acc ≡ some acc'
      → IsAlign acc'.align
  struct_IsAlign fs acc h g =
      Holds-of_eq (λ l. IsAlign l.align) (struct_layout k.layout_at e fs acc)
        (struct_layout-IsAlign e ok k.layout_at al_ok fs acc h) g

  union_IsAlign :
      (fs : Fields) (acc : Layout) {acc' : Layout}
      → IsAlign acc.align
      → union_layout k.layout_at e fs acc ≡ some acc'
      → IsAlign acc'.align
  union_IsAlign fs acc h g =
      Holds-of_eq (λ l. IsAlign l.align) (union_layout k.layout_at e fs acc)
        (union_layout-IsAlign e ok k.layout_at al_ok fs acc h) g

  -- A field at the next multiple of its alignment is aligned, if the struct is.
  field-aligned :
      (base offset a b : ℕ)
      → IsAlign a
      → IsAlign b
      → a ≤ b
      → base % b ≡ 0
      → (base + align_to offset a) % a ≡ 0
  field-aligned base offset a b h k' le m =
      multiple-add a base (align_to offset a) h (divides-IsAlign a b base h k' le m)
        (align_to-RoundsUp offset a h).multiple

  mutual
    unfolding has_unaligned_field layout_of IsNatural

    aligned_type :
        (t : Ty) (base : ℕ) (l : Layout)
        → IsNatural t
        → layout_of k.layout_at e t ≡ some l
        → base % l.align ≡ 0
        → has_unaligned_field k e t base ≡ some false
    aligned_type (struct_type fs true i) base l nat h m = absurd nat
    aligned_type (struct_type fs false i) base l nat h m =
        let (acc, f, g) = bind-eq-some (struct_layout k.layout_at e fs (layout 0 1)) _ h in
        aligned_struct fs base (layout 0 1) acc (omega arith) nat f
          (subst (λ a. base % a ≡ 0) (sym (align_eq g)) m)
    aligned_type (union_type m' n fs) base l nat h m =
        let (acc, f, g) = bind-eq-some (union_layout k.layout_at e fs (layout 0 1)) _ h in
        aligned_union fs base (layout 0 1) acc (omega arith) nat f
          (subst (λ a. base % a ≡ 0) (sym (align_eq g)) m)
    aligned_type (defined m' n u g as') base l nat h m = aligned_type u base l nat h m
    aligned_type (alias_ref m' n r) base l nat h m = absurd nat
    aligned_type _ base l nat h m = refl

    aligned_struct :
        (fs : Fields) (base : ℕ) (acc acc' : Layout)
        → IsAlign acc.align
        → AreNatural fs
        → struct_layout k.layout_at e fs acc ≡ some acc'
        → base % acc'.align ≡ 0
        → unaligned_struct k e fs false base acc.size ≡ some false
    aligned_struct field_nil base acc acc' ia nat h m = refl
    aligned_struct (field_cons n t fs) base acc acc' ia nat h m =
        let (l, f, rest) = bind-eq-some (layout_of k.layout_at e t) _ h in
        let il = field_IsAlign t f in
        let ip = place-IsAlign acc l ia il in
        let le : l.align ≤ acc'.align =
          omega (arith, place-align-le acc l, struct_align-le fs (place acc l) rest) in
        let here =
          field-aligned base acc.size l.align acc'.align il
            (struct_IsAlign fs (place acc l) ip rest) le m in
        rw f (
          round-aligned (base + align_to acc.size l.align) l.align _ _ here
            (aligned_type t (base + align_to acc.size l.align) l nat.0 f here)
            (aligned_struct fs base (place acc l) acc' ip nat.1 rest m))

    aligned_union :
        (fs : Fields) (base : ℕ) (acc acc' : Layout)
        → IsAlign acc.align
        → AreNatural fs
        → union_layout k.layout_at e fs acc ≡ some acc'
        → base % acc'.align ≡ 0
        → unaligned_union k e fs base ≡ some false
    aligned_union field_nil base acc acc' ia nat h m = refl
    aligned_union (field_cons n t fs) base acc acc' ia nat h m =
        let (l, f, rest) = bind-eq-some (layout_of k.layout_at e t) _ h in
        let il = field_IsAlign t f in
        let ip = overlay-IsAlign acc l ia il in
        let le : l.align ≤ acc'.align =
          omega (arith, overlay-align-le acc l, union_align-le fs (overlay acc l) rest) in
        let here =
          divides-IsAlign l.align acc'.align base il (union_IsAlign fs (overlay acc l) ip rest) le
            m in
        rw f (
          round-aligned base l.align _ _ here (aligned_type t base l nat.0 f here)
            (aligned_union fs base (overlay acc l) acc' ip nat.1 rest m))

  -- For a type of known layout with no packed struct and no alias reference where
  -- hasUnalignedAggregateField looks, requiresSRet answers exactly whether the type has more than
  -- 16 bytes.
  pub sysv_requires_sret-natural :
      (t : Ty) {l : Layout}
      → IsNatural t
      → layout_of k.layout_at e t ≡ some l
      → sysv_requires_sret k e t ≡ some (ltb 16 l.size)
  unfolding sysv_requires_sret in_memory
  sysv_requires_sret-natural t {l} nat h =
      let fine = aligned_type t 0 l nat h (multiple-zero l.align (field_IsAlign t h)) in
      rw (h, fine) (decided (ltb 16 l.size))
