-- ===== src/Abi/Aarch64/Floats.antt =====
-- codegen/llvm/abi_aarch64.go: the size of an aggregate of f64, which homogeneousFloatAggregate counts.
use native.Mathlib.Nat.{mul-suc}
use qk.Prelude.{
  Holds, Holds-of_eq, some_inj, bind-eq-some, ℕ, zero, suc, ◌+◌, ◌*◌, ◌≤◌, true, false, String,
  Option, none, some, ◌≡◌, ◌⊎◌, inl, inr, ap, ◌∙◌, arith, Option-cases, Bool-cases, if◌then◌else◌,
  ◌==◌,
}
use qk.Types.Primitive.{Primitive, f32, f64, prim_eq, prim_eq→eq}
use qk.Types.Syntax.{
  Ty, Fields, Cells, primitive, defined, alias_ref, struct_type, array, field_nil, field_cons,
}
use qk.Types.Underlying.{target}
use qk.Abi.Align.{IsAlign, align_to-RoundsUp}
use qk.Abi.Layout.{
  Machine, Layout, layout, AliasLayout, primitive_layout, place, pad, layout_of, packed_size,
  struct_layout, alias_layout,
}
use qk.Abi.Layout.Bounds.{
  IsMachine, IsLayout, layout_of-IsLayout, alias_layout-IsLayout, struct_layout-IsAlign,
}
use qk.Abi.Aarch64.{
  Run, visit_float, visit_primitive, repeat, visit, visit_fields, visit_alias,
  homogeneous_float_aggregate,
}

-- No float but f64 was met.
abbrev pub IsDouble : Run → Type 0
IsDouble r = (r.element ≡ none) ⊎ (r.element ≡ some f64)

-- Where a visit in a type of this size has met f64 only, so it had before, and the new ones fit.
abbrev pub Fits : ℕ → Run → Run → Type 0
Fits s r r' = IsDouble r' → IsDouble r × (r'.count * 8 ≤ r.count * 8 + s)

Fits-then : (s t u : ℕ) (r r' r'' : Run) → s + t ≤ u → Fits s r r' → Fits t r' r'' → Fits u r r''
Fits-then s t u r r' r'' l h k d = let (d', b) = k d in let (d'', a) = h d' in (d'', omega arith)

visit_float-element :
    (p : Primitive) (r r' : Run)
    → visit_float p r ≡ some r'
    → (r'.element ≡ some p) × (r'.count ≡ r.count + 1) × ((r.element ≡ none) ⊎ (r.element ≡ some p))
unfolding visit_float
visit_float-element p r r' h = elim (Option-cases r.element) [
  | inl e ↦ ground (arith, e, h)
  | inr (q, e) ↦ elim (Bool-cases (prim_eq q p)) [
    | inl b ↦ let same = prim_eq→eq q p b in ground (arith, e, h, same)
    | inr b ↦ ground (arith, e, h)
  ]
]

visit_primitive-Fits :
    (e : Machine) (p : Primitive) (r r' : Run) (l : Layout)
    → visit_primitive p r ≡ some r'
    → primitive_layout e p ≡ some l
    → Fits l.size r r'
unfolding visit_primitive primitive_layout
visit_primitive-Fits e f64 r r' l h k d =
    let (a, b, c) = visit_float-element f64 r r' h in (c, ground arith)
visit_primitive-Fits e f32 r r' l h k d =
    let (a, b, c) = visit_float-element f32 r r' h in
    elim d [ inl n ↦ absurd (cc) | inr n ↦ absurd (cc) ]
visit_primitive-Fits e _ r r' l h k d = absurd (cc)

-- The fits of a number of visits in a row.
repeat-Fits :
    (s n : ℕ) (body : Run → Option Run) (r r' : Run)
    → ((q q' : Run) → body q ≡ some q' → Fits s q q')
    → repeat n body r ≡ some r'
    → Fits (s * n) r r'
unfolding repeat
repeat-Fits s zero body r r' f h = let same : r ≡ r' = some_inj h in rw same (λ d. (d, omega arith))
repeat-Fits s (suc n) body r r' f h =
    let (q, a, b) = bind-eq-some (body r) (repeat n body) h in
    Fits-then s (s * n) (s * suc n) r q r' (rw mul-suc (omega arith)) (f r q a)
      (repeat-Fits s n body q r' f b)

pad-size : (acc : Layout) → IsAlign acc.align → acc.size ≤ (pad acc).size
unfolding pad
pad-size acc h = (align_to-RoundsUp acc.size acc.align h).above

place-size : (acc l : Layout) → IsAlign l.align → acc.size + l.size ≤ (place acc l).size
unfolding place
place-size acc l h = let a = (align_to-RoundsUp acc.size l.align h).above in omega arith

module _ (e : Machine) (ok : IsMachine e) (al : AliasLayout)
    (al_visit : String → String → Option ℕ → Run → Option Run)
    (al_ok : (m n : String) (c : Option ℕ) → Holds IsLayout (al m n c))
    (al_fits : (m n : String) (c : Option ℕ) (r r' : Run) (l : Layout)
      → al_visit m n c r ≡ some r'
      → al m n c ≡ some l
      → Fits l.size r r') where
  align_of : (t : Ty) (l : Layout) → layout_of al e t ≡ some l → IsAlign l.align
  align_of t l h =
      (Holds-of_eq IsLayout (layout_of al e t) (layout_of-IsLayout e ok al al_ok t) h).is_align

  mutual
    unfolding visit layout_of

    pub visit-Fits :
        (t : Ty) (r r' : Run) (l : Layout)
        → visit al_visit t r ≡ some r'
        → layout_of al e t ≡ some l
        → Fits l.size r r'
    visit-Fits (primitive p) r r' l h k = visit_primitive-Fits e p r r' l h k
    visit-Fits (defined m n u g as') r r' l h k = visit-Fits u r r' l h k
    visit-Fits (alias_ref m n c) r r' l h k = al_fits m n c r r' l h k
    visit-Fits (array t n) r r' l h k =
        let (l', a, b) =
          bind-eq-some (layout_of al e t) (λ q. some (layout (q.size * n) q.align)) k in
        rw (← some_inj b)
          (repeat-Fits l'.size n (visit al_visit t) r r' (λ q q' v. visit-Fits t q q' l' v a) h)
    visit-Fits (struct_type fs true i) r r' l h k =
        let (s, a, b) = bind-eq-some (packed_size al e fs 0) (λ q. some (layout q 1)) k in
        rw (← some_inj b) (λ d. let (d', c) = packed-Fits fs r r' 0 s h a d in (d', omega arith))
    visit-Fits (struct_type fs false i) r r' l h k =
        let (acc, a, b) = bind-eq-some (struct_layout al e fs (layout 0 1)) (λ q. some (pad q)) k in
        let aligned =
          Holds-of_eq _ _ (struct_layout-IsAlign e ok al al_ok fs (layout 0 1) (omega arith)) a in
        rw (← some_inj b) (λ d.
          let (d', c) = struct-Fits fs r r' (layout 0 1) acc h a d in
          (d', let p = pad-size acc aligned in omega arith))
    visit-Fits _ r r' l h k = absurd (cc)

    packed-Fits :
        (fs : Fields) (r r' : Run) (s s' : ℕ)
        → visit_fields al_visit fs r ≡ some r'
        → packed_size al e fs s ≡ some s'
        → IsDouble r'
        → IsDouble r × (r'.count * 8 + s ≤ r.count * 8 + s')
    packed-Fits field_nil r r' s s' h k d = ground (arith, d, h, k)
    packed-Fits (field_cons n t fs) r r' s s' h k d =
        let (q, a, b) = bind-eq-some (visit al_visit t r) (visit_fields al_visit fs) h in
        let (l, u, v) = bind-eq-some (layout_of al e t) (λ x. packed_size al e fs (s + x.size)) k in
        let (d', c) = packed-Fits fs q r' (s + l.size) s' b v d in
        let (d'', c') = visit-Fits t r q l a u d' in (d'', omega arith)

    struct-Fits :
        (fs : Fields) (r r' : Run) (acc acc' : Layout)
        → visit_fields al_visit fs r ≡ some r'
        → struct_layout al e fs acc ≡ some acc'
        → IsDouble r'
        → IsDouble r × (r'.count * 8 + acc.size ≤ r.count * 8 + acc'.size)
    struct-Fits field_nil r r' acc acc' h k d = ground (arith, d, h, k)
    struct-Fits (field_cons n t fs) r r' acc acc' h k d =
        let (q, a, b) = bind-eq-some (visit al_visit t r) (visit_fields al_visit fs) h in
        let (l, u, v) =
          bind-eq-some (layout_of al e t) (λ x. struct_layout al e fs (place acc x)) k in
        let (d', c) = struct-Fits fs q r' (place acc l) acc' b v d in
        let (d'', c') = visit-Fits t r q l a u d' in
        (d'', let p = place-size acc l (align_of t l u) in omega arith)

counted :
    (p q : Primitive) (c n : ℕ)
    → if◌then◌else◌ {A = Option (Primitive × ℕ)} (c == 0) none (some (p, c)) ≡ some (q, n)
    → (p ≡ q) × (c ≡ n)
counted p q c n h = elim (Bool-cases (c == 0)) [
  | inl z ↦ absurd (ground (arith, z, h))
  | inr z ↦
      let e : ◌≡◌ {A = Primitive × ℕ} (p, c) (q, n) = ground (arith, z, h) in
      (ap (λ x. x.0) e, ap (λ x. x.1) e)
]

module _ (e : Machine) (ok : IsMachine e) (cells : Cells) where
  alias-Fits :
      (fuel : ℕ) (m n : String) (c : Option ℕ) (r r' : Run) (l : Layout)
      → visit_alias cells fuel m n c r ≡ some r'
      → alias_layout cells e fuel m n c ≡ some l
      → Fits l.size r r'
  unfolding visit_alias alias_layout
  alias-Fits zero m n c r r' l h k = absurd (cc)
  alias-Fits (suc fuel) m n c r r' l h k = elim (Option-cases (target cells c)) [
    | inl o ↦ absurd (ground (arith, o, h))
    | inr (t, o) ↦
        visit-Fits e ok (alias_layout cells e fuel) (visit_alias cells fuel)
          (alias_layout-IsLayout e ok cells fuel) (alias-Fits fuel) t r r' l (ground (arith, o, h))
          (ground (arith, o, k))
  ]

  -- An aggregate of so many f64 has at least their size.
  pub homogeneous_float_aggregate-size :
      (fuel : ℕ) (t : Ty) (n : ℕ) (l : Layout)
      → homogeneous_float_aggregate cells fuel t ≡ some (f64, n)
      → layout_of (alias_layout cells e fuel) e t ≡ some l
      → n * 8 ≤ l.size
  unfolding homogeneous_float_aggregate
  homogeneous_float_aggregate-size fuel t n l h k =
      let (r, a, b) =
        bind-eq-some (visit (visit_alias cells fuel) t (record { element = none; count = 0 })) _
          h in
      let (p, c, d) =
        bind-eq-some r.element (λ q. if r.count == 0 then none else some (q, r.count)) b in
      let (same, count) = counted p f64 r.count n d in
      let (_, bound) =
        visit-Fits e ok (alias_layout cells e fuel) (visit_alias cells fuel)
          (alias_layout-IsLayout e ok cells fuel) (alias-Fits fuel) t
          (record { element = none; count = 0 }) r l a k (inr (c ∙ ap some same)) in
      omega arith
