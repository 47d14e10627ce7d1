-- ===== src/Abi/SysV/Bounds.antt =====
-- codegen/llvm/abi_sysvamd64.go: the classification of an aggregate stays inside its slices.
use qk.Prelude.{
  ℕ, zero, suc, ◌+◌, ◌-◌, ◌*◌, ◌/◌, ◌≤◌, ◌<◌, Option, some, ◌>>=◌, List, [], ◌∷◌, ◌++◌, get_elem?,
  get_elem?-in, set?, set?-in, length, Returns, Returns-bind, Returns-of_eq, ◌≡◌, ◌≢◌, refl, ◌∙◌,
  arith,
}
use qk.Types.Primitive.{Primitive, void}
use qk.Types.Syntax.{
  Ty, Fields, primitive, defined, struct_type, union_type, enum_type, flags_type, pointer, slice,
  array, field_nil, field_cons,
}
use qk.Abi.Layout.{Machine, Layout, primitive_layout}
use qk.Abi.SysV.{
  AbiClass, class_none, class_integer, Classes, mark_at, mark_loop, mark_class, add_float, rounds,
}

abbrev HasLength {ℓ} : {A : Type ℓ} → ℕ → List A → Type 0
HasLength n xs = length xs ≡ n

set?-Returns {ℓ} :
    {A : Type ℓ} (n i : ℕ) (v : A) (xs : List A)
    → length xs ≡ n
    → i < n
    → Returns (HasLength n) (set? xs i v)
set?-Returns n i v xs h lt =
    let (ys, f, l) = set?-in xs i v (rw h lt) in Returns-of_eq (HasLength n) (set? xs i v) f (l ∙ h)

overwrite-Returns :
    (n i : ℕ) (c old : AbiClass) (cs : List AbiClass)
    → length cs ≡ n
    → i < n
    → Returns (HasLength n) (elim old [ class_none ↦ set? cs i c | _ ↦ some cs ])
overwrite-Returns n i c class_none cs h lt = set?-Returns n i c cs h lt
overwrite-Returns n i c _ cs h lt = h

read-Returns :
    (n i : ℕ) (c : AbiClass) (cs : List AbiClass)
    → length cs ≡ n
    → i < n
    → Returns
        (HasLength n)
        (get_elem? cs i >>= λ old. elim old [ class_none ↦ set? cs i c | _ ↦ some cs ])
read-Returns n i c cs h lt =
    let (old, e) = get_elem?-in cs i (rw h lt) in rw e (overwrite-Returns n i c old cs h lt)

mark_at-Returns :
    (n i : ℕ) (c : AbiClass) (cs : List AbiClass)
    → length cs ≡ n
    → i < n
    → Returns (HasLength n) (mark_at i c cs)
unfolding mark_at
mark_at-Returns n i class_integer cs h lt = set?-Returns n i class_integer cs h lt
mark_at-Returns n i c cs h lt = read-Returns n i c cs h lt

mark_loop-Returns :
    (n rounds i : ℕ) (c : AbiClass) (cs : List AbiClass)
    → length cs ≡ n
    → i + rounds ≤ n
    → Returns (HasLength n) (mark_loop rounds i c cs)
unfolding mark_loop
mark_loop-Returns n zero i c cs h le = h
mark_loop-Returns n (suc r) i c cs h le =
    Returns-bind (HasLength n) (HasLength n) (mark_at i c cs) _
      (mark_at-Returns n i c cs h (omega arith))
      λ cs' e h'. mark_loop-Returns n r (i + 1) c cs' h' (omega arith)

-- Both slices have `n` entries.
pub record Sized (n : ℕ) (st : Classes) : Type 0 where
  pub classes_length : length st.classes ≡ n
  pub floats_length : length st.floats ≡ n

pub mark_class-Returns :
    (n offset size : ℕ) (c : AbiClass) (st : Classes)
    → Sized n st
    → 0 < size
    → offset + size ≤ 8 * n
    → Returns (Sized n) (mark_class offset size c st)
unfolding mark_class
mark_class-Returns n offset size c st h pos le =
    Returns-bind (HasLength n) (Sized n)
      (mark_loop ((offset + size - 1) / 8 + 1 - offset / 8) (offset / 8) c st.classes) _
      (mark_loop-Returns n _ (offset / 8) c st.classes h.classes_length (omega arith))
      λ cs e l. record { classes_length = l; floats_length = h.floats_length }

pub add_float-Returns :
    (n base : ℕ) (p : Primitive) (st : Classes)
    → Sized n st
    → base < 8 * n
    → Returns (Sized n) (add_float base p st)
unfolding add_float
add_float-Returns n base p st h lt =
    let (old, e) = get_elem?-in st.floats (base / 8) (omega (arith, h.floats_length)) in
    let (ys, f, l) =
      set?-in st.floats (base / 8) (old ++ p ∷ []) (omega (arith, h.floats_length)) in
    rw (e, f) (record { classes_length = h.classes_length; floats_length = l ∙ h.floats_length })

pub rounds-Returns :
    (P : Classes → Type 0) (total : ℕ) (body : ℕ → Classes → Option Classes)
    → ((i : ℕ) (s : Classes) → i < total → P s → Returns P (body i s))
    → (n i : ℕ) (s : Classes) → i + n ≤ total
    → P s
    → Returns P (rounds n i body s)
unfolding rounds
rounds-Returns P total body keep zero i s le h = h
rounds-Returns P total body keep (suc n) i s le h =
    Returns-bind P P (body i s) _ (keep i s (omega arith) h)
      λ s' e h'. rounds-Returns P total body keep n (i + 1) s' (omega arith) h'

-- A type that C has, with no alias reference by value: no void field and no trait pointer.
unfoldable mutual
  pub IsCField : Ty → Type 0
  IsCField (primitive p) = p ≢ void
  IsCField (flags_type p vs ws) = p ≢ void
  IsCField (pointer t m) = Unit
  IsCField (slice t m) = Unit
  IsCField (enum_type m n i vs ws) = Unit
  IsCField (array t n) = IsCField t
  IsCField (struct_type fs p i) = AreCFields fs
  IsCField (union_type m n fs) = AreCFields fs
  IsCField (defined m n u g as') = IsCField u
  IsCField _ = ⊥

  pub AreCFields : Fields → Type 0
  AreCFields field_nil = Unit
  AreCFields (field_cons n t fs) = IsCField t × AreCFields fs

pub primitive_layout-pos :
    (e : Machine) (p : Primitive) {l : Layout}
    → e.pointer_bytes ≡ some 8
    → p ≢ void
    → primitive_layout e p ≡ some l
    → 0 < l.size
unfolding primitive_layout
primitive_layout-pos e void h nv eq = absurd (nv refl)
primitive_layout-pos e _ h nv eq = ground arith
