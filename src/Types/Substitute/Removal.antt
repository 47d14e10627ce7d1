-- ===== src/Types/Substitute/Removal.antt =====
-- types/type.go: what the replacements remove from a type.
use qk.Prelude.{
  ℕ, String, some, Bool, false, ◌||◌, ◌≡◌, refl, arith, List, [], ◌∷◌, ◌++◌, ◌↔◌, inl, inr,
  Option-cases,
}
use qk.Types.Syntax.{
  Ty, OptTy, Tys, Fields, self_type, type_parameter, defined, struct_type, union_type, pointer,
  slice, array, function, multiple_return, ty_nil, ty_cons, field_nil, field_cons,
}
use qk.Types.Substitute.{
  Bindings, bound, substitute, substitute_types, substitute_fields, substitute_self,
  substitute_self_types, substitute_self_fields,
}
use qk.Types.Contains.{
  has_self_type, has_self_type_types, has_self_type_fields, has_type_parameter,
  has_type_parameter_types, has_type_parameter_fields,
}

or-false : (a b : Bool) → a ≡ false → b ≡ false → (a || b) ≡ false
or-false a b h k = ground arith

both_false : (a b : Bool) → (a || b) ≡ false → (a ≡ false) × (b ≡ false)
both_false a b h = ground arith

mutual
  unfolding has_self_type substitute_self

  self_removed :
      (self' : Ty) (h : has_self_type self' ≡ false) (t : Ty)
      → has_self_type (substitute_self self' t) ≡ false
  self_removed self' h self_type = h
  self_removed self' h (defined m n u g as') = self_removed_types self' h as'
  self_removed self' h (pointer t m) = self_removed self' h t
  self_removed self' h (slice t m) = self_removed self' h t
  self_removed self' h (array t m) = self_removed self' h t
  self_removed self' h (struct_type fs p i) = self_removed_fields self' h fs
  self_removed self' h (union_type m n fs) = self_removed_fields self' h fs
  self_removed self' h (function ps r v c) =
      or-false _ _ (self_removed_types self' h ps) (self_removed self' h r)
  self_removed self' h (multiple_return ts) = self_removed_types self' h ts
  self_removed self' h _ = refl

  self_removed_types :
      (self' : Ty) (h : has_self_type self' ≡ false) (ts : Tys)
      → has_self_type_types (substitute_self_types self' ts) ≡ false
  self_removed_types self' h ty_nil = refl
  self_removed_types self' h (ty_cons t ts) =
      or-false _ _ (self_removed self' h t) (self_removed_types self' h ts)

  self_removed_fields :
      (self' : Ty) (h : has_self_type self' ≡ false) (fs : Fields)
      → has_self_type_fields (substitute_self_fields self' fs) ≡ false
  self_removed_fields self' h field_nil = refl
  self_removed_fields self' h (field_cons l t fs) =
      or-false _ _ (self_removed self' h t) (self_removed_fields self' h fs)

-- HasSelfType is false after SubstituteSelf with a type for which it is false.
pub has_self_type-substitute_self :
    (self' t : Ty) → has_self_type self' ≡ false → has_self_type (substitute_self self' t) ≡ false
has_self_type-substitute_self self' t h = self_removed self' h t

-- The owner and the index of each parameter that HasTypeParameter sees, from left to right.
unfoldable mutual
  pub visible_parameters : Ty → List (String × ℕ)
  visible_parameters (type_parameter o n i c) = (o, i) ∷ []
  visible_parameters (defined m n u g as') = visible_parameters_types as'
  visible_parameters (pointer t m) = visible_parameters t
  visible_parameters (slice t m) = visible_parameters t
  visible_parameters (array t n) = visible_parameters t
  visible_parameters (struct_type fs p i) = visible_parameters_fields fs
  visible_parameters (union_type m n fs) = visible_parameters_fields fs
  visible_parameters (function ps r v c) = visible_parameters_types ps ++ visible_parameters r
  visible_parameters (multiple_return ts) = visible_parameters_types ts
  visible_parameters _ = []

  pub visible_parameters_types : Tys → List (String × ℕ)
  visible_parameters_types ty_nil = []
  visible_parameters_types (ty_cons t ts) = visible_parameters t ++ visible_parameters_types ts

  pub visible_parameters_fields : Fields → List (String × ℕ)
  visible_parameters_fields field_nil = []
  visible_parameters_fields (field_cons l t fs) =
      visible_parameters t ++ visible_parameters_fields fs

module _ (σ : Bindings) where
  -- The parameter is bound to a type with no parameter.
  abbrev pub IsClosed : String → ℕ → Type 0
  IsClosed o i = (r : Ty) × (σ o i ≡ some r) × (has_type_parameter r ≡ false)

  abbrev pub Closes : List (String × ℕ) → Type 0
  Closes [] = Unit
  Closes ((o, i) ∷ ps) = IsClosed o i × Closes ps

  Closes-append : (ps qs : List (String × ℕ)) → Closes ps → Closes qs → Closes (ps ++ qs)
  Closes-append [] qs h k = k
  Closes-append ((o, i) ∷ ps) qs (c, h) k = (c, Closes-append ps qs h k)

  Closes-split : (ps qs : List (String × ℕ)) → Closes (ps ++ qs) → Closes ps × Closes qs
  Closes-split [] qs h = (tt, h)
  Closes-split ((o, i) ∷ ps) qs (c, h) = let (a, b) = Closes-split ps qs h in ((c, a), b)

  bound-IsClosed :
      (o n : String) (i : ℕ) (c : OptTy)
      → has_type_parameter (substitute σ (type_parameter o n i c)) ≡ false
      → IsClosed o i
  unfolding has_type_parameter substitute bound
  bound-IsClosed o n i c h = elim (Option-cases (σ o i)) [
    | inl e ↦ absurd (ground (arith, e))
    | inr (r, e) ↦ (r, e, ground (arith, e))
  ]

  bound_removed :
      (o n : String) (i : ℕ) (c : OptTy)
      → IsClosed o i
      → has_type_parameter (substitute σ (type_parameter o n i c)) ≡ false
  unfolding substitute bound
  bound_removed o n i c (r, e, k) = ground (arith, e, k)

  mutual
    unfolding has_type_parameter substitute visible_parameters

    parameters_removed :
        (t : Ty) → Closes (visible_parameters t) → has_type_parameter (substitute σ t) ≡ false
    parameters_removed (type_parameter o n i c) (h, _) = bound_removed o n i c h
    parameters_removed (defined m n u g as') h = parameters_removed_types as' h
    parameters_removed (pointer t m) h = parameters_removed t h
    parameters_removed (slice t m) h = parameters_removed t h
    parameters_removed (array t m) h = parameters_removed t h
    parameters_removed (struct_type fs p i) h = parameters_removed_fields fs h
    parameters_removed (union_type m n fs) h = parameters_removed_fields fs h
    parameters_removed (function ps r v c) h =
        let (a, b) = Closes-split (visible_parameters_types ps) _ h in
        or-false _ _ (parameters_removed_types ps a) (parameters_removed r b)
    parameters_removed (multiple_return ts) h = parameters_removed_types ts h
    parameters_removed _ h = refl

    parameters_removed_types :
        (ts : Tys)
        → Closes (visible_parameters_types ts)
        → has_type_parameter_types (substitute_types σ ts) ≡ false
    parameters_removed_types ty_nil h = refl
    parameters_removed_types (ty_cons t ts) h =
        let (a, b) = Closes-split (visible_parameters t) _ h in
        or-false _ _ (parameters_removed t a) (parameters_removed_types ts b)

    parameters_removed_fields :
        (fs : Fields)
        → Closes (visible_parameters_fields fs)
        → has_type_parameter_fields (substitute_fields σ fs) ≡ false
    parameters_removed_fields field_nil h = refl
    parameters_removed_fields (field_cons l t fs) h =
        let (a, b) = Closes-split (visible_parameters t) _ h in
        or-false _ _ (parameters_removed t a) (parameters_removed_fields fs b)

  mutual
    unfolding has_type_parameter substitute visible_parameters

    parameters_closed :
        (t : Ty) → has_type_parameter (substitute σ t) ≡ false → Closes (visible_parameters t)
    parameters_closed (type_parameter o n i c) h = (bound-IsClosed o n i c h, tt)
    parameters_closed (defined m n u g as') h = parameters_closed_types as' h
    parameters_closed (pointer t m) h = parameters_closed t h
    parameters_closed (slice t m) h = parameters_closed t h
    parameters_closed (array t m) h = parameters_closed t h
    parameters_closed (struct_type fs p i) h = parameters_closed_fields fs h
    parameters_closed (union_type m n fs) h = parameters_closed_fields fs h
    parameters_closed (function ps r v c) h =
        let (a, b) = both_false _ _ h in
        Closes-append _ _ (parameters_closed_types ps a) (parameters_closed r b)
    parameters_closed (multiple_return ts) h = parameters_closed_types ts h
    parameters_closed _ h = tt

    parameters_closed_types :
        (ts : Tys)
        → has_type_parameter_types (substitute_types σ ts) ≡ false
        → Closes (visible_parameters_types ts)
    parameters_closed_types ty_nil h = tt
    parameters_closed_types (ty_cons t ts) h =
        let (a, b) = both_false _ _ h in
        Closes-append _ _ (parameters_closed t a) (parameters_closed_types ts b)

    parameters_closed_fields :
        (fs : Fields)
        → has_type_parameter_fields (substitute_fields σ fs) ≡ false
        → Closes (visible_parameters_fields fs)
    parameters_closed_fields field_nil h = tt
    parameters_closed_fields (field_cons l t fs) h =
        let (a, b) = both_false _ _ h in
        Closes-append _ _ (parameters_closed t a) (parameters_closed_fields fs b)

  -- HasTypeParameter is false after Substitute exactly where each parameter that it sees in the
  -- type is bound to a type for which it is false.
  pub has_type_parameter-substitute :
      (t : Ty) → (has_type_parameter (substitute σ t) ≡ false) ↔ Closes (visible_parameters t)
  has_type_parameter-substitute t = (parameters_closed t, parameters_removed t)
