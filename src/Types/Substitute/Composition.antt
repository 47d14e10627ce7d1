-- ===== src/Types/Substitute/Composition.antt =====
-- types/type.go: two uses of `Substitute` in a row are one.
use qk.Prelude.{ℕ, String, none, some, ◌≡◌, refl, inl, inr, arith, Option-cases}
use qk.Types.Syntax.{
  Ty, OptTy, Tys, Fields, TaggedInfo, Variants, Trait, Methods, Params, type_parameter, defined,
  struct_type, union_type, pointer, slice, array, function, multiple_return, trait_type,
  trait_pointer, absent, present, ty_nil, ty_cons, field_nil, field_cons, untagged, tagged,
  variant_nil, variant_cons, trait, method_nil, method_cons, param_nil, param_cons,
}
use qk.Types.Substitute.{
  Bindings, bound, substitute, substitute_opt, substitute_types, substitute_fields, substitute_info,
  substitute_variants, substitute_trait, substitute_methods, substitute_params,
}
use qk.Types.Substitute.Parameters.{
  all_parameters, replace_each, replacement, all_parameters-substitute,
}

-- The replacements of `σ`, with those of `τ` in them and beside them.
unfoldable pub compose : Bindings → Bindings → Bindings
compose σ τ o i = elim (σ o i) [ none ↦ τ o i | some r ↦ some (substitute τ r) ]

no_bindings : Bindings
no_bindings o i = none

substitute-bound :
    (σ τ : Bindings) (o n : String) (i : ℕ) (c : OptTy)
    → substitute τ (substitute σ (type_parameter o n i c))
      ≡ substitute (compose σ τ) (type_parameter o n i c)
unfolding substitute bound compose
substitute-bound σ τ o n i c = elim (Option-cases (σ o i)) [
  | inl e ↦ ground (arith, e)
  | inr (r, e) ↦ ground (arith, e)
]

mutual
  unfolding substitute bound compose

  substitute-substitute :
      (σ τ : Bindings) (t : Ty) → substitute τ (substitute σ t) ≡ substitute (compose σ τ) t
  substitute-substitute σ τ (type_parameter o n i c) = substitute-bound σ τ o n i c
  substitute-substitute σ τ (defined m n u g as') =
      λ z. defined m n (substitute-substitute σ τ u z) g (substitute-substitute_types σ τ as' z)
  substitute-substitute σ τ (pointer t m) = λ z. pointer (substitute-substitute σ τ t z) m
  substitute-substitute σ τ (slice t m) = λ z. slice (substitute-substitute σ τ t z) m
  substitute-substitute σ τ (array t n) = λ z. array (substitute-substitute σ τ t z) n
  substitute-substitute σ τ (struct_type fs p i) = λ z.
      struct_type (substitute-substitute_fields σ τ fs z) p (substitute-substitute_info σ τ i z)
  substitute-substitute σ τ (union_type m n fs) =
      λ z. union_type m n (substitute-substitute_fields σ τ fs z)
  substitute-substitute σ τ (trait_type r) = λ z. trait_type (substitute-substitute_trait σ τ r z)
  substitute-substitute σ τ (trait_pointer r m) =
      λ z. trait_pointer (substitute-substitute_trait σ τ r z) m
  substitute-substitute σ τ (function ps r v c) = λ z.
      function (substitute-substitute_types σ τ ps z) (substitute-substitute σ τ r z) v
        (substitute-substitute_opt σ τ c z)
  substitute-substitute σ τ (multiple_return ts) =
      λ z. multiple_return (substitute-substitute_types σ τ ts z)
  substitute-substitute σ τ _ = refl

  substitute-substitute_opt :
      (σ τ : Bindings) (c : OptTy)
      → substitute_opt τ (substitute_opt σ c) ≡ substitute_opt (compose σ τ) c
  substitute-substitute_opt σ τ (present t) = λ z. present (substitute-substitute σ τ t z)
  substitute-substitute_opt σ τ absent = refl

  substitute-substitute_types :
      (σ τ : Bindings) (ts : Tys)
      → substitute_types τ (substitute_types σ ts) ≡ substitute_types (compose σ τ) ts
  substitute-substitute_types σ τ (ty_cons t ts) =
      λ z. ty_cons (substitute-substitute σ τ t z) (substitute-substitute_types σ τ ts z)
  substitute-substitute_types σ τ ty_nil = refl

  substitute-substitute_fields :
      (σ τ : Bindings) (fs : Fields)
      → substitute_fields τ (substitute_fields σ fs) ≡ substitute_fields (compose σ τ) fs
  substitute-substitute_fields σ τ (field_cons l t fs) =
      λ z. field_cons l (substitute-substitute σ τ t z) (substitute-substitute_fields σ τ fs z)
  substitute-substitute_fields σ τ field_nil = refl

  substitute-substitute_info :
      (σ τ : Bindings) (i : TaggedInfo)
      → substitute_info τ (substitute_info σ i) ≡ substitute_info (compose σ τ) i
  substitute-substitute_info σ τ (tagged t vs auto) =
      λ z. tagged (substitute-substitute σ τ t z) (substitute-substitute_variants σ τ vs z) auto
  substitute-substitute_info σ τ untagged = refl

  substitute-substitute_variants :
      (σ τ : Bindings) (vs : Variants)
      → substitute_variants τ (substitute_variants σ vs) ≡ substitute_variants (compose σ τ) vs
  substitute-substitute_variants σ τ (variant_cons n v fs vs) = λ z.
      variant_cons n v (substitute-substitute_fields σ τ fs z)
        (substitute-substitute_variants σ τ vs z)
  substitute-substitute_variants σ τ variant_nil = refl

  substitute-substitute_trait :
      (σ τ : Bindings) (r : Trait)
      → substitute_trait τ (substitute_trait σ r) ≡ substitute_trait (compose σ τ) r
  substitute-substitute_trait σ τ (trait m n ms any) =
      λ z. trait m n (substitute-substitute_methods σ τ ms z) any

  substitute-substitute_methods :
      (σ τ : Bindings) (ms : Methods)
      → substitute_methods τ (substitute_methods σ ms) ≡ substitute_methods (compose σ τ) ms
  substitute-substitute_methods σ τ (method_cons n gs k ps r d ms) = λ z.
      method_cons n (substitute-substitute_params σ τ gs z) k (substitute-substitute_types σ τ ps z)
        (substitute-substitute σ τ r z) d (substitute-substitute_methods σ τ ms z)
  substitute-substitute_methods σ τ method_nil = refl

  substitute-substitute_params :
      (σ τ : Bindings) (gs : Params)
      → substitute_params τ (substitute_params σ gs) ≡ substitute_params (compose σ τ) gs
  substitute-substitute_params σ τ (param_cons o n i c gs) = λ z.
      param_cons o n i (substitute-substitute_opt σ τ c z) (substitute-substitute_params σ τ gs z)
  substitute-substitute_params σ τ param_nil = refl

mutual
  unfolding substitute bound no_bindings

  substitute-no_bindings : (t : Ty) → substitute no_bindings t ≡ t
  substitute-no_bindings (type_parameter o n i c) = refl
  substitute-no_bindings (defined m n u g as') =
      λ z. defined m n (substitute-no_bindings u z) g (substitute-no_bindings_types as' z)
  substitute-no_bindings (pointer t m) = λ z. pointer (substitute-no_bindings t z) m
  substitute-no_bindings (slice t m) = λ z. slice (substitute-no_bindings t z) m
  substitute-no_bindings (array t n) = λ z. array (substitute-no_bindings t z) n
  substitute-no_bindings (struct_type fs p i) =
      λ z. struct_type (substitute-no_bindings_fields fs z) p (substitute-no_bindings_info i z)
  substitute-no_bindings (union_type m n fs) =
      λ z. union_type m n (substitute-no_bindings_fields fs z)
  substitute-no_bindings (trait_type r) = λ z. trait_type (substitute-no_bindings_trait r z)
  substitute-no_bindings (trait_pointer r m) =
      λ z. trait_pointer (substitute-no_bindings_trait r z) m
  substitute-no_bindings (function ps r v c) = λ z.
      function (substitute-no_bindings_types ps z) (substitute-no_bindings r z) v
        (substitute-no_bindings_opt c z)
  substitute-no_bindings (multiple_return ts) =
      λ z. multiple_return (substitute-no_bindings_types ts z)
  substitute-no_bindings _ = refl

  substitute-no_bindings_opt : (c : OptTy) → substitute_opt no_bindings c ≡ c
  substitute-no_bindings_opt (present t) = λ z. present (substitute-no_bindings t z)
  substitute-no_bindings_opt absent = refl

  substitute-no_bindings_types : (ts : Tys) → substitute_types no_bindings ts ≡ ts
  substitute-no_bindings_types (ty_cons t ts) =
      λ z. ty_cons (substitute-no_bindings t z) (substitute-no_bindings_types ts z)
  substitute-no_bindings_types ty_nil = refl

  substitute-no_bindings_fields : (fs : Fields) → substitute_fields no_bindings fs ≡ fs
  substitute-no_bindings_fields (field_cons l t fs) =
      λ z. field_cons l (substitute-no_bindings t z) (substitute-no_bindings_fields fs z)
  substitute-no_bindings_fields field_nil = refl

  substitute-no_bindings_info : (i : TaggedInfo) → substitute_info no_bindings i ≡ i
  substitute-no_bindings_info (tagged t vs auto) =
      λ z. tagged (substitute-no_bindings t z) (substitute-no_bindings_variants vs z) auto
  substitute-no_bindings_info untagged = refl

  substitute-no_bindings_variants : (vs : Variants) → substitute_variants no_bindings vs ≡ vs
  substitute-no_bindings_variants (variant_cons n v fs vs) = λ z.
      variant_cons n v (substitute-no_bindings_fields fs z) (substitute-no_bindings_variants vs z)
  substitute-no_bindings_variants variant_nil = refl

  substitute-no_bindings_trait : (r : Trait) → substitute_trait no_bindings r ≡ r
  substitute-no_bindings_trait (trait m n ms any) =
      λ z. trait m n (substitute-no_bindings_methods ms z) any

  substitute-no_bindings_methods : (ms : Methods) → substitute_methods no_bindings ms ≡ ms
  substitute-no_bindings_methods (method_cons n gs k ps r d ms) = λ z.
      method_cons n (substitute-no_bindings_params gs z) k (substitute-no_bindings_types ps z)
        (substitute-no_bindings r z) d (substitute-no_bindings_methods ms z)
  substitute-no_bindings_methods method_nil = refl

  substitute-no_bindings_params : (gs : Params) → substitute_params no_bindings gs ≡ gs
  substitute-no_bindings_params (param_cons o n i c gs) =
      λ z. param_cons o n i (substitute-no_bindings_opt c z) (substitute-no_bindings_params gs z)
  substitute-no_bindings_params param_nil = refl

-- The parameters of a type after Substitute, at all places that it goes to, are those before, in
-- their order, with each bound one replaced by the parameters of its replacement; substituting
-- twice is substituting once with the composed bindings, and substituting with no binding returns
-- the type.
pub substitute_lem :
    (σ τ : Bindings) (t : Ty)
    → (all_parameters (substitute σ t) ≡ replace_each (replacement σ) (all_parameters t))
      × (substitute τ (substitute σ t) ≡ substitute (compose σ τ) t)
      × (substitute (λ o i. none) t ≡ t)
unfolding no_bindings
substitute_lem σ τ t =
    (all_parameters-substitute σ t, substitute-substitute σ τ t, substitute-no_bindings t)
