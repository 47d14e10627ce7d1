-- ===== src/Types/Substitute/Detached.antt =====
-- types/type.go: detaching a type is idempotent and changes nothing for the replacement of parameters.
use qk.Prelude.{◌≡◌, refl, ap}
use qk.Types.Syntax.{
  Ty, OptTy, Tys, Fields, TaggedInfo, Variants, Trait, Methods, Params, type_parameter, defined,
  struct_type, union_type, pointer, slice, array, sequence, function, multiple_return, trait_type,
  trait_pointer, absent, present, ty_nil, ty_cons, field_nil, field_cons, untagged, tagged,
  variant_nil, variant_cons, trait, method_nil, method_cons, param_nil, param_cons,
}
use qk.Types.Substitute.{
  Bindings, bound, detach, detach_opt, detach_types, detach_fields, detach_info, detach_variants,
  detach_trait, detach_methods, detach_params, substitute_parameters, substitute_parameters_opt,
  substitute_parameters_types, substitute_parameters_fields, substitute_parameters_info,
  substitute_parameters_variants, substitute_parameters_trait, substitute_parameters_methods,
}

mutual
  unfolding detach

  detach-detach : (t : Ty) → detach (detach t) ≡ detach t
  detach-detach (type_parameter o n i c) = λ z. type_parameter o n i (detach-detach_opt c z)
  detach-detach (defined m n u g as') =
      λ z. defined m n (detach-detach u z) g (detach-detach_types as' z)
  detach-detach (pointer t m) = λ z. pointer (detach-detach t z) m
  detach-detach (slice t m) = λ z. slice (detach-detach t z) m
  detach-detach (array t n) = λ z. array (detach-detach t z) n
  detach-detach (sequence t n) = λ z. sequence (detach-detach t z) n
  detach-detach (struct_type fs p i) =
      λ z. struct_type (detach-detach_fields fs z) p (detach-detach_info i z)
  detach-detach (union_type m n fs) = λ z. union_type m n (detach-detach_fields fs z)
  detach-detach (trait_type r) = λ z. trait_type (detach-detach_trait r z)
  detach-detach (trait_pointer r m) = λ z. trait_pointer (detach-detach_trait r z) m
  detach-detach (function ps r v c) =
      λ z. function (detach-detach_types ps z) (detach-detach r z) v (detach-detach_opt c z)
  detach-detach (multiple_return ts) = λ z. multiple_return (detach-detach_types ts z)
  detach-detach _ = refl

  detach-detach_opt : (c : OptTy) → detach_opt (detach_opt c) ≡ detach_opt c
  detach-detach_opt (present t) = λ z. present (detach-detach t z)
  detach-detach_opt absent = refl

  detach-detach_types : (ts : Tys) → detach_types (detach_types ts) ≡ detach_types ts
  detach-detach_types (ty_cons t ts) = λ z. ty_cons (detach-detach t z) (detach-detach_types ts z)
  detach-detach_types ty_nil = refl

  detach-detach_fields : (fs : Fields) → detach_fields (detach_fields fs) ≡ detach_fields fs
  detach-detach_fields (field_cons l t fs) =
      λ z. field_cons l (detach-detach t z) (detach-detach_fields fs z)
  detach-detach_fields field_nil = refl

  detach-detach_info : (i : TaggedInfo) → detach_info (detach_info i) ≡ detach_info i
  detach-detach_info (tagged t vs auto) =
      λ z. tagged (detach-detach t z) (detach-detach_variants vs z) auto
  detach-detach_info untagged = refl

  detach-detach_variants :
      (vs : Variants) → detach_variants (detach_variants vs) ≡ detach_variants vs
  detach-detach_variants (variant_cons n v fs vs) =
      λ z. variant_cons n v (detach-detach_fields fs z) (detach-detach_variants vs z)
  detach-detach_variants variant_nil = refl

  detach-detach_trait : (r : Trait) → detach_trait (detach_trait r) ≡ detach_trait r
  detach-detach_trait (trait m n ms any) = λ z. trait m n (detach-detach_methods ms z) any

  detach-detach_methods : (ms : Methods) → detach_methods (detach_methods ms) ≡ detach_methods ms
  detach-detach_methods (method_cons n gs k ps r d ms) = λ z.
      method_cons n (detach-detach_params gs z) k (detach-detach_types ps z) (detach-detach r z) d
        (detach-detach_methods ms z)
  detach-detach_methods method_nil = refl

  detach-detach_params : (gs : Params) → detach_params (detach_params gs) ≡ detach_params gs
  detach-detach_params (param_cons o n i c gs) =
      λ z. param_cons o n i (detach-detach_opt c z) (detach-detach_params gs z)
  detach-detach_params param_nil = refl

mutual
  unfolding substitute_parameters detach bound

  parameters-detach :
      (σ : Bindings) (t : Ty) → substitute_parameters σ (detach t) ≡ substitute_parameters σ t
  parameters-detach σ (type_parameter o n i c) =
      ap (λ k. bound σ o i (type_parameter o n i k)) (parameters-detach_opt σ c)
  parameters-detach σ (defined m n u g as') =
      λ z. defined m n (parameters-detach σ u z) g (parameters-detach_types σ as' z)
  parameters-detach σ (pointer t m) = λ z. pointer (parameters-detach σ t z) m
  parameters-detach σ (slice t m) = λ z. slice (parameters-detach σ t z) m
  parameters-detach σ (array t n) = λ z. array (parameters-detach σ t z) n
  parameters-detach σ (sequence t n) = λ z. sequence (parameters-detach σ t z) n
  parameters-detach σ (struct_type fs p i) =
      λ z. struct_type (parameters-detach_fields σ fs z) p (parameters-detach_info σ i z)
  parameters-detach σ (union_type m n fs) = λ z. union_type m n (parameters-detach_fields σ fs z)
  parameters-detach σ (trait_type r) = λ z. trait_type (parameters-detach_trait σ r z)
  parameters-detach σ (trait_pointer r m) = λ z. trait_pointer (parameters-detach_trait σ r z) m
  parameters-detach σ (function ps r v c) = λ z.
      function (parameters-detach_types σ ps z) (parameters-detach σ r z) v
        (parameters-detach_opt σ c z)
  parameters-detach σ (multiple_return ts) = λ z. multiple_return (parameters-detach_types σ ts z)
  parameters-detach σ _ = refl

  parameters-detach_opt :
      (σ : Bindings) (c : OptTy)
      → substitute_parameters_opt σ (detach_opt c) ≡ substitute_parameters_opt σ c
  parameters-detach_opt σ (present t) = λ z. present (parameters-detach σ t z)
  parameters-detach_opt σ absent = refl

  parameters-detach_types :
      (σ : Bindings) (ts : Tys)
      → substitute_parameters_types σ (detach_types ts) ≡ substitute_parameters_types σ ts
  parameters-detach_types σ (ty_cons t ts) =
      λ z. ty_cons (parameters-detach σ t z) (parameters-detach_types σ ts z)
  parameters-detach_types σ ty_nil = refl

  parameters-detach_fields :
      (σ : Bindings) (fs : Fields)
      → substitute_parameters_fields σ (detach_fields fs) ≡ substitute_parameters_fields σ fs
  parameters-detach_fields σ (field_cons l t fs) =
      λ z. field_cons l (parameters-detach σ t z) (parameters-detach_fields σ fs z)
  parameters-detach_fields σ field_nil = refl

  parameters-detach_info :
      (σ : Bindings) (i : TaggedInfo)
      → substitute_parameters_info σ (detach_info i) ≡ substitute_parameters_info σ i
  parameters-detach_info σ (tagged t vs auto) =
      λ z. tagged (parameters-detach σ t z) (parameters-detach_variants σ vs z) auto
  parameters-detach_info σ untagged = refl

  parameters-detach_variants :
      (σ : Bindings) (vs : Variants)
      → substitute_parameters_variants σ (detach_variants vs) ≡ substitute_parameters_variants σ vs
  parameters-detach_variants σ (variant_cons n v fs vs) =
      λ z. variant_cons n v (parameters-detach_fields σ fs z) (parameters-detach_variants σ vs z)
  parameters-detach_variants σ variant_nil = refl

  parameters-detach_trait :
      (σ : Bindings) (r : Trait)
      → substitute_parameters_trait σ (detach_trait r) ≡ substitute_parameters_trait σ r
  parameters-detach_trait σ (trait m n ms any) =
      λ z. trait m n (parameters-detach_methods σ ms z) any

  parameters-detach_methods :
      (σ : Bindings) (ms : Methods)
      → substitute_parameters_methods σ (detach_methods ms) ≡ substitute_parameters_methods σ ms
  parameters-detach_methods σ (method_cons n gs k ps r d ms) = λ z.
      method_cons n (detach-detach_params gs z) k (parameters-detach_types σ ps z)
        (parameters-detach σ r z) d (parameters-detach_methods σ ms z)
  parameters-detach_methods σ method_nil = refl

-- A type and its detached copy give the same instance under SubstituteParameters, and detaching
-- the copy again changes nothing.
pub detach_lem :
    (σ : Bindings) (t : Ty)
    → (substitute_parameters σ (detach t) ≡ substitute_parameters σ t)
      × (detach (detach t) ≡ detach t)
detach_lem σ t = (parameters-detach σ t, detach-detach t)
