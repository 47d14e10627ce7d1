-- ===== src/Types/Substitute.antt =====
-- types/type.go: the copies of a type with aliases detached, with generic parameters replaced and
-- with `Self` replaced.
pub mod Detached
pub mod Parameters
pub mod Composition
pub mod Removal
use qk.Prelude.{ℕ, String, Option, none, some, Bool}
use qk.Types.Syntax.{
  Ty, OptTy, Tys, Fields, TaggedInfo, Variants, Trait, Methods, Params, self_type, type_parameter,
  defined, alias_ref, struct_type, union_type, pointer, slice, array, sequence, function,
  multiple_return, trait_type, trait_pointer, absent, present, ty_nil, ty_cons, field_nil,
  field_cons, untagged, tagged, variant_nil, variant_cons, trait, method_nil, method_cons,
  param_nil, param_cons,
}

-- `DetachForSerialization`: alias references lose their targets.
unfoldable mutual
  pub detach : Ty → Ty
  detach (type_parameter o n i c) = type_parameter o n i (detach_opt c)
  detach (defined m n u g as') = defined m n (detach u) g (detach_types as')
  detach (alias_ref m n r) = alias_ref m n none
  detach (pointer t m) = pointer (detach t) m
  detach (slice t m) = slice (detach t) m
  detach (array t n) = array (detach t) n
  detach (sequence t n) = sequence (detach t) n
  detach (struct_type fs p i) = struct_type (detach_fields fs) p (detach_info i)
  detach (union_type m n fs) = union_type m n (detach_fields fs)
  detach (trait_type t) = trait_type (detach_trait t)
  detach (trait_pointer t m) = trait_pointer (detach_trait t) m
  detach (function ps r v e) = function (detach_types ps) (detach r) v (detach_opt e)
  detach (multiple_return ts) = multiple_return (detach_types ts)
  detach t = t

  pub detach_opt : OptTy → OptTy
  detach_opt absent = absent
  detach_opt (present t) = present (detach t)

  pub detach_types : Tys → Tys
  detach_types ty_nil = ty_nil
  detach_types (ty_cons t ts) = ty_cons (detach t) (detach_types ts)

  pub detach_fields : Fields → Fields
  detach_fields field_nil = field_nil
  detach_fields (field_cons l t fs) = field_cons l (detach t) (detach_fields fs)

  pub detach_info : TaggedInfo → TaggedInfo
  detach_info untagged = untagged
  detach_info (tagged t vs auto) = tagged (detach t) (detach_variants vs) auto

  pub detach_variants : Variants → Variants
  detach_variants variant_nil = variant_nil
  detach_variants (variant_cons n v fs vs) =
      variant_cons n v (detach_fields fs) (detach_variants vs)

  pub detach_trait : Trait → Trait
  detach_trait (trait m n ms any) = trait m n (detach_methods ms) any

  pub detach_methods : Methods → Methods
  detach_methods method_nil = method_nil
  detach_methods (method_cons n gs k ps r d ms) =
      method_cons n (detach_params gs) k (detach_types ps) (detach r) d (detach_methods ms)

  pub detach_params : Params → Params
  detach_params param_nil = param_nil
  detach_params (param_cons o n i c gs) = param_cons o n i (detach_opt c) (detach_params gs)

-- The replacements by `TypeParameter.Key()`, which is the owner and the index.
abbrev pub Bindings : Type 0
Bindings = String → ℕ → Option Ty

unfoldable pub bound : Bindings → String → ℕ → Ty → Ty
bound σ o i t = elim (σ o i) [ none ↦ t | some r ↦ r ]

-- `SubstituteParameters`. It detaches the type first, and each recursive call its part again, so
-- alias references come out detached and a method's generic parameters are detached only.
unfoldable mutual
  unfolding bound detach_params

  pub substitute_parameters : Bindings → Ty → Ty
  substitute_parameters σ (type_parameter o n i c) =
      bound σ o i (type_parameter o n i (substitute_parameters_opt σ c))
  substitute_parameters σ (defined m n u g as') =
      defined m n (substitute_parameters σ u) g (substitute_parameters_types σ as')
  substitute_parameters σ (alias_ref m n r) = alias_ref m n none
  substitute_parameters σ (pointer t m) = pointer (substitute_parameters σ t) m
  substitute_parameters σ (slice t m) = slice (substitute_parameters σ t) m
  substitute_parameters σ (array t n) = array (substitute_parameters σ t) n
  substitute_parameters σ (sequence t n) = sequence (substitute_parameters σ t) n
  substitute_parameters σ (struct_type fs p i) =
      struct_type (substitute_parameters_fields σ fs) p (substitute_parameters_info σ i)
  substitute_parameters σ (union_type m n fs) = union_type m n (substitute_parameters_fields σ fs)
  substitute_parameters σ (trait_type t) = trait_type (substitute_parameters_trait σ t)
  substitute_parameters σ (trait_pointer t m) = trait_pointer (substitute_parameters_trait σ t) m
  substitute_parameters σ (function ps r v e) =
      function (substitute_parameters_types σ ps) (substitute_parameters σ r) v
        (substitute_parameters_opt σ e)
  substitute_parameters σ (multiple_return ts) = multiple_return (substitute_parameters_types σ ts)
  substitute_parameters σ t = t

  pub substitute_parameters_opt : Bindings → OptTy → OptTy
  substitute_parameters_opt σ absent = absent
  substitute_parameters_opt σ (present t) = present (substitute_parameters σ t)

  pub substitute_parameters_types : Bindings → Tys → Tys
  substitute_parameters_types σ ty_nil = ty_nil
  substitute_parameters_types σ (ty_cons t ts) =
      ty_cons (substitute_parameters σ t) (substitute_parameters_types σ ts)

  pub substitute_parameters_fields : Bindings → Fields → Fields
  substitute_parameters_fields σ field_nil = field_nil
  substitute_parameters_fields σ (field_cons l t fs) =
      field_cons l (substitute_parameters σ t) (substitute_parameters_fields σ fs)

  pub substitute_parameters_info : Bindings → TaggedInfo → TaggedInfo
  substitute_parameters_info σ untagged = untagged
  substitute_parameters_info σ (tagged t vs auto) =
      tagged (substitute_parameters σ t) (substitute_parameters_variants σ vs) auto

  pub substitute_parameters_variants : Bindings → Variants → Variants
  substitute_parameters_variants σ variant_nil = variant_nil
  substitute_parameters_variants σ (variant_cons n v fs vs) =
      variant_cons n v (substitute_parameters_fields σ fs) (substitute_parameters_variants σ vs)

  pub substitute_parameters_trait : Bindings → Trait → Trait
  substitute_parameters_trait σ (trait m n ms any) =
      trait m n (substitute_parameters_methods σ ms) any

  pub substitute_parameters_methods : Bindings → Methods → Methods
  substitute_parameters_methods σ method_nil = method_nil
  substitute_parameters_methods σ (method_cons n gs k ps r d ms) =
      method_cons n (detach_params gs) k (substitute_parameters_types σ ps)
        (substitute_parameters σ r) d (substitute_parameters_methods σ ms)

-- `Substitute`. A sequence is returned as it is, and so is a parameter with no replacement.
unfoldable mutual
  unfolding bound

  pub substitute : Bindings → Ty → Ty
  substitute σ (type_parameter o n i c) = bound σ o i (type_parameter o n i c)
  substitute σ (defined m n u g as') = defined m n (substitute σ u) g (substitute_types σ as')
  substitute σ (pointer t m) = pointer (substitute σ t) m
  substitute σ (slice t m) = slice (substitute σ t) m
  substitute σ (array t n) = array (substitute σ t) n
  substitute σ (struct_type fs p i) = struct_type (substitute_fields σ fs) p (substitute_info σ i)
  substitute σ (union_type m n fs) = union_type m n (substitute_fields σ fs)
  substitute σ (trait_type t) = trait_type (substitute_trait σ t)
  substitute σ (trait_pointer t m) = trait_pointer (substitute_trait σ t) m
  substitute σ (function ps r v e) =
      function (substitute_types σ ps) (substitute σ r) v (substitute_opt σ e)
  substitute σ (multiple_return ts) = multiple_return (substitute_types σ ts)
  substitute σ t = t

  pub substitute_opt : Bindings → OptTy → OptTy
  substitute_opt σ absent = absent
  substitute_opt σ (present t) = present (substitute σ t)

  pub substitute_types : Bindings → Tys → Tys
  substitute_types σ ty_nil = ty_nil
  substitute_types σ (ty_cons t ts) = ty_cons (substitute σ t) (substitute_types σ ts)

  pub substitute_fields : Bindings → Fields → Fields
  substitute_fields σ field_nil = field_nil
  substitute_fields σ (field_cons l t fs) = field_cons l (substitute σ t) (substitute_fields σ fs)

  pub substitute_info : Bindings → TaggedInfo → TaggedInfo
  substitute_info σ untagged = untagged
  substitute_info σ (tagged t vs auto) = tagged (substitute σ t) (substitute_variants σ vs) auto

  pub substitute_variants : Bindings → Variants → Variants
  substitute_variants σ variant_nil = variant_nil
  substitute_variants σ (variant_cons n v fs vs) =
      variant_cons n v (substitute_fields σ fs) (substitute_variants σ vs)

  pub substitute_trait : Bindings → Trait → Trait
  substitute_trait σ (trait m n ms any) = trait m n (substitute_methods σ ms) any

  pub substitute_methods : Bindings → Methods → Methods
  substitute_methods σ method_nil = method_nil
  substitute_methods σ (method_cons n gs k ps r d ms) =
      method_cons n (substitute_params σ gs) k (substitute_types σ ps) (substitute σ r) d
        (substitute_methods σ ms)

  pub substitute_params : Bindings → Params → Params
  substitute_params σ param_nil = param_nil
  substitute_params σ (param_cons o n i c gs) =
      param_cons o n i (substitute_opt σ c) (substitute_params σ gs)

-- `SubstituteSelf`. Nested traits have a `Self` of their own.
unfoldable mutual
  pub substitute_self : Ty → Ty → Ty
  substitute_self self' self_type = self'
  substitute_self self' (defined m n u g as') =
      defined m n (substitute_self self' u) g (substitute_self_types self' as')
  substitute_self self' (pointer t m) = pointer (substitute_self self' t) m
  substitute_self self' (slice t m) = slice (substitute_self self' t) m
  substitute_self self' (array t n) = array (substitute_self self' t) n
  substitute_self self' (struct_type fs p i) =
      struct_type (substitute_self_fields self' fs) p (substitute_self_info self' i)
  substitute_self self' (union_type m n fs) = union_type m n (substitute_self_fields self' fs)
  substitute_self self' (function ps r v e) =
      function (substitute_self_types self' ps) (substitute_self self' r) v
        (substitute_self_opt self' e)
  substitute_self self' (multiple_return ts) = multiple_return (substitute_self_types self' ts)
  substitute_self self' t = t

  pub substitute_self_opt : Ty → OptTy → OptTy
  substitute_self_opt self' absent = absent
  substitute_self_opt self' (present t) = present (substitute_self self' t)

  pub substitute_self_types : Ty → Tys → Tys
  substitute_self_types self' ty_nil = ty_nil
  substitute_self_types self' (ty_cons t ts) =
      ty_cons (substitute_self self' t) (substitute_self_types self' ts)

  pub substitute_self_fields : Ty → Fields → Fields
  substitute_self_fields self' field_nil = field_nil
  substitute_self_fields self' (field_cons l t fs) =
      field_cons l (substitute_self self' t) (substitute_self_fields self' fs)

  pub substitute_self_info : Ty → TaggedInfo → TaggedInfo
  substitute_self_info self' untagged = untagged
  substitute_self_info self' (tagged t vs auto) =
      tagged (substitute_self self' t) (substitute_self_variants self' vs) auto

  pub substitute_self_variants : Ty → Variants → Variants
  substitute_self_variants self' variant_nil = variant_nil
  substitute_self_variants self' (variant_cons n v fs vs) =
      variant_cons n v (substitute_self_fields self' fs) (substitute_self_variants self' vs)
