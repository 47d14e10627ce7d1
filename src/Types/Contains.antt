-- ===== src/Types/Contains.antt =====
-- types/type.go: whether a type depends on `Self`, on a generic parameter, or is not yet typed.
use qk.Prelude.{Bool, true, false, ◌||◌}
use qk.Types.Syntax.{
  Ty, Tys, Fields, self_type, untyped_int, untyped_float, unresolved_enum, type_parameter, defined,
  struct_type, union_type, pointer, slice, array, sequence, function, multiple_return, ty_nil,
  ty_cons, field_nil, field_cons,
}

-- `HasSelfType`.
unfoldable mutual
  pub has_self_type : Ty → Bool
  has_self_type self_type = true
  has_self_type (defined m n u g as') = has_self_type_types as'
  has_self_type (pointer t m) = has_self_type t
  has_self_type (slice t m) = has_self_type t
  has_self_type (array t m) = has_self_type t
  has_self_type (struct_type fs p i) = has_self_type_fields fs
  has_self_type (union_type m n fs) = has_self_type_fields fs
  has_self_type (function ps r v e) = has_self_type_types ps || has_self_type r
  has_self_type (multiple_return ts) = has_self_type_types ts
  has_self_type _ = false

  pub has_self_type_types : Tys → Bool
  has_self_type_types ty_nil = false
  has_self_type_types (ty_cons t ts) = has_self_type t || has_self_type_types ts

  pub has_self_type_fields : Fields → Bool
  has_self_type_fields field_nil = false
  has_self_type_fields (field_cons l t fs) = has_self_type t || has_self_type_fields fs

-- `HasTypeParameter`.
unfoldable mutual
  pub has_type_parameter : Ty → Bool
  has_type_parameter (type_parameter o n i c) = true
  has_type_parameter (defined m n u g as') = has_type_parameter_types as'
  has_type_parameter (pointer t m) = has_type_parameter t
  has_type_parameter (slice t m) = has_type_parameter t
  has_type_parameter (array t m) = has_type_parameter t
  has_type_parameter (struct_type fs p i) = has_type_parameter_fields fs
  has_type_parameter (union_type m n fs) = has_type_parameter_fields fs
  has_type_parameter (function ps r v e) = has_type_parameter_types ps || has_type_parameter r
  has_type_parameter (multiple_return ts) = has_type_parameter_types ts
  has_type_parameter _ = false

  pub has_type_parameter_types : Tys → Bool
  has_type_parameter_types ty_nil = false
  has_type_parameter_types (ty_cons t ts) = has_type_parameter t || has_type_parameter_types ts

  pub has_type_parameter_fields : Fields → Bool
  has_type_parameter_fields field_nil = false
  has_type_parameter_fields (field_cons l t fs) =
      has_type_parameter t || has_type_parameter_fields fs

-- `IsUntyped` and `HasUntyped`.
unfoldable mutual
  pub has_untyped : Ty → Bool
  has_untyped untyped_int = true
  has_untyped untyped_float = true
  has_untyped unresolved_enum = true
  has_untyped (pointer t m) = has_untyped t
  has_untyped (slice t m) = has_untyped t
  has_untyped (array t m) = has_untyped t
  has_untyped (sequence t m) = has_untyped t
  has_untyped (struct_type fs p i) = has_untyped_fields fs
  has_untyped (function ps r v e) = has_untyped_types ps || has_untyped r
  has_untyped (multiple_return ts) = has_untyped_types ts
  has_untyped _ = false

  pub has_untyped_types : Tys → Bool
  has_untyped_types ty_nil = false
  has_untyped_types (ty_cons t ts) = has_untyped t || has_untyped_types ts

  pub has_untyped_fields : Fields → Bool
  has_untyped_fields field_nil = false
  has_untyped_fields (field_cons l t fs) = has_untyped t || has_untyped_fields fs
