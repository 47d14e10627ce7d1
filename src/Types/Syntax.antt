-- ===== src/Types/Syntax.antt =====
-- types/type.go: the types that implement the interface `Type`. A Go struct that holds a list of
-- types has the list as a type of its own here. A nil `Type` is `absent`: a constraint or a
-- variadic element may be nil, every other position holds a type.
use qk.Prelude.{ℕ, Bool, String, List, Option}
use qk.Types.Primitive.{Primitive}

-- `TraitReceiverKind`.
pub data ReceiverKind : Type 0 where
  receiver_value receiver_pointer receiver_mutable_pointer : ReceiverKind

mutual
  pub data Ty : Type 0 where
    self_type no_initializer opaque_type error_type untyped_int untyped_float unresolved_enum : Ty
    primitive : Primitive → Ty
    -- owner, name, index and constraint
    type_parameter : String → String → ℕ → OptTy → Ty
    -- module, name, underlying type, generic name and type arguments
    defined : String → String → Ty → String → Tys → Ty
    -- module, name and the cell that the pointer `Target` leads to
    alias_ref : String → String → Option ℕ → Ty
    struct_type : Fields → Bool → TaggedInfo → Ty
    union_type : String → String → Fields → Ty
    -- module, name, identity name, variants and values
    enum_type : String → String → String → List String → List String → Ty
    flags_type : Primitive → List String → List String → Ty
    pointer : Ty → Bool → Ty
    slice : Ty → Bool → Ty
    array : Ty → ℕ → Ty
    sequence : Ty → ℕ → Ty
    -- parameters, return type, `TypedVariadic` and `VariadicElement`
    function : Tys → Ty → Bool → OptTy → Ty
    multiple_return : Tys → Ty
    trait_type : Trait → Ty
    trait_pointer : Trait → Bool → Ty

  pub data OptTy : Type 0 where
    absent : OptTy
    present : Ty → OptTy

  pub data Tys : Type 0 where
    ty_nil : Tys
    ty_cons : Ty → Tys → Tys

  pub data Fields : Type 0 where
    field_nil : Fields
    field_cons : String → Ty → Fields → Fields

  -- `*TaggedUnionInfo`: nil, or the tag, the variants and `Auto`.
  pub data TaggedInfo : Type 0 where
    untagged : TaggedInfo
    tagged : Ty → Variants → Bool → TaggedInfo

  pub data Variants : Type 0 where
    variant_nil : Variants
    -- name, tag value and fields
    variant_cons : String → String → Fields → Variants → Variants

  -- module, name, methods and `Any`
  pub data Trait : Type 0 where
    trait : String → String → Methods → Bool → Trait

  pub data Methods : Type 0 where
    method_nil : Methods
    -- name, generic parameters, receiver, parameters, return type and `HasDefault`
    method_cons : String → Params → ReceiverKind → Tys → Ty → Bool → Methods → Methods

  -- `[]TypeParameter`: owner, name, index and constraint of each.
  pub data Params : Type 0 where
    param_nil : Params
    param_cons : String → String → ℕ → OptTy → Params → Params

-- What the cells behind `Target` hold; `none` is a nil `*Target`.
abbrev pub Cells : Type 0
Cells = ℕ → Option Ty
