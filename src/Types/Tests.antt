-- ===== src/Types/Tests.antt =====
-- types/type.go: runs of the definitions on small types, and the theorems at such types.
use qk.Prelude.{
  if◌then◌else◌, str_eq, ◌&&◌, ◌==◌, ◌⊎◌, zero, suc, none, some, true, false, ◌≡◌, refl, ◌↔◌, ◌≤◌,
}
use qk.Types.Primitive.{is_float, f32, bool, i32, i64, u8, u32, is_signed, prim_eq, prim_can_coerce}
use qk.Types.Syntax.{
  error_type, Ty, Cells, primitive, type_parameter, defined, alias_ref, struct_type, pointer, slice,
  function, absent, ty_nil, ty_cons, field_nil, field_cons, untagged,
}
use qk.Types.Underlying.{target, follow_alias, underlying}
use qk.Types.Equals.{resolver, equals, follow_equals}
use qk.Types.Equals.Canonical.{IsPlain, canonical, equals_iff, equals-sym_trans}
use qk.Types.Equals.Alias.{equals_refl}
use qk.Types.Coerce.{can_coerce}
use qk.Types.Cast.{upgrades_mutable_access, can_cast, can_explicit_cast}
use qk.Types.Cast.Depth.{Answers, can_explicit_cast_total, can_cast-of_unresolved_alias}
use qk.Types.Cast.Access.{can_explicit_cast-upgrades}
use qk.Types.Primitive.Coercion.{prim_can_coerce-fixed_width}
use qk.Types.Substitute.{Bindings, substitute}
use qk.Types.Substitute.Composition.{compose, substitute_lem}
use qk.Types.Substitute.Parameters.{all_parameters, replace_each, replacement}
use qk.Types.Substitute.Removal.{visible_parameters, Closes, has_type_parameter-substitute}
use qk.Types.Promote.{promote_numeric}
use qk.Types.Promote.Bounds.{is_number, IsBound, promote_numeric-IsBound}
use qk.Types.Contains.{has_type_parameter}

abbrev bytes_mut : Ty
bytes_mut = pointer (primitive u8) true

abbrev bytes_const : Ty
bytes_const = pointer (primitive u8) false

-- Cell 0 holds a mutable pointer, cell 1 a struct.
abbrev pair : Ty
pair =
    struct_type (field_cons "x" (primitive i32) (field_cons "y" (primitive i32) field_nil)) false
      untagged

abbrev cells : Cells
cells zero = some bytes_mut
cells (suc zero) = some pair
cells _ = none

abbrev buffer : Ty
buffer = alias_ref "m" "Buffer" (some 0)

abbrev lost : Ty
lost = alias_ref "m" "Lost" none

abbrev generic : Ty
generic = slice (type_parameter "f" "T" 0 absent) true

-- The parameter of `f` is bound, and no other one.
abbrev to_i32 : Bindings
to_i32 o i = if str_eq o "f" && i == 0 then some (primitive i32) else none

-- The parameter of `f` is bound to a pointer to the parameter of `g`.
abbrev to_pointer : Bindings
to_pointer o i =
    if str_eq o "f" && i == 0 then some (pointer (type_parameter "g" "U" 0 absent) false) else none

can_explicit_cast-upgrades_example :
    can_explicit_cast (resolver cells 4) 3 (defined "m" "C" bytes_const "" ty_nil) buffer
    ≡ some false
unfolding underlying follow_alias upgrades_mutable_access target
can_explicit_cast-upgrades_example =
    can_explicit_cast-upgrades cells 4 2 (defined "m" "C" bytes_const "" ty_nil) buffer refl refl

can_explicit_cast_total_example :
    Answers (can_explicit_cast (resolver cells 4) 2 buffer bytes_const)
unfolding underlying follow_alias target
can_explicit_cast_total_example = can_explicit_cast_total cells 4 0 buffer bytes_const refl refl

can_cast-of_unresolved_alias_example : can_cast (resolver cells 4) 7 lost (primitive i32) ≡ none
unfolding underlying target equals follow_equals follow_alias
can_cast-of_unresolved_alias_example =
    can_cast-of_unresolved_alias cells 4 7 "m" "Lost" none (primitive i32) refl refl refl

-- A function type coerces to one that takes more and gives less access.
function_coerces :
    can_coerce
      (resolver cells 4)
      (function (ty_cons bytes_const ty_nil) bytes_mut false absent)
      (function (ty_cons bytes_mut ty_nil) bytes_const false absent)
    ≡ true
unfolding can_coerce equals prim_eq prim_can_coerce
function_coerces = refl

prim_can_coerce-fixed_width_example :
    (prim_can_coerce u8 u32 ≡ true) ↔ ((is_signed u8 ≡ is_signed u32) × (8 ≤ 32))
prim_can_coerce-fixed_width_example = prim_can_coerce-fixed_width u8 u32 8 32 refl refl

equals_iff_example :
    (equals (resolver cells 4) pair (slice pair true) ≡ true)
    ↔ (canonical pair ≡ canonical (slice pair true))
unfolding IsPlain
equals_iff_example =
    equals_iff (resolver cells 4) pair (slice pair true) (tt, (tt, tt)) (tt, (tt, tt))

equals-sym_trans_example :
    (equals (resolver cells 4) pair bytes_mut ≡ equals (resolver cells 4) bytes_mut pair)
    × (equals (resolver cells 4) pair bytes_mut ≡ true
        → equals (resolver cells 4) bytes_mut bytes_const ≡ true
        → equals (resolver cells 4) pair bytes_const ≡ true)
unfolding IsPlain
equals-sym_trans_example =
    equals-sym_trans (resolver cells 4) pair bytes_mut bytes_const (tt, (tt, tt)) tt tt

equals_refl_example : equals (resolver cells 4) buffer buffer ≡ true
equals_refl_example = equals_refl cells 4 buffer

substitute_lem_example :
    (all_parameters (substitute to_pointer generic)
      ≡ replace_each (replacement to_pointer) (all_parameters generic))
    × (substitute to_i32 (substitute to_pointer generic)
        ≡ substitute (compose to_pointer to_i32) generic)
    × (substitute (λ o i. none) generic ≡ generic)
substitute_lem_example = substitute_lem to_pointer to_i32 generic

has_type_parameter-substitute_example :
    (has_type_parameter (substitute to_i32 generic) ≡ false)
    ↔ Closes to_i32 (visible_parameters generic)
has_type_parameter-substitute_example = has_type_parameter-substitute to_i32 generic

-- Both sides hold there.
generic-Closes : Closes to_i32 (visible_parameters generic)
unfolding visible_parameters str_eq has_type_parameter
generic-Closes = ((primitive i32, refl, refl), tt)

promote_numeric-IsBound_example :
    (promote_numeric (resolver cells 4) (primitive i64) (primitive f32) ≡ error_type)
    ⊎ IsBound
        (resolver cells 4)
        (primitive i64)
        (primitive f32)
        (promote_numeric (resolver cells 4) (primitive i64) (primitive f32))
unfolding is_number
promote_numeric-IsBound_example =
    promote_numeric-IsBound (resolver cells 4) (primitive i64) (primitive f32) refl refl

-- With `bool` the promotion gives f32, to which bool does not coerce.
promote_bool :
    (promote_numeric (resolver cells 4) (primitive bool) (primitive f32) ≡ primitive f32)
    × (prim_can_coerce bool f32 ≡ false)
unfolding promote_numeric equals prim_can_coerce is_float prim_eq
promote_bool = (refl, refl)
