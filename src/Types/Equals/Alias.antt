-- ===== src/Types/Equals/Alias.antt =====
-- types/type.go: `Equals` through alias references.
use qk.Prelude.{
  ℕ, suc, String, some, Bool, true, false, ◌≡◌, refl, arith, str_eq_refl, strs_eq_refl, ==_refl,
  &&_join,
}
use qk.Types.Primitive.{prim_eq_refl}
use qk.Types.Syntax.{
  Ty, Tys, Fields, TaggedInfo, Trait, Cells, primitive, type_parameter, defined, alias_ref,
  struct_type, union_type, enum_type, flags_type, pointer, slice, array, sequence, function,
  multiple_return, trait_type, trait_pointer, ty_nil, ty_cons, field_nil, field_cons, trait,
}
use qk.Types.Underlying.{underlying}
use qk.Types.Equals.{
  resolver, bool_eq, enum_eq, trait_eq, equals, equals_types, equals_fields, follow_equals,
}

bool_eq_refl : (b : Bool) → bool_eq b b ≡ true
unfolding bool_eq
bool_eq_refl b = ground arith

enum_eq_refl : (m n i : String) → enum_eq m n i m n i ≡ true
unfolding enum_eq
enum_eq_refl m n i = ground (arith, str_eq_refl m, str_eq_refl n, str_eq_refl i)

trait_eq_refl : (t : Trait) → trait_eq t t ≡ true
unfolding trait_eq
trait_eq_refl (trait m n ms a) = ground (arith, str_eq_refl m, str_eq_refl n, bool_eq_refl a)

module _ (cells : Cells) (fuel : ℕ) where
  mutual
    unfolding equals underlying

    refl_type : (t : Ty) → equals (resolver cells fuel) t t ≡ true
    refl_type (primitive p) = prim_eq_refl p
    refl_type (type_parameter o n i c) = ground (arith, str_eq_refl o)
    refl_type (defined m n u g as') = ground (arith, str_eq_refl m, str_eq_refl n)
    refl_type (alias_ref m n r) = ground (arith, str_eq_refl m, str_eq_refl n)
    refl_type (struct_type fs p i) = &&_join _ _ (bool_eq_refl p) (refl_fields fs)
    refl_type (union_type m n fs) = ground (arith, str_eq_refl m, str_eq_refl n)
    refl_type (enum_type m n i vs ws) = enum_eq_refl m n i
    refl_type (flags_type p vs ws) =
        ground (arith, prim_eq_refl p, strs_eq_refl vs, strs_eq_refl ws)
    refl_type (pointer t m) = &&_join _ _ (refl_type t) (bool_eq_refl m)
    refl_type (slice t m) = &&_join _ _ (bool_eq_refl m) (refl_type t)
    refl_type (array t l) = &&_join _ _ (==_refl l) (refl_type t)
    refl_type (sequence t l) = &&_join _ _ (==_refl l) (refl_type t)
    refl_type (function ps r v e) =
        &&_join _ _ (&&_join _ _ (bool_eq_refl v) (refl_types ps)) (refl_type r)
    refl_type (multiple_return ts) = refl_types ts
    refl_type (trait_type t) = trait_eq_refl t
    refl_type (trait_pointer t m) = &&_join _ _ (bool_eq_refl m) (trait_eq_refl t)
    refl_type _ = refl

    refl_types : (ts : Tys) → equals_types (resolver cells fuel) ts ts ≡ true
    refl_types ty_nil = refl
    refl_types (ty_cons t ts) = &&_join _ _ (refl_type t) (refl_types ts)

    refl_fields : (fs : Fields) → equals_fields (resolver cells fuel) fs fs ≡ true
    refl_fields field_nil = refl
    refl_fields (field_cons l t fs) =
        &&_join _ _ (&&_join _ _ (str_eq_refl l) (refl_type t)) (refl_fields fs)

  -- Every type equals itself, alias references included.
  pub equals_refl : (t : Ty) → equals (resolver cells fuel) t t ≡ true
  equals_refl t = refl_type t

-- An alias whose target is a struct type equals the struct, and the struct does not equal the
-- alias.
pub equals-alias_struct :
    (cells : Cells) (fuel : ℕ) (m n : String) (i : ℕ) (fs : Fields) (p : Bool) (info : TaggedInfo)
    → cells i ≡ some (struct_type fs p info)
    → (equals (resolver cells (suc fuel)) (alias_ref m n (some i)) (struct_type fs p info) ≡ true)
      × (equals (resolver cells (suc fuel)) (struct_type fs p info) (alias_ref m n (some i))
          ≡ false)
unfolding equals follow_equals
equals-alias_struct cells fuel m n i fs p info h =
    (ground (arith, bool_eq_refl p, refl_fields cells fuel fs), refl)
