-- ===== src/Types/Equals.antt =====
-- types/type.go: the method `Equals` of every type.
pub mod Canonical
pub mod Alias
use qk.Prelude.{
  ℕ, zero, suc, String, List, Option, none, some, Bool, true, false, ◌&&◌, ◌||◌, not, ◌==◌,
  if◌then◌else◌, str_eq, strs_eq,
}
use qk.Types.Primitive.{Primitive, prim_eq}
use qk.Types.Syntax.{
  Ty, OptTy, Tys, Fields, TaggedInfo, Variants, Trait, Methods, Params, Cells, self_type,
  no_initializer, opaque_type, error_type, untyped_int, untyped_float, unresolved_enum, primitive,
  type_parameter, defined, alias_ref, struct_type, union_type, enum_type, flags_type, pointer,
  slice, array, sequence, function, multiple_return, trait_type, trait_pointer, absent, present,
  ty_nil, ty_cons, field_nil, field_cons, trait,
}
use qk.Types.Underlying.{target, underlying}

-- What `Equals` asks of the alias cells: the comparison of an alias's target with a type, and
-- `Underlying`.
pub record Resolver : Type 0 where
  pub follow : String → String → Option ℕ → Ty → Bool
  pub base : Ty → Ty

abbrev same_name : String → String → String → String → Bool
same_name m n m' n' = str_eq m m' && str_eq n n'

unfoldable pub bool_eq : Bool → Bool → Bool
bool_eq true b = b
bool_eq false b = not b

-- The tests of `AliasRef.Equals` that look at the two names only.
unfoldable pub names_alias : String → String → Ty → Bool
names_alias m n (alias_ref m' n' r) = same_name m n m' n'
names_alias m n (defined m' n' u g as') = same_name m n m' n'
names_alias m n _ = false

unfoldable pub alias_equals : Resolver → String → String → Option ℕ → Ty → Bool
unfolding names_alias
alias_equals k m n r other = names_alias m n other || k.follow m n r other

-- `TraitType.Equals`, once `other` is taken to its underlying type.
unfoldable pub trait_eq : Trait → Trait → Bool
unfolding bool_eq
trait_eq (trait m n ms any) (trait m' n' ms' any') = same_name m n m' n' && bool_eq any any'

unfoldable pub trait_eq_type : Trait → Ty → Bool
unfolding trait_eq
trait_eq_type t (trait_type t') = trait_eq t t'
trait_eq_type t _ = false

unfoldable pub enum_eq : String → String → String → String → String → String → Bool
enum_eq m n i m' n' i' =
    if not (str_eq i "") || not (str_eq i' "")
    then not (str_eq i "") && str_eq i i'
    else same_name m n m' n'

unfoldable mutual
  unfolding bool_eq alias_equals trait_eq trait_eq_type enum_eq

  -- `t.Equals(other)`.
  pub equals : Resolver → Ty → Ty → Bool
  equals k self_type self_type = true
  equals k no_initializer no_initializer = true
  equals k opaque_type opaque_type = true
  equals k error_type error_type = true
  equals k untyped_int untyped_int = true
  equals k untyped_float untyped_float = true
  equals k unresolved_enum unresolved_enum = true
  equals k (primitive p) (primitive q) = prim_eq p q
  equals k (type_parameter o n i c) (type_parameter o' n' i' c') = str_eq o o' && i == i'
  equals k (defined m n u g as') (defined m' n' u' g' bs) = same_name m n m' n'
  equals k (defined m n u g as') (alias_ref m' n' r) = alias_equals k m' n' r (defined m n u g as')
  equals k (alias_ref m n r) other = alias_equals k m n r other
  equals k (struct_type fs p i) (struct_type fs' p' i') = bool_eq p p' && equals_fields k fs fs'
  equals k (union_type m n fs) (union_type m' n' fs') = same_name m n m' n'
  equals k (enum_type m n i vs ws) (enum_type m' n' i' vs' ws') = enum_eq m n i m' n' i'
  equals k (flags_type p vs ws) (flags_type p' vs' ws') =
      prim_eq p p' && strs_eq vs vs' && strs_eq ws ws'
  equals k (pointer t m) (pointer t' m') = equals k t t' && bool_eq m m'
  equals k (slice t m) (slice t' m') = bool_eq m m' && equals k t t'
  equals k (array t l) (array t' l') = l == l' && equals k t t'
  equals k (sequence t l) (sequence t' l') = l == l' && equals k t t'
  equals k (function ps r v e) (function ps' r' v' e') =
      bool_eq v v' && equals_types k ps ps' && equals k r r'
  equals k (multiple_return ts) (multiple_return ts') = equals_types k ts ts'
  equals k (trait_type t) other = trait_eq_type t (k.base other)
  equals k (trait_pointer t m) (trait_pointer t' m') = bool_eq m m' && trait_eq t t'
  equals k _ _ = false

  -- The lengths and the elements of two lists.
  pub equals_types : Resolver → Tys → Tys → Bool
  equals_types k ty_nil ty_nil = true
  equals_types k (ty_cons t ts) (ty_cons t' ts') = equals k t t' && equals_types k ts ts'
  equals_types k _ _ = false

  pub equals_fields : Resolver → Fields → Fields → Bool
  equals_fields k field_nil field_nil = true
  equals_fields k (field_cons l t fs) (field_cons l' t' fs') =
      (str_eq l l' && equals k t t') && equals_fields k fs fs'
  equals_fields k _ _ = false

-- The test `!same || reference != r`: the cell holds the alias itself.
unfoldable pub is_self_loop : String → String → Option ℕ → Ty → Bool
is_self_loop m n (some i) (alias_ref m' n' (some j)) = same_name m n m' n' && i == j
is_self_loop m n r t = false

-- The rest of `AliasRef.Equals`, on fuel: an alias whose target is there is compared through it.
unfoldable pub follow_equals : Cells → ℕ → String → String → Option ℕ → Ty → Bool
unfolding is_self_loop target
follow_equals cells zero m n r other = false
follow_equals cells (suc fuel) m n r other = elim (target cells r) [
  | none ↦ false
  | some t ↦ elim (is_self_loop m n r t) [
    | true ↦ false
    | false ↦
        equals (record { follow = follow_equals cells fuel; base = underlying cells fuel }) t other
  ]
]

-- `Equals` over the alias cells.
abbrev pub resolver : Cells → ℕ → Resolver
resolver cells fuel = record { follow = follow_equals cells fuel; base = underlying cells fuel }
