-- ===== src/Types/Equals/Canonical.antt =====
-- types/type.go: `Equals` on types with no alias reference and no bare trait compares canonical
-- forms, so it is an equivalence there.
use qk.Prelude.{
  String, [], Bool, true, false, ◌&&◌, if◌then◌else◌, str_eq, str_eq_iff, strs_eq_iff, &&_split,
  &&_join, ◌≡◌, refl, sym, ◌∙◌, ◌↔◌, arith,
}
use qk.Types.Primitive.{Primitive, prim_eq, prim_eq→eq, prim_eq_refl}
use qk.Types.Syntax.{
  Ty, Tys, Fields, Trait, self_type, primitive, type_parameter, defined, alias_ref, struct_type,
  union_type, enum_type, flags_type, pointer, slice, array, sequence, function, multiple_return,
  trait_type, trait_pointer, absent, ty_nil, ty_cons, field_nil, field_cons, untagged, trait,
  method_nil,
}
use qk.Types.Equals.{Resolver, bool_eq, enum_eq, trait_eq, equals, equals_types, equals_fields}

-- A type in which no alias reference and no bare trait stands where `Equals` looks.
unfoldable mutual
  pub IsPlain : Ty → Type 0
  IsPlain (alias_ref m n r) = ⊥
  IsPlain (trait_type t) = ⊥
  IsPlain (struct_type fs p i) = IsPlainFields fs
  IsPlain (pointer t m) = IsPlain t
  IsPlain (slice t m) = IsPlain t
  IsPlain (array t l) = IsPlain t
  IsPlain (sequence t l) = IsPlain t
  IsPlain (function ps r v e) = IsPlainTypes ps × IsPlain r
  IsPlain (multiple_return ts) = IsPlainTypes ts
  IsPlain _ = Unit

  pub IsPlainTypes : Tys → Type 0
  IsPlainTypes ty_nil = Unit
  IsPlainTypes (ty_cons t ts) = IsPlain t × IsPlainTypes ts

  pub IsPlainFields : Fields → Type 0
  IsPlainFields field_nil = Unit
  IsPlainFields (field_cons l t fs) = IsPlain t × IsPlainFields fs

abbrev enum_key : String → String → String → Ty
enum_key m n i = if str_eq i "" then enum_type m n "" [] [] else enum_type "" "" i [] []

abbrev trait_key : Trait → Trait
trait_key (trait m n ms any) = trait m n method_nil any

-- What `Equals` compares of a type.
unfoldable mutual
  pub canonical : Ty → Ty
  canonical (type_parameter o n i c) = type_parameter o "" i absent
  canonical (defined m n u g as') = defined m n self_type "" ty_nil
  canonical (struct_type fs p i) = struct_type (canonical_fields fs) p untagged
  canonical (union_type m n fs) = union_type m n field_nil
  canonical (enum_type m n i vs ws) = enum_key m n i
  canonical (pointer t m) = pointer (canonical t) m
  canonical (slice t m) = slice (canonical t) m
  canonical (array t l) = array (canonical t) l
  canonical (sequence t l) = sequence (canonical t) l
  canonical (function ps r v e) = function (canonical_types ps) (canonical r) v absent
  canonical (multiple_return ts) = multiple_return (canonical_types ts)
  canonical (trait_pointer t m) = trait_pointer (trait_key t) m
  canonical t = t

  pub canonical_types : Tys → Tys
  canonical_types ty_nil = ty_nil
  canonical_types (ty_cons t ts) = ty_cons (canonical t) (canonical_types ts)

  pub canonical_fields : Fields → Fields
  canonical_fields field_nil = field_nil
  canonical_fields (field_cons l t fs) = field_cons l (canonical t) (canonical_fields fs)

bool_ext : (a b : Bool) → (a ≡ true → b ≡ true) → (b ≡ true → a ≡ true) → a ≡ b
bool_ext true b h k = sym (h refl)
bool_ext false true h k = k refl
bool_ext false false h k = refl

bool_eq_iff : (a b : Bool) → (bool_eq a b ≡ true) ↔ (a ≡ b)
unfolding bool_eq
bool_eq_iff a b = ground arith

prim_eq_iff : (p q : Primitive) → (prim_eq p q ≡ true) ↔ (p ≡ q)
prim_eq_iff p q = ground (arith, prim_eq→eq p q, prim_eq_refl p)

trait_eq_iff : (t t' : Trait) → (trait_eq t t' ≡ true) ↔ (trait_key t ≡ trait_key t')
unfolding trait_eq
trait_eq_iff (trait m n ms a) (trait m' n' ms' a') =
    ground (arith, str_eq_iff m m', str_eq_iff n n', bool_eq_iff a a')

enum_eq_iff :
    (m n i m' n' i' : String)
    → (enum_eq m n i m' n' i' ≡ true) ↔ (enum_key m n i ≡ enum_key m' n' i')
unfolding enum_eq
enum_eq_iff m n i m' n' i' =
    ground
      (arith, str_eq_iff m m', str_eq_iff n n', str_eq_iff i i', str_eq_iff i "", str_eq_iff i' "")

both_iff :
    (a b : Bool) {P Q R : Type 0}
    → (a ≡ true) ↔ P
    → (b ≡ true) ↔ Q
    → (P × Q) ↔ R
    → ((a && b) ≡ true) ↔ R
both_iff a b p q r = (
  λ h. r.0 (p.0 (&&_split a b h).0, q.0 (&&_split a b h).1),
  λ h. &&_join a b (p.1 (r.1 h).0) (q.1 (r.1 h).1),
)

function-inj :
    (v v' : Bool) (ps ps' : Tys) (r r' : Ty)
    → (((v ≡ v') × (ps ≡ ps')) × (r ≡ r')) ↔ (function ps r v absent ≡ function ps' r' v' absent)
function-inj v v' ps ps' r r' = (λ h. cc (h.0.0, h.0.1, h.1), λ e. ((cc, cc), cc))

mutual
  unfolding equals canonical IsPlain

  pub equals-canonical :
      (k : Resolver) (a b : Ty)
      → IsPlain a
      → IsPlain b
      → (equals k a b ≡ true) ↔ (canonical a ≡ canonical b)
  equals-canonical k (primitive p) (primitive q) ha hb = ground (arith, prim_eq_iff p q)
  equals-canonical k (type_parameter o n i c) (type_parameter o' n' i' c') ha hb =
      ground (arith, str_eq_iff o o')
  equals-canonical k (defined m n u g as') (defined m' n' u' g' bs) ha hb =
      ground (arith, str_eq_iff m m', str_eq_iff n n')
  equals-canonical k (struct_type fs p i) (struct_type fs' p' i') ha hb =
      ground (arith, bool_eq_iff p p', equals-canonical_fields k fs fs' ha hb)
  equals-canonical k (union_type m n fs) (union_type m' n' fs') ha hb =
      ground (arith, str_eq_iff m m', str_eq_iff n n')
  equals-canonical k (enum_type m n i vs ws) (enum_type m' n' i' vs' ws') ha hb =
      enum_eq_iff m n i m' n' i'
  equals-canonical k (flags_type p vs ws) (flags_type p' vs' ws') ha hb =
      ground (arith, prim_eq_iff p p', strs_eq_iff vs vs', strs_eq_iff ws ws')
  equals-canonical k (pointer t m) (pointer t' m') ha hb =
      ground (arith, bool_eq_iff m m', equals-canonical k t t' ha hb)
  equals-canonical k (slice t m) (slice t' m') ha hb =
      ground (arith, bool_eq_iff m m', equals-canonical k t t' ha hb)
  equals-canonical k (array t l) (array t' l') ha hb = ground (arith, equals-canonical k t t' ha hb)
  equals-canonical k (sequence t l) (sequence t' l') ha hb =
      ground (arith, equals-canonical k t t' ha hb)
  equals-canonical k (function ps r v e) (function ps' r' v' e') ha hb =
      both_iff _ _
        (both_iff _ _ (bool_eq_iff v v') (equals-canonical_types k ps ps' ha.0 hb.0)
          (λ h. h, λ h. h))
        (equals-canonical k r r' ha.1 hb.1) (function-inj _ _ _ _ _ _)
  equals-canonical k (multiple_return ts) (multiple_return ts') ha hb =
      ground (arith, equals-canonical_types k ts ts' ha hb)
  equals-canonical k (trait_pointer t m) (trait_pointer t' m') ha hb =
      ground (arith, bool_eq_iff m m', trait_eq_iff t t')
  equals-canonical k _ _ ha hb = ground arith

  equals-canonical_types :
      (k : Resolver) (ts ts' : Tys)
      → IsPlainTypes ts
      → IsPlainTypes ts'
      → (equals_types k ts ts' ≡ true) ↔ (canonical_types ts ≡ canonical_types ts')
  equals-canonical_types k (ty_cons t ts) (ty_cons t' ts') ha hb =
      both_iff _ _ (equals-canonical k t t' ha.0 hb.0) (equals-canonical_types k ts ts' ha.1 hb.1)
        (λ h. cc (h.0, h.1), λ e. (cc, cc))
  equals-canonical_types k _ _ ha hb = ground arith

  equals-canonical_fields :
      (k : Resolver) (fs fs' : Fields)
      → IsPlainFields fs
      → IsPlainFields fs'
      → (equals_fields k fs fs' ≡ true) ↔ (canonical_fields fs ≡ canonical_fields fs')
  equals-canonical_fields k (field_cons l t fs) (field_cons l' t' fs') ha hb =
      both_iff _ _
        (both_iff _ _ (str_eq_iff l l') (equals-canonical k t t' ha.0 hb.0) (λ h. h, λ h. h))
        (equals-canonical_fields k fs fs' ha.1 hb.1)
        (λ h. cc (h.0.0, h.0.1, h.1), λ e. ((cc, cc), cc))
  equals-canonical_fields k _ _ ha hb = ground arith

-- Equals of two types with no alias reference and no bare trait holds exactly when their canonical
-- forms, which keep what Equals looks at, are the same.
pub equals_iff :
    (k : Resolver) (a b : Ty)
    → IsPlain a
    → IsPlain b
    → (equals k a b ≡ true) ↔ (canonical a ≡ canonical b)
equals_iff k a b = equals-canonical k a b

-- On types with no alias reference and no bare trait Equals does not depend on the order of its
-- two types, and it is transitive.
pub equals-sym_trans :
    (k : Resolver) (a b c : Ty)
    → IsPlain a
    → IsPlain b
    → IsPlain c
    → (equals k a b ≡ equals k b a)
      × (equals k a b ≡ true → equals k b c ≡ true → equals k a c ≡ true)
equals-sym_trans k a b c ha hb hc = (
  bool_ext _ _ (λ h. (equals_iff k b a hb ha).1 (sym ((equals_iff k a b ha hb).0 h)))
      (λ h. (equals_iff k a b ha hb).1 (sym ((equals_iff k b a hb ha).0 h))),
  λ h h'. (equals_iff k a c ha hc).1 ((equals_iff k a b ha hb).0 h ∙ (equals_iff k b c hb hc).0 h'),
)
