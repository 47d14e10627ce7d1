-- ===== src/Types/Primitive.antt =====
-- types/type.go: the primitive types, their ranks, their coercions and casts, and numeric promotion.
pub mod Coercion
use qk.Prelude.{
  List, [], ◌∷◌, ◌==◌, get_elem?, sym, ap, ◌∙◌, ℕ, ◌≤◌, Bool, true, false, ◌&&◌, ◌||◌, not, ◌≡◌,
  refl, leb, arith, if◌then◌else◌, Option, none, some,
}

pub data Primitive : Type 0 where
  i8 i16 i32 i64 u8 u16 u32 u64 f32 f64 isz usz void bool : Primitive

-- `IsSigned` on a primitive.
unfoldable pub is_signed : Primitive → Bool
is_signed i8 = true
is_signed i16 = true
is_signed i32 = true
is_signed i64 = true
is_signed isz = true
is_signed _ = false

unfoldable pub is_unsigned : Primitive → Bool
is_unsigned u8 = true
is_unsigned u16 = true
is_unsigned u32 = true
is_unsigned u64 = true
is_unsigned usz = true
is_unsigned _ = false

unfoldable pub is_integer : Primitive → Bool
unfolding is_signed is_unsigned
is_integer p = is_signed p || is_unsigned p

unfoldable pub is_float : Primitive → Bool
is_float f32 = true
is_float f64 = true
is_float _ = false

unfoldable pub is_numeric : Primitive → Bool
unfolding is_integer is_float
is_numeric p = is_integer p || is_float p

unfoldable pub integer_rank : Primitive → ℕ
integer_rank i8 = 1
integer_rank u8 = 1
integer_rank i16 = 2
integer_rank u16 = 2
integer_rank i32 = 3
integer_rank u32 = 3
integer_rank i64 = 4
integer_rank u64 = 4
integer_rank isz = 5
integer_rank usz = 5
integer_rank _ = 0

unfoldable pub float_rank : Primitive → ℕ
float_rank f32 = 1
float_rank f64 = 2
float_rank _ = 0

-- Go's `==` on two primitives: the numbers tell the constructors apart.
code : Primitive → ℕ
code i8 = 0
code i16 = 1
code i32 = 2
code i64 = 3
code u8 = 4
code u16 = 5
code u32 = 6
code u64 = 7
code f32 = 8
code f64 = 9
code isz = 10
code usz = 11
code void = 12
code bool = 13

abbrev every : List Primitive
every = i8 ∷ i16 ∷ i32 ∷ i64 ∷ u8 ∷ u16 ∷ u32 ∷ u64 ∷ f32 ∷ f64 ∷ isz ∷ usz ∷ void ∷ bool ∷ []

every-code : (p : Primitive) → get_elem? every (code p) ≡ some p
unfolding code
every-code i8 = refl
every-code _ = refl

unfoldable pub prim_eq : Primitive → Primitive → Bool
unfolding code
prim_eq p q = code p == code q

pub prim_eq→eq : (p q : Primitive) → prim_eq p q ≡ true → p ≡ q
unfolding prim_eq
prim_eq→eq p q h =
    let e : code p ≡ code q = ground arith in
    cc (every-code p, every-code q, ap (get_elem? every) e)

pub prim_eq_refl : (p : Primitive) → prim_eq p p ≡ true
unfolding prim_eq
prim_eq_refl p = ground arith

pub prim_eq_sym : (p q : Primitive) → prim_eq p q ≡ prim_eq q p
unfolding prim_eq
prim_eq_sym p q = ground arith

-- `PrimitiveType.CanCoerceTo`, at a primitive.
unfoldable pub prim_can_coerce : Primitive → Primitive → Bool
unfolding is_integer is_float prim_eq is_signed is_unsigned integer_rank float_rank
prim_can_coerce p q =
    if prim_eq p q
    then true
    else if is_integer p && is_integer q
    then if prim_eq p isz && is_signed q || prim_eq q usz
      then true
      else if is_signed p && is_signed q
      then leb (integer_rank p) (integer_rank q)
      else if is_unsigned p && is_unsigned q
      then leb (integer_rank p) (integer_rank q)
      else false
    else if is_integer p && is_float q
    then true
    else if is_float p && is_float q
    then leb (float_rank p) (float_rank q)
    else false

-- `PrimitiveType.CanCastTo`, at a primitive.
unfoldable pub prim_can_cast : Primitive → Primitive → Bool
unfolding is_integer is_numeric prim_eq
prim_can_cast p q =
    if prim_eq p q
    then true
    else if prim_eq p bool && is_integer q || is_integer p && prim_eq q bool
    then true
    else if is_numeric p && is_numeric q
    then true
    else false

-- `widerSigned` and `widerUnsigned`, where their guards hold; `PromoteIntegers` calls them there only.
abbrev wider : Primitive → Primitive → Primitive
wider p q = if leb (integer_rank q) (integer_rank p) then p else q

-- `PromoteIntegers`; `none` is `ErrorType`.
unfoldable pub promote_integers : Primitive → Primitive → Option Primitive
unfolding is_signed is_unsigned integer_rank
promote_integers p q =
    if is_signed p && is_signed q
    then some (wider p q)
    else if is_unsigned p && is_unsigned q
    then some (wider p q)
    else none
