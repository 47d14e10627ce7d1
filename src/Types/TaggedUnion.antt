-- ===== src/Types/TaggedUnion.antt =====
-- types/type.go and sema/types.go: the storage of a tagged union, and the plain type that shows it.
use Prim.Native.Char.{code}
use Prim.Native.String.{String, ◌++◌}
use qk.Prelude.{
  ℕ, ◌+◌, ◌*◌, ◌-◌, Bool, true, false, ◌&&◌, Option, none, some, leb, ltb, ◌==◌, str_eq,
  if◌then◌else◌,
}
use qk.Types.Syntax.{
  Ty, Fields, TaggedInfo, Variants, Cells, struct_type, union_type, field_nil, field_cons, untagged,
  tagged, variant_nil, variant_cons,
}
use qk.Types.Underlying.{underlying}

-- The value of the digits, behind the value so far; `none` where another character stands.
unfoldable pub digits_value : String → ℕ → Option ℕ
digits_value String.[] n = some n
digits_value (String.◌∷◌ c s) n =
    let rest = digits_value s (n * 10 + (code c - b'0')) in
    if leb b'0' (code c) && leb (code c) b'9' then rest else none

unfoldable pub digits : String → Option ℕ
unfolding digits_value
digits String.[] = none
digits (String.◌∷◌ c s) = digits_value (String.◌∷◌ c s) 0

-- Whether `strconv.Atoi` succeeds: a sign, if any, and digits, within 64 bits.
unfoldable pub is_integer_text : String → Bool
unfolding digits
is_integer_text String.[] = false
is_integer_text (String.◌∷◌ c s) =
    if code c == b'-'
    then elim (digits s) [ none ↦ false | some n ↦ leb n 9223372036854775808 ]
    else if code c == b'+'
    then elim (digits s) [ none ↦ false | some n ↦ ltb n 9223372036854775808 ]
    else elim (digits (String.◌∷◌ c s)) [ none ↦ false | some n ↦ ltb n 9223372036854775808 ]

-- `TaggedUnion`.
unfoldable pub tagged_union : Cells → ℕ → Ty → Option TaggedInfo
unfolding underlying
tagged_union cells fuel t = elim (underlying cells fuel t) [
  | struct_type fs p untagged ↦ none
  | struct_type fs p (tagged tag vs auto) ↦ some (tagged tag vs auto)
  | _ ↦ none
]

-- The payload fields of a variant, positional ones with a name.
unfoldable pub raw_fields : Fields → Fields
unfolding is_integer_text
raw_fields field_nil = field_nil
raw_fields (field_cons l t fs) =
    field_cons (if is_integer_text l then "_" ++ l else l) t (raw_fields fs)

-- A struct for each variant that has a payload.
unfoldable pub raw_payload : Variants → Fields
unfolding raw_fields
raw_payload variant_nil = field_nil
raw_payload (variant_cons n v field_nil vs) = raw_payload vs
raw_payload (variant_cons n v (field_cons l t fs) vs) =
    field_cons n (struct_type (raw_fields (field_cons l t fs)) false untagged) (raw_payload vs)

abbrev pub raw_struct : Bool → Ty → Variants → Ty
raw_struct p tag vs =
    struct_type
      (field_cons "tag" tag (field_cons "payload" (union_type "" "" (raw_payload vs)) field_nil)) p
      untagged

-- `TaggedUnionRepr`; `none` where it answers false.
unfoldable pub tagged_union_repr : Cells → ℕ → Ty → Option Ty
unfolding underlying raw_payload
tagged_union_repr cells fuel t = elim (underlying cells fuel t) [
  | struct_type fs p untagged ↦ none
  | struct_type fs p (tagged tag vs true) ↦ none
  | struct_type fs p (tagged tag vs false) ↦ some (raw_struct p tag vs)
  | _ ↦ none
]

-- `TaggedUnionInfo.Variant`: the variant's value and fields, and its index.
unfoldable pub variant_from : Variants → String → ℕ → Option ((String × Fields) × ℕ)
variant_from variant_nil name i = none
variant_from (variant_cons n v fs vs) name i =
    let rest = variant_from vs name (i + 1) in if str_eq n name then some ((v, fs), i) else rest

-- The payload and the struct that the analyser makes for a tagged union of these variants.
unfoldable pub storage_payload : Variants → Fields
storage_payload variant_nil = field_nil
storage_payload (variant_cons n v field_nil vs) = storage_payload vs
storage_payload (variant_cons n v (field_cons l t fs) vs) =
    field_cons n (struct_type (field_cons l t fs) false untagged) (storage_payload vs)

unfoldable pub tagged_storage : Ty → Variants → Bool → Ty
unfolding storage_payload
tagged_storage tag vs auto =
    struct_type
      (field_cons "$tag" tag
        (field_cons "$payload" (union_type "" "" (storage_payload vs)) field_nil))
      false (tagged tag vs auto)
