-- ===== src/Abi/Layout/TaggedUnion.antt =====
-- types/type.go and codegen/llvm/foreign_abi.go: the layout of the plain type of a tagged union.
use qk.Prelude.{ℕ, Bool, true, false, some, ◌>>=◌, ◌≡◌, refl, sym, ◌∙◌, ap, some_inj}
use qk.Types.Syntax.{
  Ty, Fields, Variants, Cells, union_type, field_nil, field_cons, variant_nil, variant_cons,
}
use qk.Types.Underlying.{underlying}
use qk.Types.TaggedUnion.{
  raw_fields, raw_payload, raw_struct, tagged_union_repr, storage_payload, tagged_storage,
}
use qk.Abi.Layout.{
  Machine, Layout, layout, AliasLayout, place, overlay, pad, layout_of, struct_layout, union_layout,
}

module _ (al : AliasLayout) (e : Machine) where
  raw_fields-layout :
      (fs : Fields) (acc : Layout)
      → struct_layout al e (raw_fields fs) acc ≡ struct_layout al e fs acc
  unfolding raw_fields layout_of
  raw_fields-layout field_nil acc = refl
  raw_fields-layout (field_cons l t fs) acc =
      λ z. layout_of al e t >>= λ k. raw_fields-layout fs (place acc k) z

  raw_payload-layout :
      (vs : Variants) (acc : Layout)
      → union_layout al e (raw_payload vs) acc ≡ union_layout al e (storage_payload vs) acc
  unfolding raw_payload storage_payload layout_of
  raw_payload-layout variant_nil acc = refl
  raw_payload-layout (variant_cons n v field_nil vs) acc = raw_payload-layout vs acc
  raw_payload-layout (variant_cons n v (field_cons l t fs) vs) acc = λ z.
      (raw_fields-layout (field_cons l t fs) (layout 0 1) z >>= λ k. some (pad k)) >>= λ k.
      raw_payload-layout vs (overlay acc k) z

  payload-layout :
      (vs : Variants)
      → layout_of al e (union_type "" "" (raw_payload vs))
        ≡ layout_of al e (union_type "" "" (storage_payload vs))
  unfolding layout_of
  payload-layout vs = λ z. raw_payload-layout vs (layout 0 1) z >>= λ k. some (pad k)

  struct-layout :
      (tag : Ty) (vs : Variants) (auto : Bool)
      → layout_of al e (raw_struct false tag vs) ≡ layout_of al e (tagged_storage tag vs auto)
  unfolding layout_of tagged_storage
  struct-layout tag vs auto = λ z.
      (layout_of al e tag >>= λ k.
      payload-layout vs z >>= λ k'. some (place (place (layout 0 1) k) k'))
      >>= λ acc. some (pad acc)

  -- The plain type that TaggedUnionRepr gives for the struct that the analyser makes of a tagged
  -- union has the layout of that struct, and so have their payload unions, whatever the alias
  -- layouts and the target.
  pub tagged_union_repr-layout :
      (cells : Cells) (fuel : ℕ) (tag : Ty) (vs : Variants) (auto : Bool) {r : Ty}
      → tagged_union_repr cells fuel (tagged_storage tag vs auto) ≡ some r
      → (layout_of al e r ≡ layout_of al e (tagged_storage tag vs auto))
        × (layout_of al e (union_type "" "" (raw_payload vs))
            ≡ layout_of al e (union_type "" "" (storage_payload vs)))
  unfolding tagged_union_repr tagged_storage underlying
  tagged_union_repr-layout cells fuel tag vs true h = cc
  tagged_union_repr-layout cells fuel tag vs false h =
      (ap (layout_of al e) (sym (some_inj h)) ∙ struct-layout tag vs false, payload-layout vs)
