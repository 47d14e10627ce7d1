-- ===== src/Types/Cast/Depth.antt =====
-- types/type.go: how deep the calls of `CanCastTo` and `castCompatible` go.
use qk.Prelude.{
  ℕ, zero, suc, String, Option, none, some, Bool, true, false, ◌||◌, ◌≡◌, refl, arith,
  if◌then◌else◌,
}
use qk.Types.Syntax.{Ty, defined, alias_ref, Cells}
use qk.Types.Underlying.{underlying, follow_alias, target}
use qk.Types.Equals.{Resolver, resolver, equals}
use qk.Types.Cast.{
  upgrades_mutable_access, cast_flat, cast_compatible, cast_step, can_cast, is_defined,
  can_explicit_cast,
}

-- A type that is no name.
abbrev pub is_resolved : Ty → Bool
is_resolved (defined m n u g as') = false
is_resolved (alias_ref m n r) = false
is_resolved _ = true

cast_step-of_resolved :
    (again : Ty → Ty → Option Bool) (k : Resolver) (a b : Ty)
    → is_resolved a ≡ true
    → cast_step again k a b ≡ some (cast_flat k a b)
unfolding cast_step
cast_step-of_resolved again k (defined m n u g as') b h = cc
cast_step-of_resolved again k (alias_ref m n r) b h = cc
cast_step-of_resolved again k _ b h = refl

can_cast-of_resolved :
    (k : Resolver) (depth : ℕ) (a b : Ty)
    → is_resolved a ≡ true
    → can_cast k (suc depth) a b ≡ some (cast_flat k a b)
unfolding can_cast
can_cast-of_resolved k depth a b h = cast_step-of_resolved (can_cast k depth) k a b h

-- Where every name resolves, `castCompatible` asks `CanCastTo` of two resolved types only.
cast_compatible-of_resolved :
    (k : Resolver) (depth : ℕ) (a b : Ty)
    → is_resolved (k.base a) ≡ true
    → is_resolved (k.base b) ≡ true
    → cast_compatible (can_cast k (suc depth)) k a b
      ≡ some (
          if upgrades_mutable_access (k.base a) (k.base b)
          then false
          else equals k (k.base a) (k.base b)
            || (cast_flat k (k.base a) (k.base b) || cast_flat k (k.base b) (k.base a)))
unfolding cast_compatible
cast_compatible-of_resolved k depth a b ha hb = ground (
  arith,
  can_cast-of_resolved k depth (k.base a) (k.base b) ha,
  can_cast-of_resolved k depth (k.base b) (k.base a) hb,
)

pub underlying-of_resolved :
    (cells : Cells) (fuel : ℕ) (t : Ty) → is_resolved t ≡ true → underlying cells fuel t ≡ t
unfolding underlying
underlying-of_resolved cells fuel (defined m n u g as') h = cc
underlying-of_resolved cells fuel (alias_ref m n r) h = cc
underlying-of_resolved cells fuel _ h = refl

underlying-of_unresolved :
    (cells : Cells) (fuel : ℕ) (m n : String) (r : Option ℕ)
    → target cells r ≡ none
    → underlying cells fuel (alias_ref m n r) ≡ alias_ref m n r
unfolding underlying follow_alias
underlying-of_unresolved cells zero m n r h = refl
underlying-of_unresolved cells (suc fuel) m n r h = ground arith

cast_compatible-of_none :
    (again : Ty → Ty → Option Bool) (k : Resolver) (a b : Ty)
    → upgrades_mutable_access (k.base a) (k.base b) ≡ false
    → equals k (k.base a) (k.base b) ≡ false
    → again (k.base a) (k.base b) ≡ none
    → cast_compatible again k a b ≡ none
unfolding cast_compatible
cast_compatible-of_none again k a b hu he hn = ground arith

abbrev pub Answers : Option Bool → Type 0
Answers o = (r : Bool) × (o ≡ some r)

module _ (cells : Cells) (fuel : ℕ) where
  cast_compatible-Answers :
      (depth : ℕ) (a b : Ty)
      → is_resolved (underlying cells fuel a) ≡ true
      → is_resolved (underlying cells fuel b) ≡ true
      → Answers
          (cast_compatible (can_cast (resolver cells fuel) (suc depth)) (resolver cells fuel) a b)
  cast_compatible-Answers depth a b ha hb =
      (_, cast_compatible-of_resolved (resolver cells fuel) depth a b ha hb)

  can_cast-Answers :
      (depth : ℕ) (a b : Ty)
      → is_resolved (underlying cells fuel a) ≡ true
      → is_resolved (underlying cells fuel b) ≡ true
      → Answers (can_cast (resolver cells fuel) (suc (suc depth)) a b)
  unfolding can_cast cast_step underlying
  can_cast-Answers depth (defined m n u g as') b ha hb =
      cast_compatible-Answers depth u (underlying cells fuel b) ha
        (rw (underlying-of_resolved cells fuel (underlying cells fuel b) hb) hb)
  can_cast-Answers depth (alias_ref m n r) b ha hb =
      cast_compatible-Answers depth (alias_ref m n r) b ha hb
  can_cast-Answers depth _ b ha hb = (_, refl)

  -- Where both types resolve to a type that is no name, a nesting of at least two calls of
  -- CanCastTo is enough for CanExplicitCast to answer.
  pub can_explicit_cast_total :
      (depth : ℕ) (a b : Ty)
      → is_resolved (underlying cells fuel a) ≡ true
      → is_resolved (underlying cells fuel b) ≡ true
      → Answers (can_explicit_cast (resolver cells fuel) (suc (suc depth)) a b)
  unfolding can_explicit_cast
  can_explicit_cast_total depth a b ha hb =
      let (r, e) = can_cast-Answers depth a b ha hb in
      let (s, f) = cast_compatible-Answers (suc depth) a b ha hb in
      (if r then true else if is_defined a || is_defined b then s else false, ground arith)

  -- A cast from an alias with no target to a type that resolves and does not equal it gets no
  -- answer at any depth of calls.
  pub can_cast-of_unresolved_alias :
      (depth : ℕ) (m n : String) (r : Option ℕ) (b : Ty)
      → target cells r ≡ none
      → is_resolved (underlying cells fuel b) ≡ true
      → equals (resolver cells fuel) (alias_ref m n r) (underlying cells fuel b) ≡ false
      → can_cast (resolver cells fuel) depth (alias_ref m n r) b ≡ none
  unfolding can_cast
  can_cast-of_unresolved_alias zero m n r b hr hb he = refl
  can_cast-of_unresolved_alias (suc depth) m n r b hr hb he =
      let stays = underlying-of_resolved cells fuel (underlying cells fuel b) hb in
      cast_compatible-of_none (can_cast (resolver cells fuel) depth) (resolver cells fuel)
        (alias_ref m n r) b
        (rw (underlying-of_unresolved cells fuel m n r hr) (unfold upgrades_mutable_access in refl))
        (rw (underlying-of_unresolved cells fuel m n r hr) he)
        (rw (underlying-of_unresolved cells fuel m n r hr) (
          can_cast-of_unresolved_alias depth m n r (underlying cells fuel b) hr (rw stays hb)
            (rw stays he)))
