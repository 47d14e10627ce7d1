-- ===== src/Types/Substitute/Parameters.antt =====
-- types/type.go: the generic parameters of a type, at all places that `Substitute` goes to.
use mathlib.Core.List.{append-nil, append_assoc}
use qk.Prelude.{ℕ, String, Option, none, some, List, [], ◌∷◌, ◌++◌, ◌≡◌, refl, sym, ap, ◌∙◌}
use qk.Types.Syntax.{
  Ty, OptTy, Tys, Fields, TaggedInfo, Variants, Trait, Methods, Params, type_parameter, defined,
  struct_type, union_type, pointer, slice, array, function, multiple_return, trait_type,
  trait_pointer, absent, present, ty_nil, ty_cons, field_nil, field_cons, untagged, tagged,
  variant_nil, variant_cons, trait, method_nil, method_cons, param_nil, param_cons,
}
use qk.Types.Substitute.{
  Bindings, bound, substitute, substitute_opt, substitute_types, substitute_fields, substitute_info,
  substitute_variants, substitute_trait, substitute_methods, substitute_params,
}

-- The owner and the index of each parameter, from left to right.
unfoldable mutual
  pub all_parameters : Ty → List (String × ℕ)
  all_parameters (type_parameter o n i c) = (o, i) ∷ []
  all_parameters (defined m n u g as') = all_parameters u ++ all_parameters_types as'
  all_parameters (pointer t m) = all_parameters t
  all_parameters (slice t m) = all_parameters t
  all_parameters (array t n) = all_parameters t
  all_parameters (struct_type fs p i) = all_parameters_fields fs ++ all_parameters_info i
  all_parameters (union_type m n fs) = all_parameters_fields fs
  all_parameters (trait_type r) = all_parameters_trait r
  all_parameters (trait_pointer r m) = all_parameters_trait r
  all_parameters (function ps r v c) =
      all_parameters_types ps ++ (all_parameters r ++ all_parameters_opt c)
  all_parameters (multiple_return ts) = all_parameters_types ts
  all_parameters _ = []

  pub all_parameters_opt : OptTy → List (String × ℕ)
  all_parameters_opt (present t) = all_parameters t
  all_parameters_opt absent = []

  pub all_parameters_types : Tys → List (String × ℕ)
  all_parameters_types (ty_cons t ts) = all_parameters t ++ all_parameters_types ts
  all_parameters_types ty_nil = []

  pub all_parameters_fields : Fields → List (String × ℕ)
  all_parameters_fields (field_cons l t fs) = all_parameters t ++ all_parameters_fields fs
  all_parameters_fields field_nil = []

  pub all_parameters_info : TaggedInfo → List (String × ℕ)
  all_parameters_info (tagged t vs auto) = all_parameters t ++ all_parameters_variants vs
  all_parameters_info untagged = []

  pub all_parameters_variants : Variants → List (String × ℕ)
  all_parameters_variants (variant_cons n v fs vs) =
      all_parameters_fields fs ++ all_parameters_variants vs
  all_parameters_variants variant_nil = []

  pub all_parameters_trait : Trait → List (String × ℕ)
  all_parameters_trait (trait m n ms any) = all_parameters_methods ms

  pub all_parameters_methods : Methods → List (String × ℕ)
  all_parameters_methods (method_cons n gs k ps r d ms) =
      all_parameters_params gs
      ++ (all_parameters_types ps ++ (all_parameters r ++ all_parameters_methods ms))
  all_parameters_methods method_nil = []

  pub all_parameters_params : Params → List (String × ℕ)
  all_parameters_params (param_cons o n i c gs) = all_parameters_opt c ++ all_parameters_params gs
  all_parameters_params param_nil = []

-- The parameters of what replaces each of these.
unfoldable pub replace_each :
    (String × ℕ → List (String × ℕ)) → List (String × ℕ) → List (String × ℕ)
replace_each f [] = []
replace_each f (p ∷ ps) = f p ++ replace_each f ps

pub replace_each-append :
    (f : String × ℕ → List (String × ℕ)) (ps qs : List (String × ℕ))
    → replace_each f (ps ++ qs) ≡ replace_each f ps ++ replace_each f qs
unfolding replace_each
replace_each-append f [] qs = refl
replace_each-append f (p ∷ ps) qs =
    ap (λ l. f p ++ l) (replace_each-append f ps qs)
    ∙ sym (append_assoc (f p) (replace_each f ps) (replace_each f qs))

-- An unbound parameter stays, and a bound one gives way to the parameters of its replacement.
unfoldable pub replacement : Bindings → String × ℕ → List (String × ℕ)
unfolding all_parameters
replacement σ (o, i) = elim (σ o i) [ none ↦ (o, i) ∷ [] | some r ↦ all_parameters r ]

module _ (σ : Bindings) where
  pub joined :
      {xs ys : List (String × ℕ)} (ps qs : List (String × ℕ))
      → xs ≡ replace_each (replacement σ) ps
      → ys ≡ replace_each (replacement σ) qs
      → xs ++ ys ≡ replace_each (replacement σ) (ps ++ qs)
  joined ps qs h k = (λ z. h z ++ k z) ∙ sym (replace_each-append (replacement σ) ps qs)

  replaced :
      (o n : String) (i : ℕ) (c : OptTy) (m : Option Ty)
      → all_parameters (elim m [ none ↦ type_parameter o n i c | some r ↦ r ])
        ≡ elim m [ none ↦ (o, i) ∷ [] | some r ↦ all_parameters r ] ++ []
  unfolding all_parameters
  replaced o n i c none = refl
  replaced o n i c (some r) = sym (append-nil (all_parameters r))

  mutual
    unfolding all_parameters substitute replace_each bound replacement

    pub all_parameters-substitute :
        (t : Ty) → all_parameters (substitute σ t) ≡ replace_each (replacement σ) (all_parameters t)
    all_parameters-substitute (type_parameter o n i c) = replaced o n i c (σ o i)
    all_parameters-substitute (defined m n u g as') =
        joined (all_parameters u) _ (all_parameters-substitute u)
          (all_parameters_types-substitute as')
    all_parameters-substitute (pointer t m) = all_parameters-substitute t
    all_parameters-substitute (slice t m) = all_parameters-substitute t
    all_parameters-substitute (array t n) = all_parameters-substitute t
    all_parameters-substitute (struct_type fs p i) =
        joined (all_parameters_fields fs) _ (all_parameters_fields-substitute fs)
          (all_parameters_info-substitute i)
    all_parameters-substitute (union_type m n fs) = all_parameters_fields-substitute fs
    all_parameters-substitute (trait_type r) = all_parameters_trait-substitute r
    all_parameters-substitute (trait_pointer r m) = all_parameters_trait-substitute r
    all_parameters-substitute (function ps r v c) =
        joined (all_parameters_types ps) _ (all_parameters_types-substitute ps) (
          joined (all_parameters r) _ (all_parameters-substitute r)
            (all_parameters_opt-substitute c))
    all_parameters-substitute (multiple_return ts) = all_parameters_types-substitute ts
    all_parameters-substitute _ = refl

    all_parameters_opt-substitute :
        (c : OptTy)
        → all_parameters_opt (substitute_opt σ c)
          ≡ replace_each (replacement σ) (all_parameters_opt c)
    all_parameters_opt-substitute (present t) = all_parameters-substitute t
    all_parameters_opt-substitute absent = refl

    all_parameters_types-substitute :
        (ts : Tys)
        → all_parameters_types (substitute_types σ ts)
          ≡ replace_each (replacement σ) (all_parameters_types ts)
    all_parameters_types-substitute (ty_cons t ts) =
        joined (all_parameters t) _ (all_parameters-substitute t)
          (all_parameters_types-substitute ts)
    all_parameters_types-substitute ty_nil = refl

    all_parameters_fields-substitute :
        (fs : Fields)
        → all_parameters_fields (substitute_fields σ fs)
          ≡ replace_each (replacement σ) (all_parameters_fields fs)
    all_parameters_fields-substitute (field_cons l t fs) =
        joined (all_parameters t) _ (all_parameters-substitute t)
          (all_parameters_fields-substitute fs)
    all_parameters_fields-substitute field_nil = refl

    all_parameters_info-substitute :
        (i : TaggedInfo)
        → all_parameters_info (substitute_info σ i)
          ≡ replace_each (replacement σ) (all_parameters_info i)
    all_parameters_info-substitute (tagged t vs auto) =
        joined (all_parameters t) _ (all_parameters-substitute t)
          (all_parameters_variants-substitute vs)
    all_parameters_info-substitute untagged = refl

    all_parameters_variants-substitute :
        (vs : Variants)
        → all_parameters_variants (substitute_variants σ vs)
          ≡ replace_each (replacement σ) (all_parameters_variants vs)
    all_parameters_variants-substitute (variant_cons n v fs vs) =
        joined (all_parameters_fields fs) _ (all_parameters_fields-substitute fs)
          (all_parameters_variants-substitute vs)
    all_parameters_variants-substitute variant_nil = refl

    all_parameters_trait-substitute :
        (r : Trait)
        → all_parameters_trait (substitute_trait σ r)
          ≡ replace_each (replacement σ) (all_parameters_trait r)
    all_parameters_trait-substitute (trait m n ms any) = all_parameters_methods-substitute ms

    all_parameters_methods-substitute :
        (ms : Methods)
        → all_parameters_methods (substitute_methods σ ms)
          ≡ replace_each (replacement σ) (all_parameters_methods ms)
    all_parameters_methods-substitute (method_cons n gs k ps r d ms) =
        joined (all_parameters_params gs) _ (all_parameters_params-substitute gs) (
          joined (all_parameters_types ps) _ (all_parameters_types-substitute ps) (
            joined (all_parameters r) _ (all_parameters-substitute r)
              (all_parameters_methods-substitute ms)))
    all_parameters_methods-substitute method_nil = refl

    all_parameters_params-substitute :
        (gs : Params)
        → all_parameters_params (substitute_params σ gs)
          ≡ replace_each (replacement σ) (all_parameters_params gs)
    all_parameters_params-substitute (param_cons o n i c gs) =
        joined (all_parameters_opt c) _ (all_parameters_opt-substitute c)
          (all_parameters_params-substitute gs)
    all_parameters_params-substitute param_nil = refl
