-- ===== src/Symbols/Scope/Resolution.antt =====
-- symbols/scope.go: what definitions change for resolution.
use mathlib.Core.Path.{subst}
use qk.Prelude.{
  some_inj, ℕ, zero, suc, ◌<◌, String, true, false, Option, none, some, str_eq, str_eq_refl, ◌==◌,
  ==_refl, ◌≡◌, refl, ◌∙◌, ap, inl, inr, Bool-cases, arith,
}
use qk.Symbols.Scope.{Symbol, Scope, Store, write, with_symbol, define, resolve}

-- Every parent is an older scope.
abbrev pub IsStore : Store → Type 0
IsStore st = (s p : ℕ) → (st.scopes s).parent ≡ some p → p < s

-- The chain of scopes from `s` on, to what `resolve` finds.
pub data Resolves (st : Store) (name : String) : ℕ → Option Symbol → Type 0 where
  here :
      {s : ℕ} (sym : Symbol) → (st.scopes s).symbols name ≡ some sym → Resolves st name s (some sym)
  nowhere :
      {s : ℕ}
      → (st.scopes s).symbols name ≡ none
      → (st.scopes s).parent ≡ none
      → Resolves st name s none
  outer :
      {s p : ℕ} {r : Option Symbol}
      → (st.scopes s).symbols name ≡ none
      → (st.scopes s).parent ≡ some p
      → Resolves st name p r
      → Resolves st name s r

resolve-step :
    (st : Store) (name : String) (fuel s : ℕ) (own : Option Symbol) (up : Option ℕ)
    → (st.scopes s).symbols name ≡ own
    → (st.scopes s).parent ≡ up
    → ((p : ℕ) → (st.scopes s).parent ≡ some p → Resolves st name p (resolve fuel st p name))
    → Resolves st name s (elim own [
      | some sym ↦ some sym
      | none ↦ elim up [ none ↦ none | some p ↦ resolve fuel st p name ]
    ])
resolve-step st name fuel s (some sym) up h k rec = here sym h
resolve-step st name fuel s none none h k rec = nowhere h k
resolve-step st name fuel s none (some p) h k rec = outer h k (rec p k)

-- Where every parent is an older scope, Resolve finds the innermost definition of the name on the
-- chain of parents, or that there is none; as many rounds as the scope's number and one are
-- enough.
pub resolve-Resolves :
    (st : Store) (name : String) (fuel s : ℕ)
    → IsStore st
    → s < fuel
    → Resolves st name s (resolve fuel st s name)
unfolding resolve
resolve-Resolves st name zero s ok lt = elim lt [ ]
resolve-Resolves st name (suc fuel) s ok lt =
    resolve-step st name fuel s ((st.scopes s).symbols name) (st.scopes s).parent refl refl
      λ p k. resolve-Resolves st name fuel p ok (omega (arith, ok s p k))

define-inv :
    (s : ℕ) (sym : Symbol) (st st' : Store) (own : Option Symbol)
    → elim own [ some old ↦ none | none ↦ some (write s (with_symbol sym (st.scopes s)) st) ]
      ≡ some st'
    → (own ≡ none) × (write s (with_symbol sym (st.scopes s)) st ≡ st')
define-inv s sym st st' none h = (refl, some_inj h)
define-inv s sym st st' (some old) h = cc

-- Two stores with the same parents, which agree on a name.
abbrev Agree : Store → Store → String → Type 0
Agree st st' name =
    (i : ℕ)
    → ((st'.scopes i).symbols name ≡ (st.scopes i).symbols name)
      × ((st'.scopes i).parent ≡ (st.scopes i).parent)

same_step :
    (st st' : Store) (name : String) (fuel : ℕ) (own : Option Symbol) (up : Option ℕ)
    → ((p : ℕ) → resolve fuel st' p name ≡ resolve fuel st p name)
    → elim own [
      | some sym ↦ some sym
      | none ↦ elim up [ none ↦ none | some p ↦ resolve fuel st' p name ]
    ]
      ≡ elim own [
        | some sym ↦ some sym
        | none ↦ elim up [ none ↦ none | some p ↦ resolve fuel st p name ]
      ]
same_step st st' name fuel (some sym) up k = refl
same_step st st' name fuel none none k = refl
same_step st st' name fuel none (some p) k = k p

resolve-cong :
    (st st' : Store) (name : String) (fuel i : ℕ)
    → Agree st st' name
    → resolve fuel st' i name ≡ resolve fuel st i name
unfolding resolve
resolve-cong st st' name zero i h = refl
resolve-cong st st' name (suc fuel) i h =
    (λ z. elim ((h i).0 z) [
      | some sym ↦ some sym
      | none ↦ elim ((h i).1 z) [ none ↦ none | some p ↦ resolve fuel st' p name ]
    ])
    ∙ same_step st st' name fuel ((st.scopes i).symbols name) (st.scopes i).parent
        λ p. resolve-cong st st' name fuel p h

write-same : (s i : ℕ) (sc : Scope) (st : Store) → (s == i) ≡ true → (write s sc st).scopes i ≡ sc
unfolding write
write-same s i sc st e = rw e refl

with_symbol-other :
    (sym : Symbol) (sc : Scope) (name : String)
    → str_eq sym.name name ≡ false
    → (with_symbol sym sc).symbols name ≡ sc.symbols name
unfolding with_symbol
with_symbol-other sym sc name h = rw h refl

with_symbol-own : (sym : Symbol) (sc : Scope) → (with_symbol sym sc).symbols sym.name ≡ some sym
unfolding with_symbol
with_symbol-own sym sc = rw (str_eq_refl sym.name) refl

with_symbol-parent : (sym : Symbol) (sc : Scope) → (with_symbol sym sc).parent ≡ sc.parent
unfolding with_symbol
with_symbol-parent sym sc = refl

==→eq : (s i : ℕ) → (s == i) ≡ true → s ≡ i
==→eq s i h = ground arith

write-Agree :
    (s : ℕ) (sym : Symbol) (st : Store) (name : String)
    → str_eq sym.name name ≡ false
    → Agree st (write s (with_symbol sym (st.scopes s)) st) name
write-Agree s sym st name h i = elim (Bool-cases (s == i)) [
  | inl e ↦
      let at = write-same s i (with_symbol sym (st.scopes s)) st e in
      (
        ap (λ sc. sc.symbols name) at
            ∙ with_symbol-other sym (st.scopes s) name h
            ∙ ap (λ j. (st.scopes j).symbols name) (==→eq s i e),
        ap (λ sc. sc.parent) at
            ∙ with_symbol-parent sym (st.scopes s)
            ∙ ap (λ j. (st.scopes j).parent) (==→eq s i e),
      )
  | inr e ↦ unfold write in (rw e refl, rw e refl)
]

resolve-own :
    (fuel s : ℕ) (st : Store) (name : String) (sym : Symbol)
    → (st.scopes s).symbols name ≡ some sym
    → resolve (suc fuel) st s name ≡ some sym
unfolding resolve
resolve-own fuel s st name sym h = λ z. elim (h z) [
  | some own ↦ some own
  | none ↦ elim (st.scopes s).parent [ none ↦ none | some p ↦ resolve fuel st p name ]
]

found :
    (s fuel : ℕ) (sym : Symbol) (st : Store)
    → resolve (suc fuel) (write s (with_symbol sym (st.scopes s)) st) s sym.name ≡ some sym
found s fuel sym st = resolve-own fuel s _ sym.name sym (
    ap (λ sc. sc.symbols sym.name) (write-same s s (with_symbol sym (st.scopes s)) st (==_refl s))
    ∙ with_symbol-own sym (st.scopes s))

-- After a successful Define the name, which the scope did not have, resolves to the new symbol
-- there, and every other name resolves as before in every scope.
pub define-resolve :
    (s fuel : ℕ) (sym : Symbol) (st st' : Store)
    → define s sym st ≡ some st'
    → ((st.scopes s).symbols sym.name ≡ none)
      × (resolve (suc fuel) st' s sym.name ≡ some sym)
      × ((i : ℕ) (name : String)
          → str_eq sym.name name ≡ false
          → resolve fuel st' i name ≡ resolve fuel st i name)
unfolding define
define-resolve s fuel sym st st' h =
    let (none_before, e) = define-inv s sym st st' ((st.scopes s).symbols sym.name) h in
    (
      none_before,
      subst (λ t. resolve (suc fuel) t s sym.name ≡ some sym) e (found s fuel sym st),
      λ i name ne.
          subst (λ t. resolve fuel t i name ≡ resolve fuel st i name) e
            (resolve-cong st (write s (with_symbol sym (st.scopes s)) st) name fuel i
              (write-Agree s sym st name ne)),
    )
