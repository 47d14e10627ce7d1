-- ===== src/Prelude/Lists.antt =====
-- Lists measured and indexed by native numbers, and the chain of fallible steps.
use Prim.Native.Nat.{ℕ, zero, suc, ◌+◌, ◌<◌}
use mathlib.Core.Path.{◌≡◌, refl, ap}
use mathlib.Core.Option.{Option, none, some}
use mathlib.Core.List.{List, [], ◌∷◌, ◌++◌}
use native.Mathlib.Omega.{arith}

infixl 5 ◌>>=◌
abbrev pub ◌>>=◌ {ℓ κ} : {A : Type ℓ} {B : Type κ} → Option A → (A → Option B) → Option B
none >>= f = none
some a >>= f = f a

module _ {ℓ} {A : Type ℓ} where
  abbrev pub length : List A → ℕ
  length [] = 0
  length (x ∷ xs) = suc (length xs)

  abbrev pub get_elem? : List A → ℕ → Option A
  get_elem? [] i = none
  get_elem? (x ∷ xs) zero = some x
  get_elem? (x ∷ xs) (suc i) = get_elem? xs i

  pub length-append : (xs ys : List A) → length (xs ++ ys) ≡ length xs + length ys
  length-append [] ys = omega arith
  length-append (x ∷ xs) ys = omega (arith, length-append xs ys)

  -- A write out of bounds is `none`, Go's panic.
  unfoldable pub set? : List A → ℕ → A → Option (List A)
  set? [] i v = none
  set? (x ∷ xs) zero v = some (v ∷ xs)
  set? (x ∷ xs) (suc i) v = elim (set? xs i v) [ none ↦ none | some ys ↦ some (x ∷ ys) ]

  abbrev pub replicate : ℕ → A → List A
  replicate zero a = []
  replicate (suc n) a = a ∷ replicate n a

  pub length-replicate : (n : ℕ) (a : A) → length (replicate n a) ≡ n
  length-replicate zero a = refl
  length-replicate (suc n) a = ap suc (length-replicate n a)

-- Some value, and what holds of it.
abbrev pub Returns {ℓ} : {A : Type ℓ} → (A → Type 0) → Option A → Type 0
Returns P none = ⊥
Returns P (some a) = P a

pub Returns-bind {ℓ κ} :
    {A : Type ℓ} {B : Type κ} (P : A → Type 0) (Q : B → Type 0) (m : Option A) (f : A → Option B)
    → Returns P m
    → ((a : A) → m ≡ some a → P a → Returns Q (f a))
    → Returns Q (m >>= f)
Returns-bind P Q none f h k = absurd h
Returns-bind P Q (some a) f h k = k a refl h

module _ {ℓ} {A : Type ℓ} where
  pub get_elem?-in : (xs : List A) (i : ℕ) → i < length xs → (a : A) × (get_elem? xs i ≡ some a)
  get_elem?-in [] i h = elim h [ ]
  get_elem?-in (x ∷ xs) zero h = (x, refl)
  get_elem?-in (x ∷ xs) (suc i) h = get_elem?-in xs i (omega arith)

  pub set?-in :
      (xs : List A) (i : ℕ) (v : A)
      → i < length xs
      → (ys : List A) × (set? xs i v ≡ some ys) × (length ys ≡ length xs)
  unfolding set?
  set?-in [] i v h = elim h [ ]
  set?-in (x ∷ xs) zero v h = (v ∷ xs, refl, refl)
  set?-in (x ∷ xs) (suc i) v h =
      let (ys, e, l) = set?-in xs i v (omega arith) in (x ∷ ys, ground arith, ap suc l)

pub some_inj {ℓ} : {A : Type ℓ} {a b : A} → some a ≡ some b → a ≡ b
some_inj e = cc

-- What holds of the value, if there is one.
abbrev pub Holds {ℓ} : {A : Type ℓ} → (A → Type 0) → Option A → Type 0
Holds P none = Unit
Holds P (some a) = P a

pub Holds-bind {ℓ κ} :
    {A : Type ℓ} {B : Type κ} (P : A → Type 0) (Q : B → Type 0) (m : Option A) (f : A → Option B)
    → Holds P m
    → ((a : A) → P a → Holds Q (f a))
    → Holds Q (m >>= f)
Holds-bind P Q none f h k = tt
Holds-bind P Q (some a) f h k = k a h

pub Holds-of_eq {ℓ} :
    {A : Type ℓ} (P : A → Type 0) (m : Option A) {a : A} → Holds P m → m ≡ some a → P a
Holds-of_eq P none h e = cc
Holds-of_eq P (some b) {a} h e = rw (← some_inj e) h

pub Holds-self : {A : Type 0} (m : Option A) → Holds (λ a. m ≡ some a) m
Holds-self none = tt
Holds-self (some a) = refl

pub Holds-any : {A : Type 0} (m : Option A) → Holds (λ a. Unit) m
Holds-any none = tt
Holds-any (some a) = tt

-- Inversion of a successful chain.
pub bind-eq-some {ℓ κ} :
    {A : Type ℓ} {B : Type κ} (m : Option A) (f : A → Option B) {b : B}
    → (m >>= f) ≡ some b
    → (a : A) × (m ≡ some a) × (f a ≡ some b)
bind-eq-some none f h = cc
bind-eq-some (some a) f h = (a, refl, h)

pub Returns-of_eq {ℓ} :
    {A : Type ℓ} (P : A → Type 0) (m : Option A) {a : A} → m ≡ some a → P a → Returns P m
Returns-of_eq P m e h = rw e h

pub Returns-eq {ℓ} :
    {A : Type ℓ} (P : A → Type 0) (m : Option A) → Returns P m → (a : A) × (m ≡ some a) × P a
Returns-eq P none h = absurd h
Returns-eq P (some a) h = (a, refl, h)
