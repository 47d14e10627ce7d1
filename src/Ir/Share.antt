-- ===== src/Ir/Share.antt =====
-- ir/eval.go: values that share the array of their fields. A copy of a struct is one of its address.
use qk.Prelude.{
  String, ℕ, zero, suc, ◌+◌, ◌≡◌, ◌≢◌, refl, sym, ap, ◌∙◌, false, none, some, List, [], ◌∷◌,
  get_elem?, set?, inl, inr, Option-cases, ==_refl, arith,
}
use qk.Types.Syntax.{Ty}
use qk.Types.Equals.{Resolver}
use qk.Ir.Instr.{value, load, store}
use qk.Ir.Value.{FloatOps, EvalPointer, EvalValue, Eval, ok, ◌>>=◌, Memory}
use qk.Ir.Operand.{
  in_array, read_spot, write_spot, load_path, load_pointer, store_path, store_pointer, operand,
}
use qk.Ir.Exec.{Frame, stay, set_value, set_memory, read_operand, read_slot, exec_store, exec}

module _ {ℓ} {A : Type ℓ} where
  set?-none :
      (x : A) (xs ys : List A) (i : ℕ) (v : A)
      → set? (x ∷ xs) (suc i) v ≡ some ys
      → set? xs i v ≢ none
  unfolding set?
  set?-none x xs ys i v h e = ground arith

  set?-suc :
      (x : A) (xs ys : List A) (i : ℕ) (v : A)
      → set? (x ∷ xs) (suc i) v ≡ some ys
      → (zs : List A) × (set? xs i v ≡ some zs) × (ys ≡ x ∷ zs)
  unfolding set?
  set?-suc x xs ys i v h = elim (Option-cases (set? xs i v)) [
    | inl e ↦ absurd (set?-none x xs ys i v h e)
    | inr (zs, e) ↦ (zs, e, ground arith)
  ]

  pub get_elem?-set?_self :
      (xs ys : List A) (i : ℕ) (v : A) → set? xs i v ≡ some ys → get_elem? ys i ≡ some v
  unfolding set?
  get_elem?-set?_self [] ys i v h = absurd (cc)
  get_elem?-set?_self (x ∷ xs) ys zero v h = ground arith
  get_elem?-set?_self (x ∷ xs) ys (suc i) v h =
      let (zs, e, o) = set?-suc x xs ys i v h in rw o (get_elem?-set?_self xs zs i v e)

  pub get_elem?-set?_other :
      (xs ys : List A) (i j : ℕ) (v : A)
      → i ≢ j
      → set? xs i v ≡ some ys
      → get_elem? ys j ≡ get_elem? xs j
  unfolding set?
  get_elem?-set?_other [] ys i j v n h = absurd (cc)
  get_elem?-set?_other (x ∷ xs) ys zero zero v n h = absurd (n refl)
  get_elem?-set?_other (x ∷ xs) ys zero (suc j) v n h = ground arith
  get_elem?-set?_other (x ∷ xs) ys (suc i) zero v n h =
      let (zs, e, o) = set?-suc x xs ys i v h in rw o refl
  get_elem?-set?_other (x ∷ xs) ys (suc i) (suc j) v n h =
      let (zs, e, o) = set?-suc x xs ys i v h in
      rw o (get_elem?-set?_other xs zs i j v (λ f. n (ap suc f)) e)

  set?-over :
      (xs : List A) (i : ℕ) (x v : A)
      → get_elem? xs i ≡ some x
      → (ys : List A) × (set? xs i v ≡ some ys)
  unfolding set?
  set?-over [] i x v h = absurd (cc)
  set?-over (y ∷ xs) zero x v h = (v ∷ xs, refl)
  set?-over (y ∷ xs) (suc i) x v h = let (ys, e) = set?-over xs i x v h in (y ∷ ys, ground arith)

module _ (F : FloatOps) (k : Resolver) where
  open F use {Float}

  -- The field of a struct.
  abbrev pub field_of : ℕ → ℕ → Ty → EvalPointer
  field_of c i t = record { root = c; path = record { index = i; typ = t; is_union = false } ∷ [] }

  load-field :
      (c i a : ℕ) (t : Ty) (m : Memory F) (w v : EvalValue Float) (vs : List (EvalValue Float))
      → get_elem? m.cells c ≡ some w
      → w.aggregate ≡ some a
      → get_elem? m.arrays a ≡ some vs
      → get_elem? vs i ≡ some v
      → load_pointer F k (field_of c i t) m ≡ ok v
  unfolding load_pointer load_path
  load-field c i a t m w v vs h e g l = rw h (rw e (rw g (rw l)))

  write-element :
      (a i : ℕ) (m : Memory F) (v : EvalValue Float) (vs vs' : List (EvalValue Float))
      (arrays : List (List (EvalValue Float)))
      → get_elem? m.arrays a ≡ some vs
      → set? vs i v ≡ some vs'
      → set? m.arrays a vs' ≡ some arrays
      → write_spot F k (in_array a i) v m ≡ some (record m { arrays = arrays })
  unfolding write_spot
  write-element a i m v vs vs' arrays g p q = ground arith

  store-field :
      (c i a : ℕ) (t : Ty) (m : Memory F) (w x v : EvalValue Float)
      (vs vs' : List (EvalValue Float)) (arrays : List (List (EvalValue Float)))
      → get_elem? m.cells c ≡ some w
      → w.aggregate ≡ some a
      → get_elem? m.arrays a ≡ some vs
      → get_elem? vs i ≡ some x
      → set? vs i v ≡ some vs'
      → set? m.arrays a vs' ≡ some arrays
      → store_pointer F k (field_of c i t) v m ≡ ok (record m { arrays = arrays })
  unfolding store_pointer store_path read_spot
  store-field c i a t m w x v vs vs' arrays h e g l p q =
      rw h (rw e (rw g (rw l (rw (write-element a i m v vs vs' arrays g p q)))))

  module _ (levels : ℕ) (f : Frame F k levels) (s s' d ci cj : ℕ) (t : Ty)
      (va : EvalValue Float) where
    -- A variable loaded and stored into another one.
    abbrev copied : List (EvalValue Float) → Frame F k levels
    copied cells =
        set_memory F k levels (record f.memory { cells = cells }) (set_value F k levels d va f)

    read_slot-value :
        f.slots s ≡ some ci
        → get_elem? f.memory.cells ci ≡ some va
        → read_slot F k levels s f ≡ some va
    unfolding read_slot
    read_slot-value h g = rw (h, read_slot) g

    store_loaded :
        (cells : List (EvalValue Float))
        → f.slots s' ≡ some cj
        → set? f.memory.cells cj va ≡ some cells
        → exec_store F k levels s' (value d t) (set_value F k levels d va f)
          ≡ ok (copied cells, stay)
    unfolding exec_store read_operand operand
    store_loaded cells h p = rw (==_refl d) (ground arith)

    exec_copy :
        (run : String → List (EvalValue Float) → Memory F → Eval (EvalValue Float × Memory F))
        (at index : ℕ) (cells : List (EvalValue Float))
        → f.slots s ≡ some ci
        → f.slots s' ≡ some cj
        → get_elem? f.memory.cells ci ≡ some va
        → set? f.memory.cells cj va ≡ some cells
        → (exec F k levels run at index (load d s) f >>= λ r.
            exec F k levels run at (index + 1) (store s' (value d t)) r.0)
          ≡ ok (copied cells, stay)
    unfolding exec
    exec_copy run at index cells h h' g p = rw (read_slot-value h g) (store_loaded cells h' p)

    -- Where a variable that holds a struct is loaded and stored into another one, a store into a
    -- field of the copy through a pointer is seen in the same field of the first variable.
    pub copy-shares :
        (run : String → List (EvalValue Float) → Memory F → Eval (EvalValue Float × Memory F))
        (at index i a : ℕ) (typ : Ty) (vs : List (EvalValue Float)) (w x v : EvalValue Float)
        → f.slots s ≡ some ci
        → f.slots s' ≡ some cj
        → ci ≢ cj
        → get_elem? f.memory.cells ci ≡ some va
        → get_elem? f.memory.cells cj ≡ some w
        → va.aggregate ≡ some a
        → get_elem? f.memory.arrays a ≡ some vs
        → get_elem? vs i ≡ some x
        → ((exec F k levels run at index (load d s) f >>= λ r.
              exec F k levels run at (index + 1) (store s' (value d t)) r.0)
            >>= λ r'.
                store_pointer F k (field_of cj i typ) v r'.0.memory
                >>= load_pointer F k (field_of ci i typ))
          ≡ ok v
    copy-shares run at index i a typ vs w x v h h' n g g' e l o =
        let (cells, p) = set?-over f.memory.cells cj w va g' in
        let (vs', q) = set?-over vs i x v o in
        let (arrays, r) = set?-over f.memory.arrays a vs vs' l in
        let m = (copied cells).memory in
        rw (exec_copy run at index cells h h' g p) (
          rw
            (store-field cj i a typ m va x v vs vs' arrays
              (get_elem?-set?_self f.memory.cells cells cj va p) e l o q r)
            (load-field ci i a typ (record m { arrays = arrays }) va v vs'
              (get_elem?-set?_other f.memory.cells cells cj ci va (λ c. n (sym c)) p ∙ g) e
              (get_elem?-set?_self f.memory.arrays arrays a vs' r)
              (get_elem?-set?_self vs vs' i v q)))
