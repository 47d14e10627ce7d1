-- ===== src/Ir/Division.antt =====
-- ir/eval.go: the quotient and the remainder of integers at compile time.
use native.Mathlib.Nat.{div-add-mod, mod-lt}
use qk.Prelude.{
  String, ℕ, zero, suc, ◌+◌, ◌%◌, ◌<◌, ◌≡◌, refl, ap, ◌∙◌, true, false, ◌⊎◌, inl, inr, Option, some,
  List, [], ◌∷◌, arith,
}
use qk.Types.Syntax.{Ty}
use qk.Types.Equals.{Resolver}
use qk.Ir.Instr.{Instr, value, div, modulo, mul, add, give_back}
use qk.Ir.Value.{FloatOps, EvalValue, Eval, ok, Memory, eval_integer}
use qk.Ir.Operand.{operand}
use qk.Ir.Exec.{
  Frame, exec, exec_div, divide, binary_number, number_result, integer_operands, read_operand, both,
  stay, set_value,
}
use qk.Ir.Run.{run_instrs, returns}
use qk.Ir.Int.{ℤ, pos, negsuc, sub_ℕ, magnitude, is_zero, is_negative, quo, rem, ◌+ℤ◌, ◌*ℤ◌}

quo-rem : (a b : ℤ) → 0 < magnitude b → quo a b *ℤ b +ℤ rem a b ≡ a
unfolding quo rem ◌+ℤ◌ ◌*ℤ◌
quo-rem (pos a) (pos b) h = let e = div-add-mod a b in ground (arith, e)
quo-rem (pos a) (negsuc b) h = let e = div-add-mod a (suc b) in ground (arith, e)
quo-rem (negsuc a) (pos b) h = let e = div-add-mod (suc a) b in ground (arith, e)
quo-rem (negsuc a) (negsuc b) h = let e = div-add-mod (suc a) (suc b) in ground (arith, e)

magnitude-rem : (a b : ℤ) → 0 < magnitude b → magnitude (rem a b) < magnitude b
unfolding rem
magnitude-rem (pos a) b h = let e = mod-lt a h in ground (arith, e)
magnitude-rem (negsuc a) b h = let e = mod-lt (suc a) h in ground (arith, e)

negated : (n : ℕ) → (is_zero (sub_ℕ 0 n) ≡ true) ⊎ (is_negative (sub_ℕ 0 n) ≡ true)
negated zero = inl refl
negated (suc n) = ground arith

rem-negative : (a b : ℤ) → (is_zero (rem a b) ≡ true) ⊎ (is_negative (rem a b) ≡ is_negative a)
unfolding rem
rem-negative (pos a) b = inr refl
rem-negative (negsuc a) b = negated (magnitude (negsuc a) % magnitude b)

module _ (F : FloatOps) (k : Resolver) (levels : ℕ) where
  open F use {Float}

  -- The value `i` is this integer.
  abbrev pub HoldsInteger : Frame F k levels → ℕ → ℤ → Type 0
  HoldsInteger f i x = (t : Option Ty) × (f.values i ≡ some (eval_integer F x t))

  module _ (f : Frame F k levels) (d i j : ℕ) (x y : ℤ) (t u : Ty) (a : HoldsInteger f i x)
      (b : HoldsInteger f j y) where
    divide_integers :
        (op : ℤ → ℤ → ℤ)
        → is_zero y ≡ false
        → divide F k levels d (value i t) (value j u) op f
          ≡ ok (set_value F k levels d (eval_integer F (op x y) (f.function.value_type d)) f, stay)
    unfolding divide integer_operands read_operand operand
    divide_integers op h = rw (a.1) (rw (b.1) (rw h refl))

    div_integers :
        is_zero y ≡ false
        → exec_div F k levels d (value i t) (value j u) f
          ≡ ok (set_value F k levels d (eval_integer F (quo x y) (f.function.value_type d)) f, stay)
    unfolding exec_div read_operand operand both
    div_integers h = rw (a.1) (rw (b.1) (divide_integers quo h))

    number_integers :
        (op : ℤ → ℤ → ℤ) (float_op : Float → Float → Float)
        → binary_number F k levels d (value i t) (value j u) op float_op f
          ≡ ok (set_value F k levels d (eval_integer F (op x y) (f.function.value_type d)) f, stay)
    unfolding binary_number number_result read_operand operand both
    number_integers op float_op = rw (a.1) (rw (b.1) refl)

  module _ (run : String → List (EvalValue Float) → Memory F → Eval (EvalValue Float × Memory F))
      (at index : ℕ) where
    run_instrs-stay :
        (i : Instr) (is : List Instr) (f f' : Frame F k levels)
        → exec F k levels run at index i f ≡ ok (f', stay)
        → run_instrs F k levels run at index (i ∷ is) f
          ≡ run_instrs F k levels run at (index + 1) is f'
    unfolding run_instrs
    run_instrs-stay i is f f' e = rw e refl

    run_instrs-give_back :
        (f : Frame F k levels) (i : ℕ) (t : Ty) (v : EvalValue Float)
        → f.values i ≡ some v
        → run_instrs F k levels run at index (give_back (some (value i t)) ∷ []) f
          ≡ ok (returns v f.memory)
    unfolding run_instrs exec read_operand operand
    run_instrs-give_back f i t v e = rw e refl

  -- q = x / y; r = x % y; return q * y + r, for the values 0 and 1.
  abbrev pub division_block : Ty → List Instr
  division_block t =
      div 2 (value 0 t) (value 1 t)
      ∷ modulo 3 (value 0 t) (value 1 t)
      ∷ mul 4 (value 2 t) (value 1 t)
      ∷ add 5 (value 4 t) (value 3 t)
      ∷ give_back (some (value 5 t))
      ∷ []

  division_block_lem :
      (run : String → List (EvalValue Float) → Memory F → Eval (EvalValue Float × Memory F))
      (at index : ℕ) (f : Frame F k levels) (t : Ty) (x y : ℤ)
      → HoldsInteger f 0 x
      → HoldsInteger f 1 y
      → 0 < magnitude y
      → run_instrs F k levels run at index (division_block t) f
        ≡ ok (returns (eval_integer F x (f.function.value_type 5)) f.memory)
  unfolding exec
  division_block_lem run at index f t x y (tx, a) (ty, b) h =
      let nonzero : is_zero y ≡ false = ground arith in
      let f₁ = set_value F k levels 2 (eval_integer F (quo x y) (f.function.value_type 2)) f in
      let f₂ = set_value F k levels 3 (eval_integer F (rem x y) (f.function.value_type 3)) f₁ in
      let f₃ =
        set_value F k levels 4 (eval_integer F (quo x y *ℤ y) (f.function.value_type 4)) f₂ in
      let f₄ =
        set_value F k levels 5 (eval_integer F (quo x y *ℤ y +ℤ rem x y) (f.function.value_type 5))
          f₃ in
      run_instrs-stay run at index _ _ f f₁ (div_integers f 2 0 1 x y t t (tx, a) (ty, b) nonzero)
      ∙ run_instrs-stay run at (index + 1) _ _ f₁ f₂
          (divide_integers f₁ 3 0 1 x y t t (tx, a) (ty, b) rem nonzero)
      ∙ run_instrs-stay run at (index + 1 + 1) _ _ f₂ f₃ (
          number_integers f₂ 4 2 1 (quo x y) y t t (f.function.value_type 2, refl) (ty, b) ◌*ℤ◌
            (F.float_mul))
      ∙ run_instrs-stay run at (index + 1 + 1 + 1) _ _ f₃ f₄ (
          number_integers f₃ 5 4 3 (quo x y *ℤ y) (rem x y) t t (f.function.value_type 4, refl)
            (f.function.value_type 3, refl) ◌+ℤ◌ (F.float_add))
      ∙ run_instrs-give_back run at (index + 1 + 1 + 1 + 1) f₄ 5 t _ refl
      ∙ ap (λ n. ok (returns (eval_integer F n (f.function.value_type 5)) f.memory)) (quo-rem x y h)

  -- Where the values 0 and 1 of a frame are integers x and y, and y is not zero, a block that
  -- returns x / y * y + x % y gives x, with the memory unchanged, and the remainder is smaller
  -- than y in magnitude, and is zero or has the sign of x.
  pub run_instrs-division :
      (run : String → List (EvalValue Float) → Memory F → Eval (EvalValue Float × Memory F))
      (at index d : ℕ) (f : Frame F k levels) (t : Ty) (x y : ℤ)
      → HoldsInteger f 0 x
      → HoldsInteger f 1 y
      → 0 < magnitude y
      → (run_instrs F k levels run at index (division_block t) f
          ≡ ok (returns (eval_integer F x (f.function.value_type 5)) f.memory))
        × ((r : ℤ) × (exec F k levels run at index (modulo d (value 0 t) (value 1 t)) f
              ≡ ok (set_value F k levels d (eval_integer F r (f.function.value_type d)) f, stay))
            × (magnitude r < magnitude y)
            × ((is_zero r ≡ true) ⊎ (is_negative r ≡ is_negative x)))
  unfolding exec
  run_instrs-division run at index d f t x y a b h = (
    division_block_lem run at index f t x y a b h,
    (
      rem x y,
      divide_integers f d 0 1 x y t t a b rem (ground arith),
      magnitude-rem x y h,
      rem-negative x y,
    ),
  )
