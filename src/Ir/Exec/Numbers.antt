-- ===== src/Ir/Exec/Numbers.antt =====
-- ir/eval.go: the instructions on numbers.
use qk.Prelude.{ℕ, ◌^◌, Bool, true, false, ◌||◌, Option, none, some, ltb, if◌then◌else◌}
use qk.Types.Primitive.{f32}
use qk.Types.Syntax.{Ty, primitive}
use qk.Types.Equals.{Resolver, equals}
use qk.Ir.Int.{ℤ, pos, negsuc, is_zero, neg, quo, complement, Order, less, same, more, compare_ℤ}
use qk.Ir.Instr.{Operand}
use qk.Ir.Value.{
  FloatOps, EvalValue, not_integers, not_numbers, division_by_zero, shift_amount, Eval, ok, err,
  ◌>>=◌, or_err, eval_integer, eval_float, eval_bool,
}
use qk.Ir.Exec.Errors.{catch}
use qk.Ir.Exec.State.{Frame, Flow, yields, read_operand}

unfoldable pub both : {A B : Type 0} → Option A → Option B → Option (A × B)
both (some a) (some b) = some (a, b)
both _ _ = none

unfoldable pub compare_bool : Bool → Bool → Order
compare_bool true false = more
compare_bool false true = less
compare_bool _ _ = same

abbrev pub is_less : Order → Bool
is_less less = true
is_less _ = false

abbrev pub is_same : Order → Bool
is_same same = true
is_same _ = false

abbrev pub is_more : Order → Bool
is_more more = true
is_more _ = false

-- `IsUint64` and `Uint64`
unfoldable pub as_uint64 : ℤ → Option ℕ
as_uint64 (pos n) = if ltb n (2 ^ 64) then some n else none
as_uint64 (negsuc n) = none

module _ (F : FloatOps) (k : Resolver) (levels : ℕ) where
  open F use {Float, float_div, float_neg, round, is_nan, float_less}

  unfoldable pub integer_operands :
      Operand → Operand → Frame F k levels → Eval (ℤ × ℤ × Frame F k levels)
  integer_operands l r f = do
    (a, f') ← read_operand F k levels l f
    (b, f'') ← read_operand F k levels r f'
    x ← or_err not_integers a.integer
    y ← or_err not_integers b.integer
    ok (x, y, f'')

  -- `binaryInteger`
  unfoldable pub binary_integer :
      ℕ
      → Operand
      → Operand
      → (ℤ → ℤ → ℤ)
      → Frame F k levels
      → Eval (Frame F k levels × Flow F k levels)
  binary_integer d l r op f = do
    (x, y, f') ← integer_operands l r f
    yields F k levels d (eval_integer F (op x y) (f.function.value_type d)) f'

  -- `types.Underlying(frame.function.ValueType(dest)).Equals(types.PrimitiveF32)`; a destination
  -- always has a type.
  abbrev is_f32 : Option Ty → Bool
  is_f32 none = false
  is_f32 (some t) = equals k (k.base t) (primitive f32)

  -- `binaryNumber`, behind the operands.
  unfoldable pub number_result :
      ℕ
      → (ℤ → ℤ → ℤ)
      → (Float → Float → Float)
      → EvalValue Float
      → EvalValue Float
      → Frame F k levels
      → Eval (Frame F k levels × Flow F k levels)
  unfolding both
  number_result d op float_op a b f =
      let t = f.function.value_type d in
      elim (both a.float b.float) [
        | some (x, y) ↦
            yields F k levels d
              (eval_float F (if is_f32 t then round (float_op x y) else float_op x y) t) f
        | none ↦ elim (both a.integer b.integer) [
          | some (x, y) ↦ yields F k levels d (eval_integer F (op x y) t) f
          | none ↦ err not_numbers
        ]
      ]

  -- `binaryNumber`
  unfoldable pub binary_number :
      ℕ
      → Operand
      → Operand
      → (ℤ → ℤ → ℤ)
      → (Float → Float → Float)
      → Frame F k levels
      → Eval (Frame F k levels × Flow F k levels)
  binary_number d l r op float_op f = do
    (a, f') ← read_operand F k levels l f
    (b, f'') ← read_operand F k levels r f'
    number_result d op float_op a b f''

  abbrev quotient : ℕ → Bool → ℤ → Frame F k levels → Eval (Frame F k levels × Flow F k levels)
  quotient d by_zero q f =
      if by_zero
      then err division_by_zero
      else yields F k levels d (eval_integer F q (f.function.value_type d)) f

  -- `Quo` and `Rem` behind the test of the divisor.
  unfoldable pub divide :
      ℕ
      → Operand
      → Operand
      → (ℤ → ℤ → ℤ)
      → Frame F k levels
      → Eval (Frame F k levels × Flow F k levels)
  divide d l r op f = do (x, y, f') ← integer_operands l r f; quotient d (is_zero y) (op x y) f'

  -- The case of `Div`, which reads its operands again where they are no floats.
  unfoldable pub exec_div :
      ℕ → Operand → Operand → Frame F k levels → Eval (Frame F k levels × Flow F k levels)
  unfolding both
  exec_div d l r f = do
    (a, f') ← read_operand F k levels l f
    (b, f'') ← read_operand F k levels r f'
    elim (both a.float b.float) [
      | some (x, y) ↦
          yields F k levels d (eval_float F (float_div x y) (f.function.value_type d)) f''
      | none ↦ divide d l r quo f''
    ]

  -- The cases of the shifts; `IsUint64` of the amount.
  unfoldable pub shift :
      ℕ
      → Operand
      → Operand
      → (ℤ → ℕ → ℤ)
      → Frame F k levels
      → Eval (Frame F k levels × Flow F k levels)
  unfolding as_uint64
  shift d l r op f = do
    (x, y, f') ← integer_operands l r f
    n ← or_err shift_amount (as_uint64 y)
    yields F k levels d (eval_integer F (op x n) (f.function.value_type d)) f'

  -- The comparison of `compare`; none where a float is no number.
  unfoldable pub comparison : EvalValue Float → EvalValue Float → Option Order
  unfolding both compare_ℤ compare_bool
  comparison a b = elim (both a.integer b.integer) [
    | some (x, y) ↦ some (compare_ℤ x y)
    | none ↦ elim (both a.float b.float) [
      | some (x, y) ↦
          if is_nan x || is_nan y
          then none
          else some (if float_less x y then less else if float_less y x then more else same)
      | none ↦ some (compare_bool a.boolean b.boolean)
    ]
  ]

  -- `compare`
  unfoldable pub compare :
      ℕ
      → Operand
      → Operand
      → Bool
      → (Order → Bool)
      → Frame F k levels
      → Eval (Frame F k levels × Flow F k levels)
  compare d l r unordered predicate f = do
    (a, f') ← read_operand F k levels l f
    (b, f'') ← read_operand F k levels r f'
    yields F k levels d
        (eval_bool F (elim (comparison a b) [ none ↦ unordered | some c ↦ predicate c ])) f''

  -- The case of `BitwiseNot`; an operand that fails has the error of one that is no integer.
  unfoldable pub exec_bitwise_not :
      ℕ → Operand → Frame F k levels → Eval (Frame F k levels × Flow F k levels)
  unfolding catch
  exec_bitwise_not d o f = do
    (a, f') ← catch (λ _. not_integers) (read_operand F k levels o f)
    x ← or_err not_integers a.integer
    yields F k levels d (eval_integer F (complement x) (f.function.value_type d)) f'

  unfoldable pub exec_negate :
      ℕ → Operand → Frame F k levels → Eval (Frame F k levels × Flow F k levels)
  exec_negate d o f = do
    (a, f') ← read_operand F k levels o f
    elim a.float [
      | some x ↦ yields F k levels d (eval_float F (float_neg x) (f.function.value_type d)) f'
      | none ↦ elim a.integer [
        | some x ↦ yields F k levels d (eval_integer F (neg x) (f.function.value_type d)) f'
        | none ↦ err not_numbers
      ]
    ]
