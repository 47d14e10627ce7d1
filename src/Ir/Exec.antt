-- ===== src/Ir/Exec.antt =====
-- ir/eval.go: the instructions of the evaluator.
mod Errors
mod State
mod Numbers
mod Variables
unfoldable pub use Errors.*
unfoldable pub use State.*
unfoldable pub use Numbers.*
unfoldable pub use Variables.*
use qk.Prelude.{ℕ, String, true, false, not, none, some, List, [], ◌∷◌, ◌==◌, if◌then◌else◌}
use qk.Types.Primitive.{void}
use qk.Types.Syntax.{primitive}
use qk.Types.Equals.{Resolver}
use qk.Ir.Int.{ℤ, ◌+ℤ◌, ◌-ℤ◌, ◌*ℤ◌, rem, and_ℤ, or_ℤ, xor_ℤ, shift_left as lsh, shift_right as rsh}
use qk.Ir.Instr.{
  Operand, CallInstr, Instr, add, sub, mul, div, modulo, bitwise_and, bitwise_or, bitwise_xor,
  shift_left, shift_right, cmp_eq, cmp_ne, cmp_lt, cmp_le, cmp_gt, cmp_ge, negate, logical_not,
  bitwise_not, alloca, load, load_global, store, store_global, load_ptr, store_ptr, insert_value,
  extract_value, address_of, field_address, call, jump, branch, give_back, unreachable, cast, other,
}
use qk.Ir.Value.{
  FloatOps, EvalValue, unavailable, uninitialized_slot, unavailable_global, reached_unreachable,
  Eval, ok, err, ◌>>=◌, or_err, Memory, plain, eval_bool,
}

module _ (F : FloatOps) (k : Resolver) (levels : ℕ) where
  open F use {Float, float_add, float_sub, float_mul}

  unfoldable pub read_operands :
      List Operand → Frame F k levels → Eval (List (EvalValue Float) × Frame F k levels)
  read_operands [] f = ok ([], f)
  read_operands (o ∷ os) f = do
    (v, f') ← read_operand F k levels o f
    (vs, f'') ← read_operands os f'
    ok (v ∷ vs, f'')

  -- The case of `Call`, by what a call of a function gives.
  unfoldable pub exec_call :
      (String → List (EvalValue Float) → Memory F → Eval (EvalValue Float × Memory F))
      → CallInstr
      → Frame F k levels
      → Eval (Frame F k levels × Flow F k levels)
  unfolding call_error catch
  exec_call run c f = if is_indirect c then err (unavailable (annotate unplaced c)) else do
    (vs, f') ← read_operands c.args f
    (v, m) ← catch (call_error c) (run c.name vs f'.memory)
    if c.dest == 0
        then ok (set_memory F k levels m f', stay)
        else yields F k levels c.dest v (set_memory F k levels m f')

  -- The instruction at an index of a block.
  unfoldable pub exec :
      (String → List (EvalValue Float) → Memory F → Eval (EvalValue Float × Memory F))
      → ℕ
      → ℕ
      → Instr
      → Frame F k levels
      → Eval (Frame F k levels × Flow F k levels)
  exec run at index (alloca s) f = exec_alloca F k levels s f
  exec run at index (load d s) f =
      or_err uninitialized_slot (read_slot F k levels s f) >>= λ v. yields F k levels d v f
  exec run at index (store s o) f = exec_store F k levels s o f
  exec run at index (address_of d s) f = exec_address_of F k levels d s f
  exec run at index (field_address d o name) f = exec_field_address F k levels d o name f
  exec run at index (load_ptr d o) f = exec_load_ptr F k levels d o f
  exec run at index (store_ptr o w) f = exec_store_ptr F k levels o w f
  exec run at index (insert_value d o w i) f = exec_insert_value F k levels d o w i f
  exec run at index (extract_value d o i) f = exec_extract_value F k levels d o i f
  exec run at index (load_global d name) f =
      or_err unavailable_global (f.memory.globals name) >>= λ v. yields F k levels d v f
  exec run at index (store_global name o) f = read_operand F k levels o f >>= λ r.
      ok (set_memory F k levels (set_global F k levels name r.0 r.1.memory) r.1, stay)
  exec run at index (add d l r) f = binary_number F k levels d l r ◌+ℤ◌ float_add f
  exec run at index (sub d l r) f = binary_number F k levels d l r ◌-ℤ◌ float_sub f
  exec run at index (mul d l r) f = binary_number F k levels d l r ◌*ℤ◌ float_mul f
  exec run at index (div d l r) f = exec_div F k levels d l r f
  exec run at index (modulo d l r) f = divide F k levels d l r rem f
  exec run at index (bitwise_and d l r) f = binary_integer F k levels d l r and_ℤ f
  exec run at index (bitwise_or d l r) f = binary_integer F k levels d l r or_ℤ f
  exec run at index (bitwise_xor d l r) f = binary_integer F k levels d l r xor_ℤ f
  exec run at index (shift_left d l r) f = shift F k levels d l r lsh f
  exec run at index (shift_right d l r) f = shift F k levels d l r rsh f
  exec run at index (bitwise_not d o) f = exec_bitwise_not F k levels d o f
  exec run at index (cmp_eq d l r) f = compare F k levels d l r false is_same f
  exec run at index (cmp_ne d l r) f = compare F k levels d l r true (λ c. not (is_same c)) f
  exec run at index (cmp_lt d l r) f = compare F k levels d l r false is_less f
  exec run at index (cmp_le d l r) f = compare F k levels d l r false (λ c. not (is_more c)) f
  exec run at index (cmp_gt d l r) f = compare F k levels d l r false is_more f
  exec run at index (cmp_ge d l r) f = compare F k levels d l r false (λ c. not (is_less c)) f
  exec run at index (logical_not d o) f =
      read_operand F k levels o f >>= λ r. yields F k levels d (eval_bool F (not r.0.boolean)) r.1
  exec run at index (negate d o) f = exec_negate F k levels d o f
  exec run at index (cast d o t) f =
      read_operand F k levels o f >>= λ r. yields F k levels d (record r.0 { typ = some t }) r.1
  exec run at index (call c) f = exec_call run c f
  exec run at index (jump b) f = ok (f, go b)
  exec run at index (branch o yes_block no_block) f = read_operand F k levels o f >>= λ r.
      ok (r.1, go (if r.0.boolean then yes_block else no_block))
  exec run at index (give_back none) f = ok (f, done (plain F (some (primitive void))))
  exec run at index (give_back (some o)) f = read_operand F k levels o f >>= λ r. ok (r.1, done r.0)
  exec run at index unreachable f = err reached_unreachable
  exec run at index (other i) f = err (unavailable (at_origin (f.function.origins at index)))
