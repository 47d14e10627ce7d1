-- ===== src/Ir/Tests.antt =====
-- Runs of the model of ir/eval.go on small functions.
use qk.Prelude.{
  ℕ, ◌+◌, ◌-◌, ◌*◌, ◌<◌, ◌⊎◌, ◌==◌, ltb, String, true, false, none, some, List, [], ◌∷◌, ◌≡◌, refl,
  arith, if◌then◌else◌, str_eq,
}
use qk.Target.{codes}
use qk.Types.Primitive.{i32, prim_eq, is_float}
use qk.Types.Syntax.{Ty, primitive}
use qk.Types.Underlying.{underlying}
use qk.Types.Equals.{Resolver, resolver, equals}
use qk.Tokeniser.Number.{decimal, number_of, digit_value}
use qk.Ir.Int.{ℤ, pos, negsuc, magnitude, is_zero, is_negative, with_sign, ◌+ℤ◌}
use qk.Ir.Instr.{int_const, value, CallInstr, modulo, alloca, load, store, add, give_back, Function}
use qk.Ir.Value.{
  FloatOps, EvalValue, unavailable, eval_integer, plain, Eval, ok, err, ◌>>=◌, Memory,
}
use qk.Ir.Operand.{operand, load_pointer, store_pointer}
use qk.Ir.Exec.{
  Frame, set_value, stay, unplaced, read_operand, binary_number, number_result, exec_alloca,
  read_slot, exec_store, exec,
}
use qk.Ir.Run.{run_function, run_instrs, returns}
use qk.Ir.Literal.{operand-printed, operand-leading_zero}
use qk.Ir.Share.{field_of, copy-shares}
use qk.Ir.Division.{division_block, run_instrs-division}
use qk.Ir.Unwind.{unwind, report, unwind-report}

-- Floats that are whole numbers.
abbrev whole : FloatOps
whole = record {
  Float = ℕ;
  float_zero = 0;
  float_add = λ x y. x + y;
  float_sub = λ x y. x - y;
  float_mul = λ x y. x * y;
  float_div = λ x y. x;
  float_neg = λ x. x;
  round = λ x. x;
  is_nan = λ x. false;
  float_less = ltb;
  parse = λ s. some (number_of 10 0 s);
  bits64 = λ x. x;
  bits32 = λ x. x;
  from_bits64 = λ x. x;
  from_bits32 = λ x. x;
}

abbrev no_aliases : Resolver
no_aliases = resolver (λ c. none) 1

abbrev int : Ty
int = primitive i32

abbrev empty_memory : Memory whole
empty_memory = record { cells = []; arrays = []; globals = λ name. none }

abbrev twice : Function
twice = record {
  name = "twice";
  parameters = record { name = "x"; slot = 0 } ∷ [];
  slots = record { id = 0; typ = int } ∷ [];
  value_type = λ v. some int;
  origins = λ b i. none;
  blocks =
      record {
        id = 0;
        instrs =
            alloca 0
            ∷ store 0 (value 1 int)
            ∷ load 2 0
            ∷ add 3 (value 2 int) (value 2 int)
            ∷ give_back (some (value 3 int))
            ∷ [];
      }
      ∷ [];
  entry = 0;
}

abbrev result_of : Eval (EvalValue ℕ × Memory whole) → Eval (EvalValue ℕ)
result_of r = r >>= λ p. ok p.0

sample_run :
    result_of (
      run_function whole no_aliases 2
        (λ name. if str_eq name "twice" then some twice else none)
        3
        4
        "twice"
        (eval_integer whole (pos 21) (some int) ∷ [])
        empty_memory)
    ≡ ok (eval_integer whole (pos 42) (some int))
unfolding run_function str_eq exec exec_alloca equals underlying prim_eq is_float exec_store
    read_operand read_slot binary_number number_result ◌+ℤ◌
sample_run = refl

operand-printed_example :
    (operand whole no_aliases 2 (int_const (decimal 42) int) (λ v. none) empty_memory
      ≡ ok (eval_integer whole (pos 42) (some int), empty_memory))
    × (operand whole no_aliases 2 (int_const (b'-' ∷ decimal 42) int) (λ v. none) empty_memory
        ≡ ok (eval_integer whole (with_sign true 42) (some int), empty_memory))
operand-printed_example = operand-printed whole no_aliases 2 int 42 (λ v. none) empty_memory

operand-leading_zero_example :
    operand whole no_aliases 2 (int_const (codes "010") int) (λ v. none) empty_memory
    ≡ ok (eval_integer whole (pos (number_of 8 0 (codes "10"))) (some int), empty_memory)
unfolding digit_value
operand-leading_zero_example =
    operand-leading_zero whole no_aliases 2 int b'1' (codes "0") (λ v. none) empty_memory
      (refl, (refl, tt))

abbrev one_field : EvalValue ℕ
one_field = record (plain whole (some int)) { aggregate = some 0 }

abbrev seven : EvalValue ℕ
seven = eval_integer whole (pos 7) (some int)

-- Two variables of a struct type; the first holds a struct with one field.
abbrev two_variables : Frame whole no_aliases 2
two_variables = record {
  function = twice;
  values = λ v. none;
  slots = λ s. some s;
  memory = record {
    cells = one_field ∷ plain whole (some int) ∷ [];
    arrays = (eval_integer whole (pos 1) (some int) ∷ []) ∷ [];
    globals = λ name. none;
  };
}

abbrev no_calls : String → List (EvalValue ℕ) → Memory whole → Eval (EvalValue ℕ × Memory whole)
no_calls name vs m = err (unavailable unplaced)

copy-shares_example :
    ((exec whole no_aliases 2 no_calls 0 0 (load 5 0) two_variables >>= λ r.
    exec whole no_aliases 2 no_calls 0 1 (store 1 (value 5 int)) r.0)
      >>= λ r'.
          store_pointer whole no_aliases (field_of whole no_aliases 1 0 int) seven r'.0.memory
          >>= load_pointer whole no_aliases (field_of whole no_aliases 0 0 int))
    ≡ ok seven
copy-shares_example =
    copy-shares whole no_aliases 2 two_variables 0 1 5 0 1 int one_field no_calls 0 0 0 0 int
      (eval_integer whole (pos 1) (some int) ∷ []) (plain whole (some int))
      (eval_integer whole (pos 1) (some int)) seven refl refl (omega arith) refl refl refl refl refl

abbrev call_at : String → ℕ → CallInstr
call_at name n = record {
  dest = 1;
  name = name;
  callee = none;
  args = [];
  is_generic = false;
  has_requirement = false;
  source_name = name;
  source_loc = record { file = "main.qk"; offset = n; end_offset = n + 3 };
}

unwind-report_example :
    unwind (call_at "g" 20 ∷ call_at "f" 50 ∷ []) (unavailable unplaced)
    ≡ unavailable (report unplaced (call_at "g" 20 ∷ call_at "f" 50 ∷ []))
unwind-report_example = unwind-report unplaced (call_at "g" 20 ∷ call_at "f" 50 ∷ [])

-- The values 0 and 1 are -7 and 2.
abbrev operands_frame : Frame whole no_aliases 2
operands_frame = record two_variables {
  values = λ v.
      if v == 0
      then some (eval_integer whole (negsuc 6) (some int))
      else if v == 1
      then some (eval_integer whole (pos 2) (some int))
      else none;
}

run_instrs-division_example :
    (run_instrs whole no_aliases 2 no_calls 0 0
        (division_block whole no_aliases 2 int)
        operands_frame
      ≡ ok (returns (eval_integer whole (negsuc 6) (some int)) operands_frame.memory))
    × ((r : ℤ) × (exec whole no_aliases 2 no_calls 0 0
            (modulo 9 (value 0 int) (value 1 int))
            operands_frame
          ≡ ok (
            set_value whole no_aliases 2 9 (eval_integer whole r (some int)) operands_frame,
            stay,
          ))
        × (magnitude r < magnitude (pos 2))
        × ((is_zero r ≡ true) ⊎ (is_negative r ≡ is_negative (negsuc 6))))
run_instrs-division_example =
    run_instrs-division whole no_aliases 2 no_calls 0 0 9 operands_frame int (negsuc 6) (pos 2)
      (some int, refl) (some int, refl) (omega arith)
