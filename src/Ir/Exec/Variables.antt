-- ===== src/Ir/Exec/Variables.antt =====
-- ir/eval.go: the instructions on variables, pointers and fields.
use qk.Prelude.{
  ℕ, String, Option, none, some, List, [], ◌∷◌, ◌++◌, get_elem?, set?, ◌==◌, if◌then◌else◌,
}
use qk.Types.Syntax.{Ty}
use qk.Types.Equals.{Resolver}
use qk.Ir.Int.{pos}
use qk.Ir.Instr.{Operand, operand_type, Slot}
use qk.Ir.Value.{
  FloatOps, EvalPointer, EvalValue, unavailable_slot, invalid_pointer, out_of_range, Eval, ok, err,
  ◌>>=◌, or_err, Memory, plain, eval_integer, new_cell, elements, set_element,
}
use qk.Ir.Operand.{eval_field_path, zero_value, load_pointer, store_pointer}
use qk.Ir.Exec.Errors.{catch}
use qk.Ir.Exec.State.{Frame, Flow, set_slot, set_memory, yields, read_operand, stay}

-- `slotType`, the loop over the slots.
unfoldable pub slot_type : ℕ → List Slot → Option Ty
slot_type id [] = none
slot_type id (s ∷ ss) = if s.id == id then some s.typ else slot_type id ss

module _ (F : FloatOps) (k : Resolver) (levels : ℕ) where
  open F use {Float}

  -- Variables.
  unfoldable pub zero_slot : Option Ty → Memory F → Eval (EvalValue Float × Memory F)
  unfolding zero_value
  zero_slot none m = ok (eval_integer F (pos 0) none, m)
  zero_slot (some t) m = zero_value F k levels t m

  unfoldable pub exec_alloca : ℕ → Frame F k levels → Eval (Frame F k levels × Flow F k levels)
  unfolding slot_type zero_slot
  exec_alloca s f = do
    (v, m) ← zero_slot (slot_type s f.function.slots) f.memory
    let (c, m') = new_cell F v m
    ok (set_slot F k levels s c (set_memory F k levels m' f), stay)

  unfoldable pub read_slot : ℕ → Frame F k levels → Option (EvalValue Float)
  read_slot s f = elim (f.slots s) [ none ↦ none | some c ↦ get_elem? f.memory.cells c ]

  unfoldable pub exec_store :
      ℕ → Operand → Frame F k levels → Eval (Frame F k levels × Flow F k levels)
  unfolding set?
  exec_store s o f = do
    (v, f') ← read_operand F k levels o f
    elim (f'.slots s) [
      | none ↦
          let (c, m) = new_cell F v f'.memory in
          ok (set_slot F k levels s c (set_memory F k levels m f'), stay)
      | some c ↦ elim (set? f'.memory.cells c v) [
        | none ↦ err unavailable_slot
        | some cells ↦ ok (set_memory F k levels (record f'.memory { cells = cells }) f', stay)
      ]
    ]

  unfoldable pub exec_address_of :
      ℕ → ℕ → Frame F k levels → Eval (Frame F k levels × Flow F k levels)
  exec_address_of d s f = elim (f.slots s) [
    | none ↦ err unavailable_slot
    | some c ↦
        yields F k levels d
          (record (plain F (f.function.value_type d)) {
            place = some (record { root = c; path = [] });
          })
          f
  ]

  -- A pointer from an operand; every failure has the same error.
  unfoldable pub read_pointer : Operand → Frame F k levels → Eval (EvalPointer × Frame F k levels)
  unfolding catch
  read_pointer o f = do
    (v, f') ← catch (λ _. invalid_pointer) (read_operand F k levels o f)
    p ← or_err invalid_pointer v.place
    ok (p, f')

  unfoldable pub exec_field_address :
      ℕ → Operand → String → Frame F k levels → Eval (Frame F k levels × Flow F k levels)
  unfolding operand_type
  exec_field_address d o name f = do
    (p, f') ← read_pointer o f
    step ← eval_field_path k (operand_type o) name
    yields F k levels d
        (record (plain F (f.function.value_type d)) {
          place = some (record { root = p.root; path = p.path ++ step ∷ [] });
        })
        f'

  unfoldable pub exec_load_ptr :
      ℕ → Operand → Frame F k levels → Eval (Frame F k levels × Flow F k levels)
  exec_load_ptr d o f = do
    (p, f') ← read_pointer o f
    v ← load_pointer F k p f'.memory
    yields F k levels d v f'

  unfoldable pub exec_store_ptr :
      Operand → Operand → Frame F k levels → Eval (Frame F k levels × Flow F k levels)
  exec_store_ptr o w f = do
    (p, f') ← read_pointer o f
    (v, f'') ← read_operand F k levels w f'
    m ← store_pointer F k p v f''.memory
    ok (set_memory F k levels m f'', stay)

  unfoldable pub exec_insert_value :
      ℕ → Operand → Operand → ℕ → Frame F k levels → Eval (Frame F k levels × Flow F k levels)
  exec_insert_value d o w i f = do
    (a, f') ← read_operand F k levels o f
    (v, f'') ← read_operand F k levels w f'
    m ← or_err out_of_range (set_element F a.aggregate i v f''.memory)
    yields F k levels d (record a { typ = f.function.value_type d }) (set_memory F k levels m f'')

  unfoldable pub exec_extract_value :
      ℕ → Operand → ℕ → Frame F k levels → Eval (Frame F k levels × Flow F k levels)
  exec_extract_value d o i f = do
    (a, f') ← read_operand F k levels o f
    v ← or_err out_of_range (get_elem? (elements F f'.memory a.aggregate) i)
    yields F k levels d v f'
