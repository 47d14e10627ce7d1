-- ===== src/Ir/Instr.antt =====
-- ir/ir.go: operands, instructions and functions. The alternatives of `Operand` by its `Kind` are
-- constructors, and so are the Go structs that implement `Instr`. Of attributes, linkage and generic
-- references the model keeps what the evaluator looks at.
use qk.Prelude.{ℕ, Bool, false, String, Option, List}
use qk.Types.Primitive.{bool, u8, usz}
use qk.Types.Syntax.{Ty, primitive, pointer}

mutual
  pub data Operand : Type 0 where
    value : ℕ → Ty → Operand
    int_const float_const : List ℕ → Ty → Operand
    bool_const : Bool → Operand
    null_const zero_const : Ty → Operand
    struct_const : Ty → Operands → Operand
    c_string_const : String → Operand
    function_const : String → Ty → Operand
    sizeof_const : Ty → Operand
    binary_const : String → Operand → Operand → Ty → Operand

  pub data Operands : Type 0 where
    none_left : Operands
    and_then : Operand → Operands → Operands

-- The field `Type`.
unfoldable pub operand_type : Operand → Ty
operand_type (value i t) = t
operand_type (int_const s t) = t
operand_type (float_const s t) = t
operand_type (bool_const b) = primitive bool
operand_type (null_const t) = t
operand_type (zero_const t) = t
operand_type (struct_const t os) = t
operand_type (c_string_const s) = pointer (primitive u8) false
operand_type (function_const s t) = t
operand_type (sizeof_const t) = primitive usz
operand_type (binary_const s l r t) = t

-- The file and the offsets of a `Location`, by which the evaluator compares places.
pub record Place : Type 0 where
  pub file : String
  pub offset : ℕ
  pub end_offset : ℕ

pub record SourceOrigin : Type 0 where
  pub name : String
  pub loc : Place

-- `Call`; of `Generic` and `Requirement` whether they are there.
pub record CallInstr : Type 0 where
  pub dest : ℕ
  pub name : String
  pub callee : Option Operand
  pub args : List Operand
  pub is_generic : Bool
  pub has_requirement : Bool
  pub source_name : String
  pub source_loc : Place

-- The instructions that the evaluator has no case for.
pub data OtherInstr : Type 0 where
  logical_and logical_or alloca_array address_of_global element_address inline_asm : OtherInstr
  sizeof alignof offsetof string_const : OtherInstr

pub data Instr : Type 0 where
  add sub mul div modulo bitwise_and bitwise_or bitwise_xor shift_left shift_right :
      ℕ → Operand → Operand → Instr
  cmp_eq cmp_ne cmp_lt cmp_le cmp_gt cmp_ge : ℕ → Operand → Operand → Instr
  negate logical_not bitwise_not : ℕ → Operand → Instr
  alloca : ℕ → Instr
  load : ℕ → ℕ → Instr
  load_global : ℕ → String → Instr
  store : ℕ → Operand → Instr
  store_global : String → Operand → Instr
  load_ptr : ℕ → Operand → Instr
  store_ptr : Operand → Operand → Instr
  -- destination, aggregate, value and index; a negative index does not occur
  insert_value : ℕ → Operand → Operand → ℕ → Instr
  extract_value : ℕ → Operand → ℕ → Instr
  address_of : ℕ → ℕ → Instr
  field_address : ℕ → Operand → String → Instr
  call : CallInstr → Instr
  jump : ℕ → Instr
  branch : Operand → ℕ → ℕ → Instr
  give_back : Option Operand → Instr
  unreachable : Instr
  cast : ℕ → Operand → Ty → Instr
  other : OtherInstr → Instr

pub record Slot : Type 0 where
  pub id : ℕ
  pub typ : Ty

pub record Parameter : Type 0 where
  pub name : String
  pub slot : ℕ

pub record Block : Type 0 where
  pub id : ℕ
  pub instrs : List Instr

pub record Function : Type 0 where
  pub name : String
  pub parameters : List Parameter
  pub slots : List Slot
  pub value_type : ℕ → Option Ty
  pub origins : ℕ → ℕ → Option SourceOrigin
  pub blocks : List Block
  pub entry : ℕ
