-- ===== src/Lib.antt =====
-- Models of parts of the qk compiler, translated from the Go sources, with what they guarantee.
--
-- The compiler splits the files of a program into tokens (tokeniser/), loads its modules, orders them by their imports (loader/dependency.go),
-- checks them with the relations between types (types/type.go) and emits LLVM code, in which the
-- aggregates of foreign functions follow the target's C convention (codegen/llvm).
--
-- Types
--   Types/Primitive models the primitive types with IsSigned, IntegerRank, the coercions, the casts
--   and PromoteIntegers. Types/Syntax has the types that implement the Go interface `Type` as mutual
--   data types. A pointer `*AliasRef` holds the number of a cell, and `Cells` is the store that the
--   pointers `Target` lead to; a nil target is `none`. Types/Underlying is `Underlying`,
--   Types/Equals, Types/Coerce and Types/Cast are the methods Equals, CanCoerceTo and CanCastTo with
--   castCompatible, upgradesMutableAccess and CanExplicitCast. Types/Substitute has
--   DetachForSerialization, SubstituteParameters, Substitute and SubstituteSelf, and Types/Contains
--   the predicates HasSelfType, HasTypeParameter and HasUntyped. Types/Promote is PromoteNumeric and
--   CommonType, and Types/TaggedUnion is TaggedUnionRepr with the struct that sema/types.go makes of a
--   tagged union.
--   Aliases are followed on fuel, the number of cells that are followed; Equals of two aliases and
--   Underlying of a cycle of aliases do not end in the source where the fuel runs out here. CanCastTo
--   asks castCompatible, which asks CanCastTo again: `can_cast` takes the depth of such calls and
--   answers `none` where it did not suffice; a depth of two is enough between types that resolve.
--   Coercion is contravariant in a function's parameters: `coerced_from` is the same relation in the
--   other direction, so that the recursion is structural in its first type.
--
-- Abi
--   Abi/Align is alignTo, with Go's `&^` by the library's `bit_and`; Abi/Layout is typeSizeAlign, and
--   Abi/Chunk is abiChunk and abiScratchAllocation of codegen/llvm/foreign_abi.go. Abi/SysV
--   (abi_sysvamd64.go), Abi/Win64, Abi/Win32, Abi/SysVi386 and Abi/Aarch64 are the conventions, and
--   Abi/Generator chooses among them for foreignABIChunks, foreignABIReturnChunks,
--   foreignABIReturnUsesSRet and foreignABIReturnType. A Go panic, an index out of range too, is
--   `none`. The text of an LLVM type is a constructor of `ChunkType`, and the offset -1 is `none`.
--   Sizes are natural numbers without a bound: Go's `int` has 64 bits, and sizes near its end are not
--   modelled. Aliases are followed on fuel, which `Names` and `Emitter` carry.
--
--   Target is target/target.go, and Abi/Machine computes from a triple the widths of
--   codegen/llvm/target.go and the convention of foreignABIGenerator. A triple is a list of ASCII
--   codes, and what the Go runtime says of the host is an argument.
--
-- Tokeniser
--   Tokeniser/Token has the tokens of tokeniser/token.go with the locations of shared/utils.go.
--   Tokeniser/Cursor is the state of tokeniser/tokeniser.go with Peek, Next, Inc, AddToken and the
--   tests on the token before; Tokeniser/Read, Number and Text have ReadWord, ReadNumber,
--   HanldeEscape, ReadString and the comments, and Tokeniser/Step is Tokenise: `turn` is one round of
--   its loop. A text is a list of code points, and a place behind it reads as the code point 0, as it
--   does for Peek. Loops that stop at the end of the text run on the number of characters that are
--   left; those of ReadString, IgnoreComment and Tokenise, which need not stop, run on a limit, and
--   give `endless` where it is used up.
--   Tokeniser/Lexemes describes the tokens of a text with no tokeniser, and its children lead from
--   the code to that description. Tokeniser/Place has the states that stand at an offset of a text,
--   by which all the proofs are stated. Tokeniser/Termination, with Settles, and Endless say where
--   the loops end and where they do not; Numerals and RoundTrip say what is read back.
--
-- Ir
--   Ir/Instr has the instructions of ir/ir.go, and the others are the evaluator of ir/eval.go, which
--   runs functions at compile time. Ir/Int is the part of math/big that it uses, with SetString for
--   base 0. Ir/Value has its values and errors: a slice of fields is an array with an address, since a
--   copy of a value shares it, and a variable is a cell. Ir/Operand is operand, zeroEvalValue,
--   reinterpretEvalValue and the pointers, Ir/Exec the switch of `run` over the instructions with the
--   cases on numbers and on variables in its children, and Ir/Run its loops. The arithmetic of floats is the record `FloatOps`, an argument. The loop over
--   the blocks, which need not stop, takes rounds and gives `endless` where they are used up; the
--   nesting of calls is bounded by the depth, as by MaxDepth; zero values of nested types take levels,
--   one for each level of nesting. A panic of Go is `out_of_range`, and the texts of errors are left
--   out. Ir/Literal reads integer constants, Ir/Share is about copies of structs, Ir/Division
--   about quotients and remainders, and Ir/Unwind about errors that pass through calls.
--
-- Symbols
--   Symbols/Scope is symbols/scope.go on a store, in which a scope's number is its address, so that
--   a parent may still be defined into while its children exist. `resolve` takes fuel; one more than
--   the scope's number is enough where parents are older.
--
-- Loader
--   Loader/ModuleInfo is BuildModules of loader/moduleinfo.go with what it calls; of the syntax tree
--   a file's body keeps which nodes are module declarations.
--   Loader/Dependency is ModuleDependencyOrder, BuildDependencyGraph and TopoSort. A map is a
--   function to Option. The nested visits take fuel; one more than there are modules is enough.
--   `range` over a map is a list of its keys in any order.
--
-- Not modelled: the parser, the semantic analysis, the lowering to instructions, the instances
-- of generic functions and the printing of LLVM text; the command line and the build cache, which are processes and files.
pub mod Prelude
pub mod Target
pub mod Symbols
pub mod Types
pub mod Tokeniser
pub mod Ir
pub mod Abi
pub mod Loader
