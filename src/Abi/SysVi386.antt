-- ===== src/Abi/SysVi386.antt =====
-- codegen/llvm/abi_sysvi386.go: the aggregates of System V on i386.
use qk.Prelude.{max, true, Bool, List, [], ◌∷◌}
use qk.Abi.Layout.{Layout}
use qk.Abi.Chunk.{AbiChunk, byval, indirect}

unfoldable pub param_chunks : Layout → List AbiChunk
param_chunks l = indirect (byval (max 4 l.align)) ∷ []

unfoldable pub return_chunks : Layout → List AbiChunk
return_chunks l = []

unfoldable pub requires_sret : Layout → Bool
requires_sret l = true
