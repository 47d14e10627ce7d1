-- ===== src/Abi/Generator.antt =====
-- codegen/llvm/foreign_abi.go: the choice among the calling conventions' chunks, and the LLVM return
-- type of a foreign function.
pub mod Laws
use qk.Prelude.{ℕ, true, false, Bool, Option, none, some, ◌>>=◌, List, [], ◌∷◌, if◌then◌else◌}
use qk.Types.Syntax.{Ty, Cells, struct_type, union_type, slice, array}
use qk.Types.Underlying.{underlying}
use qk.Abi.Layout.{Machine, Layout, layout_of}
use qk.Abi.Chunk.{AbiChunk, ChunkType}
use qk.Abi.SysV.{Names, names, sysv_param_chunks, sysv_requires_sret}
use qk.Abi.Aarch64
use qk.Abi.Win32
use qk.Abi.Win64
use qk.Abi.SysVi386

-- The implementations of `foreignABIGenerator`.
pub data Generator : Type 0 where
  aarch64 : Bool → Generator
  win32 sysv_i386 win64 sysv_amd64 : Generator

-- What the emitter knows: the target, the alias cells and the depth of aliases followed.
pub record Emitter : Type 0 where
  pub machine : Machine
  pub cells : Cells
  pub fuel : ℕ
  -- `foreignABIGenerator()`
  pub generator : Option Generator

abbrev pub emitter_names : Emitter → Names
emitter_names e = names e.cells e.machine e.fuel

abbrev pub size_align : Emitter → Ty → Option Layout
size_align e t = layout_of (emitter_names e).layout_at e.machine t

unfoldable pub aggregate_param_chunks : Generator → Emitter → Ty → Option (List AbiChunk)
aggregate_param_chunks (aarch64 linux) e t = do
  l ← size_align e t
  some (Aarch64.param_chunks linux (Aarch64.homogeneous_float_aggregate e.cells e.fuel t) l)
aggregate_param_chunks win32 e t = do l ← size_align e t; some (Win32.param_chunks l)
aggregate_param_chunks sysv_i386 e t = do l ← size_align e t; some (SysVi386.param_chunks l)
aggregate_param_chunks win64 e t = do l ← size_align e t; some (Win64.param_chunks l)
aggregate_param_chunks sysv_amd64 e t = sysv_param_chunks (emitter_names e) e.machine t

unfoldable pub aggregate_return_chunks : Generator → Emitter → Ty → Option (List AbiChunk)
aggregate_return_chunks (aarch64 linux) e t = do
  l ← size_align e t
  some (Aarch64.return_chunks (Aarch64.homogeneous_float_aggregate e.cells e.fuel t) l)
aggregate_return_chunks win32 e t = do l ← size_align e t; some (Win32.return_chunks l)
aggregate_return_chunks sysv_i386 e t = some []
aggregate_return_chunks win64 e t = do l ← size_align e t; some (Win64.param_chunks l)
aggregate_return_chunks sysv_amd64 e t = sysv_param_chunks (emitter_names e) e.machine t

unfoldable pub generator_requires_sret : Generator → Emitter → Ty → Option Bool
generator_requires_sret (aarch64 linux) e t = do l ← size_align e t; some (Aarch64.requires_sret l)
generator_requires_sret win32 e t = do l ← size_align e t; some (Win32.requires_sret l)
generator_requires_sret sysv_i386 e t = some true
generator_requires_sret win64 e t = do l ← size_align e t; some (Win64.requires_sret l)
generator_requires_sret sysv_amd64 e t = sysv_requires_sret (emitter_names e) e.machine t

-- `case types.StructType, types.UnionType, types.SliceType, types.ArrayType`.
unfoldable pub is_aggregate : Ty → Bool
is_aggregate (struct_type fs p i) = true
is_aggregate (union_type m n fs) = true
is_aggregate (slice t m) = true
is_aggregate (array t n) = true
is_aggregate _ = false

-- `foreignABIReturnUsesSRet`.
unfoldable pub foreign_return_uses_sret : Emitter → Ty → Option Bool
unfolding is_aggregate generator_requires_sret
foreign_return_uses_sret e t =
    let u = underlying e.cells e.fuel t in
    if is_aggregate u
    then elim e.generator [ none ↦ some false | some g ↦ generator_requires_sret g e u ]
    else some false

-- `foreignABIReturnChunks` and, with the other generator method, `foreignABIChunks`: a target with
-- no convention is a panic.
unfoldable pub foreign_return_chunks : Emitter → Ty → Option (List AbiChunk)
unfolding is_aggregate aggregate_return_chunks
foreign_return_chunks e t =
    let u = underlying e.cells e.fuel t in
    if is_aggregate u then (e.generator >>= λ g. aggregate_return_chunks g e u) else some []

unfoldable pub foreign_chunks : Emitter → Ty → Option (List AbiChunk)
unfolding is_aggregate aggregate_param_chunks
foreign_chunks e t =
    let u = underlying e.cells e.fuel t in
    if is_aggregate u then (e.generator >>= λ g. aggregate_param_chunks g e u) else some []

-- `void`, the type itself, one chunk's type, or `{ %s, %s }`.
pub data ReturnType : Type 0 where
  return_void return_own : ReturnType
  return_one : ChunkType → ReturnType
  return_pair : ChunkType → ChunkType → ReturnType

unfoldable pub chunks_return_type : List AbiChunk → ReturnType
chunks_return_type [] = return_own
chunks_return_type (c ∷ []) = return_one c.type_name
chunks_return_type (c ∷ (d ∷ cs)) = return_pair c.type_name d.type_name

-- `foreignABIReturnType`.
unfoldable pub foreign_return_type : Emitter → Ty → Option ReturnType
unfolding foreign_return_uses_sret foreign_return_chunks chunks_return_type
foreign_return_type e t = do
  sret ← foreign_return_uses_sret e t
  let chunks = foreign_return_chunks e t
  if sret then some return_void else (chunks >>= λ cs. some (chunks_return_type cs))
