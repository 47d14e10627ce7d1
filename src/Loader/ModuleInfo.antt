-- ===== src/Loader/ModuleInfo.antt =====
-- loader/moduleinfo.go: the source files of each package joined to one module.
pub mod Imports
use qk.Prelude.{
  ℕ, String, Bool, true, false, not, Option, none, some, List, [], ◌∷◌, ◌++◌, str_eq, if◌then◌else◌,
}
use qk.Types.Equals.{bool_eq}
use qk.Loader.Dependency.Sets.{contains}

-- `attributes.LinkKind` and `attributes.Link`.
pub data LinkKind : Type 0 where
  link_system link_path link_search_path link_framework : LinkKind

pub record Link : Type 0 where
  pub kind : LinkKind
  pub value : String

-- A node of a file's body: the module declaration, or another node, which is only passed on.
pub data Node : Type 0 where
  module_node : String → Node
  other_node : ℕ → Node

-- `PartialModuleInfo`, one source file.
pub record PartialModuleInfo : Type 0 where
  pub path : String
  pub name : String
  pub imports : List String
  pub root : List Node
  pub links : List Link
  pub trusted : Bool

pub record ModuleInfo : Type 0 where
  pub path : String
  pub name : String
  pub imports : List String
  pub root : List Node
  pub links : List Link
  pub trusted : Bool

pub data BuildError : Type 0 where
  -- `package %q contains both module %q and module %q`
  two_modules : String → String → String → BuildError
  -- `cannot mix trusted and untrusted sources in package %q`
  mixed_trust : String → BuildError

pub data BuildResult : Type 0 where
  built : (String → Option ModuleInfo) → BuildResult
  failed : BuildError → BuildResult

-- The loop of `unique`, with the keys of `seen` as a list.
unfoldable pub unique_from : List String → List String → List String
unfolding contains
unique_from seen [] = []
unique_from seen (v ∷ vs) =
    let rest = unique_from (v ∷ seen) vs in
    let same = unique_from seen vs in if contains seen v then same else v ∷ rest

unfoldable pub unique : List String → List String
unfolding unique_from
unique xs = unique_from [] xs

unfoldable pub merge_imports : List String → List String → List String
unfolding unique
merge_imports a b = unique (a ++ b)

-- `mergeModuleRoot`: the nodes of the source but its module declarations come behind.
unfoldable pub without_module : List Node → List Node
without_module [] = []
without_module (module_node n ∷ ns) = without_module ns
without_module (other_node i ∷ ns) = other_node i ∷ without_module ns

-- The path of a file, which is its module's name where it has none.
unfoldable pub package_path : PartialModuleInfo → String
package_path p = if str_eq p.path "" then p.name else p.path

-- A new module of one file.
unfoldable pub first_file : PartialModuleInfo → ModuleInfo
unfolding unique package_path
first_file p = record {
  path = package_path p;
  name = p.name;
  imports = unique p.imports;
  root = p.root;
  links = p.links;
  trusted = p.trusted;
}

-- A further file of a module.
unfoldable pub merge_file : ModuleInfo → PartialModuleInfo → ModuleInfo
unfolding merge_imports without_module
merge_file m p = record m {
  imports = merge_imports m.imports p.imports;
  root = m.root ++ without_module p.root;
  links = m.links ++ p.links;
}

unfoldable pub put : String → ModuleInfo → (String → Option ModuleInfo) → String → Option ModuleInfo
put path m modules q = if str_eq path q then some m else modules q

-- One round of the loop of `BuildModules`.
unfoldable pub add_file : (String → Option ModuleInfo) → PartialModuleInfo → BuildResult
unfolding package_path first_file merge_file put bool_eq
add_file modules p =
    let path = package_path p in
    elim (modules path) [
      | none ↦ built (put path (first_file p) modules)
      | some m ↦
          if not (str_eq m.name p.name)
          then failed (two_modules path m.name p.name)
          else if not (bool_eq m.trusted p.trusted)
          then failed (mixed_trust path)
          else built (put path (merge_file m p) modules)
    ]

-- `BuildModules`, from the modules built so far.
unfoldable pub build_modules : (String → Option ModuleInfo) → List PartialModuleInfo → BuildResult
unfolding add_file
build_modules modules [] = built modules
build_modules modules (p ∷ ps) = elim (add_file modules p) [
  | failed e ↦ failed e
  | built modules' ↦ build_modules modules' ps
]
