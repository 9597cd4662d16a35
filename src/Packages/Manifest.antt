-- ===== src/Packages/Manifest.antt =====
-- The packages of include/cwhip/PackageRegistry.hpp and the manifests of src/PackageRegistry.cpp.
use simp.Base.{List, Bytes}
use simp.Base.Tables.{Table}

pub record PackageDependency : Type 0 where
  pub name : Bytes
  pub version : Bytes

-- A path is its text.
pub record ResolvedPackage : Type 0 where
  pub name : Bytes
  pub version : Bytes
  pub package_root : Bytes
  pub source_path : Bytes
  pub export_kind : Bytes
  pub export_name : Bytes
  pub dependencies : List PackageDependency
  pub libraries : List Bytes
  pub library_paths : List Bytes

pub record PackageManifest : Type 0 where
  pub resolved : ResolvedPackage
  pub signature : Bytes

pub record ModuleVersionPolicy : Type 0 where
  pub path : Bytes
  pub versions : Table (List Bytes)
  pub locked_packages : Table (Table Bytes)
  pub locked_dependencies : Table (List Bytes)
