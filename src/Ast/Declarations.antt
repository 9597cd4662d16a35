-- ===== src/Ast/Declarations.antt =====
-- The declarations and the program of include/cwhip/Ast.hpp.
use simp.Base.{ℕ, Bool, List, Bytes, Option, SourceLocation}
use simp.Ast.Expressions.{Child}
use simp.Ast.Statements.{Statements}

-- A signed integer: whether it is negative, and its size.
pub record Integer64 : Type 0 where
  pub negative : Bool
  pub size : ℕ

pub record Parameter : Type 0 where
  pub type_text : Bytes
  pub name : Bytes
  pub location : SourceLocation

pub data AccessLevel : Type 0 where
  public_level protected_level private_level : AccessLevel

pub record FieldDeclaration : Type 0 where
  pub type_text : Bytes
  pub name : Bytes
  pub location : SourceLocation
  pub access : AccessLevel

-- `value` and `resolving` belong to the later analysis.
pub record EnumMemberDeclaration : Type 0 where
  pub name : Bytes
  pub location : SourceLocation
  pub access : AccessLevel
  pub block_index : ℕ
  pub initializer : Child
  pub value : Option Integer64
  pub resolving : Bool

pub record MethodDeclaration : Type 0 where
  pub name : Bytes
  pub return_type : Bytes
  pub location : SourceLocation
  pub parameters : List Parameter
  pub body : Statements
  pub constructor : Bool
  pub destructor : Bool
  pub declaration_only : Bool
  pub external_binding : Bool
  pub external_symbol : Bytes
  pub access : AccessLevel

pub record ClassDeclaration : Type 0 where
  pub name : Bytes
  pub module_name : Bytes
  pub imported_module : Bool
  pub builtin : Bool
  pub namespace_path : List Bytes
  pub base_class_name : Bytes
  pub location : SourceLocation
  pub base_location : SourceLocation
  pub base_class_names : List Bytes
  pub base_locations : List SourceLocation
  pub base_access : List AccessLevel
  pub base_virtual : List Bool
  pub fields : List FieldDeclaration
  pub enum_members : List EnumMemberDeclaration
  pub enum_block_count : ℕ
  pub methods : List MethodDeclaration

pub record OutOfLineMethodDefinition : Type 0 where
  pub class_name : Bytes
  pub module_name : Bytes
  pub namespace_path : List Bytes
  pub method : MethodDeclaration
  pub location : SourceLocation

pub record NamespaceDeclaration : Type 0 where
  pub path : List Bytes
  pub module_name : Bytes
  pub location : SourceLocation

pub record ImportDeclaration : Type 0 where
  pub module_name : Bytes
  pub alias : Bytes
  pub importer_module : Bytes
  pub exported_name : Bytes
  pub exports_namespace : Bool
  pub location : SourceLocation

pub record Program : Type 0 where
  pub location : SourceLocation
  pub has_start : Bool
  pub imports : List ImportDeclaration
  pub namespaces : List NamespaceDeclaration
  pub classes : List ClassDeclaration
  pub out_of_line_methods : List OutOfLineMethodDefinition
  pub statements : Statements
