-- ===== src/Ast/Builtin.antt =====
-- `makeBuiltinExceptionClass` of src/Ast.cpp.
use simp.Base.{true, false, [], ◌∷◌, codes, SourceLocation}
use simp.Ast.Expressions.{ExpressionKind, node, absent, present, nil, cons, plain, start_of_file}
use simp.Ast.Statements.{StatementKind, Statement, end, next, blank, simple}
use simp.Ast.Declarations.{public_level, private_level, MethodDeclaration, ClassDeclaration}

abbrev builtin_place : SourceLocation
builtin_place = record { file = codes "<builtin>"; line = 1; column = 1 }

-- `message = text`
abbrev message_assignment : Statement
message_assignment =
    let target =
      node (plain ExpressionKind.identifier builtin_place (codes "message")) absent absent nil in
    let value =
      node (plain ExpressionKind.identifier builtin_place (codes "text")) absent absent nil in
    simple (record (blank StatementKind.assignment builtin_place) {
      target = present target;
      expressions = cons value nil;
    })

abbrev exception_constructor : MethodDeclaration
exception_constructor = record {
  name = codes "Exception";
  return_type = codes "void";
  location = builtin_place;
  parameters =
      record { type_text = codes "String"; name = codes "text"; location = builtin_place } ∷ [];
  body = next message_assignment end;
  constructor = true;
  destructor = false;
  declaration_only = false;
  external_binding = false;
  external_symbol = [];
  access = public_level;
}

abbrev pub make_builtin_exception_class : ClassDeclaration
make_builtin_exception_class = record {
  name = codes "Exception";
  module_name = [];
  imported_module = false;
  builtin = true;
  namespace_path = [];
  base_class_name = [];
  location = builtin_place;
  base_location = start_of_file;
  base_class_names = [];
  base_locations = [];
  base_access = [];
  base_virtual = [];
  fields =
      record {
        type_text = codes "String";
        name = codes "message";
        location = builtin_place;
        access = public_level;
      }
      ∷ record {
        type_text = codes "bool";
        name = codes "runtime_owns_message";
        location = builtin_place;
        access = private_level;
      }
      ∷ [];
  enum_members = [];
  enum_block_count = 0;
  methods = exception_constructor ∷ [];
}
