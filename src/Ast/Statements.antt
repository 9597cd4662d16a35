-- ===== src/Ast/Statements.antt =====
-- `Statement` of include/cwhip/Ast.hpp.
use simp.Base.{Bool, false, List, [], Bytes, codes, SourceLocation}
use simp.Ast.Expressions.{Child, absent, Expressions, nil, start_of_file}

pub data StatementKind : Type 0 where
  declaration assignment print if while do_while block return expression : StatementKind
  super_constructor_call raise try for_each break continue inline_c : StatementKind

pub record InlineCapture : Type 0 where
  pub type_text : Bytes
  pub name : Bytes
  pub location : SourceLocation
  pub target : Child

-- The fields of `ExceptionHandler` and of `Statement` that hold no statements.
pub record HandlerAttributes : Type 0 where
  pub location : SourceLocation
  pub exception_type : Bytes
  pub name : Bytes
  pub has_binding : Bool

pub record StatementAttributes : Type 0 where
  pub kind : StatementKind
  pub location : SourceLocation
  pub name : Bytes
  pub key_name : Bytes
  pub rethrows_exception : Bool
  pub assignment_operator : Bytes
  pub assignment_operator_location : SourceLocation
  pub declared_type : Bytes
  pub inline_source : Bytes
  pub inline_captures : List InlineCapture
  pub target : Child
  pub expressions : Expressions
  pub virtual_base_initializer : Bool
  pub protected_constructor_initialization : Bool
  pub has_alternate : Bool
  pub has_cleanup : Bool
  pub resolved_signature : Bytes

mutual
  pub data Statement : Type 0 where
    statement : StatementAttributes → (body alternate cleanup : Statements) → Handlers → Statement

  pub data Statements : Type 0 where
    end : Statements
    next : Statement → Statements → Statements

  pub data Handlers : Type 0 where
    no_handlers : Handlers
    handler : HandlerAttributes → (body : Statements) → Handlers → Handlers

abbrev pub blank : StatementKind → SourceLocation → StatementAttributes
blank k l = record {
  kind = k;
  location = l;
  name = [];
  key_name = [];
  rethrows_exception = false;
  assignment_operator = codes "=";
  assignment_operator_location = start_of_file;
  declared_type = [];
  inline_source = [];
  inline_captures = [];
  target = absent;
  expressions = nil;
  virtual_base_initializer = false;
  protected_constructor_initialization = false;
  has_alternate = false;
  has_cleanup = false;
  resolved_signature = [];
}

-- A statement with no statements inside, and one with a body only.
abbrev pub simple : StatementAttributes → Statement
simple a = statement a end end end no_handlers

abbrev pub with_body : StatementAttributes → Statements → Statement
with_body a body = statement a body end end no_handlers

-- `push_back` of each statement in turn.
unfoldable pub append : Statements → Statements → Statements
append end ts = ts
append (next s ss) ts = next s (append ss ts)

unfoldable pub add_handler : Handlers → HandlerAttributes → Statements → Handlers
add_handler no_handlers a body = handler a body no_handlers
add_handler (handler b inner hs) a body = handler b inner (add_handler hs a body)
