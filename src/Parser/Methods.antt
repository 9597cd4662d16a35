-- ===== src/Parser/Methods.antt =====
-- `parseMethod` and `parseOutOfLineMethodDefinition` of src/ParserClass.cpp.
use simp.Base.{
  ℕ, zero, suc, ◌+◌, ◌-◌, ◌*◌, ◌≤◌, ◌<◌, ◌≡◌, refl, sym, ap, subst, Bool, true, false, not, ◌&&◌,
  ◌||◌, List, [], ◌∷◌, ◌++◌, String, Bytes, codes, ◌==◌, ltb, leb, if◌then◌else◌, SourceLocation,
  All, length, take, arith, map, Option, none, some, Bool-cases, inl, inr, ◌⊎◌,
}
use simp.Base as Base
use simp.Lexer.Token.{TokenType, Token, dot, left_brace, from_keyword, identifier}
use simp.Ast.Statements.{Statements, end}
use simp.Ast.Declarations.{Parameter, public_level, MethodDeclaration, OutOfLineMethodDefinition}
use simp.Parser.State.{
  parsed, Parser, pure, ◌>>=◌, ◌>>◌, branch, check, current, if_match, consume, error_here,
  out_of_fuel, lift, skip_newlines, consume_statement_terminator,
}
use simp.Parser.Verdict.{Verdict, accepted, refused}
use simp.Parser.Types.{parse_type, parse_parameters}
use simp.Parser.Statements.{parse_block}

unfoldable pub current_namespace : Parser (List Bytes)
current_namespace s = parsed s.namespace_path s

-- A method with a name, a type and a place, and the default of each other field.
abbrev pub plain_method : Bytes → Bytes → SourceLocation → MethodDeclaration
plain_method name return_type l = record {
  name = name;
  return_type = return_type;
  location = l;
  parameters = [];
  body = end;
  constructor = false;
  destructor = false;
  declaration_only = false;
  external_binding = false;
  external_symbol = [];
  access = public_level;
}

abbrev word_or_text : TokenType → Bytes → Bytes
word_or_text TokenType.int text = codes "int"
word_or_text TokenType.bool text = codes "bool"
word_or_text TokenType.float_type text = codes "float"
word_or_text TokenType.unsigned text = codes "unsigned"
word_or_text TokenType.strg_type text = codes "String"
word_or_text TokenType.void_keyword text = codes "void"
word_or_text _ text = text

abbrev word_of_type : Token → Bytes
word_of_type t = word_or_text t.type_of t.text

abbrev return_type_of : Bool → Bytes → Token → Bytes
return_type_of true text t = codes "void"
return_type_of false [] t = word_of_type t
return_type_of false (c ∷ text) t = c ∷ text

unfoldable pub parse_method : ℕ → Token → Token → Bool → Bytes → Parser MethodDeclaration
parse_method f type_or_name name constructor return_type = do
  parameters ← parse_parameters f
  branch (check left_brace)
      (do
        body ← parse_block f
        pure
            (record (plain_method name.text (return_type_of constructor return_type type_or_name)
              type_or_name.location) {
                constructor = constructor;
                parameters = parameters;
                body = body;
              }))
      (do
        consume_statement_terminator
        pure
            (record (plain_method name.text (return_type_of constructor return_type type_or_name)
              type_or_name.location) {
                constructor = constructor;
                parameters = parameters;
                declaration_only = true;
              }))

-- What follows the last `.`, or everything.
abbrev is_dotted : Bytes → Bool
is_dotted [] = false
is_dotted (c ∷ text) = c == b'.' || is_dotted text

unfoldable pub leaf_name : Bytes → Bytes
leaf_name [] = []
leaf_name (c ∷ text) =
    let later = leaf_name text in
    if is_dotted text then later else if c == b'.' then text else c ∷ text

-- The class name grows by each component but the last, which is the method's.
unfoldable pub member_path : ℕ → Bytes → Token → Parser (Bytes × Token)
member_path zero class_name member = out_of_fuel
member_path (suc f) class_name member =
    if_match dot
      (do
        next ← consume identifier "method name"
        member_path f (class_name ++ b'.' ∷ member.text) next)
      (pure (class_name, member))

abbrev definition_of :
    List Bytes
    → Bytes
    → Bytes
    → Bool
    → Bytes
    → SourceLocation
    → List Parameter
    → OutOfLineMethodDefinition
definition_of path class_name return_type constructor name l parameters = record {
  class_name = class_name;
  module_name = [];
  namespace_path = path;
  method = record (plain_method name (if constructor then codes "void" else return_type) l) {
    constructor = constructor;
    parameters = parameters;
  };
  location = l;
}

abbrev with_body : OutOfLineMethodDefinition → Statements → OutOfLineMethodDefinition
with_body d body = record d { method = record d.method { body = body } }

abbrev with_symbol : OutOfLineMethodDefinition → Bytes → OutOfLineMethodDefinition
with_symbol d symbol = record d {
  method = record d.method { external_binding = true; external_symbol = symbol };
}

-- The body of a method, or the symbol it is bound to.
unfoldable pub parse_definition_body :
    ℕ → OutOfLineMethodDefinition → Parser OutOfLineMethodDefinition
parse_definition_body f d =
    if_match from_keyword
      (do
        symbol ← consume TokenType.string "external symbol string literal"
        consume_statement_terminator
        pure (with_symbol d symbol.text))
      (branch (check left_brace) (do body ← parse_block f; pure (with_body d body))
        (error_here (codes "expected method body or 'from \"<symbol>\"'")))

unfoldable pub check_member : Bytes → Bytes → Token → Verdict Bool
check_member class_name return_type member =
    let constructor = Base.equal member.text (leaf_name class_name) in
    if constructor && not (Base.equal (leaf_name return_type) (leaf_name class_name))
    then refused member.location
        (codes "out-of-line constructor declaration must use its class type")
    else if Base.equal member.text (codes "destroy")
    then refused member.location (codes "destructors cannot be defined out-of-line")
    else accepted constructor

unfoldable pub parse_out_of_line_method_definition : ℕ → Parser OutOfLineMethodDefinition
parse_out_of_line_method_definition f = do
  opening ← current
  return_type ← parse_type f true
  first ← consume identifier "class name before '.'"
  consume dot "'.' between class and method name"
  second ← consume identifier "method name"
  (class_name, member) ← member_path f first.text second
  constructor ← lift (check_member class_name return_type member)
  path ← current_namespace
  parameters ← parse_parameters f
  skip_newlines
  parse_definition_body f (
      definition_of path class_name return_type constructor member.text opening.location parameters)
