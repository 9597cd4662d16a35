-- ===== src/Parser/Programs.antt =====
-- `parseProgram`, `parseModule`, `parseImport`, `parseNamespace` and `startsOutOfLineDefinition` of
-- src/Parser.cpp.
use simp.Base.{
  ℕ, zero, suc, Bool, true, false, not, ◌&&◌, ◌||◌, List, [], ◌∷◌, ◌++◌, Bytes, codes,
  SourceLocation, length, take,
}
use simp.Lexer.Token.{
  Token, end_of_file, left_brace, right_brace, inline_keyword, import_keyword, include_keyword,
  class_keyword, namespace_keyword, start_keyword, as_keyword, identifier,
}
use simp.Ast.Expressions.{start_of_file}
use simp.Ast.Statements.{Statements, end}
use simp.Ast.Declarations.{ClassDeclaration, OutOfLineMethodDefinition, ImportDeclaration, Program}
use simp.Parser.State.{
  parsed, Parser, pure, ◌>>=◌, ◌>>◌, branch, check, advance, if_match, consume, error_here, guarded,
  out_of_fuel, skip_newlines, consume_statement_terminator,
}
use simp.Parser.Primary.{Tested}
use simp.Parser.Statements.{parse_block}
use simp.Parser.Loops.{at_block_end}
use simp.Parser.Methods.{current_namespace, parse_out_of_line_method_definition}
use simp.Parser.Classes.{parse_class}
use simp.Parser.Lookahead.{starts_out_of_line_definition}

unfoldable pub import_of : Bytes → Bytes → SourceLocation → ImportDeclaration
import_of name alias l = record {
  module_name = name;
  alias = alias;
  importer_module = [];
  exported_name = [];
  exports_namespace = false;
  location = l;
}

unfoldable pub parse_import : Parser ImportDeclaration
parse_import = do
  keyword ← consume import_keyword "'import'"
  name ← consume identifier "module name"
  alias ← if_match as_keyword (consume identifier "import alias" >>= λ t. pure t.text) (pure [])
  consume_statement_terminator
  pure (import_of name.text alias keyword.location)

abbrev pub no_program : Program
no_program = record {
  location = start_of_file;
  has_start = false;
  imports = [];
  namespaces = [];
  classes = [];
  out_of_line_methods = [];
  statements = end;
}

unfoldable pub add_import : Program → ImportDeclaration → Program
add_import p i = record p { imports = p.imports ++ i ∷ [] }

unfoldable pub add_class : Program → ClassDeclaration → Program
add_class p c = record p { classes = p.classes ++ c ∷ [] }

unfoldable pub add_definition : Program → OutOfLineMethodDefinition → Program
add_definition p d = record p { out_of_line_methods = p.out_of_line_methods ++ d ∷ [] }

unfoldable pub add_namespace : Program → List Bytes → SourceLocation → Program
add_namespace p path l = record p {
  namespaces = p.namespaces ++ record { path = path; module_name = []; location = l } ∷ [];
}

unfoldable pub set_namespace : List Bytes → Parser (Unit {0})
set_namespace path s = parsed tt (record s { namespace_path = path })

abbrev inline_error : {A : Type 0} → Parser A
inline_error = error_here (codes "'inline' is only allowed inside a function or method body")

-- A class or a definition out of its class, and `others` for what is neither.
unfoldable pub parse_declared : ℕ → Program → Parser Program → Parser Program
parse_declared f p others =
    branch (check class_keyword) (parse_class f >>= λ c. pure (add_class p c)) others

unfoldable pub parse_defined : ℕ → Program → Parser Program → Parser Program
parse_defined f p others =
    branch starts_out_of_line_definition
      (parse_out_of_line_method_definition f >>= λ d. pure (add_definition p d)) others

-- One declaration of a namespace's body; `inner` is `parseNamespace`.
unfoldable pub namespace_member : ℕ → (Program → Parser Program) → Program → Parser Program
namespace_member f inner p = branch (check namespace_keyword) (inner p) (
    parse_declared f p (
      branch (check start_keyword)
        (error_here (codes "'start' cannot be declared inside a namespace"))
        (branch (check inline_keyword) inline_error (
          branch (check include_keyword)
            (error_here (codes "'include' is only allowed at top level"))
            (branch (check import_keyword)
              (error_here (codes "'import' is only allowed at top level"))
              (parse_defined f p (
                error_here
                  (codes "namespace body may contain only namespace and class declarations"))))))))

unfoldable pub namespace_loop : ℕ → (Program → Parser Program) → Program → Parser Program
namespace_loop zero one p = out_of_fuel
namespace_loop (suc f) one p = branch at_block_end (pure p) (do
  skip_newlines
  branch at_block_end (pure p) (do q ← one p; skip_newlines; namespace_loop f one q))

unfoldable pub parse_namespace : ℕ → Program → Parser Program
parse_namespace zero p = out_of_fuel
parse_namespace (suc f) p = guarded (do
  keyword ← consume namespace_keyword "'namespace'"
  name ← consume identifier "namespace name"
  skip_newlines
  consume left_brace "'{' after namespace name"
  outer ← current_namespace
  set_namespace (outer ++ name.text ∷ [])
  q ←
      namespace_loop f (namespace_member f (parse_namespace f))
        (add_namespace p (outer ++ name.text ∷ []) keyword.location)
  consume right_brace "'}' after namespace body"
  path ← current_namespace
  set_namespace (take (length outer) path)
  pure q)

abbrev starts_declarations : Tested
starts_declarations s =
    check import_keyword s
    || check include_keyword s
    || check class_keyword s
    || check namespace_keyword s
    || starts_out_of_line_definition s

-- One declaration in front of the `start` block.
unfoldable pub program_member : ℕ → Program → Parser Program
program_member f p = branch (check import_keyword) (parse_import >>= λ i. pure (add_import p i)) (
    branch (check include_keyword) (error_here (codes "'include' must be expanded before parsing"))
      (parse_declared f p (
        branch (check namespace_keyword) (parse_namespace f p)
          (parse_out_of_line_method_definition f >>= λ d. pure (add_definition p d)))))

unfoldable pub program_loop : ℕ → Program → Parser Program
program_loop zero p = out_of_fuel
program_loop (suc f) p =
    branch starts_declarations (do q ← program_member (suc f) p; skip_newlines; program_loop f q)
      (pure p)

unfoldable pub started : Program → SourceLocation → Statements → Program
started p l ss = record p { location = l; has_start = true; statements = ss }

-- What must follow the block.
unfoldable pub check_end : Parser (Unit {0})
check_end =
    branch (check start_keyword)
      (error_here (codes "program contains more than one top-level 'start' block"))
      (branch (λ s. not (check end_of_file s))
        (branch (check inline_keyword) inline_error
          (error_here (codes "only one top-level 'start' block is allowed")))
        (pure tt))

-- The block behind the keyword `start`.
unfoldable pub parse_start : ℕ → Program → Token → Parser Program
parse_start f p keyword = do
  ss ← parse_block f
  skip_newlines
  check_end
  pure (started p keyword.location ss)

unfoldable pub parse_program : ℕ → Bool → Parser Program
parse_program f require_start = do
  skip_newlines
  p ← program_loop f no_program
  branch (check inline_keyword) inline_error (
      branch (check start_keyword) (advance >>= parse_start f p) (
        branch (λ s. not require_start && check end_of_file s) (pure p)
          (error_here (codes "program must contain exactly one top-level 'start' block"))))

unfoldable pub module_member : ℕ → Program → Parser Program
module_member f p = branch (check import_keyword) (parse_import >>= λ i. pure (add_import p i)) (
    parse_declared f p (
      branch (check namespace_keyword) (parse_namespace f p) (
        parse_defined f p (
          branch (check start_keyword)
            (error_here (codes "imported module source cannot declare 'start'"))
            (branch (check inline_keyword) inline_error
              (error_here (codes "module source may contain only imports and declarations")))))))

unfoldable pub module_loop : ℕ → Program → Parser Program
module_loop zero p = out_of_fuel
module_loop (suc f) p =
    branch (check end_of_file) (pure p)
      (do q ← module_member (suc f) p; skip_newlines; module_loop f q)

unfoldable pub parse_module : ℕ → Parser Program
parse_module f = do skip_newlines; module_loop f no_program
