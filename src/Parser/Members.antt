-- ===== src/Parser/Members.antt =====
-- The parts of classes of src/ParserClass.cpp: bases, members of enumerations and accesses.
use simp.Base.{
  ℕ, zero, suc, ◌+◌, ◌-◌, ◌*◌, ◌≤◌, ◌<◌, ◌≡◌, refl, sym, ap, subst, Bool, true, false, not, ◌&&◌,
  ◌||◌, List, [], ◌∷◌, ◌++◌, String, Bytes, codes, ◌==◌, ltb, leb, if◌then◌else◌, SourceLocation,
  All, length, take, arith, map, Option, none, some, Bool-cases, inl, inr, ◌⊎◌,
}
use simp.Base as Base
use simp.Lexer.Token.{
  TokenType, Token, newline, comma, equal, left_brace, right_brace, public_keyword,
  protected_keyword, private_keyword, virtual_keyword, identifier,
}
use simp.Lexer.Kinds.{same_type}
use simp.Ast.Expressions.{Child, absent, present, start_of_file}
use simp.Ast.Statements.{Statements}
use simp.Ast.Declarations.{
  AccessLevel, public_level, protected_level, private_level, MethodDeclaration, ClassDeclaration,
}
use simp.Parser.State.{
  Parser, pure, ◌>>=◌, ◌>>◌, branch, check, current, advance, if_match, consume, error, error_here,
  out_of_fuel, skip_newlines,
}
use simp.Parser.Types.{parse_qualified_identifier}
use simp.Parser.Primary.{Tested}
use simp.Parser.Postfix.{previous}
use simp.Parser.Expressions.{parse_expression}
use simp.Parser.Loops.{at_block_end}
use simp.Parser.Methods.{plain_method}
use simp.Lexer.Chars.{lower_ascii}

-- An identifier spelled `enum` in any case.
unfoldable pub is_enum_keyword : Token → Bool
is_enum_keyword t =
    same_type t.type_of identifier
    && length t.text == 4
    && Base.equal (map lower_ascii t.text) (codes "enum")

abbrev pub no_class : Bytes → List Bytes → SourceLocation → ClassDeclaration
no_class name path l = record {
  name = name;
  module_name = [];
  imported_module = false;
  builtin = false;
  namespace_path = path;
  base_class_name = [];
  location = l;
  base_location = start_of_file;
  base_class_names = [];
  base_locations = [];
  base_access = [];
  base_virtual = [];
  fields = [];
  enum_members = [];
  enum_block_count = 0;
  methods = [];
}

abbrev pub level_of : TokenType → AccessLevel
level_of TokenType.protected_keyword = protected_level
level_of TokenType.private_keyword = private_level
level_of _ = public_level

abbrev pub is_access : Tested
is_access s = check public_keyword s || check protected_keyword s || check private_keyword s

-- The modifiers in front of a base class.
unfoldable pub modifier_loop : ℕ → AccessLevel → Bool → Parser (AccessLevel × Bool)
modifier_loop zero access is_virtual = out_of_fuel
modifier_loop (suc f) access is_virtual =
    branch is_access (advance >>= λ t. modifier_loop f (level_of t.type_of) is_virtual) (
      if_match virtual_keyword
        (if is_virtual
          then (do t ← previous; error t.location (codes "duplicate 'virtual' base modifier"))
          else modifier_loop f access true)
        (pure (access, is_virtual)))

abbrev is_none : List Bytes → Bool
is_none [] = true
is_none (x ∷ xs) = false

-- The first base also fills the single fields.
unfoldable pub add_base :
    ClassDeclaration → Bytes → SourceLocation → AccessLevel → Bool → ClassDeclaration
add_base d name l access is_virtual = record d {
  base_class_names = d.base_class_names ++ name ∷ [];
  base_locations = d.base_locations ++ l ∷ [];
  base_access = d.base_access ++ access ∷ [];
  base_virtual = d.base_virtual ++ is_virtual ∷ [];
  base_class_name = if is_none d.base_class_names then name else d.base_class_name;
  base_location = if is_none d.base_class_names then l else d.base_location;
}

unfoldable pub base_list : ℕ → ClassDeclaration → Parser ClassDeclaration
base_list zero d = out_of_fuel
base_list (suc f) d = do
  (access, is_virtual) ← modifier_loop (suc f) public_level false
  place ← current
  name ← parse_qualified_identifier (suc f) "base class name"
  if_match comma (base_list f (add_base d name place.location access is_virtual))
      (pure (add_base d name place.location access is_virtual))

unfoldable pub add_enum_member :
    ClassDeclaration → Token → AccessLevel → ℕ → Child → ClassDeclaration
add_enum_member d name access block initializer = record d {
  enum_members =
      d.enum_members
      ++ record {
        name = name.text;
        location = name.location;
        access = access;
        block_index = block;
        initializer = initializer;
        value = none;
        resolving = false;
      }
        ∷ [];
}

unfoldable pub enum_loop : ℕ → AccessLevel → ℕ → ClassDeclaration → Parser ClassDeclaration
enum_loop zero access block d = out_of_fuel
enum_loop (suc f) access block d = branch at_block_end (pure d) (do
  name ← consume identifier "enum member name"
  initializer ← if_match equal (parse_expression f >>= λ e. pure (present e)) (pure absent)
  let grown = add_enum_member d name access block initializer
  if_match comma
      (do skip_newlines; branch (check right_brace) (pure grown) (enum_loop f access block grown))
      (branch (check right_brace) (pure grown) (
        branch (check newline) (do skip_newlines; enum_loop f access block grown)
          (error_here (codes "expected ',' or newline after enum member")))))

unfoldable pub start_enum : ClassDeclaration → ClassDeclaration
start_enum d = record d { enum_block_count = d.enum_block_count + 1 }

unfoldable pub parse_enum_members : ℕ → ClassDeclaration → AccessLevel → Parser ClassDeclaration
parse_enum_members f d access = do
  consume left_brace "'{' after 'enum'"
  skip_newlines
  grown ← enum_loop f access d.enum_block_count (start_enum d)
  consume right_brace "'}' after enum members"
  pure grown

unfoldable pub add_method : ClassDeclaration → AccessLevel → MethodDeclaration → ClassDeclaration
add_method d access m = record d { methods = d.methods ++ record m { access = access } ∷ [] }

unfoldable pub add_field :
    ClassDeclaration → Bytes → Bytes → SourceLocation → AccessLevel → ClassDeclaration
add_field d type name l access = record d {
  fields = d.fields ++ record { type_text = type; name = name; location = l; access = access } ∷ [];
}

unfoldable pub destructor_of : Token → Statements → MethodDeclaration
destructor_of name body = record (plain_method name.text (codes "void") name.location) {
  destructor = true;
  body = body;
}
