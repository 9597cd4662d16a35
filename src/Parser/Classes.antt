-- ===== src/Parser/Classes.antt =====
-- `parseClass` and `parseEnumMembers` of src/ParserClass.cpp.
use simp.Base.{
  ℕ, zero, suc, ◌+◌, ◌-◌, ◌*◌, ◌≤◌, ◌<◌, ◌≡◌, refl, sym, ap, subst, Bool, true, false, not, ◌&&◌,
  ◌||◌, List, [], ◌∷◌, ◌++◌, String, Bytes, codes, ◌==◌, ltb, leb, if◌then◌else◌, SourceLocation,
  All, length, take, arith, map, Option, none, some, Bool-cases, inl, inr, ◌⊎◌,
}
use simp.Base as Base
use simp.Lexer.Token.{
  Token, colon, left_paren, left_brace, right_brace, inline_keyword, import_keyword,
  include_keyword, class_keyword, identifier,
}
use simp.Lexer.Kinds.{same_type}
use simp.Ast.Declarations.{AccessLevel, public_level, ClassDeclaration}
use simp.Parser.State.{
  Parser, pure, ◌>>=◌, ◌>>◌, branch, check, check_next, current, advance, if_match, consume, error,
  error_here, out_of_fuel, lift, skip_newlines, consume_statement_terminator,
}
use simp.Parser.Verdict.{Verdict, accepted, refused}
use simp.Parser.Types.{parse_type}
use simp.Parser.Primary.{Tested}
use simp.Parser.Statements.{parse_block}
use simp.Parser.Loops.{at_block_end}
use simp.Parser.Methods.{current_namespace, parse_method}
use simp.Parser.Members.{
  is_enum_keyword, no_class, level_of, is_access, base_list, parse_enum_members, add_method,
  add_field, destructor_of,
}

-- The class so far, and the access of its next members.
abbrev pub Members : Type 0
Members = ClassDeclaration × AccessLevel

unfoldable pub parse_field : ClassDeclaration → AccessLevel → Token → Bytes → Token → Parser Members
parse_field d access type type_name member =
    if Base.equal type_name (codes "void")
    then error type.location (codes "fields cannot have type void")
    else (do
      consume_statement_terminator
      pure (add_field d type_name member.text type.location access, access))

unfoldable pub check_method_name : ClassDeclaration → Bytes → Token → Verdict (Unit {0})
check_method_name d type_name member =
    if Base.equal member.text (codes "destroy")
    then refused member.location (codes "destructors use 'destroy { ... }' syntax")
    else if Base.equal member.text d.name
    then refused member.location (
        codes "constructor '"
        ++ member.text
        ++ codes "' must omit the return type; write '"
        ++ member.text
        ++ codes "(...)' instead of '"
        ++ type_name
        ++ b' ' ∷ member.text
        ++ codes "(...)'")
    else accepted tt

-- A field, a method or a constructor.
unfoldable pub parse_typed_member : ℕ → ClassDeclaration → AccessLevel → Parser Members
parse_typed_member f d access = do
  type ← current
  type_name ← parse_type f true
  branch
      (λ s. same_type type.type_of identifier && Base.equal type_name d.name && check left_paren s)
      (do m ← parse_method f type type true []; pure (add_method d access m, access))
      (do
        member ← consume identifier "field or method name"
        branch (check left_paren)
            (do
              lift (check_method_name d type_name member)
              m ← parse_method f type member false type_name
              pure (add_method d access m, access))
            (parse_field d access type type_name member))

unfoldable pub is_destructor : Tested
is_destructor s =
    check identifier s
    && Base.equal s.current.text (codes "destroy")
    && (check_next left_brace s || check_next left_paren s)

unfoldable pub parse_destructor : ℕ → ClassDeclaration → AccessLevel → Token → Parser Members
parse_destructor f d access name = do
  body ← parse_block f
  pure (add_method d access (destructor_of name body), access)

unfoldable pub is_enum : Tested
is_enum s = is_enum_keyword s.current && check_next left_brace s

unfoldable pub parse_member_declaration : ℕ → Members → Parser Members
parse_member_declaration f (d, access) =
    branch (check import_keyword) (error_here (codes "'import' is only allowed at top level")) (
      branch (check include_keyword) (error_here (codes "'include' is only allowed at top level")) (
        branch (check inline_keyword)
          (error_here (codes "'inline' is only allowed inside a function or method body"))
          (branch is_enum
            (advance >>= λ _. do grown ← parse_enum_members f d access; pure (grown, access))
            (branch (λ s. is_access s && check_next colon s)
              (advance >>= λ t. do
                consume colon "':' after access section"
                pure (d, level_of t.type_of))
              (branch (λ s. is_destructor s && not (check_next left_brace s))
                (error_here (codes "destructors use 'destroy { ... }' syntax"))
                (branch is_destructor (advance >>= parse_destructor f d access)
                  (parse_typed_member f d access)))))))

unfoldable pub member_loop : ℕ → Members → Parser ClassDeclaration
member_loop zero m = out_of_fuel
member_loop (suc f) m = branch at_block_end (pure m.0) (do
  skip_newlines
  branch at_block_end (pure m.0) (do n ← parse_member_declaration (suc f) m; member_loop f n))

unfoldable pub parse_class : ℕ → Parser ClassDeclaration
parse_class f = do
  keyword ← consume class_keyword "'class'"
  name ← consume identifier "class name"
  path ← current_namespace
  d ←
      if_match colon (base_list f (no_class name.text path keyword.location))
        (pure (no_class name.text path keyword.location))
  consume left_brace "'{' after class name"
  grown ← member_loop f (d, public_level)
  consume right_brace "'}' after class body"
  pure grown
