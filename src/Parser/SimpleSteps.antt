-- ===== src/Parser/SimpleSteps.antt =====
-- The parsers of Simple stay within their fuel and their tokens.
use simp.Base.{ℕ, zero, suc, refl, true, false, List, [], Bytes, SourceLocation, arith}
use simp.Lexer.Token.{
  Token, comma, dot, equal, left_paren, right_paren, inline_keyword, inline_body, print_keyword,
  raise_keyword, return_keyword, super_keyword, virtual_keyword, identifier,
}
use simp.Ast.Expressions.{Expression, node, Expressions}
use simp.Ast.Statements.{InlineCapture, Statement, end, next, append}
use simp.Parser.State.{Parser}
use simp.Parser.Steps.{
  Runs-current, Excludes-end, Runs-token_or, Runs-error_here, Runs-consume, Runs-if_match,
  Runs-if_match_same, Runs-match, Runs-terminator, Runs-lift,
}
use simp.Parser.Rules.{reads}
use simp.Parser.Rules.{
  Runs, runs, Runs-zero, Runs-less, Runs-any, Runs-pure, Runs-error, Runs-branch, Runs-if,
  Runs-after, Runs-bind, Runs-before,
}
use simp.Parser.Nodes.{is_string_kind}
use simp.Parser.TypeSteps.{Runs-type}
use simp.Parser.PrimarySteps.{Runs-closed_list}
use simp.Parser.PostfixSteps.{Runs-validate, Runs-format_arguments}
use simp.Parser.Simple.{
  is_assignment, parse_constructor, parse_initializer, parse_declaration, parse_assignment,
  finish_call, parse_expression_statement, parse_return, parse_raise, parse_super_constructor_call,
  parse_print_format, parse_print, parse_loop_control,
}
use simp.Parser.Inline.{
  defer, capture_path, parse_capture, capture_list, parse_captures, parse_inline_c, parse_captured,
}

Runs-defer : {n : ℕ} (s : Statement) → Runs 0 n (defer s)
unfolding defer
Runs-defer s = runs λ st he hn.
    reads (record st { pending_statements = append st.pending_statements (next s end) }) he
      (omega arith) refl

Runs-capture_path : (f : ℕ) (name : Bytes) (e : Expression) → Runs 0 f (capture_path f name e)
unfolding capture_path
Runs-capture_path zero name e = Runs-zero
Runs-capture_path (suc f) name e =
    Runs-if_match dot refl
      (Runs-bind (Runs-any (Runs-consume identifier refl _))
        λ field. Runs-bind (Runs-validate _) λ _. Runs-capture_path f _ _)
      (Runs-pure _)

Runs-capture : (f : ℕ) → Runs 1 f (parse_capture f)
unfolding parse_capture
Runs-capture f = Runs-before Runs-current λ place. Runs-bind (Runs-type f true) λ type.
    Runs-bind (Runs-if_match_same dot refl f (Runs-pure _) (Runs-pure _)) λ target.
      Runs-bind (Runs-any (Runs-consume identifier refl _))
        λ name. Runs-bind (Runs-capture_path f _ _) λ (last, path). Runs-pure _

Runs-capture_list : (f : ℕ) (cs : List InlineCapture) → Runs 1 f (capture_list f cs)
unfolding capture_list
Runs-capture_list zero cs = Runs-zero
Runs-capture_list (suc f) cs =
    Runs-after (Runs-capture (suc f))
      λ c. Runs-if_match_same comma refl f (Runs-any (Runs-capture_list f _)) (Runs-pure _)

Runs-captures : (f : ℕ) → Runs 0 f (parse_captures f)
unfolding parse_captures
Runs-captures f =
    Runs-bind (Runs-branch _ (Runs-pure _) (Runs-any (Runs-capture_list f [])))
      λ cs. Runs-bind (Runs-any (Runs-consume right_paren refl _)) λ _. Runs-pure _

pub Runs-inline_c : (f : ℕ) (extra : List InlineCapture) → Runs 1 f (parse_inline_c f extra)
unfolding parse_inline_c
Runs-inline_c f extra = Runs-bind (Runs-consume inline_keyword refl _) λ keyword.
    Runs-bind (Runs-if_match_same left_paren refl f (Runs-captures f) (Runs-pure _)) λ cs.
      Runs-bind (Runs-any (Runs-consume inline_body refl _))
        λ body. Runs-bind (Runs-terminator f) λ _. Runs-pure _

Runs-captured :
    (f : ℕ) (l : SourceLocation) (type name : Bytes) (es : Expressions)
    → Runs 0 f (parse_captured f l type name es)
unfolding parse_captured
Runs-captured f l type name es =
    Runs-if _
      (Runs-bind (Runs-any (Runs-inline_c f _))
        λ inlined. Runs-bind (Runs-defer inlined) λ _. Runs-pure _)
      (Runs-error_here _)

Excludes-assignment : Excludes-end is_assignment
Excludes-assignment s h = rw h refl

pub Runs-loop_control : (n : ℕ) (keyword : Token) → Runs 0 n (parse_loop_control keyword)
unfolding parse_loop_control
Runs-loop_control n keyword = Runs-bind (Runs-terminator n) λ _. Runs-pure _

module _ {expression : Parser Expression} (f : ℕ) (h : Runs 1 f expression) where
  Runs-constructor :
      (l : SourceLocation) (type : Bytes) → Runs 0 f (parse_constructor expression f l type)
  unfolding parse_constructor
  Runs-constructor l type =
      Runs-bind (Runs-any (Runs-closed_list h right_paren refl _))
        λ es. Runs-bind (Runs-validate _) λ _. Runs-pure _

  Runs-initializer :
      (type : Token) (name : Bytes) → Runs 0 f (parse_initializer expression f type name)
  unfolding parse_initializer
  Runs-initializer type name =
      Runs-if_match_same equal refl f (Runs-bind (Runs-any h) λ e. Runs-pure _) (
        Runs-if _ (Runs-if_match_same left_paren refl f (Runs-constructor _ _) (Runs-pure _))
          (Runs-pure _))

  pub Runs-declaration : Runs 1 f (parse_declaration expression f)
  unfolding parse_declaration
  Runs-declaration = Runs-before Runs-current λ type. Runs-bind (Runs-type f false) λ type_name.
      Runs-bind (Runs-any (Runs-consume identifier refl _)) λ name.
        Runs-bind (Runs-initializer type type_name) λ es.
          Runs-branch _ (Runs-captured f _ _ _ _) (Runs-bind (Runs-terminator f) λ _. Runs-pure _)

  Runs-assignment :
      (operator : Token) (e : Expression) → Runs 0 f (parse_assignment expression operator e)
  unfolding parse_assignment
  Runs-assignment operator e =
      Runs-bind (Runs-any h) λ value. Runs-bind (Runs-terminator f) λ _. Runs-pure _

  Runs-finish_call : (e : Expression) → Runs 0 f (finish_call expression e)
  unfolding finish_call
  Runs-finish_call e =
      Runs-if _ (Runs-bind (Runs-terminator f) λ _. Runs-pure _) (Runs-error_here _)

  pub Runs-return : Runs 1 f (parse_return expression)
  unfolding parse_return
  Runs-return = Runs-bind (Runs-consume return_keyword refl _) λ keyword.
      Runs-bind
        (Runs-branch _
          (Runs-bind (Runs-match left_paren refl f)
            λ _. Runs-bind (Runs-match right_paren refl f) λ _. Runs-pure _)
          (Runs-branch _ (Runs-pure _) (Runs-bind (Runs-any h) λ e. Runs-pure _)))
        λ es. Runs-bind (Runs-terminator f) λ _. Runs-pure _

  pub Runs-raise : Runs 1 f (parse_raise expression)
  unfolding parse_raise
  Runs-raise = Runs-bind (Runs-consume raise_keyword refl _) λ keyword.
      Runs-bind (Runs-any (Runs-consume left_paren refl _)) λ _.
        Runs-bind
          (Runs-if_match_same right_paren refl f (Runs-pure _) (
            Runs-bind (Runs-any h)
              λ e. Runs-bind (Runs-any (Runs-consume right_paren refl _)) λ _. Runs-pure _))
          λ s. Runs-bind (Runs-terminator f) λ _. Runs-pure s

  pub Runs-super : Runs 1 f (parse_super_constructor_call expression f)
  unfolding parse_super_constructor_call
  Runs-super = Runs-before Runs-current λ keyword.
      Runs-before
        (Runs-if_match_same super_keyword refl f (Runs-match virtual_keyword refl f) (
          Runs-bind (Runs-any (Runs-consume virtual_keyword refl _))
            λ _. Runs-bind (Runs-any (Runs-consume super_keyword refl _)) λ _. Runs-pure _))
        λ is_virtual. Runs-bind (Runs-consume identifier refl _) λ name.
          Runs-bind (Runs-any (Runs-consume left_paren refl _)) λ _.
            Runs-bind (Runs-any (Runs-closed_list h right_paren refl _))
              λ es. Runs-bind (Runs-terminator f) λ _. Runs-pure _

  Runs-print_format :
      (keyword : Token) (e : Expression) → Runs 0 f (parse_print_format expression f keyword e)
  unfolding parse_print_format
  Runs-print_format keyword (node a l r es) =
      Runs-if (is_string_kind a.kind)
        (Runs-bind (Runs-any (Runs-format_arguments f _ _ h))
          λ (named, arguments). Runs-bind (Runs-lift _) λ checked. Runs-pure _)
        (Runs-error _ _)

  pub Runs-print : Runs 1 f (parse_print expression f)
  unfolding parse_print
  Runs-print = Runs-bind (Runs-consume print_keyword refl _) λ keyword.
      Runs-bind (Runs-any (Runs-consume left_paren refl _)) λ _.
        Runs-bind
          (Runs-branch _ (Runs-pure _) (
            Runs-bind (Runs-any h)
              λ e. Runs-if_match_same comma refl f (Runs-print_format keyword e) (Runs-pure _)))
          λ es.
            Runs-bind (Runs-any (Runs-consume right_paren refl _))
              λ _. Runs-bind (Runs-terminator f) λ _. Runs-pure _

-- After its first token an expression may still need all the fuel.
pub Runs-expression_statement :
    {expression : Parser Expression} (f : ℕ)
    → Runs 1 f expression
    → Runs 1 f (parse_expression_statement expression f)
unfolding parse_expression_statement
Runs-expression_statement zero h = Runs-zero
Runs-expression_statement (suc f) h = Runs-branch _ (Runs-declaration (suc f) h) (
    Runs-bind h λ e.
      Runs-token_or Excludes-assignment (λ operator. Runs-assignment f (Runs-less h) operator e)
        (Runs-finish_call (suc f) h e))
