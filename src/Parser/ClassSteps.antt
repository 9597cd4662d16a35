-- ===== src/Parser/ClassSteps.antt =====
-- The parsers of Methods and Classes stay within their fuel and their tokens.
use simp.Base.{ℕ, zero, suc, refl, Bool, true, false, [], Bytes, arith}
use simp.Lexer.Token.{
  TokenType, Token, comma, dot, colon, equal, left_brace, right_brace, class_keyword,
  virtual_keyword, from_keyword, identifier,
}
use simp.Ast.Declarations.{AccessLevel, ClassDeclaration, OutOfLineMethodDefinition}
use simp.Parser.Steps.{
  Runs-current, Excludes-end, Runs-token, Runs-token_or, Runs-error_here, Runs-consume,
  Runs-if_match, Runs-if_match_same, Runs-skip_newlines, Runs-terminator, Runs-lift,
}
use simp.Parser.Rules.{reads}
use simp.Parser.Rules.{
  Runs, runs, Runs-zero, Runs-less, Runs-any, Runs-pure, Runs-error, Runs-branch, Runs-if,
  Runs-after, Runs-bind, Runs-before,
}
use simp.Parser.TypeSteps.{Runs-type, Runs-qualified, Runs-parameters}
use simp.Parser.PrimarySteps.{and-Excludes-end}
use simp.Parser.PostfixSteps.{Runs-previous}
use simp.Parser.ExpressionSteps.{Runs-parse_expression}
use simp.Parser.StatementSteps.{Runs-parse_block}
use simp.Parser.Methods.{
  current_namespace, parse_method, member_path, parse_definition_body,
  parse_out_of_line_method_definition,
}
use simp.Parser.Classes.{
  Members, parse_field, parse_typed_member, is_destructor, parse_destructor, is_enum,
  parse_member_declaration, member_loop, parse_class,
}
use simp.Parser.Members.{
  is_enum_keyword, is_access, modifier_loop, base_list, enum_loop, parse_enum_members,
}

pub Runs-namespace : {n : ℕ} → Runs 0 n current_namespace
unfolding current_namespace
Runs-namespace = runs λ s he hn. reads s he (omega arith) refl

Runs-method :
    (f : ℕ) (type name : Token) (constructor : Bool) (text : Bytes)
    → Runs 1 f (parse_method f type name constructor text)
unfolding parse_method
Runs-method f type name constructor text = Runs-bind (Runs-parameters f) λ ps.
    Runs-branch _ (Runs-bind (Runs-any (Runs-parse_block f)) λ body. Runs-pure _)
      (Runs-bind (Runs-terminator f) λ _. Runs-pure _)

Runs-member_path : (f : ℕ) (name : Bytes) (member : Token) → Runs 0 f (member_path f name member)
unfolding member_path
Runs-member_path zero name member = Runs-zero
Runs-member_path (suc f) name member =
    Runs-if_match dot refl
      (Runs-bind (Runs-any (Runs-consume identifier refl _)) λ t. Runs-member_path f _ t)
      (Runs-pure _)

Runs-definition_body :
    (f : ℕ) (d : OutOfLineMethodDefinition) → Runs 0 f (parse_definition_body f d)
unfolding parse_definition_body
Runs-definition_body f d =
    Runs-if_match_same from_keyword refl f
      (Runs-bind (Runs-any (Runs-consume TokenType.string refl _))
        λ symbol. Runs-bind (Runs-terminator f) λ _. Runs-pure _)
      (Runs-branch _ (Runs-bind (Runs-any (Runs-parse_block f)) λ body. Runs-pure _)
        (Runs-error_here _))

pub Runs-out_of_line : (f : ℕ) → Runs 1 f (parse_out_of_line_method_definition f)
unfolding parse_out_of_line_method_definition
Runs-out_of_line f = Runs-before Runs-current λ opening. Runs-bind (Runs-type f true) λ type.
    Runs-bind (Runs-any (Runs-consume identifier refl _)) λ first.
      Runs-bind (Runs-any (Runs-consume dot refl _)) λ _.
        Runs-bind (Runs-any (Runs-consume identifier refl _)) λ second.
          Runs-bind (Runs-member_path f _ _) λ (name, member).
            Runs-bind (Runs-lift _) λ constructor. Runs-bind Runs-namespace λ path.
              Runs-bind (Runs-any (Runs-parameters f))
                λ ps. Runs-bind Runs-skip_newlines λ _. Runs-definition_body f _

Excludes-access : Excludes-end is_access
Excludes-access s h = rw h refl

Runs-modifier_loop : (f : ℕ) (access : AccessLevel) (b : Bool) → Runs 0 f (modifier_loop f access b)
unfolding modifier_loop
Runs-modifier_loop zero access b = Runs-zero
Runs-modifier_loop (suc f) access b =
    Runs-token_or Excludes-access (λ t. Runs-modifier_loop f _ _)
      (Runs-if_match virtual_keyword refl
        (Runs-if b (Runs-bind Runs-previous λ t. Runs-error _ _) (Runs-modifier_loop f _ _))
        (Runs-pure _))

Runs-base_list : (f : ℕ) (d : ClassDeclaration) → Runs 1 f (base_list f d)
unfolding base_list
Runs-base_list zero d = Runs-zero
Runs-base_list (suc f) d = Runs-before (Runs-modifier_loop (suc f) _ _) λ (access, is_virtual).
    Runs-before Runs-current λ place.
      Runs-after (Runs-qualified (suc f) _)
        λ name. Runs-if_match_same comma refl f (Runs-any (Runs-base_list f _)) (Runs-pure _)

Runs-enum_loop :
    (f : ℕ) (access : AccessLevel) (block : ℕ) (d : ClassDeclaration)
    → Runs 0 f (enum_loop f access block d)
unfolding enum_loop
Runs-enum_loop zero access block d = Runs-zero
Runs-enum_loop (suc f) access block d = Runs-branch _ (Runs-pure d) (
    Runs-any (
      Runs-after (Runs-consume identifier refl _) λ name.
        Runs-bind
          (Runs-if_match_same equal refl f
            (Runs-bind (Runs-any (Runs-parse_expression f)) λ e. Runs-pure _) (Runs-pure _))
          λ initializer.
            Runs-if_match_same comma refl f
              (Runs-bind Runs-skip_newlines
                λ _. Runs-branch _ (Runs-pure _) (Runs-enum_loop f access block _))
              (Runs-branch _ (Runs-pure _) (
                Runs-branch _ (Runs-bind Runs-skip_newlines λ _. Runs-enum_loop f access block _)
                  (Runs-error_here _)))))

Runs-enum_members :
    (f : ℕ) (d : ClassDeclaration) (access : AccessLevel) → Runs 1 f (parse_enum_members f d access)
unfolding parse_enum_members
Runs-enum_members f d access = Runs-bind (Runs-consume left_brace refl _) λ _.
    Runs-bind Runs-skip_newlines λ _.
      Runs-bind (Runs-enum_loop f access _ _)
        λ grown. Runs-bind (Runs-any (Runs-consume right_brace refl _)) λ _. Runs-pure grown

Runs-field :
    (n : ℕ) (d : ClassDeclaration) (access : AccessLevel) (type : Token) (text : Bytes)
    (member : Token)
    → Runs 0 n (parse_field d access type text member)
unfolding parse_field
Runs-field n d access type text member =
    Runs-if _ (Runs-error _ _) (Runs-bind (Runs-terminator n) λ _. Runs-pure _)

Runs-typed_member :
    (f : ℕ) (d : ClassDeclaration) (access : AccessLevel) → Runs 1 f (parse_typed_member f d access)
unfolding parse_typed_member
Runs-typed_member f d access = Runs-before Runs-current λ type. Runs-bind (Runs-type f true) λ text.
    Runs-branch _ (Runs-bind (Runs-any (Runs-method f type type true [])) λ m. Runs-pure _) (
      Runs-bind (Runs-any (Runs-consume identifier refl _)) λ member.
        Runs-branch _
          (Runs-bind (Runs-lift _)
            λ _. Runs-bind (Runs-any (Runs-method f type member false text)) λ m. Runs-pure _)
          (Runs-field f d access type text member))

Runs-destructor :
    (f : ℕ) (d : ClassDeclaration) (access : AccessLevel) (name : Token)
    → Runs 1 f (parse_destructor f d access name)
unfolding parse_destructor
Runs-destructor f d access name = Runs-bind (Runs-parse_block f) λ body. Runs-pure _

Excludes-destructor : Excludes-end is_destructor
unfolding is_destructor
Excludes-destructor s h = rw h refl

Excludes-enum : Excludes-end is_enum
unfolding is_enum is_enum_keyword
Excludes-enum s h = rw h refl

Runs-member_declaration : (f : ℕ) (m : Members) → Runs 1 f (parse_member_declaration f m)
unfolding parse_member_declaration
Runs-member_declaration zero m = Runs-zero
Runs-member_declaration (suc f) (d, access) = Runs-branch _ (Runs-error_here _) (
    Runs-branch _ (Runs-error_here _) (
      Runs-branch _ (Runs-error_here _) (
        Runs-token Excludes-enum
          (λ _.
            Runs-bind (Runs-any (Runs-less (Runs-enum_members (suc f) d access)))
              λ grown. Runs-pure _)
          (Runs-token (and-Excludes-end _ Excludes-access)
            (λ t. Runs-bind (Runs-any (Runs-consume colon refl _)) λ _. Runs-pure _)
            (Runs-branch _ (Runs-error_here _) (
              Runs-token Excludes-destructor
                (λ t. Runs-any (Runs-less (Runs-destructor (suc f) d access t)))
                (Runs-typed_member (suc f) d access)))))))

Runs-member_loop : (f : ℕ) (m : Members) → Runs 0 f (member_loop f m)
unfolding member_loop
Runs-member_loop zero m = Runs-zero
Runs-member_loop (suc f) m = Runs-branch _ (Runs-pure _) (
    Runs-bind Runs-skip_newlines λ _.
      Runs-branch _ (Runs-pure _)
        (Runs-any (Runs-after (Runs-member_declaration (suc f) m) λ n. Runs-member_loop f n)))

pub Runs-class : (f : ℕ) → Runs 1 f (parse_class f)
unfolding parse_class
Runs-class f = Runs-bind (Runs-consume class_keyword refl _) λ keyword.
    Runs-bind (Runs-any (Runs-consume identifier refl _)) λ name. Runs-bind Runs-namespace λ path.
      Runs-bind (Runs-if_match_same colon refl f (Runs-any (Runs-base_list f _)) (Runs-pure _)) λ d.
        Runs-bind (Runs-any (Runs-consume left_brace refl _)) λ _.
          Runs-bind (Runs-member_loop f _)
            λ grown. Runs-bind (Runs-any (Runs-consume right_brace refl _)) λ _. Runs-pure grown
