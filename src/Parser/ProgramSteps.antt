-- ===== src/Parser/ProgramSteps.antt =====
-- The parsers of Programs stay within their fuel and their tokens.
use simp.Base.{ℕ, zero, suc, refl, Bool, List, Bytes, arith}
use simp.Lexer.Token.{
  Token, left_brace, right_brace, import_keyword, namespace_keyword, start_keyword, as_keyword,
  identifier,
}
use simp.Ast.Declarations.{Program}
use simp.Parser.State.{Parser, pure, ◌>>=◌}
use simp.Parser.Steps.{
  Runs-token_or, Runs-error_here, check-Excludes-end, Runs-consume, Runs-if_match_same,
  Runs-skip_newlines, Runs-terminator, Runs-guarded,
}
use simp.Parser.Rules.{reads}
use simp.Parser.Rules.{
  Runs, runs, Runs-zero, Runs-less, Runs-any, Runs-pure, Runs-branch, Runs-after, Runs-bind,
}
use simp.Parser.StatementSteps.{Runs-parse_block}
use simp.Parser.Methods.{parse_out_of_line_method_definition}
use simp.Parser.ClassSteps.{Runs-namespace, Runs-out_of_line, Runs-class}
use simp.Parser.Programs.{
  parse_import, add_definition, set_namespace, parse_declared, parse_defined, namespace_member,
  namespace_loop, parse_namespace, program_member, program_loop, check_end, parse_start,
  parse_program, module_member, module_loop, parse_module,
}

Runs-set_namespace : {n : ℕ} (path : List Bytes) → Runs 0 n (set_namespace path)
unfolding set_namespace
Runs-set_namespace path =
    runs λ s he hn. reads (record s { namespace_path = path }) he (omega arith) refl

Runs-import : (f : ℕ) → Runs 1 f parse_import
unfolding parse_import
Runs-import f = Runs-bind (Runs-consume import_keyword refl _) λ keyword.
    Runs-bind (Runs-any (Runs-consume identifier refl _)) λ name.
      Runs-bind
        (Runs-if_match_same as_keyword refl f
          (Runs-bind (Runs-any (Runs-consume identifier refl _)) λ t. Runs-pure _) (Runs-pure _))
        λ alias. Runs-bind (Runs-terminator f) λ _. Runs-pure _

Runs-declared :
    (f : ℕ) (p : Program) {others : Parser Program}
    → Runs 1 f others
    → Runs 1 f (parse_declared f p others)
unfolding parse_declared
Runs-declared f p h = Runs-branch _ (Runs-bind (Runs-class f) λ c. Runs-pure _) h

Runs-definition :
    (f : ℕ) (p : Program)
    → Runs 1 f (parse_out_of_line_method_definition f >>= λ d. pure (add_definition p d))
Runs-definition f p = Runs-bind (Runs-out_of_line f) λ d. Runs-pure _

Runs-defined :
    (f : ℕ) (p : Program) {others : Parser Program}
    → Runs 1 f others
    → Runs 1 f (parse_defined f p others)
unfolding parse_defined
Runs-defined f p h = Runs-branch _ (Runs-definition f p) h

Runs-namespace_member :
    (f : ℕ) {inner : Program → Parser Program}
    → ((p : Program) → Runs 1 f (inner p))
    → (p : Program) → Runs 1 f (namespace_member f inner p)
unfolding namespace_member
Runs-namespace_member f hi p = Runs-branch _ (hi p) (
    Runs-declared f p (
      Runs-branch _ (Runs-error_here _) (
        Runs-branch _ (Runs-error_here _) (
          Runs-branch _ (Runs-error_here _)
            (Runs-branch _ (Runs-error_here _) (Runs-defined f p (Runs-error_here _)))))))

Runs-namespace_loop :
    (f : ℕ) {one : Program → Parser Program}
    → ((p : Program) → Runs 1 f (one p))
    → (p : Program) → Runs 0 f (namespace_loop f one p)
unfolding namespace_loop
Runs-namespace_loop zero ho p = Runs-zero
Runs-namespace_loop (suc f) ho p = Runs-branch _ (Runs-pure p) (
    Runs-bind Runs-skip_newlines λ _. Runs-branch _ (Runs-pure p) (
      Runs-any (
        Runs-after (ho p)
          λ q. Runs-bind Runs-skip_newlines λ _. Runs-namespace_loop f (λ r. Runs-less (ho r)) q)))

Runs-parse_namespace : (f : ℕ) (p : Program) → Runs 1 f (parse_namespace f p)
unfolding parse_namespace
Runs-parse_namespace zero p = Runs-zero
Runs-parse_namespace (suc f) p = Runs-guarded (
    Runs-after (Runs-consume namespace_keyword refl _) λ keyword.
      Runs-bind (Runs-any (Runs-consume identifier refl _)) λ name.
        Runs-bind Runs-skip_newlines λ _. Runs-bind (Runs-any (Runs-consume left_brace refl _)) λ _.
          Runs-bind Runs-namespace λ outer. Runs-bind (Runs-set_namespace _) λ _.
            Runs-bind (Runs-namespace_loop f (Runs-namespace_member f (Runs-parse_namespace f)) _)
              λ q. Runs-bind (Runs-any (Runs-consume right_brace refl _)) λ _.
                Runs-bind Runs-namespace λ path. Runs-bind (Runs-set_namespace _) λ _. Runs-pure q)

Runs-program_member : (f : ℕ) (p : Program) → Runs 1 f (program_member f p)
unfolding program_member
Runs-program_member f p = Runs-branch _ (Runs-bind (Runs-import f) λ i. Runs-pure _) (
    Runs-branch _ (Runs-error_here _)
      (Runs-declared f p (Runs-branch _ (Runs-parse_namespace f p) (Runs-definition f p))))

Runs-program_loop : (f : ℕ) (p : Program) → Runs 0 f (program_loop f p)
unfolding program_loop
Runs-program_loop zero p = Runs-zero
Runs-program_loop (suc f) p =
    Runs-branch _
      (Runs-any (
        Runs-after (Runs-program_member (suc f) p)
          λ q. Runs-bind Runs-skip_newlines λ _. Runs-program_loop f q))
      (Runs-pure p)

Runs-check_end : {n : ℕ} → Runs 0 n check_end
unfolding check_end
Runs-check_end =
    Runs-branch _ (Runs-error_here _)
      (Runs-branch _ (Runs-branch _ (Runs-error_here _) (Runs-error_here _)) (Runs-pure _))

Runs-start : (f : ℕ) (p : Program) (keyword : Token) → Runs 0 f (parse_start f p keyword)
unfolding parse_start
Runs-start f p keyword =
    Runs-bind (Runs-any (Runs-parse_block f))
      λ ss. Runs-bind Runs-skip_newlines λ _. Runs-bind Runs-check_end λ _. Runs-pure _

-- Before fewer tokens than the fuel a program is parsed or refused.
pub Runs-program : (f : ℕ) (b : Bool) → Runs 0 f (parse_program f b)
unfolding parse_program
Runs-program zero b = Runs-zero
Runs-program (suc f) b = Runs-bind Runs-skip_newlines λ _.
    Runs-bind (Runs-program_loop (suc f) _) λ p. Runs-branch _ (Runs-error_here _) (
      Runs-token_or (check-Excludes-end start_keyword refl)
        (λ keyword. Runs-less (Runs-start (suc f) p keyword))
        (Runs-branch _ (Runs-pure p) (Runs-error_here _)))

Runs-module_member : (f : ℕ) (p : Program) → Runs 1 f (module_member f p)
unfolding module_member
Runs-module_member f p = Runs-branch _ (Runs-bind (Runs-import f) λ i. Runs-pure _) (
    Runs-declared f p (
      Runs-branch _ (Runs-parse_namespace f p) (
        Runs-defined f p (
          Runs-branch _ (Runs-error_here _)
            (Runs-branch _ (Runs-error_here _) (Runs-error_here _))))))

Runs-module_loop : (f : ℕ) (p : Program) → Runs 0 f (module_loop f p)
unfolding module_loop
Runs-module_loop zero p = Runs-zero
Runs-module_loop (suc f) p = Runs-branch _ (Runs-pure p) (
    Runs-any (
      Runs-after (Runs-module_member (suc f) p)
        λ q. Runs-bind Runs-skip_newlines λ _. Runs-module_loop f q))

pub Runs-module : (f : ℕ) → Runs 0 f (parse_module f)
unfolding parse_module
Runs-module f = Runs-bind Runs-skip_newlines λ _. Runs-module_loop f _
