-- ===== src/Parser/TypeSteps.antt =====
-- The parsers of Types stay within their fuel and their tokens.
use simp.Base.{ℕ, zero, suc, ◌≡◌, refl, Bool, true, false, List, [], ◌∷◌, String, Bytes, All}
use simp.Lexer.Token.{
  end_of_file, dot, comma, less, greater, left_paren, right_paren, callback_type, identifier,
  null_keyword, void_keyword,
}
use simp.Lexer.Kinds.{same_type}
use simp.Parser.State.{Parser}
use simp.Parser.Steps.{
  Runs-current, Runs-token, Runs-error_here, Runs-error_found, check-Excludes-end, Runs-consume,
  Runs-if_match, Runs-match_first, Runs-if_match_same, Runs-guarded,
}
use simp.Parser.Rules.{
  Runs, Runs-zero, Runs-less, Runs-any, Runs-pure, Runs-branch, Runs-if, Runs-after, Runs-bind,
  Runs-before,
}
use simp.Ast.Declarations.{Parameter}
use simp.Parser.Types.{
  parse_type, parse_parameters, type_list, callback_tail, parameter_list, type_words, type_path,
  dotted, parse_qualified_identifier, TypeWords, if_word, tested_words, parse_type_test_name,
}

pub Runs-dotted : (f : ℕ) (m : String) (name : Bytes) → Runs 0 f (dotted f m name)
unfolding dotted
Runs-dotted zero m name = Runs-zero
Runs-dotted (suc f) m name =
    Runs-if_match dot refl
      (Runs-any (Runs-bind (Runs-consume identifier refl m) λ t. Runs-dotted f m _))
      (Runs-pure name)

pub Runs-qualified : (f : ℕ) (m : String) → Runs 1 f (parse_qualified_identifier f m)
unfolding parse_qualified_identifier
Runs-qualified f m = Runs-bind (Runs-consume identifier refl m) λ t. Runs-dotted f m t.text

-- No word of the table is the end of the file.
abbrev Excludes-words : TypeWords → Type 0
Excludes-words = All λ w. same_type end_of_file w.0 ≡ false

pub Runs-if_word :
    {n : ℕ} (words : TypeWords) {p : Parser Bytes}
    → Excludes-words words
    → Runs 1 (suc n) p
    → Runs 1 (suc n) (if_word words p)
unfolding if_word
Runs-if_word [] h hp = hp
Runs-if_word ((t, word) ∷ words) h hp =
    Runs-match_first t h.0 (Runs-pure _) (Runs-if_word words h.1 hp)

pub Runs-test_name : (f : ℕ) (m : String) (b : Bool) → Runs 1 f (parse_type_test_name f m b)
unfolding parse_type_test_name
Runs-test_name zero m b = Runs-zero
Runs-test_name (suc f) m b = Runs-branch _ (Runs-error_here _) (
    Runs-branch _ (Runs-qualified (suc f) _) (
      Runs-if_word tested_words (assumption refl) (
        Runs-match_first null_keyword refl (Runs-if b (Runs-pure _) (Runs-error_found _))
          (Runs-match_first void_keyword refl (Runs-pure _) (Runs-error_found _)))))

Runs-type_list :
    (f : ℕ) {p : Parser Bytes} (text : Bytes) → Runs 1 f p → Runs 1 f (type_list f p text)
unfolding type_list
Runs-type_list zero text hp = Runs-zero
Runs-type_list (suc f) text hp = Runs-after hp λ t.
    Runs-if_match_same comma refl f (Runs-any (Runs-type_list f _ (Runs-less hp))) (Runs-pure _)

Runs-callback_tail :
    (f : ℕ) {result one : Parser Bytes}
    → Runs 1 f result
    → Runs 1 f one
    → Runs 1 f (callback_tail f result one)
unfolding callback_tail
Runs-callback_tail f hr ho = Runs-bind (Runs-consume less refl _) λ _. Runs-bind (Runs-any hr) λ r.
    Runs-bind (Runs-any (Runs-consume left_paren refl _)) λ _.
      Runs-bind (Runs-branch _ (Runs-pure _) (Runs-any (Runs-type_list f _ ho))) λ text.
        Runs-bind (Runs-any (Runs-consume right_paren refl _))
          λ _. Runs-bind (Runs-any (Runs-consume greater refl _)) λ _. Runs-pure _

Runs-path : (f : ℕ) → Runs 1 f (type_path f)
unfolding type_path
Runs-path zero = Runs-zero
Runs-path (suc f) =
    Runs-token (check-Excludes-end identifier refl) (λ t. Runs-less (Runs-dotted (suc f) _ t.text))
      (Runs-error_here _)

pub Runs-type : (f : ℕ) (b : Bool) → Runs 1 f (parse_type f b)
unfolding parse_type
Runs-type zero b = Runs-zero
Runs-type (suc f) b =
    let path = Runs-path (suc f) in
    Runs-guarded (
      Runs-match_first callback_type refl
        (Runs-any (Runs-callback_tail f (Runs-type f true) (Runs-type f false)))
        (Runs-if_word type_words (assumption refl)
          (Runs-if b (Runs-match_first void_keyword refl (Runs-pure _) path) path)))

Runs-parameter_list : (f : ℕ) (ps : List Parameter) → Runs 1 f (parameter_list f ps)
unfolding parameter_list
Runs-parameter_list zero ps = Runs-zero
Runs-parameter_list (suc f) ps = Runs-before Runs-current λ t.
    Runs-after (Runs-type (suc f) false) λ type.
      Runs-bind (Runs-any (Runs-consume identifier refl _))
        λ name. Runs-if_match_same comma refl f (Runs-any (Runs-parameter_list f _)) (Runs-pure _)

pub Runs-parameters : (f : ℕ) → Runs 1 f (parse_parameters f)
unfolding parse_parameters
Runs-parameters f = Runs-bind (Runs-consume left_paren refl _) λ _.
    Runs-bind (Runs-branch _ (Runs-pure _) (Runs-any (Runs-parameter_list f _)))
      λ ps. Runs-bind (Runs-any (Runs-consume right_paren refl _)) λ _. Runs-pure _
