-- ===== src/Parser/PrimarySteps.antt =====
-- The parsers of Primary stay within their fuel and their tokens.
use simp.Base.{ℕ, zero, suc, ◌≡◌, refl, false, ◌&&◌, ◌||◌, String}
use simp.Lexer.Token.{
  TokenType, Token, end_of_file, comma, colon, left_paren, right_paren, left_bracket, right_bracket,
  left_brace, right_brace, type_type, strg_type, list_type, dict_type, buffer_type, handle_type,
  any_type, float_type, unsigned_integer, true_keyword, false_keyword, null_keyword,
}
use simp.Lexer.Kinds.{same_type}
use simp.Ast.Expressions.{ExpressionKind, Expression, Expressions, nil}
use simp.Parser.State.{Parser}
use simp.Parser.Steps.{
  Runs-current, Excludes-end, Runs-token, Runs-error_found, check-Excludes-end, Runs-consume,
  Runs-match_first, Runs-if_match_same,
}
use simp.Parser.Rules.{
  Runs, Runs-zero, Runs-less, Runs-any, Runs-pure, Runs-branch, Runs-after, Runs-bind, Runs-before,
}
use simp.Parser.Primary.{
  Tested, if_type_name, is_cast, expression_list, closed_list, pair_list, parse_type_of, parse_cast,
  parse_parenthesized, parse_map, parse_elements, parse_typed, parse_simple, parse_primary,
}

-- A test that fails at the end of the file also fails there with a second condition.
pub and-Excludes-end : {p : Tested} (q : Tested) → Excludes-end p → Excludes-end (λ s. p s && q s)
and-Excludes-end q hp s h = rw (hp s h) refl

pub or-Excludes-end :
    {p q : Tested} → Excludes-end p → Excludes-end q → Excludes-end (λ s. p s || q s)
or-Excludes-end hp hq s h = rw (hp s h, hq s h) refl

pub Runs-if_type_name :
    (t : TokenType) (h : same_type end_of_file t ≡ false) {n : ℕ} (word : String) (token : Token)
    {p : Parser Expression}
    → Runs 1 (suc n) p
    → Runs 1 (suc n) (if_type_name t word token p)
unfolding if_type_name
Runs-if_type_name t h word token hp =
    Runs-token (and-Excludes-end _ (check-Excludes-end t h)) (λ _. Runs-pure _) hp

is_cast-Excludes-end : Excludes-end is_cast
is_cast-Excludes-end s h = rw h refl

module _ {expression : Parser Expression} where
  Runs-expression_list :
      (f : ℕ) (es : Expressions) → Runs 1 f expression → Runs 1 f (expression_list expression f es)
  unfolding expression_list
  Runs-expression_list zero es h = Runs-zero
  Runs-expression_list (suc f) es h = Runs-after h λ e.
      Runs-if_match_same comma refl f (Runs-any (Runs-expression_list f _ (Runs-less h)))
        (Runs-pure _)

  Runs-pair_list :
      (f : ℕ) (es : Expressions) → Runs 1 f expression → Runs 1 f (pair_list expression f es)
  unfolding pair_list
  Runs-pair_list zero es h = Runs-zero
  Runs-pair_list (suc f) es h = Runs-after h λ key.
      Runs-bind (Runs-any (Runs-consume colon refl _)) λ _.
        Runs-bind (Runs-any (Runs-less h)) λ value.
          Runs-if_match_same comma refl f (Runs-any (Runs-pair_list f _ (Runs-less h)))
            (Runs-pure _)

  module _ {f : ℕ} (h : Runs 1 f expression) where
    pub Runs-closed_list :
        (close : TokenType)
        → same_type end_of_file close ≡ false
        → (m : String) → Runs 1 f (closed_list expression f close m)
    unfolding closed_list
    Runs-closed_list close hc m =
        Runs-before (Runs-branch _ (Runs-pure _) (Runs-any (Runs-expression_list f nil h)))
          λ es. Runs-bind (Runs-consume close hc m) λ _. Runs-pure es

    Runs-type_of : (token : Token) → Runs 1 f (parse_type_of expression token)
    unfolding parse_type_of
    Runs-type_of token = Runs-bind (Runs-consume left_paren refl _) λ _.
        Runs-bind (Runs-any h)
          λ e. Runs-bind (Runs-any (Runs-consume right_paren refl _)) λ _. Runs-pure _

    Runs-cast : (token : Token) → Runs 1 f (parse_cast expression token)
    unfolding parse_cast
    Runs-cast token = Runs-bind (Runs-consume left_paren refl _) λ _.
        Runs-bind (Runs-any h)
          λ e. Runs-bind (Runs-any (Runs-consume right_paren refl _)) λ _. Runs-pure _

    Runs-parenthesized : Runs 1 f (parse_parenthesized expression)
    unfolding parse_parenthesized
    Runs-parenthesized =
        Runs-bind h λ e. Runs-bind (Runs-any (Runs-consume right_paren refl _)) λ _. Runs-pure e

    Runs-map : (token : Token) → Runs 1 f (parse_map expression f token)
    unfolding parse_map
    Runs-map token =
        Runs-before (Runs-branch _ (Runs-pure _) (Runs-any (Runs-pair_list f nil h)))
          λ es. Runs-bind (Runs-consume right_brace refl _) λ _. Runs-pure _

    Runs-elements :
        (kind : ExpressionKind) (token : Token) (close : TokenType)
        → same_type end_of_file close ≡ false
        → (m : String) → Runs 0 f (parse_elements expression f kind token close m)
    unfolding parse_elements
    Runs-elements kind token close hc m =
        Runs-any (Runs-bind (Runs-closed_list close hc m) λ es. Runs-pure _)

    Runs-simple : (token : Token) → Runs 1 (suc f) (parse_simple expression f token)
    unfolding parse_simple
    Runs-simple token = Runs-match_first unsigned_integer refl (Runs-pure _) (
        Runs-match_first TokenType.float refl (Runs-pure _) (
          Runs-match_first TokenType.integer refl (Runs-pure _) (
            Runs-match_first true_keyword refl (Runs-pure _) (
              Runs-match_first false_keyword refl (Runs-pure _) (
                Runs-match_first TokenType.string refl (Runs-pure _) (
                  Runs-match_first TokenType.identifier refl (Runs-pure _) (
                    Runs-match_first null_keyword refl (Runs-pure _) (
                      Runs-match_first left_paren refl (Runs-any Runs-parenthesized) (
                        Runs-match_first left_bracket refl (Runs-elements _ _ right_bracket refl _)
                          (Runs-match_first left_brace refl (Runs-any (Runs-map token))
                            (Runs-error_found _)))))))))))

    Runs-typed :
        (token : Token) {p : Parser Expression}
        → Runs 1 (suc f) p
        → Runs 1 (suc f) (parse_typed expression f token p)
    unfolding parse_typed
    Runs-typed token hp = Runs-match_first type_type refl (Runs-any (Runs-type_of token)) (
        Runs-if_type_name TokenType.int refl _ _ (
          Runs-if_type_name TokenType.bool refl _ _ (
            Runs-if_type_name float_type refl _ _ (
              Runs-if_type_name TokenType.unsigned refl _ _ (
                Runs-match_first strg_type refl (Runs-pure _) (
                  Runs-match_first list_type refl (Runs-pure _) (
                    Runs-match_first dict_type refl (Runs-pure _) (
                      Runs-token (and-Excludes-end _ (check-Excludes-end buffer_type refl))
                        (λ _.
                          Runs-bind (Runs-any (Runs-consume left_bracket refl _))
                            λ _. Runs-elements _ _ right_bracket refl _)
                        (Runs-if_type_name buffer_type refl _ _ (
                          Runs-match_first handle_type refl (Runs-pure _) (
                            Runs-match_first any_type refl (Runs-pure _) (
                              Runs-match_first buffer_type refl
                                (Runs-bind (Runs-any (Runs-consume left_paren refl _))
                                  λ _. Runs-elements _ _ right_paren refl _)
                                (Runs-token is_cast-Excludes-end (λ t. Runs-any (Runs-cast token))
                                  hp)))))))))))))

    pub Runs-primary : Runs 1 (suc f) (parse_primary expression f)
    unfolding parse_primary
    Runs-primary = Runs-before Runs-current λ token. Runs-typed token (Runs-simple token)
