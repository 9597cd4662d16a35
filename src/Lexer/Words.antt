-- ===== src/Lexer/Words.antt =====
-- Keywords of src/Lexer.cpp are found in any case of their letters.
use simp.Base.{
  String, List, [], ◌∷◌, ◌≡◌, ◌⊎◌, inl, inr, refl, sym, ap, ◌∙◌, map, Bool-cases, Bytes, codes,
  equal, equal_iff, All, All-map-All, In,
}
use simp.Lexer.Token.{TokenType, identifier, keywords}
use simp.Lexer.Chars.{lower_ascii}
use simp.Lexer.Scanners.{find_keyword, word_type}

string_not_keyword : find_keyword (map lower_ascii (codes "String")) keywords ≡ identifier
unfolding find_keyword equal lower_ascii
string_not_keyword = refl

-- The exception for `String` changes nothing: its lower case is no keyword.
pub word_type-find_keyword :
    (text : Bytes) → word_type text ≡ find_keyword (map lower_ascii text) keywords
unfolding word_type
word_type-find_keyword text = elim (Bool-cases (equal text (codes "String"))) [
  | inl h ↦
      rw (h, word_type)
        (sym (
          ap (λ t. find_keyword (map lower_ascii t) keywords)
            ((equal_iff text (codes "String")).0 h)
          ∙ string_not_keyword))
  | inr h ↦ rw (h, word_type)
]

find_keyword-keywords : All (λ (k, t). find_keyword (codes k) keywords ≡ t) keywords
unfolding find_keyword equal
find_keyword-keywords = assumption refl

find_keyword-In :
    (w : Bytes) (table : List (String × TokenType)) (t' : TokenType)
    → find_keyword w table ≡ t'
    → (t' ≡ identifier) ⊎ ((k : String) × (w ≡ codes k) × In (k, t') table)
unfolding find_keyword
find_keyword-In w [] t' e = inl (sym e)
find_keyword-In w ((k, t) ∷ table) t' e = elim (Bool-cases (equal w (codes k))) [
  | inl h ↦ inr (k, (equal_iff w (codes k)).0 h, inl (ap (λ x. (k, x)) (sym (rw h at e))))
  | inr h ↦ elim (find_keyword-In w table t' (rw h at e)) [
    | inl none_found ↦ inl none_found
    | inr (k', is, found) ↦ inr (k', is, inr found)
  ]
]

-- A word has the type of the keyword that it spells in lower case, and has the type `identifier` if
-- it spells none.
pub word_type-keywords :
    (w : Bytes)
    → All (λ (k, t). map lower_ascii w ≡ codes k → word_type w ≡ t) keywords
      × ((word_type w ≡ identifier)
          ⊎ ((k : String) × (map lower_ascii w ≡ codes k) × In (k, word_type w) keywords))
word_type-keywords w = (
  All-map-All {Q = λ (k, t). map lower_ascii w ≡ codes k → word_type w ≡ t} keywords
      (λ (k, t) found e. word_type-find_keyword w ∙ ap (λ x. find_keyword x keywords) e ∙ found)
      find_keyword-keywords,
  find_keyword-In (map lower_ascii w) keywords (word_type w) (sym (word_type-find_keyword w)),
)
