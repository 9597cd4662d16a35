-- ===== src/Parser/FormatBounds.antt =====
-- What `validateFormatString` accepts.
use simp.Base.{
  ℕ, ◌+◌, ◌-◌, ◌*◌, ◌≤◌, ◌≡◌, Bool, true, false, [], ◌∷◌, Bytes, ltb, within, ◌==◌, length,
  length-append, All, All-concat, Option, none, some, SourceLocation, if◌then◌else◌, arith,
}
use simp.Ast.Expressions.{FormatSpec}
use simp.Parser.Verdict.{accepted, refused, Yields, yields, refuses, Yields-if, Yields-bind}
use simp.Parser.Format.{
  split_colon, read_width, is_placeholder_name, read_option, read_spec, read_placeholder, Template,
  add_segment, add_placeholder, outside, inside,
}

abbrev pub IsBounded : FormatSpec → Type 0
IsBounded spec = spec.width ≤ 1000000

not_more : (a b : ℕ) → ltb a b ≡ false → b ≤ a
not_more a b h = ground arith

read_width-Yields :
    (l : SourceLocation) (text : Bytes) (width : ℕ)
    → width ≤ 1000000
    → Yields (λ r. r.0 ≤ 1000000) (read_width l width text)
unfolding read_width
read_width-Yields l [] width h = yields h
read_width-Yields l (c ∷ text) width h =
    Yields-if (within b'0' b'9' c)
      (λ _.
        Yields-if (ltb 1000000 (width * 10 + (c - b'0'))) (λ _. refuses)
          λ e. read_width-Yields l text (width * 10 + (c - b'0')) (not_more _ _ e))
      (λ _. yields h)

checked-Yields :
    (l : SourceLocation) (b : Bool) (spec : FormatSpec) (m : Bytes)
    → IsBounded spec
    → Yields IsBounded (if b then refused l m else accepted spec)
checked-Yields l true spec m h = refuses
checked-Yields l false spec m h = yields h

read_spec-Yields : (l : SourceLocation) (text : Bytes) → Yields IsBounded (read_spec l text)
unfolding read_spec
read_spec-Yields l text =
    Yields-bind (read_width-Yields l _ 0 (omega arith)) λ r h. checked-Yields l _ _ _ h

read_option-Yields : (l : SourceLocation) (o : Option Bytes) → Yields IsBounded (read_option l o)
read_option-Yields l none = yields (omega arith)
read_option-Yields l (some text) = read_spec-Yields l text

read_placeholder-Yields :
    (l : SourceLocation) (text : Bytes) → Yields (λ p. IsBounded p.1) (read_placeholder l text)
unfolding read_placeholder
read_placeholder-Yields l text =
    Yields-if (is_placeholder_name (split_colon text).0)
      (λ _. Yields-bind (read_option-Yields l (split_colon text).1) λ spec h. yields h)
      (λ _. refuses)

-- As many names as specifications, and one more segment when the scan is outside.
pub record IsScanned (extra : ℕ) (t : Template) : Type 0 where
  pub segments_count : length t.segments + extra ≡ length t.specs + 1
  pub names_count : length t.names ≡ length t.specs
  pub bounded : All IsBounded t.specs

segment-IsScanned :
    (t : Template) (segment : Bytes) → IsScanned 1 t → IsScanned 0 (add_segment t segment)
segment-IsScanned t segment h = record {
  segments_count = omega (arith, h.segments_count, length-append t.segments (segment ∷ []));
  names_count = h.names_count;
  bounded = h.bounded;
}

placeholder-IsScanned :
    (t : Template) (p : Bytes × FormatSpec)
    → IsScanned 0 t
    → IsBounded p.1
    → IsScanned 1 (add_placeholder t p)
placeholder-IsScanned t p h hp = record {
  segments_count = omega (arith, h.segments_count, length-append t.specs (p.1 ∷ []));
  names_count =
      omega
        (arith, h.names_count, length-append t.specs (p.1 ∷ []), length-append t.names (p.0 ∷ []));
  bounded = All-concat IsBounded t.specs p.1 h.bounded hp;
}

mutual
  unfolding outside read_placeholder

  pub outside-Yields :
      (l : SourceLocation) (text : Bytes) (t : Template) (segment : Bytes)
      → IsScanned 1 t
      → Yields (IsScanned 0) (outside l t segment text)
  outside-Yields l [] t segment h = yields (segment-IsScanned t segment h)
  outside-Yields l (c ∷ []) t segment h =
      Yields-if (c == b'{') (λ _. refuses)
        λ _. Yields-if (c == b'}') (λ _. refuses) λ _. yields (segment-IsScanned t _ h)
  outside-Yields l (c ∷ d ∷ text) t segment h =
      Yields-if (c == b'{')
        (λ _.
          Yields-if (d == b'{') (λ _. outside-Yields l text t _ h)
            λ _.
              inside-Yields l (d ∷ text) (add_segment t segment) [] (segment-IsScanned t segment h))
        λ _.
          Yields-if (c == b'}')
            (λ _. Yields-if (d == b'}') (λ _. outside-Yields l text t _ h) λ _. refuses)
            λ _. outside-Yields l (d ∷ text) t _ h

  inside-Yields :
      (l : SourceLocation) (text : Bytes) (t : Template) (passed : Bytes)
      → IsScanned 0 t
      → Yields (IsScanned 0) (inside l t passed text)
  inside-Yields l [] t passed h = refuses
  inside-Yields l (c ∷ text) t passed h =
      Yields-if (c == b'}')
        (λ _.
          Yields-bind (read_placeholder-Yields l passed)
            λ p hp. outside-Yields l text (add_placeholder t p) [] (placeholder-IsScanned t p h hp))
        λ _. inside-Yields l text t _ h
