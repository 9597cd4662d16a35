-- ===== src/Loader/Included.antt =====
-- About the set of included files of `tokenizeWithIncludes` of src/SourceLoader.cpp.
use simp.Base.{
  ℕ, zero, suc, ◌+◌, ◌≤◌, ◌<◌, ◌≡◌, refl, false, List, [], ◌∷◌, Option-cases, Bool-cases, inl, inr,
  Bytes, leb, Ensures, holds, throws, Outcome, arith,
}
use simp.Base.Tables.{is_member}
use simp.Lexer.Token.{Token}
use simp.Lexer.Sound.{tokenize-IsTokenization}
use simp.Base.Loaded.{from_outcome, Completes, completes, rejects, Completes-if, Completes-bind}
use simp.Loader.Expand.{
  FileSystem, Source, root_source, Expanding, keep_token, ends_line, end_line, is_stray_start,
  is_directive, is_no_path, is_no_line_end, first_canonical, candidates_of, Expansion, child_of,
  include_file, include_once, include_path, directive, expand_loop, begin, tokenize_with_includes,
}

-- No path is in the list twice.
abbrev pub IsDistinct : List Bytes → Type 0
IsDistinct [] = Unit
IsDistinct (x ∷ xs) = (is_member x xs ≡ false) × IsDistinct xs

abbrev Included : Expanding → Type 0
Included s = IsDistinct s.included

from_outcome-Completes :
    {A : Type 0} {P : A → Type 0} {r : Outcome A} → Ensures P r → Completes P (from_outcome r)
from_outcome-Completes (holds h) = completes h
from_outcome-Completes throws = rejects

keep-Included : (s : Expanding) (t : Token) → Included s → Included (keep_token s t)
unfolding keep_token
keep-Included s t h = h

end-Included : (s : Expanding) (t : Token) → Included s → Included (end_line s t)
unfolding end_line
end-Included s t h = elim (Bool-cases (ends_line s.expanded)) [ inl e ↦ rw e h | inr e ↦ rw e h ]

leb-lt : (a b : ℕ) → leb a b ≡ false → b < a
leb-lt a b h = ground arith

module _ (files : FileSystem) (maximum : ℕ) (search : List Bytes) where
  -- What is asked of the expansion of the files that a source includes.
  abbrev Expands : Expansion files maximum search → ℕ → Type 0
  Expands expand depth =
      (text : Bytes) (source : Source) (included : List Bytes)
      → source.depth ≡ depth
      → depth ≤ maximum
      → IsDistinct included
      → Completes (λ r. IsDistinct r.1) (expand text source included)

  module _ (expand : Expansion files maximum search) (source : Source)
      (he : Expands expand (source.depth + 1)) where
    file-Completes :
        (s : Expanding) (t path_token : Token) (path : Bytes)
        → Included s
        → is_member path s.included ≡ false
        → Completes Included (include_file files maximum search expand source s t path_token path)
    unfolding include_file
    file-Completes s t path_token path h hp =
        Completes-if (leb maximum source.depth) (λ _. rejects)
          λ e. elim (Option-cases (files.contents path)) [
            | inl o ↦ rw o rejects
            | inr (text, o) ↦ rw o (
                Completes-bind
                  (he text (child_of files maximum search source path) (path ∷ s.included) refl
                    (omega (arith, leb-lt maximum source.depth e)) (hp, h))
                  λ r hr. completes hr)
          ]

    once-Completes :
        (s : Expanding) (t path_token : Token) (path : Bytes)
        → Included s
        → Completes Included (include_once files maximum search expand source s t path_token path)
    unfolding include_once
    once-Completes s t path_token path h =
        Completes-if (is_member path s.included) (λ _. completes h)
          (file-Completes s t path_token path h)

    path-Completes :
        (s : Expanding) (t path_token : Token)
        → Included s
        → Completes Included (include_path files maximum search expand source s t path_token)
    unfolding include_path
    path-Completes s t path_token h =
        elim (Option-cases (
          first_canonical files maximum search
            (candidates_of files maximum search source.path path_token.text))) [
              | inl o ↦ rw o rejects
              | inr (path, o) ↦ rw o (
                  Completes-bind (once-Completes s t path_token path h)
                    λ s' h'. completes (end-Included s' t h'))
            ]

    directive-Completes :
        (s : Expanding) (t path_token next : Token)
        → Included s
        → Completes Included (directive files maximum search expand source s t path_token next)
    unfolding directive
    directive-Completes s t path_token next h =
        Completes-if s.saw_start (λ _. rejects)
          λ _.
            Completes-if (is_no_path path_token) (λ _. rejects)
              λ _.
                Completes-if (is_no_line_end next) (λ _. rejects)
                  λ _. path-Completes s t path_token h

    loop-Completes :
        (ts : List Token) (s : Expanding)
        → Included s
        → Completes Included (expand_loop files maximum search expand source ts s)
    unfolding expand_loop
    loop-Completes [] s h = completes h
    loop-Completes (t ∷ []) s h = completes h
    loop-Completes (t ∷ u ∷ []) s h =
        Completes-if (is_stray_start source t) (λ _. rejects)
          λ _.
            Completes-if (is_directive s t)
              (λ _. Completes-if s.saw_start (λ _. rejects) λ _. rejects)
              λ _. completes (keep-Included s t h)
    loop-Completes (t ∷ u ∷ v ∷ rest) s h =
        Completes-if (is_stray_start source t) (λ _. rejects)
          λ _.
            Completes-if (is_directive s t)
              (λ _.
                Completes-bind (directive-Completes s t u v h) λ s' h'. loop-Completes rest s' h')
              λ _. loop-Completes (u ∷ v ∷ rest) (keep_token s t) (keep-Included s t h)

  expansion-Completes :
      (f : ℕ) (text : Bytes) (source : Source) (included : List Bytes)
      → maximum < source.depth + f
      → source.depth ≤ maximum
      → IsDistinct included
      → Completes
          (λ r. IsDistinct r.1)
          (tokenize_with_includes files maximum search f text source included)
  unfolding tokenize_with_includes
  expansion-Completes zero text source included hf hd h = absurd (omega (arith, hf, hd))
  expansion-Completes (suc f) text source included hf hd h =
      Completes-bind (from_outcome-Completes (tokenize-IsTokenization text source.path)) λ tokens _.
        Completes-bind
          (loop-Completes (tokenize_with_includes files maximum search f) source
            (λ text' source' included' e le h'.
              expansion-Completes f text' source' included' (omega (arith, hf, e))
                (omega (arith, e, le)) h')
            tokens (begin files maximum search included) h)
          λ s hs. completes hs

-- A root source is expanded, or a diagnostic is thrown, with fuel for one level more than the
-- maximum depth, and then no file is in the set of included files twice.
pub tokenize_with_includes-IsDistinct :
    (files : FileSystem) (maximum : ℕ) (search : List Bytes) (text path : Bytes)
    (included : List Bytes)
    → IsDistinct included
    → Completes
        (λ r. IsDistinct r.1)
        (tokenize_with_includes files maximum search (suc maximum) text (root_source path) included)
tokenize_with_includes-IsDistinct files maximum search text path included h =
    expansion-Completes files maximum search (suc maximum) text (root_source path) included
      (omega arith) (omega arith) h
