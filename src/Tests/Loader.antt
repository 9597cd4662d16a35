-- ===== src/Tests/Loader.antt =====
-- Runs of src/SourceLoader.cpp, and its theorem at a concrete input.
use simp.Base.{ℕ, ◌≡◌, refl, List, [], ◌∷◌, map, codes, Bytes, none, some, equal, if◌then◌else◌}
use simp.Base.Decimal.{decimal, decimal_loop}
use simp.Base.Tables.{is_member}
use simp.Lexer.Token.{Token}
use simp.Lexer.Chars.{is_identifier_part}
use simp.Lexer.Cursor.{step, push_loop}
use simp.Lexer.Tokenize.{tokenize}
use simp.Base.Loaded.{Loaded, loaded, rejected, ◌>>=◌, Completes}
use simp.Loader.Paths.{parent_path}
use simp.Loader.Expand.{
  FileSystem, root_source, keep_token, end_line, is_stray_start, is_directive, is_no_path,
  is_no_line_end, first_canonical, candidates_of, include_file, include_once, include_path,
  directive, expand_loop, tokenize_with_includes,
}
use simp.Loader.Included.{IsDistinct, tokenize_with_includes-IsDistinct}

-- Two files, the second of which includes the first and itself.
abbrev files : FileSystem
files = record {
  canonical = λ path.
      if equal path (codes "/p/a")
      then some path
      else if equal path (codes "/p/b")
      then some path
      else none;
  contents = λ path.
      if equal path (codes "/p/a")
      then some (codes "x\n")
      else if equal path (codes "/p/b")
      then some (codes "include \"a\"\ninclude \"b\"\ny\n")
      else none;
}

abbrev texts_of : Loaded (List Token × List Bytes) → Loaded (List Bytes × List Bytes)
texts_of r = r >>= λ (tokens, included). loaded (map (λ t. t.text) tokens, included)

abbrev expand : ℕ → Bytes → Loaded (List Token × List Bytes)
expand maximum text = tokenize_with_includes files maximum [] 3 text (root_source (codes "/p/c")) []

expanded_twice :
    texts_of (expand 2 (codes "include \"b\"\ninclude \"/p/a\"\nstart"))
    ≡ loaded (
      codes "x" ∷ codes "\n" ∷ codes "y" ∷ codes "\n" ∷ codes "start" ∷ [],
      codes "/p/a" ∷ codes "/p/b" ∷ [],
    )
unfolding tokenize_with_includes expand_loop directive include_path include_once include_file
    candidates_of first_canonical is_no_line_end is_no_path is_directive is_stray_start end_line
    keep_token is_member parent_path tokenize push_loop step is_identifier_part
expanded_twice = refl

too_deep :
    expand 1 (codes "include \"b\"\n")
    ≡ rejected
        (record { file = codes "/p/b"; line = 1; column = 1 })
        (codes "maximum include depth of 1 exceeded (include chain: /p/c -> /p/b -> /p/a)")
unfolding tokenize_with_includes expand_loop directive include_path include_once include_file
    candidates_of first_canonical is_no_line_end is_no_path is_directive is_stray_start end_line
    keep_token is_member parent_path tokenize push_loop step is_identifier_part decimal decimal_loop
too_deep = refl

a-IsDistinct : IsDistinct (codes "/p/a" ∷ [])
unfolding is_member
a-IsDistinct = (refl, tt)

tokenize_with_includes-IsDistinct_example :
    Completes
      (λ r. IsDistinct r.1)
      (tokenize_with_includes files 2 [] 3
        (codes "include \"b\"\n")
        (root_source (codes "/p/c"))
        (codes "/p/a" ∷ []))
tokenize_with_includes-IsDistinct_example =
    tokenize_with_includes-IsDistinct files 2 [] (codes "include \"b\"\n") (codes "/p/c")
      (codes "/p/a" ∷ []) a-IsDistinct
