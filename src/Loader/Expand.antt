-- ===== src/Loader/Expand.antt =====
-- `tokenizeWithIncludes` of src/SourceLoader.cpp. The file system is a parameter.
use simp.Base.{
  ℕ, zero, suc, ◌+◌, ◌-◌, Bool, true, false, not, ◌&&◌, ◌||◌, List, [], ◌∷◌, ◌++◌, Option, none,
  some, Bytes, codes, ◌==◌, leb, if◌then◌else◌, SourceLocation,
}
use simp.Base.Decimal.{decimal}
use simp.Base.Tables.{case_option, is_member}
use simp.Lexer.Token.{
  TokenType, Token, start_keyword, include_keyword, newline, end_of_file, left_brace, right_brace,
}
use simp.Lexer.Kinds.{same_type}
use simp.Lexer.Tokenize.{tokenize}
use simp.Base.Loaded.{Loaded, loaded, rejected, exhausted, ◌>>=◌, from_outcome}
use simp.Loader.Paths.{is_absolute, parent_path, join_path}

-- `std::filesystem::canonical`, which may fail, and what `std::ifstream` reads.
pub record FileSystem : Type 0 where
  pub canonical : Bytes → Option Bytes
  pub contents : Bytes → Option Bytes

-- A source: its path, whether it is the root, the depth of its includes, and the chain to it.
pub record Source : Type 0 where
  pub path : Bytes
  pub root : Bool
  pub depth : ℕ
  pub chain : List Bytes

-- A source with the default depth and chain.
abbrev pub root_source : Bytes → Source
root_source path = record { path = path; root = true; depth = 0; chain = path ∷ [] }

-- The locals of the loop, and `includedFiles`.
pub record Expanding : Type 0 where
  pub expanded : List Token
  pub included : List Bytes
  pub brace_depth : ℕ
  pub saw_start : Bool

abbrev is_type : TokenType → Token → Bool
is_type k t = same_type t.type_of k

-- A token that is no directive.
unfoldable pub keep_token : Expanding → Token → Expanding
keep_token s t = record {
  expanded = s.expanded ++ t ∷ [];
  included = s.included;
  brace_depth =
      if is_type left_brace t
      then s.brace_depth + 1
      else if is_type right_brace t
      then s.brace_depth - 1
      else s.brace_depth;
  saw_start = s.saw_start || (is_type start_keyword t && s.brace_depth == 0);
}

abbrev pub ends_line : List Token → Bool
ends_line [] = false
ends_line (t ∷ []) = is_type newline t
ends_line (t ∷ u ∷ ts) = ends_line (u ∷ ts)

abbrev newline_at : SourceLocation → Token
newline_at l = record {
  type_of = newline;
  text = b'\n' ∷ [];
  location = l;
  formatted_string = false;
}

unfoldable pub end_line : Expanding → Token → Expanding
end_line s t =
    if ends_line s.expanded
    then s
    else record s { expanded = s.expanded ++ newline_at t.location ∷ [] }

abbrev chain_text : List Bytes → Bytes
chain_text [] = []
chain_text (p ∷ []) = p
chain_text (p ∷ q ∷ ps) = p ++ codes " -> " ++ chain_text (q ∷ ps)

abbrev quoted : Bytes → Bytes
quoted text = b'\'' ∷ text ++ b'\'' ∷ []

-- The conditions of the loop.
unfoldable pub is_stray_start : Source → Token → Bool
is_stray_start source t = not source.root && is_type start_keyword t

unfoldable pub is_directive : Expanding → Token → Bool
is_directive s t = is_type include_keyword t && s.brace_depth == 0

unfoldable pub is_no_path : Token → Bool
is_no_path t = not (is_type TokenType.string t) || not t.formatted_string

unfoldable pub is_no_line_end : Token → Bool
is_no_line_end t = not (is_type newline t) && not (is_type end_of_file t)

module _ (files : FileSystem) (maximum : ℕ) (search : List Bytes) where
  -- The first candidate that can be resolved.
  unfoldable pub first_canonical : List Bytes → Option Bytes
  first_canonical [] = none
  first_canonical (candidate ∷ candidates) =
      let rest = first_canonical candidates in
      case_option (files.canonical candidate) rest λ path. some path

  abbrev join_all : List Bytes → Bytes → List Bytes
  join_all [] requested = []
  join_all (directory ∷ directories) requested =
      join_path directory requested ∷ join_all directories requested

  unfoldable pub candidates_of : Bytes → Bytes → List Bytes
  unfolding parent_path join_path
  candidates_of source_path requested =
      if is_absolute requested
      then requested ∷ []
      else join_path (parent_path source_path) requested ∷ join_all search requested

  abbrev depth_message : List Bytes → Bytes
  depth_message chain =
      codes "maximum include depth of "
      ++ decimal maximum
      ++ codes " exceeded (include chain: "
      ++ chain_text chain
      ++ codes ")"

  -- An expansion of a source into its tokens and the files included so far.
  abbrev pub Expansion : Type 0
  Expansion = Bytes → Source → List Bytes → Loaded (List Token × List Bytes)

  abbrev pub child_of : Source → Bytes → Source
  child_of source path = record {
    path = path;
    root = false;
    depth = source.depth + 1;
    chain = source.chain ++ path ∷ [];
  }

  -- The tokens of a file that was not included before.
  unfoldable pub include_file :
      Expansion → Source → Expanding → Token → Token → Bytes → Loaded Expanding
  include_file expand source s t path_token path =
      if leb maximum source.depth
      then rejected t.location (depth_message (source.chain ++ path ∷ []))
      else case_option (files.contents path)
          (rejected path_token.location (codes "cannot open included source " ++ quoted path))
          λ text. expand text (child_of source path) (path ∷ s.included) >>= λ (tokens, included).
            loaded (record s { expanded = s.expanded ++ tokens; included = included })

  unfoldable pub include_once :
      Expansion → Source → Expanding → Token → Token → Bytes → Loaded Expanding
  include_once expand source s t path_token path =
      if is_member path s.included then loaded s else include_file expand source s t path_token path

  -- A directive whose path and end of line are in order.
  unfoldable pub include_path : Expansion → Source → Expanding → Token → Token → Loaded Expanding
  include_path expand source s t path_token =
      case_option (first_canonical (candidates_of source.path path_token.text))
        (rejected path_token.location
          (codes "cannot resolve included source " ++ quoted path_token.text))
        λ path. include_once expand source s t path_token path >>= λ s'. loaded (end_line s' t)

  abbrev expected_path : Token → Loaded Expanding
  expected_path t = rejected t.location (codes "expected a double-quoted path after 'include'")

  abbrev late_include : Token → Loaded Expanding
  late_include t = rejected t.location (codes "'include' must appear before top-level 'start'")

  -- `include`, the token behind it and the one behind that.
  unfoldable pub directive :
      Expansion → Source → Expanding → Token → Token → Token → Loaded Expanding
  directive expand source s t path_token next =
      if s.saw_start
      then late_include t
      else if is_no_path path_token
      then expected_path t
      else if is_no_line_end next
      then rejected next.location (codes "expected newline after include path")
      else include_path expand source s t path_token

  -- The loop over all tokens but the last. A directive takes the end of its line with it, unless
  -- that is the last token.
  unfoldable pub expand_loop : Expansion → Source → List Token → Expanding → Loaded Expanding
  expand_loop expand source [] s = loaded s
  expand_loop expand source (t ∷ []) s = loaded s
  expand_loop expand source (t ∷ u ∷ []) s =
      if is_stray_start source t
      then rejected t.location (codes "included source cannot declare 'start'")
      else if is_directive s t
      then if s.saw_start then late_include t else expected_path t
      else loaded (keep_token s t)
  expand_loop expand source (t ∷ u ∷ v ∷ rest) s =
      let more = expand_loop expand source (u ∷ v ∷ rest) (keep_token s t) in
      let after = λ (s' : Expanding). expand_loop expand source rest s' in
      if is_stray_start source t
      then rejected t.location (codes "included source cannot declare 'start'")
      else if is_directive s t
      then (directive expand source s t u v >>= after)
      else more

  abbrev pub begin : List Bytes → Expanding
  begin included = record { expanded = []; included = included; brace_depth = 0; saw_start = false }

  unfoldable pub tokenize_with_includes : ℕ → Expansion
  tokenize_with_includes zero text source included = exhausted
  tokenize_with_includes (suc f) text source included =
      from_outcome (tokenize text source.path) >>= λ tokens.
      expand_loop (tokenize_with_includes f) source tokens (begin included) >>= λ s.
      loaded (s.expanded, s.included)
