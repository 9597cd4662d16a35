-- ===== src/Lexer/Grammar.antt =====
-- The lexical structure of a source, as relations that do not follow the lexer's loops: which bytes
-- spell a token, what stands between tokens, and where each token is.
use simp.Base.{
  ℕ, ◌<◌, Bool, true, false, ◌&&◌, ◌||◌, some, List, [], ◌∷◌, ◌++◌, ◌≡◌, ◌⊎◌, ◌==◌, if◌then◌else◌,
  Bytes, codes, length, All, SourceLocation,
}
use simp.Lexer.Token.{Token, string, inline_body}
use simp.Lexer.Chars.{is_space, is_identifier_part, is_valid_utf8}
use simp.Lexer.Cursor.{step}
use simp.Lexer.Scanners.{word_type, escape_value, is_line_end}
use simp.Lexer.Blocks.{in_line, newline_at, add_newline}
use simp.Lexer.Numerals.{IsNumeric}
use simp.Lexer.Reads.{after}
use simp.Lexer.Tokenize.{operator, depth_after, sets_inline}

-- The bytes between the quotes of a string literal, and the value that they denote.
pub data Denotes (quote : ℕ) : Bytes → Bytes → Type 0 where
  nothing : Denotes quote [] []
  plain :
      {c : ℕ} {raw value : Bytes}
      → (c == quote) ≡ false
      → is_line_end c ≡ false
      → (quote == b'"' && c == b'\\') ≡ false
      → Denotes quote raw value
      → Denotes quote (c ∷ raw) (c ∷ value)
  escape :
      {c d e : ℕ} {raw value : Bytes}
      → (quote == b'"' && c == b'\\') ≡ true
      → escape_value d ≡ some e
      → Denotes quote raw value
      → Denotes quote (c ∷ d ∷ raw) (e ∷ value)

-- The bytes of the source that spell a token, and the depth before and behind it.
pub data Spells (t : Token) (source : Bytes) (depth depth' : ℕ) : Type 0 where
  word :
      t.type_of ≡ word_type t.text
      → All (λ c. is_identifier_part c ≡ true) t.text
      → 0 < length t.text
      → t.formatted_string ≡ false
      → source ≡ t.text
      → depth' ≡ depth
      → Spells t source depth depth'
  number :
      IsNumeric t.type_of
      → 0 < length t.text
      → t.formatted_string ≡ false
      → source ≡ t.text
      → depth' ≡ depth
      → Spells t source depth depth'
  literal :
      (quote : ℕ) (raw : Bytes)
      → (quote ≡ b'"') ⊎ (quote ≡ b'\'')
      → t.type_of ≡ string
      → t.formatted_string ≡ (quote == b'"')
      → Denotes quote raw t.text
      → is_valid_utf8 t.text ≡ true
      → source ≡ quote ∷ (raw ++ quote ∷ [])
      → depth' ≡ depth
      → Spells t source depth depth'
  symbol :
      (c next : ℕ) (two : Bool)
      → operator c next ≡ some (t.type_of, two)
      → t.formatted_string ≡ false
      → t.text ≡ c ∷ (if two then next ∷ [] else [])
      → source ≡ t.text
      → depth' ≡ depth_after t.type_of depth
      → Spells t source depth depth'

-- `*/` stands in the bytes.
abbrev pub has_close : Bytes → Bool
has_close [] = false
has_close (c ∷ []) = false
has_close (c ∷ d ∷ cs) = (c == b'*' && d == b'/') || has_close (d ∷ cs)

-- The tokens with those that the newlines of a block comment add.
abbrev pub newlines_onto : ℕ → List Token → SourceLocation → Bytes → List Token
newlines_onto depth ts l [] = ts
newlines_onto depth ts l (c ∷ cs) =
    newlines_onto depth (if c == b'\n' then add_newline depth ts l else ts) (step l c) cs

abbrev pub IsMark : Bytes → Type 0
IsMark m = (m ≡ codes "#") ⊎ ((m ≡ codes ";") ⊎ (m ≡ codes "//"))

-- The bytes `read` from location `l` on consist of the tokens and of what separates them. The depth
-- counts open parentheses and brackets; the flag says that an inline body is due.
pub data Lexed (l : SourceLocation) : Bytes → ℕ → Bool → List Token → Type 0 where
  begin : {depth : ℕ} {header : Bool} → depth ≡ 0 → header ≡ false → Lexed l [] depth header []
  blank :
      {read read' : Bytes} {depth : ℕ} {header : Bool} {ts : List Token} (c : ℕ)
      → Lexed l read depth header ts
      → is_space c ≡ true
      → (c ≡ b'\n' → 0 < depth)
      → read' ≡ read ++ c ∷ []
      → Lexed l read' depth header ts
  line_comment :
      {read read' : Bytes} {depth : ℕ} {header : Bool} {ts : List Token} (mark body : Bytes)
      → Lexed l read depth header ts
      → IsMark mark
      → All (λ c. in_line c ≡ true) body
      → read' ≡ read ++ (mark ++ body)
      → Lexed l read' depth header ts
  block_comment :
      {read read' : Bytes} {depth : ℕ} {header : Bool} {ts ts' : List Token} (body : Bytes)
      → Lexed l read depth header ts
      → has_close body ≡ false
      → read' ≡ read ++ (codes "/*" ++ (body ++ codes "*/"))
      → ts' ≡ newlines_onto depth ts (after l (read ++ codes "/*")) body
      → Lexed l read' depth header ts'
  newline :
      {read read' : Bytes} {depth : ℕ} {header : Bool} {ts ts' : List Token}
      → Lexed l read depth header ts
      → depth ≡ 0
      → read' ≡ read ++ b'\n' ∷ []
      → ts' ≡ ts ++ newline_at (after l read) ∷ []
      → Lexed l read' depth header ts'
  token :
      {read read' source : Bytes} {depth depth' : ℕ} {header header' : Bool} {ts ts' : List Token}
      (t : Token)
      → Lexed l read depth header ts
      → Spells t source depth depth'
      → t.location ≡ after l read
      → read' ≡ read ++ source
      → header' ≡ (sets_inline t.type_of || header)
      → ts' ≡ ts ++ t ∷ []
      → Lexed l read' depth' header' ts'
  body :
      {read read' : Bytes} {depth : ℕ} {header header' : Bool} {ts ts' : List Token} (t : Token)
      → Lexed l read depth header ts
      → header ≡ true
      → t.type_of ≡ inline_body
      → t.formatted_string ≡ false
      → t.location ≡ after l read
      → read' ≡ read ++ (b'{' ∷ (t.text ++ b'}' ∷ []))
      → header' ≡ false
      → ts' ≡ ts ++ t ∷ []
      → Lexed l read' depth header' ts'
