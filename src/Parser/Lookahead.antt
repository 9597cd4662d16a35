-- ===== src/Parser/Lookahead.antt =====
-- `startsOutOfLineDefinition` of src/Parser.cpp.
use simp.Base.{ℕ, ◌+◌, Bool, false, ◌&&◌, ◌||◌, List, [], ◌∷◌, ◌==◌, if◌then◌else◌}
use simp.Lexer.Token.{
  TokenType, Token, dot, callback_type, void_keyword, less, greater, float_type, strg_type,
  list_type, dict_type, buffer_type, handle_type, any_type, type_type, identifier,
}
use simp.Lexer.Kinds.{same_type}
use simp.Parser.State.{check}
use simp.Parser.Primary.{Tested}
use simp.Mangling.Types.{decrement}
use simp.Parser.Simple.{after_dotted}

-- The tokens behind the `>` that closes a callback type. The depth wraps around below 0.
unfoldable pub skip_callback : ℕ → List Token → List Token
skip_callback depth [] = []
skip_callback depth (t ∷ ts) =
    let deeper = skip_callback (depth + 1) ts in
    let shallower = skip_callback (decrement depth) ts in
    let same = skip_callback depth ts in
    if same_type t.type_of less
    then deeper
    else if same_type t.type_of greater
    then if decrement depth == 0 then ts else shallower
    else same

abbrev starts_member : List Token → Bool
starts_member (t ∷ u ∷ v ∷ ts) =
    same_type t.type_of identifier && same_type u.type_of dot && same_type v.type_of identifier
starts_member _ = false

abbrev is_type_word : Tested
is_type_word s =
    check TokenType.int s
    || check TokenType.bool s
    || check float_type s
    || check TokenType.unsigned s
    || check strg_type s
    || check list_type s
    || check dict_type s
    || check buffer_type s
    || check handle_type s
    || check any_type s
    || check type_type s
    || check void_keyword s

-- A type with a class's name, a dot and a method's name behind it.
unfoldable pub starts_out_of_line_definition : Tested
unfolding skip_callback after_dotted
starts_out_of_line_definition s =
    if check callback_type s
    then starts_member (skip_callback 0 s.rest)
    else if check identifier s
    then starts_member (after_dotted s.rest)
    else is_type_word s && starts_member s.rest
