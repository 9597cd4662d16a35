-- ===== src/Lexer/Token.antt =====
-- include/cwhip/Token.hpp, and `tokenTypeName` and the keyword table of src/Lexer.cpp.
use simp.Base.{String, Bool, List, [], ◌∷◌, Bytes, SourceLocation}

-- `TokenType`. A keyword has the suffix `_keyword`; `end_of_file` is `End`.
pub data TokenType : Type 0 where
  end_of_file identifier integer unsigned_integer float string start_keyword int bool : TokenType
  float_type unsigned strg_type list_type dict_type buffer_type handle_type any_type : TokenType
  type_type callback_type class_keyword namespace_keyword include_keyword inline_keyword : TokenType
  inline_body import_keyword as_keyword public_keyword protected_keyword private_keyword : TokenType
  virtual_keyword super_keyword null_keyword true_keyword false_keyword return_keyword : TokenType
  void_keyword if_keyword else_keyword while_keyword do_keyword for_keyword in_keyword : TokenType
  is_keyword break_keyword continue_keyword and_keyword or_keyword print_keyword : TokenType
  raise_keyword try_keyword except_keyword finally_keyword from_keyword left_brace : TokenType
  right_brace left_paren right_paren left_bracket right_bracket comma dot colon newline : TokenType
  plus minus star slash percent plus_equal minus_equal star_equal slash_equal : TokenType
  percent_equal bang and_and or_or equal equal_equal bang_equal less less_equal greater : TokenType
  greater_equal : TokenType

pub record Token : Type 0 where
  pub type_of : TokenType
  pub text : Bytes
  pub location : SourceLocation
  pub formatted_string : Bool

unfoldable pub token_type_name : TokenType → String
token_type_name end_of_file = "end of file"
token_type_name identifier = "identifier"
token_type_name integer = "integer"
token_type_name unsigned_integer = "unsigned integer"
token_type_name float = "float"
token_type_name string = "string"
token_type_name start_keyword = "'start'"
token_type_name int = "'int'"
token_type_name bool = "'bool'"
token_type_name float_type = "'float'"
token_type_name unsigned = "'unsigned'"
token_type_name strg_type = "'strg'"
token_type_name list_type = "'list'"
token_type_name dict_type = "'dict'"
token_type_name buffer_type = "'buffer'"
token_type_name handle_type = "'handle'"
token_type_name any_type = "'any'"
token_type_name type_type = "'type'"
token_type_name callback_type = "'callback'"
token_type_name class_keyword = "'class'"
token_type_name namespace_keyword = "'namespace'"
token_type_name include_keyword = "'include'"
token_type_name inline_keyword = "'inline'"
token_type_name inline_body = "inline C body"
token_type_name import_keyword = "'import'"
token_type_name as_keyword = "'as'"
token_type_name public_keyword = "'public'"
token_type_name protected_keyword = "'protected'"
token_type_name private_keyword = "'private'"
token_type_name virtual_keyword = "'virtual'"
token_type_name super_keyword = "'super'"
token_type_name null_keyword = "'null'"
token_type_name true_keyword = "'true'"
token_type_name false_keyword = "'false'"
token_type_name return_keyword = "'return'"
token_type_name void_keyword = "'void'"
token_type_name if_keyword = "'if'"
token_type_name else_keyword = "'else'"
token_type_name while_keyword = "'while'"
token_type_name do_keyword = "'do'"
token_type_name for_keyword = "'for'"
token_type_name in_keyword = "'in'"
token_type_name is_keyword = "'is'"
token_type_name break_keyword = "'break'"
token_type_name continue_keyword = "'continue'"
token_type_name and_keyword = "'and'"
token_type_name or_keyword = "'or'"
token_type_name print_keyword = "'print'"
token_type_name raise_keyword = "'raise'"
token_type_name try_keyword = "'try'"
token_type_name except_keyword = "'except'"
token_type_name finally_keyword = "'finally'"
token_type_name from_keyword = "'from'"
token_type_name left_brace = "'{'"
token_type_name right_brace = "'}'"
token_type_name left_paren = "'('"
token_type_name right_paren = "')'"
token_type_name left_bracket = "'['"
token_type_name right_bracket = "']'"
token_type_name comma = "','"
token_type_name dot = "'.'"
token_type_name colon = "':'"
token_type_name newline = "newline"
token_type_name plus = "'+'"
token_type_name minus = "'-'"
token_type_name star = "'*'"
token_type_name slash = "'/'"
token_type_name percent = "'%'"
token_type_name plus_equal = "'+='"
token_type_name minus_equal = "'-='"
token_type_name star_equal = "'*='"
token_type_name slash_equal = "'/='"
token_type_name percent_equal = "'%='"
token_type_name bang = "'!'"
token_type_name and_and = "'&&'"
token_type_name or_or = "'||'"
token_type_name equal = "'='"
token_type_name equal_equal = "'=='"
token_type_name bang_equal = "'!='"
token_type_name less = "'<'"
token_type_name less_equal = "'<='"
token_type_name greater = "'>'"
token_type_name greater_equal = "'>='"

-- The keyword table of `scanIdentifierOrInteger`.
abbrev pub keywords : List (String × TokenType)
keywords =
    ("start", start_keyword)
    ∷ ("int", int)
    ∷ ("bool", bool)
    ∷ ("float", float_type)
    ∷ ("unsigned", unsigned)
    ∷ ("strg", strg_type)
    ∷ ("list", list_type)
    ∷ ("dict", dict_type)
    ∷ ("buffer", buffer_type)
    ∷ ("handle", handle_type)
    ∷ ("any", any_type)
    ∷ ("type", type_type)
    ∷ ("callback", callback_type)
    ∷ ("if", if_keyword)
    ∷ ("else", else_keyword)
    ∷ ("while", while_keyword)
    ∷ ("do", do_keyword)
    ∷ ("for", for_keyword)
    ∷ ("in", in_keyword)
    ∷ ("is", is_keyword)
    ∷ ("break", break_keyword)
    ∷ ("continue", continue_keyword)
    ∷ ("and", and_keyword)
    ∷ ("or", or_keyword)
    ∷ ("not", bang)
    ∷ ("print", print_keyword)
    ∷ ("raise", raise_keyword)
    ∷ ("try", try_keyword)
    ∷ ("except", except_keyword)
    ∷ ("finally", finally_keyword)
    ∷ ("class", class_keyword)
    ∷ ("namespace", namespace_keyword)
    ∷ ("include", include_keyword)
    ∷ ("inline", inline_keyword)
    ∷ ("import", import_keyword)
    ∷ ("as", as_keyword)
    ∷ ("from", from_keyword)
    ∷ ("public", public_keyword)
    ∷ ("protected", protected_keyword)
    ∷ ("private", private_keyword)
    ∷ ("virtual", virtual_keyword)
    ∷ ("super", super_keyword)
    ∷ ("null", null_keyword)
    ∷ ("true", true_keyword)
    ∷ ("false", false_keyword)
    ∷ ("return", return_keyword)
    ∷ ("void", void_keyword)
    ∷ []
