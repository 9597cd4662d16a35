-- ===== src/Mangling/Codes.antt =====
-- The codes of parameter types in include/cwhip/Mangling.hpp.
use simp.Base.{
  ℕ, Option, none, some, List, [], ◌∷◌, ◌++◌, if◌then◌else◌, Bytes, codes, equal, length,
}
use simp.Base.Decimal.{decimal}
use simp.Mangling.Types.{is_callback_type, callback_symbol}

-- The letter of a type that has one.
unfoldable pub builtin_letter : Bytes → Option ℕ
builtin_letter type =
    if equal type (codes "int")
    then some b'i'
    else if equal type (codes "unsigned")
    then some b'u'
    else if equal type (codes "float")
    then some b'f'
    else if equal type (codes "bool")
    then some b'b'
    else if equal type (codes "any")
    then some b'y'
    else if equal type (codes "void")
    then some b'v'
    else if equal type (codes "list")
    then some b'a'
    else if equal type (codes "dict")
    then some b'm'
    else if equal type (codes "buffer")
    then some b'B'
    else if equal type (codes "handle")
    then some b'h'
    else none

abbrev pub letter_or_class : Bytes → Option ℕ → Bytes
letter_or_class type (some letter) = letter ∷ []
letter_or_class type none = b'C' ∷ decimal (length type) ++ type

unfoldable pub mangle_type_code : Bytes → Bytes
unfolding is_callback_type callback_symbol builtin_letter decimal
mangle_type_code type =
    if is_callback_type type
    then callback_symbol type
    else letter_or_class type (builtin_letter type)

unfoldable pub mangle_codes : List Bytes → Bytes
unfolding mangle_type_code
mangle_codes [] = []
mangle_codes (type ∷ types) = mangle_type_code type ++ mangle_codes types

unfoldable pub mangle_argument_types : List Bytes → Bytes
unfolding mangle_codes
mangle_argument_types [] = []
mangle_argument_types (type ∷ types) = b'$' ∷ mangle_codes (type ∷ types)
