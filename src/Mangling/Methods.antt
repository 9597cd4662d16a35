-- ===== src/Mangling/Methods.antt =====
-- The functions of include/cwhip/Mangling.hpp over declarations of methods.
use simp.Base.{
  Bool, true, false, List, [], ◌∷◌, ◌++◌, Bytes, codes, ◌==◌, equal, length, if◌then◌else◌,
}
use simp.Ast.Declarations.{Parameter, MethodDeclaration}
use simp.Mangling.Codes.{mangle_type_code}

unfoldable pub parameter_codes : List Parameter → Bytes
parameter_codes [] = []
parameter_codes (p ∷ ps) = mangle_type_code p.type_text ++ parameter_codes ps

unfoldable pub mangle_parameters : List Parameter → Bytes
unfolding parameter_codes
mangle_parameters [] = []
mangle_parameters (p ∷ ps) = b'$' ∷ parameter_codes (p ∷ ps)

unfoldable pub method_signature_key : MethodDeclaration → Bytes
method_signature_key m = m.name ++ mangle_parameters m.parameters

-- Each type but the first has a comma in front of it.
abbrev comma_types : List Parameter → Bytes
comma_types [] = []
comma_types (p ∷ ps) = codes ", " ++ p.type_text ++ comma_types ps

abbrev pub type_listing : List Parameter → Bytes
type_listing [] = []
type_listing (p ∷ ps) = p.type_text ++ comma_types ps

unfoldable pub readable_signature : MethodDeclaration → Bytes
readable_signature m = (m.name ++ codes "(") ++ type_listing m.parameters ++ codes ")"

-- The loop over the indices of two lists of one length.
unfoldable pub same_types : List Parameter → List Parameter → Bool
unfolding equal
same_types (p ∷ ps) (q ∷ qs) =
    let rest = same_types ps qs in if equal p.type_text q.type_text then rest else false
same_types _ _ = true

unfoldable pub same_parameter_types : MethodDeclaration → MethodDeclaration → Bool
unfolding same_types
same_parameter_types left right =
    if length left.parameters == length right.parameters
    then same_types left.parameters right.parameters
    else false
