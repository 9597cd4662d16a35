-- ===== src/Tests/Mangling.antt =====
-- Runs of include/cwhip/Mangling.hpp, and its theorem at a concrete input.
use simp.Base.{Bytes, codes, List, [], ◌∷◌, ◌≡◌, ◌↔◌, arith, refl, true, false, equal, All}
use simp.Ast.Statements.{end}
use simp.Ast.Declarations.{Parameter, MethodDeclaration, public_level}
use simp.Mangling.Types.{callback_signature}
use simp.Mangling.Codes.{mangle_argument_types, mangle_type_code}
use simp.Mangling.Methods.{
  parameter_codes, mangle_parameters, method_signature_key, readable_signature,
  same_parameter_types,
}
use simp.Mangling.Signatures.{IsUnmangled, method_signature_key-injective, same_parameter_types_iff}
use simp.Mangling.Prefixes.{IsTypeName}
use simp.Mangling.Distinct.{mangle_argument_types-injective}

mangled_int_class :
    mangle_argument_types (codes "int" ∷ codes "app.User" ∷ []) ≡ codes "$iC8app.User"
unfolding mangle_argument_types equal
mangled_int_class = refl

mangled_callback :
    mangle_argument_types (codes "callback<int()>" ∷ codes "bool" ∷ [])
    ≡ codes "$cwhip_callback_63616c6c6261636b3c696e7428293eb"
unfolding mangle_argument_types equal
mangled_callback = refl

nested_callback :
    callback_signature (codes "callback<void(int,callback<int(a,b)>)>")
    ≡ record { result = codes "void"; parameters = codes "int" ∷ codes "callback<int(a,b)>" ∷ [] }
unfolding callback_signature
nested_callback = refl

abbrev types : List Bytes
types = codes "int" ∷ codes "callback<int()>" ∷ codes "app.User" ∷ []

types-IsTypeName : All IsTypeName types
types-IsTypeName = assumption refl

mangle_argument_types-injective_example : types ≡ types
mangle_argument_types-injective_example =
    mangle_argument_types-injective types types types-IsTypeName types-IsTypeName refl

abbrev typed : Bytes → Parameter
typed text = record {
  type_text = text;
  name = codes "a";
  location = record { file = []; line = 1; column = 1 };
}

abbrev declared : Bytes → List Parameter → MethodDeclaration
declared name parameters = record {
  name = name;
  return_type = codes "int";
  location = record { file = []; line = 1; column = 1 };
  parameters = parameters;
  body = end;
  constructor = false;
  destructor = false;
  declaration_only = false;
  external_binding = false;
  external_symbol = [];
  access = public_level;
}

-- `f(int)` from two places, the second of which returns another type.
abbrev first_f : MethodDeclaration
first_f = declared (codes "f") (typed (codes "int") ∷ [])

abbrev second_f : MethodDeclaration
second_f = record first_f { return_type = codes "bool" }

key_of_f : method_signature_key first_f ≡ codes "f$i"
unfolding method_signature_key mangle_parameters parameter_codes equal mangle_type_code
key_of_f = refl

text_of_f :
    readable_signature (declared (codes "f") (typed (codes "int") ∷ typed (codes "a.B") ∷ []))
    ≡ codes "f(int, a.B)"
unfolding readable_signature
text_of_f = refl

f-IsUnmangled : IsUnmangled (codes "f")
f-IsUnmangled = (λ e. omega (arith, e), tt)

method_signature_key-injective_example :
    (codes "f" ≡ codes "f") × (codes "int" ∷ [] ≡ codes "int" ∷ [])
unfolding method_signature_key
method_signature_key-injective_example =
    method_signature_key-injective first_f second_f f-IsUnmangled f-IsUnmangled (assumption refl)
      (assumption refl) refl

same_parameter_types_iff_example :
    (same_parameter_types first_f second_f ≡ true) ↔ (codes "int" ∷ [] ≡ codes "int" ∷ [])
same_parameter_types_iff_example = same_parameter_types_iff first_f second_f
