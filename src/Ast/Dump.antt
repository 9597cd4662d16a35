-- ===== src/Ast/Dump.antt =====
-- `dumpAst` of src/Ast.cpp: the bytes that it writes.
use simp.Base.{Bool, List, [], ◌∷◌, ◌++◌, Bytes, codes, if◌then◌else◌, Option, none, some}
use simp.Base.Decimal.{decimal}
use simp.Ast.Declarations.{
  Integer64, Parameter, AccessLevel, public_level, protected_level, private_level, FieldDeclaration,
  EnumMemberDeclaration, MethodDeclaration, ClassDeclaration, OutOfLineMethodDefinition,
  NamespaceDeclaration, ImportDeclaration, Program,
}
use simp.Ast.DumpStatements.{indent, bracketed, is_empty, line, dump_statements}

abbrev concat : {A : Type 0} → (A → Bytes) → List A → Bytes
concat f [] = []
concat f (x ∷ xs) = f x ++ concat f xs

-- `index != 0` puts the separator in front of each part but the first.
abbrev separated : Bytes → List Bytes → Bytes
separated s [] = []
separated s (x ∷ xs) = x ++ concat (λ y. s ++ y) xs

abbrev pub import_line : ImportDeclaration → Bytes
import_line i =
    indent 1
    ++ line (
        codes "Import"
        ++ bracketed (i.module_name ++ (if is_empty i.alias then [] else codes " as " ++ i.alias)))

abbrev pub namespace_line : NamespaceDeclaration → Bytes
namespace_line n = indent 1 ++ line (codes "Namespace" ++ bracketed (separated (codes ".") n.path))

abbrev parameter_text : Parameter → Bytes
parameter_text p = p.type_text ++ b' ' ∷ p.name

abbrev texts : {A : Type 0} → (A → Bytes) → List A → List Bytes
texts f [] = []
texts f (x ∷ xs) = f x ∷ texts f xs

abbrev binding_text : MethodDeclaration → Bytes
binding_text m =
    if m.external_binding then codes " from \"" ++ m.external_symbol ++ codes "\"" else []

abbrev pub out_of_line_line : OutOfLineMethodDefinition → Bytes
out_of_line_line d =
    let m = d.method in
    indent 1
    ++ line (
        codes "Out-of-line method"
        ++ bracketed (
            d.class_name
            ++ b'.' ∷ m.return_type
            ++ b' ' ∷ m.name
            ++ b'(' ∷ separated (codes ", ") (texts parameter_text m.parameters)
            ++ b')' ∷ binding_text m))

abbrev access_text : AccessLevel → Bytes
access_text public_level = codes "public "
access_text protected_level = codes "protected "
access_text private_level = codes "private "

-- The three vectors of a base list are of one length.
abbrev base_texts : List Bytes → List AccessLevel → List Bool → List Bytes
base_texts (name ∷ names) (access ∷ accesses) (v ∷ vs) =
    (access_text access ++ (if v then codes "virtual " else []) ++ name)
    ∷ base_texts names accesses vs
base_texts _ _ _ = []

abbrev bases_text : List Bytes → Bytes
bases_text [] = []
bases_text (b ∷ bs) = codes " : " ++ separated (codes ", ") (b ∷ bs)

abbrev integer_text : Integer64 → Bytes
integer_text i = if i.negative then b'-' ∷ decimal i.size else decimal i.size

abbrev value_text : Option Integer64 → Bytes
value_text none = []
value_text (some i) = codes " = " ++ integer_text i

abbrev pub field_line : FieldDeclaration → Bytes
field_line f = indent 2 ++ line (codes "Field" ++ bracketed (f.type_text ++ b' ' ∷ f.name))

abbrev pub enum_line : EnumMemberDeclaration → Bytes
enum_line m = indent 2 ++ line (codes "Enum member" ++ bracketed (m.name ++ value_text m.value))

abbrev method_word : MethodDeclaration → Bytes
method_word m =
    if m.constructor
    then codes "Constructor"
    else if m.declaration_only
    then codes "Method declaration"
    else codes "Method"

abbrev pub dump_method : MethodDeclaration → Bytes
dump_method m =
    indent 2
    ++ line (method_word m ++ bracketed (m.return_type ++ b' ' ∷ m.name))
    ++ dump_statements m.body 3

abbrev pub dump_class : ClassDeclaration → Bytes
dump_class c =
    if c.builtin
    then []
    else (indent 1
        ++ line (
            codes "Class"
            ++ bracketed
                (c.name ++ bases_text (base_texts c.base_class_names c.base_access c.base_virtual)))
        ++ concat field_line c.fields
        ++ concat enum_line c.enum_members
        ++ concat dump_method c.methods)

unfoldable pub dump_ast : Program → Bytes
unfolding indent
dump_ast p =
    line (codes "Program")
    ++ concat import_line p.imports
    ++ concat namespace_line p.namespaces
    ++ concat out_of_line_line p.out_of_line_methods
    ++ concat dump_class p.classes
    ++ dump_statements p.statements 1
