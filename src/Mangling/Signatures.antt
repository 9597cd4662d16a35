-- ===== src/Mangling/Signatures.antt =====
-- About the keys of methods and `sameParameterTypes` of include/cwhip/Mangling.hpp.
use simp.Base.{
  suc, Bool, true, false, List, [], ◌∷◌, ◌++◌, map, ◌≡◌, ◌≢◌, ◌↔◌, refl, sym, ap, ap₂, Bytes, ◌==◌,
  ==_iff, equal, equal_iff, length, drop, All, Bool-cases, inl, inr, arith, if◌then◌else◌,
}
use simp.Ast.Declarations.{Parameter, MethodDeclaration}
use simp.Mangling.Codes.{mangle_codes, mangle_argument_types}
use simp.Mangling.Prefixes.{IsTypeName}
use simp.Mangling.Distinct.{mangle_argument_types-injective}
use simp.Mangling.Methods.{
  parameter_codes, mangle_parameters, method_signature_key, same_types, same_parameter_types,
}

-- The types of a method's parameters.
abbrev pub types_of : MethodDeclaration → List Bytes
types_of m = map (λ p. p.type_text) m.parameters

-- No byte of a name is `$`.
abbrev pub IsUnmangled : Bytes → Type 0
IsUnmangled = All λ c. c ≢ b'$'

codes_same : (ps : List Parameter) → parameter_codes ps ≡ mangle_codes (map (λ p. p.type_text) ps)
unfolding parameter_codes mangle_codes
codes_same [] = refl
codes_same (p ∷ ps) = rw (codes_same ps) refl

-- A method's parameters are encoded as the list of their types is at a call.
parameters_same :
    (ps : List Parameter) → mangle_parameters ps ≡ mangle_argument_types (map (λ p. p.type_text) ps)
unfolding mangle_parameters mangle_argument_types
parameters_same [] = refl
parameters_same (p ∷ ps) = ap (λ s. b'$' ∷ s) (codes_same (p ∷ ps))

-- Nothing, or a text that begins with `$`.
data IsSuffix : Bytes → Type 0 where
  none : IsSuffix []
  dollar : {s : Bytes} → IsSuffix (b'$' ∷ s)

mangled-IsSuffix : (types : List Bytes) → IsSuffix (mangle_argument_types types)
unfolding mangle_argument_types
mangled-IsSuffix [] = none
mangled-IsSuffix (t ∷ ts) = dollar

-- A name ends where the `$` is.
name-injective :
    (m n s t : Bytes)
    → IsUnmangled m
    → IsUnmangled n
    → IsSuffix s
    → IsSuffix t
    → m ++ s ≡ n ++ t
    → (m ≡ n) × (s ≡ t)
name-injective [] [] s t hm hn hs ht e = (refl, e)
name-injective [] (d ∷ n) [] t hm hn none ht e = cc
name-injective [] (d ∷ n) (c ∷ s) t hm hn dollar ht e = absurd (hn.0 (cc))
name-injective (c ∷ m) [] s [] hm hn hs none e = cc
name-injective (c ∷ m) [] s (d ∷ t) hm hn hs dollar e = absurd (hm.0 (cc))
name-injective (c ∷ m) (d ∷ n) s t hm hn hs ht e =
    let (same, rest) = name-injective m n s t hm.1 hn.1 hs ht (ap (drop 1) e) in
    (cc (e, same), rest)

-- Two methods whose names have no `$` and whose types are ASCII and do not begin with a digit have
-- one signature key only if they have one name and the same types of parameters.
pub method_signature_key-injective :
    (m n : MethodDeclaration)
    → IsUnmangled m.name
    → IsUnmangled n.name
    → All IsTypeName (types_of m)
    → All IsTypeName (types_of n)
    → method_signature_key m ≡ method_signature_key n
    → (m.name ≡ n.name) × (types_of m ≡ types_of n)
unfolding method_signature_key
method_signature_key-injective m n hm hn tm tn e =
    let (same, rest) =
      name-injective m.name n.name _ _ hm hn (mangled-IsSuffix (types_of m))
        (mangled-IsSuffix (types_of n))
        (rw (sym (parameters_same m.parameters), sym (parameters_same n.parameters)) e) in
    (same, mangle_argument_types-injective (types_of m) (types_of n) tm tn rest)

texts : List Parameter → List Bytes
texts ps = map (λ p. p.type_text) ps

same_types→eq :
    (ps qs : List Parameter) → length ps ≡ length qs → same_types ps qs ≡ true → texts ps ≡ texts qs
unfolding same_types texts
same_types→eq [] [] h e = refl
same_types→eq [] (q ∷ qs) h e = absurd (omega (arith, h))
same_types→eq (p ∷ ps) [] h e = absurd (omega (arith, h))
same_types→eq (p ∷ ps) (q ∷ qs) h e = elim (Bool-cases (equal p.type_text q.type_text)) [
  | inl same ↦
      ap₂ (λ t ts. t ∷ ts) ((equal_iff p.type_text q.type_text).0 same)
        (same_types→eq ps qs (omega (arith, h)) (rw same at e))
  | inr other ↦ absurd (cc (rw other at e))
]

eq→same_types : (ps qs : List Parameter) → texts ps ≡ texts qs → same_types ps qs ≡ true
unfolding same_types texts
eq→same_types [] [] e = refl
eq→same_types [] (q ∷ qs) e = refl
eq→same_types (p ∷ ps) [] e = refl
eq→same_types (p ∷ ps) (q ∷ qs) e =
    rw ((equal_iff p.type_text q.type_text).1 (cc e)) (eq→same_types ps qs (cc e))

length-texts : (ps : List Parameter) → length (texts ps) ≡ length ps
unfolding texts
length-texts [] = refl
length-texts (p ∷ ps) = ap suc (length-texts ps)

same_lengths : (ps qs : List Parameter) → texts ps ≡ texts qs → length ps ≡ length qs
same_lengths ps qs e = omega (arith, ap length e, length-texts ps, length-texts qs)

same_both :
    (ps qs : List Parameter) (b : Bool)
    → (length ps == length qs) ≡ b
    → (if b then same_types ps qs else false) ≡ true
    → texts ps ≡ texts qs
same_both ps qs true h e = same_types→eq ps qs ((==_iff (length ps) (length qs)).0 h) e
same_both ps qs false h e = cc

-- `sameParameterTypes` holds of two methods exactly when the lists of their types are the same.
pub same_parameter_types_iff :
    (m n : MethodDeclaration) → (same_parameter_types m n ≡ true) ↔ (types_of m ≡ types_of n)
unfolding same_parameter_types texts
same_parameter_types_iff m n = (
  λ e. same_both m.parameters n.parameters (length m.parameters == length n.parameters) refl e,
  λ e.
      rw ((==_iff _ _).1 (same_lengths m.parameters n.parameters e))
        (eq→same_types m.parameters n.parameters e),
)
