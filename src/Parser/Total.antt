-- ===== src/Parser/Total.antt =====
-- The parser on the tokens of a whole source, as main.cpp and ModuleRegistry.cpp call it.
use simp.Base.{ℕ, suc, ◌≡◌, ◌≢◌, Bool, List, [], ◌∷◌, ◌++◌, length, arith}
use simp.Lexer.Token.{Token, end_of_file}
use simp.Ast.Statements.{end}
use simp.Parser.State.{ParserState, Reply, stuck, Parser}
use simp.Parser.Rules.{reads}
use simp.Parser.Rules.{Runs, Runs-from, Reads, throws, IsEnded}
use simp.Parser.Programs.{parse_program, parse_module}
use simp.Parser.ProgramSteps.{Runs-program, Runs-module}

-- The state that the constructor of `Parser` makes of a token and those behind it. `previous` is
-- read only behind a token that was read.
abbrev pub start_state : Token → List Token → ParserState
start_state t ts = record {
  previous = t;
  current = t;
  rest = ts;
  nesting_depth = 0;
  namespace_path = [];
  pending_statements = end;
}

-- A parser on all the tokens, with the number of them as its fuel. With none the first step reads
-- past the end.
abbrev pub run_parser : {A : Type 0} → (ℕ → Parser A) → List Token → Reply A
run_parser p [] = stuck
run_parser p (t ∷ ts) = p (suc (length ts)) (start_state t ts)

Reads-ne-stuck : {A : Type 0} {k : ℕ} {s : ParserState} {r : Reply A} → Reads k s r → r ≢ stuck
Reads-ne-stuck (reads s' he hl hd) = cc
Reads-ne-stuck throws = cc

append-IsEnded :
    (t : Token) (ts : List Token) (last : Token)
    → last.type_of ≡ end_of_file
    → IsEnded t (ts ++ last ∷ [])
append-IsEnded t [] last h = h
append-IsEnded t (u ∷ ts) last h = append-IsEnded u ts last h

run-ne-stuck :
    {A : Type 0} (p : ℕ → Parser A)
    → ((f : ℕ) → Runs 0 f (p f))
    → (tokens : List Token) (last : Token) → last.type_of ≡ end_of_file
    → run_parser p (tokens ++ last ∷ []) ≢ stuck
run-ne-stuck p h [] last e = Reads-ne-stuck (Runs-from (start_state last []) (h 1) e (omega arith))
run-ne-stuck p h (t ∷ ts) last e =
    let rest = ts ++ last ∷ [] in
    Reads-ne-stuck (
      Runs-from (start_state t rest) (h (suc (length rest))) (append-IsEnded t ts last e)
        (omega arith))

-- On every list of tokens with an `End` behind it, `parseProgram` returns a program or throws a
-- diagnostic: the fuel suffices, and no token past the last one is read.
pub parse_program-ne-stuck :
    (require_start : Bool) (tokens : List Token) (last : Token)
    → last.type_of ≡ end_of_file
    → run_parser (λ f. parse_program f require_start) (tokens ++ last ∷ []) ≢ stuck
parse_program-ne-stuck require_start =
    run-ne-stuck (λ f. parse_program f require_start) (λ f. Runs-program f require_start)

-- On every list of tokens with an `End` behind it, `parseModule` returns a program or throws a
-- diagnostic: the fuel suffices, and no token past the last one is read.
pub parse_module-ne-stuck :
    (tokens : List Token) (last : Token)
    → last.type_of ≡ end_of_file
    → run_parser parse_module (tokens ++ last ∷ []) ≢ stuck
parse_module-ne-stuck = run-ne-stuck parse_module Runs-module
