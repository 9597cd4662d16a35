-- ===== src/Lib.antt =====
-- The Cwhip compiler (src/, include/cwhip/ and the rest of the repository): a C++17 front end that
-- turns sources into tokens, a tree and LLVM IR, with a registry of versioned packages beside it.
--
-- A `std::string` is the list of its bytes (`Bytes`), a number is a natural number, and a thrown
-- `DiagnosticError` is the `err` of an `Outcome`. Loops recur on the list they walk; the
-- others take fuel, and their theorems say that it suffices. `Attempt` has the standard exceptions.
--
-- The parts are these.
-- - Lexer, src/Lexer.cpp and include/cwhip/Token.hpp: a `Cursor` is what is left of the source with
--   `fileName_`, `line_` and `column_`; `position_` shows only in what is left. `Lexing` has
--   `inlineHeader_` and the locals of `tokenize`. `tokenize` takes one unit of fuel for each byte and
--   one more, as do `skip_trivia` and `scan_inline_body`, since each round reads a byte. Grammar is
--   the specification; the modules from Reads to Sound prove it.
-- - Loader, src/SourceLoader.cpp: `tokenize_with_includes` over a `FileSystem`, which says what a path
--   resolves to and what a file holds. A path is its text on POSIX. One unit of fuel is one level of
--   includes, so that one more than the maximum depth suffices.
-- - Ast, include/cwhip/Ast.hpp and src/Ast.cpp: a node is a record of its plain fields with its
--   children; a vector of nodes is a list type of its own.
-- - Parser, src/Parser.cpp and src/ParserClass.cpp: `ParserState` has `tokens_` from `current_` on, and
--   the other members. A parser is a function of that state into a `Reply`; a condition on the
--   current tokens is `branch`, `match` under an `if` is `if_match`, and the scope of a `NestingGuard`
--   is `guarded`. The parser of an expression, and of a block, is a parameter of what it is called
--   from. The fuel is the number of the tokens, since each round of a loop and each level of a
--   recursion reads one. A `Reply` is `stuck` where the fuel ends or a step goes over the last token,
--   and the theorems say that this does not happen. The modules whose names end in Steps prove it.
-- - Flow, src/SemanticAnalyzer.cpp: the recursive checks of control flow over the tree of statements.
--   Paths has the ways by which statements may complete.
-- - Naming, src/SemanticAnalyzer.cpp: the resolution of the names of classes over `Names`, the tables
--   of classes, owners of namespaces and imports; Symbols has the symbols in scope and the flags that
--   say whether they are initialized.
-- - Inheritance, src/SemanticInheritance.cpp, and the check for inheritance cycles of
--   src/SemanticAnalyzer.cpp: `Analyzer` has `classes_` and `currentClass_`. A pointer to a class is
--   the class, which stands under its own name, and one to a method is its class and index. A search
--   with a list of visited classes has fuel for all bases of all classes; a recursion over bases is a
--   `Walk`, whose fuel is the number of levels: the number of classes, which suffices without cycles.
-- - Packages, src/PackageRegistry.cpp: `Version` with `parse_version` and `compare_version`, the
--   tests on names (Names), the values of a manifest (Toml and Arrays), the lines of a lock (Lock)
--   with the checks behind them (LockChecks), the choice of a candidate (Select) and the resolution
--   of dependencies (Resolver), whose `Graph` and pins are passed on. A `Search` has fuel for the
--   levels of dependencies: more than there are names with candidates, or locked modules, is enough.
--   A `std::map` is kept in the order of its keys (Sorted) where a loop goes over it. The candidates that the file system has for a name, the hash of a tree and the last
--   part of a path are parameters. `find` with `substr` is `cut`, and a loop over the parts between
--   dots goes over `split_on`. The loop over an array takes one unit of fuel for each byte, since a
--   round reads one, and its result is `none` if the fuel does not suffice.
-- - Integrity, src/PackageIntegrity.cpp: the class `Sha256` with its buffer; a file is the list of the
--   pieces in which it is read, a tree the list of its sorted names with their files. Words wrap
--   around at 2 ^ 32, sizes at 2 ^ 64. Digest is the specification.
-- - CommandLine, src/CommandLine.cpp: `CommandLine` is the object, its maps association lists, and
--   each member function a function of it. A thrown `std::invalid_argument` is the `invalid` of an
--   `Attempt`. The loop over the arguments goes over the list; `taken` says that an option has read
--   the argument behind it.
-- - Mangling, include/cwhip/Mangling.hpp and include/cwhip/CallbackType.hpp: the codes of parameter
--   types and the texts of callback types.
--
-- Not modelled: the code generator, which writes IR through a library; main.cpp and the C runtime,
-- which are input, output and raw memory; the trace output of the parser; of the semantic
-- analyzer, the types of expressions and statements, and what rests on them; of the package
-- registry, `readManifest` and `discover`, which join paths and walk directories; the module
-- registry, which mostly asks the file system.
pub mod Ast
pub mod Base
pub mod Lexer
pub mod Loader
pub mod Naming
pub mod Packages
pub mod Parser
pub mod Flow
pub mod Inheritance
pub mod Integrity
pub mod CommandLine
pub mod Mangling
mod Tests
