-- ===== src/Lexer.antt =====
-- src/Lexer.cpp: Token and Chars have the tables and tests, Cursor the reading position, Scanners
-- one function for each kind of token, Tokenize the main loop; Diagnostics
-- is src/Diagnostic.cpp.
pub mod Token
pub mod Kinds
pub mod Diagnostics
pub mod Chars
pub mod Cursor
pub mod Scanners
pub mod Blocks
pub mod Tokenize
pub mod Reads
pub mod Numerals
pub mod Grammar
pub mod Literals
pub mod Appended
pub mod Inline
pub mod Comments
pub mod Trivia
pub mod Progress
pub mod Sound
pub mod Utf8
pub mod Unicode
pub mod Quoting
pub mod Words
pub mod Positions
