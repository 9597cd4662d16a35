-- ===== src/Parser.antt =====
-- src/Parser.cpp and src/ParserClass.cpp. State has the parser's position and its helpers, Steps
-- the rules by which a parser is shown to stay within its tokens.
pub mod Verdict
pub mod State
pub mod Depth
pub mod DepthBounds
pub mod Rules
pub mod Steps
pub mod Types
pub mod TypeSteps
pub mod Format
pub mod FormatArguments
pub mod Nodes
pub mod Primary
pub mod Postfix
pub mod Expressions
pub mod PrimarySteps
pub mod PostfixSteps
pub mod ExpressionSteps
pub mod Inline
pub mod Simple
pub mod Loops
pub mod Statements
pub mod SimpleSteps
pub mod StatementSteps
pub mod Methods
pub mod Members
pub mod Classes
pub mod Lookahead
pub mod Programs
pub mod ClassSteps
pub mod ProgramSteps
pub mod Total
pub mod Heights
pub mod FormatBounds
pub mod FormatIndices
