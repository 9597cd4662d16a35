-- ===== src/CommandLine.antt =====
-- src/CommandLine.cpp: Options has the registered options and the maps of their values, Values the
-- recording of values, Process one option, and Parse the parser of the arguments.
pub mod Options
pub mod Values
pub mod Process
pub mod Parse
pub mod Help
pub mod Registration
pub mod Attempts
pub mod Steps
pub mod Complete
pub mod Spellings
