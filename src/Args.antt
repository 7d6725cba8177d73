-- ===== src/Args.antt =====
-- src/util/parsing.h and parsing.cpp: the command lines of the shell.
pub mod Integers
pub mod Data
pub mod Tokenizer
pub mod Flatten
pub mod Parser
pub mod Commands
mod Tests
