-- ===== src/Expr.antt =====
-- The debugger's expression evaluator: src/xbox/debugger/debugger_expression_parser.
pub mod Token
pub mod Lexer
pub mod Registers
pub mod Parser
pub mod Evaluate
mod Tests
