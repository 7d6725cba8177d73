-- ===== src/Args/Flatten.antt =====
-- `ArgParser::Flatten` and `FlattenArgs` of src/util/parsing.cpp: the text of a command line.
pub mod Words
pub mod Parens
pub mod Lines
use xbdm_gdb_bridge.Prelude.{Bytes, List, [], if◌then◌else◌, ◌++◌, ◌==◌, ◌∷◌, true, false}
use xbdm_gdb_bridge.Args.Data.{ArgParser, Argument, basic, parenthesized, quoted}
use xbdm_gdb_bridge.Args.Tokenizer.{is_empty}

-- The loop that puts a backslash in front of every quote.
unfoldable pub escape_quotes : Bytes → Bytes
escape_quotes [] = []
escape_quotes (c ∷ cs) =
    let rest = escape_quotes cs in if c == b'"' then b'\\' ∷ b'"' ∷ rest else c ∷ rest

unfoldable pub argument_text : Argument → Bytes
unfolding escape_quotes
argument_text arg = elim arg.type.val [
  | quoted ↦ b'"' ∷ (escape_quotes arg.value ++ b'"' ∷ [])
  | parenthesized ↦ b'(' ∷ (arg.value ++ b')' ∷ [])
  | _ ↦ arg.value
]

-- A blank behind what there is.
unfoldable pub separate : Bytes → Bytes
separate out = if is_empty out then out else out ++ b' ' ∷ []

unfoldable pub flatten_loop : Bytes → List Argument → Bytes
unfolding argument_text separate
flatten_loop out [] = out
flatten_loop out (arg ∷ rest) = flatten_loop (separate out ++ argument_text arg) rest

unfoldable pub flatten : ArgParser → Bytes
unfolding flatten_loop
flatten p = flatten_loop p.command p.arguments

unfoldable pub flatten_args : ArgParser → Bytes
unfolding flatten_loop
flatten_args p = flatten_loop [] p.arguments
