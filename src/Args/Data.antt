-- ===== src/Args/Data.antt =====
-- `ArgParser` of src/util/parsing.h: its types and fields.
use xbdm_gdb_bridge.Prelude.{Bytes, List, [], Bool, true, false}

-- `ArgType::Enum`.
pub data ArgKind : Type 0 where
  not_found basic parenthesized quoted syntax_error : ArgKind

pub record ArgType : Type 0 where
  pub val : ArgKind
  pub message : Bytes

abbrev pub plain : ArgKind → ArgType
plain v = record { val = v; message = [] }

-- `operator bool`.
abbrev pub is_found : ArgType → Bool
is_found t = elim t.val [ not_found ↦ false | syntax_error ↦ false | _ ↦ true ]

pub record Argument : Type 0 where
  pub value : Bytes
  pub type : ArgType

abbrev pub argument : Bytes → ArgKind → Argument
argument value kind = record { value = value; type = plain kind }

pub record ArgParser : Type 0 where
  pub command : Bytes
  pub arguments : List Argument

-- A default-constructed parser.
abbrev pub no_arguments : ArgParser
no_arguments = record { command = []; arguments = [] }
