-- ===== src/Args/Parser.antt =====
-- The rest of `ArgParser` of src/util/parsing.h and parsing.cpp: its constructors, its tests, the
-- conversions of an argument, and `SplitAt`.
pub mod Laws
use xbdm_gdb_bridge.Prelude.{
  Bool, Bytes, List, Option, [], codes, drop, false, get_elem?, if◌then◌else◌, leb, length, ltb,
  map, none, same, some, true, ℕ, not, ◌%◌, ◌++◌, ◌+◌, ◌-◌, ◌==◌, ◌^◌, ◌||◌, ◌∷◌, ◌&&◌,
}
use xbdm_gdb_bridge.Cstd.{lower}
use xbdm_gdb_bridge.Args.Integers.{maybe_parse_int32, maybe_parse_uint32}
use xbdm_gdb_bridge.Args.Data.{
  ArgKind, ArgParser, ArgType, Argument, argument, basic, no_arguments, not_found, parenthesized,
  plain, syntax_error, quoted,
}
use xbdm_gdb_bridge.Args.Tokenizer.{tokenize, is_empty}

-- `ArgParser(cmd, arguments)`.
unfoldable pub make : Bytes → List Argument → ArgParser
make cmd arguments = record { command = lower cmd; arguments = arguments }

unfoldable pub from_tokens : List Argument → ArgParser
unfolding make
from_tokens [] = no_arguments
from_tokens (first ∷ rest) = make first.value rest

-- `ArgParser(raw_line)`.
unfoldable pub from_line : Bytes → ArgParser
unfolding from_tokens
from_line raw_line = from_tokens (tokenize raw_line)

-- `ArgParser(cmd, strings)`.
unfoldable pub from_strings : Bytes → List Bytes → ArgParser
unfolding make
from_strings cmd args = make cmd (map (λ s. argument s basic) args)

-- What `ExtractSubcommand` gives: `arguments[depth - 1]` may be out of range.
pub data Subcommand : Type 0 where
  no_subcommand out_of_range : Subcommand
  subcommand : ArgParser → Subcommand

unfoldable pub subcommand_from : List Argument → Option Argument → ℕ → Subcommand
unfolding make
subcommand_from arguments none depth = out_of_range
subcommand_from arguments (some first) depth = subcommand (make first.value (drop depth arguments))

-- `depth - 1` of an `unsigned int`.
unfoldable pub extract_subcommand : ArgParser → ℕ → Subcommand
unfolding subcommand_from
extract_subcommand p depth = elim p.arguments [
  | [] ↦ no_subcommand
  | _ ∷ _ ↦
      subcommand_from p.arguments (get_elem? p.arguments ((depth + (2 ^ 32 - 1)) % 2 ^ 32)) depth
]

unfoldable pub has_command : ArgParser → Bool
has_command p = not (is_empty p.command)

-- The answer, and the parser that the call leaves.
unfoldable pub shift_prefix_modifier : ArgParser → ℕ → Bool × ArgParser
shift_prefix_modifier p modifier = elim p.command [
  | [] ↦ (false, p)
  | c ∷ cs ↦ if c == modifier then (true, record p { command = cs }) else (false, p)
]

unfoldable pub is_command : ArgParser → List Bytes → Bool
is_command p [] = false
is_command p (cmd ∷ rest) = same p.command cmd || is_command p rest

unfoldable pub has_argument : List Argument → Bytes → Bool
has_argument [] test = false
has_argument (arg ∷ rest) test = same test (lower arg.value) || has_argument rest test

unfoldable pub arg_exists : ArgParser → List Bytes → Bool
unfolding has_argument
arg_exists p [] = false
arg_exists p (arg ∷ rest) = has_argument p.arguments arg || arg_exists p rest

-- The argument at an index, a 32-bit pattern, if it is in range.
unfoldable pub argument_at : ArgParser → ℕ → Option Argument
argument_at p arg_index =
    if leb (2 ^ 31) arg_index || leb (length p.arguments) arg_index
    then none
    else get_elem? p.arguments arg_index

-- `std::expected<uint32_t, std::string>`.
pub data Expected : Type 0 where
  expected : ℕ → Expected
  unexpected : Bytes → Expected

-- `detail::ParseHelper<T>::Parse`, for the two signs of `T`.
unfoldable pub parse_helper : Bool → Bytes → Expected
unfolding maybe_parse_int32 maybe_parse_uint32
parse_helper is_signed s = elim (if is_signed then maybe_parse_int32 s else maybe_parse_uint32 s) [
  | none ↦ unexpected (codes "Value " ++ (s ++ codes " is not numeric"))
  | some v ↦ expected v
]

-- The answer of the overloads of `Parse`, with what `ret` holds behind the call.
unfoldable pub parse_integer : Bool → ArgParser → ℕ → ℕ → ArgType × ℕ
unfolding argument_at parse_helper
parse_integer is_signed p arg_index ret = elim (argument_at p arg_index) [
  | none ↦ (plain not_found, ret)
  | some arg ↦ elim (parse_helper is_signed arg.value) [
    | unexpected message ↦ (record { val = syntax_error; message = message }, ret)
    | expected v ↦ (arg.type, v)
  ]
]

abbrev true_words : List Bytes
true_words = codes "t" ∷ codes "true" ∷ codes "y" ∷ codes "yes" ∷ codes "on" ∷ codes "1" ∷ []

unfoldable pub is_true_word : List Bytes → Bytes → Bool
is_true_word [] param = false
is_true_word (word ∷ rest) param = same param word || is_true_word rest param

unfoldable pub parse_bool : ArgParser → ℕ → Bool → ArgType × Bool
unfolding argument_at is_true_word
parse_bool p arg_index ret = elim (argument_at p arg_index) [
  | none ↦ (plain not_found, ret)
  | some arg ↦ (arg.type, is_true_word true_words (lower arg.value))
]

unfoldable pub parse_string : ArgParser → ℕ → Bytes → ArgType × Bytes
unfolding argument_at
parse_string p arg_index ret = elim (argument_at p arg_index) [
  | none ↦ (plain not_found, ret)
  | some arg ↦ (arg.type, arg.value)
]

-- The message of a number that is no expression either.
unfoldable pub full_error : Bytes → Bytes → Bytes
full_error error caused_by =
    if is_empty caused_by then error else error ++ (codes " caused by " ++ caused_by)

unfoldable pub parse_number : Bool → Argument → Bytes → ℕ → ArgType × ℕ
unfolding parse_helper full_error
parse_number is_signed arg caused_by ret = elim (parse_helper is_signed arg.value) [
  | unexpected message ↦
      (record { val = syntax_error; message = full_error message caused_by }, ret)
  | expected v ↦ (arg.type, v)
]

-- `Parse` with an `ExpressionParser`, whose `Parse` is the parameter.
unfoldable pub parse_expression_argument : (Bytes → Expected) → Bool → Argument → ℕ → ArgType × ℕ
unfolding parse_number
parse_expression_argument expr_parse is_signed arg ret = elim arg.type.val [
  | parenthesized ↦ elim (expr_parse arg.value) [
    | expected v ↦ (arg.type, v)
    | unexpected message ↦ (record { val = syntax_error; message = message }, ret)
  ]
  | basic ↦ elim (expr_parse arg.value) [
    | expected v ↦ (arg.type, v)
    | unexpected message ↦ parse_number is_signed arg message ret
  ]
  | _ ↦ parse_number is_signed arg [] ret
]

unfoldable pub parse_with : (Bytes → Expected) → Bool → ArgParser → ℕ → ℕ → ArgType × ℕ
unfolding argument_at parse_expression_argument
parse_with expr_parse is_signed p arg_index ret = elim (argument_at p arg_index) [
  | none ↦ (plain not_found, ret)
  | some arg ↦ parse_expression_argument expr_parse is_signed arg ret
]

-- The arguments in front of the first that the test takes, and those from it on.
unfoldable pub split_first : (Bytes → Bool) → List Argument → List Argument × List Argument
split_first test [] = ([], [])
split_first test (arg ∷ rest) =
    let (before, from) = split_first test rest in
    if test arg.value then ([], arg ∷ rest) else (arg ∷ before, from)

unfoldable pub is_delimiter : Bytes → Bool → Bytes → Bool
is_delimiter delimiter case_sensitive value =
    if case_sensitive then same value delimiter else same (lower value) (lower delimiter)

-- `SplitAt`, from the place of the delimiter: the answer, `pre` and `post`.
unfoldable pub split_around : Bytes → List Argument × List Argument → Bool × (ArgParser × ArgParser)
unfolding make from_tokens
split_around command (before, from) = elim from [
  | [] ↦ (false, (make command before, no_arguments))
  | _ ∷ after ↦ (true, (make command before, from_tokens after))
]

unfoldable pub split_at : ArgParser → Bytes → Bool → Bool × (ArgParser × ArgParser)
unfolding split_first is_delimiter split_around
split_at p delimiter case_sensitive =
    split_around p.command (split_first (is_delimiter delimiter case_sensitive) p.arguments)
