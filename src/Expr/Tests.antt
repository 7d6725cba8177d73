-- ===== src/Expr/Tests.antt =====
-- Runs of the evaluator at concrete inputs, and the theorems at concrete inputs.
use xbdm_gdb_bridge.Prelude.{
  Bytes, [], arith, codes, refl, some, suc, take, zero, ℕ, ◌%◌, ◌++◌, ◌+◌, ◌<◌, ◌^◌, ◌∷◌, ◌≡◌, ◌⊎◌,
}
use xbdm_gdb_bridge.Cstd.{digits, is_alpha, is_digit, is_space, is_xdigit, lower}
use xbdm_gdb_bridge.Expr.Evaluate.{OpensGroup, parse_total}
use xbdm_gdb_bridge.Expr.Lexer.{
  hexadecimal_token, identifier_token, is_hexadecimal, lex, lex_hexadecimal, lex_identifier,
  lex_number, lex_operator, lex_register, number_token, register_token, span, stoul, token,
  tokenize, tokenize_loop,
}
use xbdm_gdb_bridge.Expr.Parser.{Environment, Reading, bytes, parse, parse_tokens}
use xbdm_gdb_bridge.Expr.Parser.Grammar.{
  Expr, Fits, Place, binary, eval, leaf, mark, number, print, read_sized, thread,
}
use xbdm_gdb_bridge.Expr.Parser.Grammar.Correct.{parse_tokens-print}
use xbdm_gdb_bridge.Expr.Parser.Values.{AreBytes, IsEnvironment}
use xbdm_gdb_bridge.Expr.Token.{
  Error, Result, Tokens, assertion_failed, asterisk, empty_expression, end_of_file, err,
  get_precedence, int, invalid_hexadecimal, lparen, minus, ok, plus, unexpected_character,
  unexpected_end,
}
use xbdm_gdb_bridge.Types.ThreadContext.{ThreadContext, empty_context}

-- A reader whose memory holds at each address its low byte.
abbrev counting : ℕ → ℕ → Reading
counting address size = bytes (
    take size
      (address % 256 ∷ (address + 1) % 256 ∷ (address + 2) % 256 ∷ (address + 3) % 256 ∷ []))

abbrev context : ThreadContext
context = record empty_context { eax = some 0x1234_5678; esp = some 16 }

abbrev environment : Environment
environment = record { context = context; thread_id = some 28; memory_reader = some counting }

-- For the tests: all that the tokenizer calls.
runs_tokenizer : Bytes → Result Tokens
unfolding tokenize tokenize_loop lex lex_hexadecimal lex_number lex_register lex_identifier
    lex_operator hexadecimal_token number_token register_token identifier_token span stoul digits
    is_hexadecimal is_xdigit is_digit is_alpha is_space lower
runs_tokenizer = tokenize

precedence : parse environment (codes "1 + 2 * 3 == 7 && tid==28") ≡ ok 1
unfolding parse parse_tokens runs_tokenizer
precedence = refl

left_associative : parse environment (codes "10-3-2") ≡ ok 5
unfolding parse parse_tokens runs_tokenizer
left_associative = refl

memory_reads : parse environment (codes "@(0x10, 2) + @$esp[1] - @16") ≡ ok 0x0101_1211
unfolding parse parse_tokens runs_tokenizer
memory_reads = refl

parts : parse environment (codes "$AH * 0x100 + $al") ≡ ok 0x5678
unfolding parse parse_tokens runs_tokenizer
parts = refl

errors :
    (parse environment (codes "1 +") ≡ err unexpected_end)
    × (parse environment (codes "") ≡ err empty_expression)
    × (parse environment (codes "1 $eax") ≡ err (unexpected_character 2))
    × (parse environment (codes "1 (2)") ≡ assertion_failed)
    × (parse environment (codes "1 = 2") ≡ err (unexpected_character 2))
    × (parse environment (codes "0x") ≡ err invalid_hexadecimal)
unfolding parse parse_tokens runs_tokenizer
errors = (refl, refl, refl, refl, refl, refl)

take-AreBytes : (n : ℕ) (bs : Bytes) → AreBytes bs → AreBytes (take n bs)
take-AreBytes zero bs h = tt
take-AreBytes (suc n) [] h = tt
take-AreBytes (suc n) (b ∷ bs) h = (h.0, take-AreBytes n bs h.1)

-- What is needed of the environment: each register fits 32 bits, and so does the thread's id.
fine : IsEnvironment environment
fine = record {
  context_fits = record {
    ebp_fits = tt;
    esp_fits = omega arith;
    eip_fits = tt;
    eflags_fits = tt;
    eax_fits = omega arith;
    ebx_fits = tt;
    ecx_fits = tt;
    edx_fits = tt;
    edi_fits = tt;
    esi_fits = tt;
  };
  thread_fits = omega arith;
  reader_fits = λ address size.
      take-AreBytes size _ (omega arith, (omega arith, (omega arith, (omega arith, tt))));
}

abbrev sum_text : Bytes
sum_text = codes "1 + tid"

parse_total_example :
    ((e : Error) × (parse environment sum_text ≡ err e))
    ⊎ (((v : ℕ) × (v < 2 ^ 32) × (parse environment sum_text ≡ ok v))
        ⊎ (OpensGroup sum_text × (parse environment sum_text ≡ assertion_failed)))
parse_total_example = parse_total environment sum_text fine (
  omega arith,
  (omega arith, (omega arith, (omega arith, (omega arith, (omega arith, (omega arith, tt)))))),
)

abbrev open_group : Tokens
open_group = token lparen [] 0 0 ∷ token int (codes "5") 5 1 ∷ []

abbrev place : Place
place = (codes "x", 0)

-- `@(1 + 2 * tid, 2) - 7`.
abbrev tree : Expr
tree =
    binary
      (read_sized place place
        (binary (leaf (number place 1)) plus place
          (binary (leaf (number place 2)) asterisk place (leaf (thread 9))))
        place (leaf (number place 2)) place)
      minus place (leaf (number place 7))

parse_tokens-print_example :
    parse_tokens environment (print tree ++ mark end_of_file place ∷ []) ≡ eval environment tree
unfolding Fits get_precedence
parse_tokens-print_example = parse_tokens-print environment tree place (
  omega arith,
  omega arith,
  omega arith,
  (
    (omega arith, omega arith, omega arith, tt, (omega arith, omega arith, omega arith, tt, tt)),
    tt,
  ),
  tt,
)
