-- ===== src/Expr/Token.antt =====
-- debugger_expression_parser.h: tokens, precedences, and the results of the parser. An error has
-- one constructor for each message, with the values that the message holds.
use xbdm_gdb_bridge.Prelude.{
  inl, inr, ◌⊎◌, Bool, Bytes, List, [], false, if◌then◌else◌, refl, true, ℕ, ◌++◌, ◌<◌, ◌^◌, ◌∷◌,
  ◌≡◌,
}

pub data TokenType : Type 0 where
  illegal end_of_file identifier int register : TokenType
  plus minus asterisk at : TokenType
  eq not_eq lt gt lte gte : TokenType
  and or : TokenType
  lparen rparen comma lbracket rbracket : TokenType

pub record Token : Type 0 where
  pub kind : TokenType
  pub literal : Bytes
  pub int_value : ℕ
  pub start_pos : ℕ

abbrev pub Tokens : Type 0
Tokens = List Token

-- The enumerators of `Precedence`, in order from 1.
abbrev pub lowest : ℕ
lowest = 1

abbrev pub logical_or : ℕ
logical_or = 2

abbrev pub logical_and : ℕ
logical_and = 3

abbrev pub equality : ℕ
equality = 4

abbrev pub relational : ℕ
relational = 5

abbrev pub sum : ℕ
sum = 6

abbrev pub product : ℕ
product = 7

abbrev pub call : ℕ
call = 9

abbrev pub highest : ℕ
highest = 10

unfoldable pub get_precedence : TokenType → ℕ
get_precedence or = logical_or
get_precedence and = logical_and
get_precedence eq = equality
get_precedence not_eq = equality
get_precedence lt = relational
get_precedence gt = relational
get_precedence lte = relational
get_precedence gte = relational
get_precedence plus = sum
get_precedence minus = sum
get_precedence asterisk = product
get_precedence lparen = call
get_precedence _ = lowest

pub data Error : Type 0 where
  invalid_hexadecimal hexadecimal_out_of_range number_out_of_range empty_register_name : Error
  unexpected_character : ℕ → Error
  empty_expression unexpected_end tid_unavailable : Error
  unknown_identifier : Bytes → Error
  expected_rparen expected_rbracket reader_unavailable read_too_large short_read : Error
  reader_failed : Bytes → Error
  unexpected_token : Bytes → Error
  register_unavailable : Bytes → Error
  unknown_register : Bytes → Error

-- `assertion_failed` ends the program; `out_of_fuel` has no counterpart in it.
pub data Result (V : Type 0) : Type 0 where
  out_of_fuel assertion_failed : Result V
  err : Error → Result V
  ok : V → Result V

-- The values of the tokens fit 32 bits.
abbrev pub AllFit : Tokens → Type 0
AllFit [] = Unit {0}
AllFit (t ∷ ts) = (t.int_value < 2 ^ 32) × AllFit ts

pub AllFit-append : (ts us : Tokens) → AllFit ts → AllFit us → AllFit (ts ++ us)
AllFit-append [] us h k = k
AllFit-append (t ∷ ts) us h k = (h.0, AllFit-append ts us h.1 k)

module _ {V W : Type 0} where
  infixl 5 ◌>>=◌
  abbrev pub ◌>>=◌ : Result V → (V → Result W) → Result W
  out_of_fuel >>= next = out_of_fuel
  assertion_failed >>= next = assertion_failed
  err message >>= next = err message
  ok value >>= next = next value

-- The run kept within its fuel, no assertion failed, and a value that it returned is as `Good`
-- says.
pub data Ensures {V : Type 0} (Good : V → Type 0) : Result V → Type 0 where
  rejected : {message : Error} → Ensures Good (err message)
  holds : {value : V} → Good value → Ensures Good (ok value)

module _ {V : Type 0} {Good : V → Type 0} where
  -- The two ways in which such a run ends.
  pub Ensures-cases :
      {run : Result V}
      → Ensures Good run
      → ((message : Error) × (run ≡ err message)) ⊎ ((value : V) × Good value × (run ≡ ok value))
  Ensures-cases (rejected {message}) = inl (message, refl)
  Ensures-cases (holds {value} good) = inr (value, good, refl)

  -- Where each branch has the test's outcome at hand.
  pub Ensures-test :
      (test : Bool) {yes no : Result V}
      → (test ≡ true → Ensures Good yes)
      → (test ≡ false → Ensures Good no)
      → Ensures Good (if test then yes else no)
  Ensures-test true on_yes on_no = on_yes refl
  Ensures-test false on_yes on_no = on_no refl

  pub Ensures-if :
      (test : Bool) {yes no : Result V}
      → Ensures Good yes
      → Ensures Good no
      → Ensures Good (if test then yes else no)
  Ensures-if test on_yes on_no = Ensures-test test (λ _. on_yes) (λ _. on_no)

module _ {V W : Type 0} {Good : V → Type 0} {Fine : W → Type 0} where
  pub Ensures->>= :
      {run : Result V} {next : V → Result W}
      → Ensures Good run
      → ((value : V) → Good value → Ensures Fine (next value))
      → Ensures Fine (run >>= next)
  Ensures->>= rejected after = rejected
  Ensures->>= (holds {value} good) after = after value good

module _ {V : Type 0} {Good Fine : V → Type 0} where
  pub Ensures-imp :
      {run : Result V}
      → Ensures Good run
      → ((value : V) → Good value → Fine value)
      → Ensures Fine run
  Ensures-imp rejected weaker = rejected
  Ensures-imp (holds {value} good) weaker = holds (weaker value good)

-- The same of a run in which an assertion may fail, but only where `Asserts` holds.
pub data Runs {V : Type 0} (Asserts : Type 0) (Good : V → Type 0) : Result V → Type 0 where
  raised : {message : Error} → Runs Asserts Good (err message)
  asserted : Asserts → Runs Asserts Good assertion_failed
  returned : {value : V} → Good value → Runs Asserts Good (ok value)

module _ {V : Type 0} {Asserts : Type 0} {Good : V → Type 0} where
  pub Runs-Ensures : {run : Result V} → Ensures Good run → Runs Asserts Good run
  Runs-Ensures rejected = raised
  Runs-Ensures (holds good) = returned good

  -- The three ways in which such a run ends.
  pub Runs-cases :
      {run : Result V}
      → Runs Asserts Good run
      → ((message : Error) × (run ≡ err message))
        ⊎ (((value : V) × Good value × (run ≡ ok value)) ⊎ (Asserts × (run ≡ assertion_failed)))
  Runs-cases (raised {message}) = inl (message, refl)
  Runs-cases (returned {value} good) = inr (inl (value, good, refl))
  Runs-cases (asserted reason) = inr (inr (reason, refl))

  pub Runs-test :
      (test : Bool) {yes no : Result V}
      → (test ≡ true → Runs Asserts Good yes)
      → (test ≡ false → Runs Asserts Good no)
      → Runs Asserts Good (if test then yes else no)
  Runs-test true on_yes on_no = on_yes refl
  Runs-test false on_yes on_no = on_no refl

  pub Runs-if :
      (test : Bool) {yes no : Result V}
      → Runs Asserts Good yes
      → Runs Asserts Good no
      → Runs Asserts Good (if test then yes else no)
  Runs-if test on_yes on_no = Runs-test test (λ _. on_yes) (λ _. on_no)

module _ {V W : Type 0} {Asserts : Type 0} {Good : V → Type 0} {Fine : W → Type 0} where
  pub Runs->>= :
      {run : Result V} {next : V → Result W}
      → Runs Asserts Good run
      → ((value : V) → Good value → Runs Asserts Fine (next value))
      → Runs Asserts Fine (run >>= next)
  Runs->>= raised after = raised
  Runs->>= (asserted reason) after = asserted reason
  Runs->>= (returned {value} good) after = after value good

module _ {V : Type 0} {Asserts : Type 0} {Good Fine : V → Type 0} where
  pub Runs-imp :
      {run : Result V}
      → Runs Asserts Good run
      → ((value : V) → Good value → Fine value)
      → Runs Asserts Fine run
  Runs-imp raised weaker = raised
  Runs-imp (asserted reason) weaker = asserted reason
  Runs-imp (returned {value} good) weaker = returned (weaker value good)
