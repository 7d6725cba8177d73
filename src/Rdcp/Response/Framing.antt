-- ===== src/Rdcp/Response/Framing.antt =====
-- `RDCPResponse::Parse` on the replies that the debug monitor writes.
use xbdm_gdb_bridge.Prelude.{
  sym, ◌≢◌, Bytes, [], arith, false, length, some, true, ℕ, ◌+◌, ◌≡◌, ◌∷◌, ◌%◌, drop, ltb, ◌<◌,
  ◌==◌, refl, ◌-◌, ◌++◌, append_assoc, holds_below, holds_below→eq, ==_iff, length-append,
  take-length_append, drop_of_length, ◌∙◌, ap, ◌/◌,
}
use xbdm_gdb_bridge.Cstd.Laws.{Lacks}
use xbdm_gdb_bridge.Rdcp.Response.{
  SizeParser, parse, parse_body, parse_line, parse_simple, parsed, search_for, starts_with,
  terminator, ok_multiline_response, ok_binary_response, read_status, message_of,
}

-- `%3d` of a status code.
unfoldable pub print_status : ℕ → Bytes
print_status n = (b'0' + n / 100 % 10) ∷ (b'0' + n / 10 % 10) ∷ (b'0' + n % 10) ∷ []

-- The first line of a reply, but for its end.
unfoldable pub first_line : ℕ → Bytes → Bytes
unfolding print_status
first_line status message = print_status status ++ b'-' ∷ b' ' ∷ message

status_agrees : holds_below 1000 (λ n. read_status (print_status n) == n) ≡ true
unfolding holds_below read_status print_status
status_agrees = refl

pub search_for-Lacks :
    (message rest : Bytes)
    → Lacks 13 message
    → search_for terminator (message ++ 13 ∷ 10 ∷ rest) ≡ some (length message)
unfolding search_for starts_with
search_for-Lacks [] rest h = refl
search_for-Lacks (c ∷ cs) rest h = ground (arith, search_for-Lacks cs rest h.1)

read_status-print : (n : ℕ) → n < 1000 → read_status (print_status n) ≡ n
read_status-print n h =
    (==_iff (read_status (print_status n)) n).0
      (holds_below→eq 1000 (λ m. read_status (print_status m) == m) n status_agrees h)

status_Lacks : (n : ℕ) → n < 1000 → Lacks 13 (print_status n)
unfolding print_status
status_Lacks n h = (ground arith, (ground arith, (ground arith, tt)))

first_line-Lacks :
    (status : ℕ) (message : Bytes) → Lacks 13 message → Lacks 13 (first_line status message)
unfolding first_line print_status
first_line-Lacks status message free =
    (ground arith, (ground arith, (ground arith, (refl, (refl, free)))))

pub length-first_line :
    (status : ℕ) (message : Bytes) → length (first_line status message) ≡ length message + 5
unfolding first_line print_status
length-first_line status message = omega arith

find_line_end :
    (status : ℕ) (message rest : Bytes)
    → Lacks 13 message
    → search_for terminator (first_line status message ++ 13 ∷ 10 ∷ rest)
      ≡ some (length message + 5)
find_line_end status message rest free =
    search_for-Lacks (first_line status message) rest (first_line-Lacks status message free)
    ∙ ap some (length-first_line status message)

parse_line-first_line :
    (f : SizeParser) (status : ℕ) (message rest : Bytes)
    → status < 1000
    → parse_line f (first_line status message ++ 13 ∷ 10 ∷ rest) (length message + 5)
      ≡ parse_body f status (first_line status message ++ 13 ∷ 10 ∷ rest) (length message + 5)
unfolding parse_line first_line
parse_line-first_line f status message rest h =
    let long : ltb (length message + 5 + 2) 4 ≡ false = ground arith in
    rw (long, read_status-print status h)

-- A reply whose first line holds a status and a message: the parser gets to the `switch` with them.
pub parse-first_line :
    (f : SizeParser) (status : ℕ) (message rest : Bytes)
    → status < 1000
    → Lacks 13 message
    → parse f (first_line status message ++ 13 ∷ 10 ∷ rest)
      ≡ parse_body f status (first_line status message ++ 13 ∷ 10 ∷ rest) (length message + 5)
unfolding parse
parse-first_line f status message rest h free =
    let long : ltb (length (first_line status message ++ 13 ∷ 10 ∷ rest)) 4 ≡ false = ground (
      arith,
      length-append (first_line status message) (13 ∷ 10 ∷ rest),
      length-first_line status message,
    ) in
    rw (long, find_line_end status message rest free)
      (parse_line-first_line f status message rest h)

-- The message, between the blank and the end of the line.
pub message_of-first_line :
    (status : ℕ) (message rest : Bytes)
    → message_of (first_line status message ++ 13 ∷ 10 ∷ rest) (length message + 5) ≡ message
unfolding first_line print_status
message_of-first_line status message rest =
    let e : length message + 5 - 5 ≡ length message = omega arith in
    rw e (take-length_append message (13 ∷ 10 ∷ rest))

-- The bytes behind the first line.
pub drop-first_line :
    (status : ℕ) (message rest : Bytes)
    → drop (length message + 5 + 2) (first_line status message ++ 13 ∷ 10 ∷ rest) ≡ rest
drop-first_line status message rest =
    let count : length message + 5 + 2 ≡ length (first_line status message ++ 13 ∷ 10 ∷ []) =
      omega (
        arith,
        length-append (first_line status message) (13 ∷ 10 ∷ []),
        length-first_line status message,
      ) in
    ap (drop (length message + 5 + 2))
      (sym (append_assoc (first_line status message) (13 ∷ 10 ∷ []) rest))
    ∙ drop_of_length (length message + 5 + 2) (first_line status message ++ 13 ∷ 10 ∷ []) rest count

-- A reply of any status from 0 to 999 but the two that announce a body, with a message that has no
-- carriage return, is taken whole off the front of what has arrived: status, message and count.
pub parse-simple_reply :
    (f : SizeParser) (status : ℕ) (message rest : Bytes)
    → status < 1000
    → status ≢ ok_multiline_response
    → status ≢ ok_binary_response
    → Lacks 13 message
    → parse f (first_line status message ++ 13 ∷ 10 ∷ rest)
      ≡ parsed
          (length message + 7)
          (record { status = status; message = message; payload = message })
unfolding parse_body parse_simple
parse-simple_reply f status message rest h no_body no_binary free =
    let simple : (status == ok_multiline_response) ≡ false = ground arith in
    let simple' : (status == ok_binary_response) ≡ false = ground arith in
    let long : ltb (length message + 5) 5 ≡ false = ground arith in
    let count : length message + 5 + 2 ≡ length message + 7 = omega arith in
    parse-first_line f status message rest h free
    ∙ rw (simple, simple', long, message_of-first_line status message rest, count)
