-- ===== src/Rdcp/Response/Bodies.antt =====
-- `RDCPResponse::Parse` on replies with a body: multi-line text, or bytes of a known size.
use xbdm_gdb_bridge.Prelude.{
  take, Option, Bool-cases, Bytes, [], arith, false, inl, inr, length, some, ℕ, ◌+◌, ◌≡◌, ◌≤◌, ◌∷◌,
  ◌%◌, ◌^◌, Option-cases, drop, ltb, ◌<◌, suc, refl, ◌-◌, ◌++◌, append_assoc, length-append,
  drop-length_append, take-length_append, drop_of_length, ◌∙◌, ap, sym,
}
use xbdm_gdb_bridge.Cstd.Laws.{Lacks}
use xbdm_gdb_bridge.Rdcp.Response.{
  message_of, SizeParser, multiline_terminator, parse, parse_binary_response, parse_body,
  parse_multiline, parse_multiline_response, parsed, search_for, starts_with, take_binary,
  ok_multiline_response, ok_binary_response,
}
use xbdm_gdb_bridge.Rdcp.Response.Bounds.{search_for-le}
use xbdm_gdb_bridge.Rdcp.Response.Framing.{
  drop-first_line, first_line, length-first_line, message_of-first_line, parse-first_line,
}

starts_with-append :
    (pattern s rest : Bytes)
    → length pattern ≤ length s
    → starts_with pattern (s ++ rest) ≡ starts_with pattern s
unfolding starts_with
starts_with-append [] s rest h = refl
starts_with-append (x ∷ xs) [] rest h = absurd (omega arith)
starts_with-append (x ∷ xs) (c ∷ cs) rest h = rw (starts_with-append xs cs rest (omega arith))

-- A pattern that is found stays where it is when more bytes arrive.
search_for-append :
    (pattern s rest : Bytes) (i : ℕ)
    → search_for pattern s ≡ some i
    → search_for pattern (s ++ rest) ≡ some i
unfolding search_for
search_for-append pattern [] rest i h = ground arith
search_for-append pattern (c ∷ cs) rest i h =
    let fits : length pattern ≤ length (c ∷ cs) =
      omega (arith, search_for-le pattern (c ∷ cs) i h) in
    elim (Bool-cases (starts_with pattern (c ∷ cs))) [
      | inl e ↦ ground (arith, starts_with-append pattern (c ∷ cs) rest fits)
      | inr n ↦ elim (Option-cases (search_for pattern cs)) [
        | inl e ↦ ground arith
        | inr (j, e) ↦ ground (
          arith,
          starts_with-append pattern (c ∷ cs) rest fits,
          search_for-append pattern cs rest j e,
        )
      ]
    ]

search_for-tail :
    (pattern : Bytes) (c : ℕ) (cs : Bytes) (i : ℕ)
    → search_for pattern (c ∷ cs) ≡ some (suc i)
    → (starts_with pattern (c ∷ cs) ≡ false) × (search_for pattern cs ≡ some i)
unfolding search_for
search_for-tail pattern c cs i h = elim (Bool-cases (starts_with pattern (c ∷ cs))) [
  | inl e ↦ ground arith
  | inr n ↦ elim (Option-cases (search_for pattern cs)) [
    | inl e ↦ ground arith
    | inr (j, e) ↦ (n, ground arith)
  ]
]

-- Behind the end of the first line, the multi-line terminator is not found before the body ends.
abbrev pub IsBody : Bytes → Type 0
IsBody body =
    search_for multiline_terminator (13 ∷ 10 ∷ (body ++ multiline_terminator))
    ≡ some (suc (suc (length body)))

behind_message :
    (status : ℕ) (message rest : Bytes)
    → drop (length message + 5) (first_line status message ++ rest) ≡ rest
behind_message status message rest =
    drop_of_length (length message + 5) (first_line status message) rest
      (sym (length-first_line status message))

-- Where the terminator is found: not right behind the message, but behind the body.
body_end :
    (body rest : Bytes)
    → IsBody body
    → (starts_with multiline_terminator (13 ∷ 10 ∷ (body ++ (multiline_terminator ++ rest)))
        ≡ false)
      × (search_for multiline_terminator (body ++ (multiline_terminator ++ rest))
          ≡ some (length body))
body_end body rest ends =
    let whole =
      ap (λ t. search_for multiline_terminator (13 ∷ 10 ∷ t))
        (sym (append_assoc body multiline_terminator rest))
      ∙ search_for-append multiline_terminator (13 ∷ 10 ∷ (body ++ multiline_terminator)) rest
          (suc (suc (length body))) ends in
    let (start, behind_13) = search_for-tail multiline_terminator 13 _ _ whole in
    (start, (search_for-tail multiline_terminator 10 _ _ behind_13).1)

parse_multiline_response-found :
    (status start i : ℕ) (message body : Bytes)
    → search_for multiline_terminator body ≡ some i
    → parse_multiline_response status message start body
      ≡ parsed
          (start + i + 5)
          (record { status = status; message = message; payload = take i body })
unfolding parse_multiline_response
parse_multiline_response-found status start i message body found =
    rw (found, parse_multiline_response)

parse_multiline-body :
    (message body rest : Bytes)
    → IsBody body
    → parse_multiline ok_multiline_response
        (first_line ok_multiline_response message
          ++ 13 ∷ 10 ∷ (body ++ (multiline_terminator ++ rest)))
        (length message + 5)
      ≡ parsed
          (length message + 7 + length body + 5)
          (record { status = ok_multiline_response; message = message; payload = body })
unfolding parse_multiline
parse_multiline-body message body rest ends =
    let long : ltb (length message + 5) 5 ≡ false = ground arith in
    let tail = body ++ (multiline_terminator ++ rest) in
    let (other, found) = body_end body rest ends in
    let count : length message + 5 + 2 + length body + 5 ≡ length message + 7 + length body + 5 =
      omega arith in
    let whole = first_line ok_multiline_response message ++ 13 ∷ 10 ∷ tail in
    let read =
      parse_multiline_response-found ok_multiline_response (length message + 5 + 2) (length body)
        (message_of whole (length message + 5)) tail found in
    rw (
      long,
      behind_message ok_multiline_response message (13 ∷ 10 ∷ tail),
      other,
      drop-first_line ok_multiline_response message tail,
      read,
      message_of-first_line ok_multiline_response message tail,
      take-length_append body (multiline_terminator ++ rest),
      count,
    )

-- A multi-line reply whose message has no carriage return, and with a body in front of whose end
-- the terminator is not found (`IsBody`), is taken whole off the front of what has arrived:
-- message, body and count.
pub parse-multiline_reply :
    (f : SizeParser) (message body rest : Bytes)
    → Lacks 13 message
    → IsBody body
    → parse f (
        first_line ok_multiline_response message
        ++ 13 ∷ 10 ∷ (body ++ (multiline_terminator ++ rest)))
      ≡ parsed
          (length message + 7 + length body + 5)
          (record { status = ok_multiline_response; message = message; payload = body })
unfolding parse_body
parse-multiline_reply f message body rest free ends =
    parse-first_line f ok_multiline_response message (body ++ (multiline_terminator ++ rest))
      (omega arith) free
    ∙ parse_multiline-body message body rest ends

parse_multiline-empty :
    (message rest : Bytes)
    → parse_multiline ok_multiline_response
        (first_line ok_multiline_response message ++ (multiline_terminator ++ rest))
        (length message + 5)
      ≡ parsed
          (length message + 10)
          (record { status = ok_multiline_response; message = message; payload = [] })
unfolding parse_multiline starts_with
parse_multiline-empty message rest =
    let long : ltb (length message + 5) 5 ≡ false = ground arith in
    let count : length message + 5 + 5 ≡ length message + 10 = omega arith in
    rw (
      long,
      behind_message ok_multiline_response message (multiline_terminator ++ rest),
      message_of-first_line ok_multiline_response message (b'.' ∷ 13 ∷ 10 ∷ rest),
      count,
    )

-- A multi-line reply whose message has no carriage return, and which has no body, ends with the
-- terminator right behind its message.
pub parse-empty_multiline_reply :
    (f : SizeParser) (message rest : Bytes)
    → Lacks 13 message
    → parse f (first_line ok_multiline_response message ++ (multiline_terminator ++ rest))
      ≡ parsed
          (length message + 10)
          (record { status = ok_multiline_response; message = message; payload = [] })
unfolding parse_body
parse-empty_multiline_reply f message rest free =
    parse-first_line f ok_multiline_response message (b'.' ∷ 13 ∷ 10 ∷ rest) (omega arith) free
    ∙ parse_multiline-empty message rest

take_binary-whole :
    (status start : ℕ) (header body rest : Bytes)
    → length (header ++ (body ++ rest)) < 2 ^ 32
    → take_binary status start (header ++ (body ++ rest)) (length body) (length header)
      ≡ parsed
          (start + length header + length body)
          (record { status = status; message = []; payload = body })
unfolding take_binary
take_binary-whole status start header body rest small =
    let size : length (header ++ (body ++ rest)) ≡ length header + length body + length rest =
      omega (arith, length-append header (body ++ rest), length-append body rest) in
    let enough : ltb (length (header ++ (body ++ rest)) % 2 ^ 32) (length header) ≡ false =
      ground arith in
    let enough' : ltb (length (header ++ (body ++ rest)) % 2 ^ 32 - length header) (length body)
        ≡ false =
      ground arith in
    rw (enough, enough', drop-length_append header (body ++ rest), take-length_append body rest)

-- A binary reply whose message has no carriage return, when the function that the caller passes
-- finds the size of the body behind the bytes of `header`, and everything that has arrived behind
-- the first line is below 4 GiB: the response holds the body, and the count covers the line, the
-- header and the body.
pub parse-binary_reply :
    (size_parser : Bytes → Option (ℕ × ℕ)) (message header body rest : Bytes)
    → Lacks 13 message
    → size_parser (header ++ (body ++ rest)) ≡ some (length body, length header)
    → length (header ++ (body ++ rest)) < 2 ^ 32
    → parse
        (some size_parser)
        (first_line ok_binary_response message ++ 13 ∷ 10 ∷ (header ++ (body ++ rest)))
      ≡ parsed
          (length message + 7 + length header + length body)
          (record { status = ok_binary_response; message = []; payload = body })
unfolding parse_body parse_binary_response
parse-binary_reply size_parser message header body rest free found small =
    let tail = header ++ (body ++ rest) in
    let count : length message + 5 + 2 ≡ length message + 7 = omega arith in
    parse-first_line (some size_parser) ok_binary_response message tail (omega arith) free
    ∙ ap (parse_binary_response (some size_parser) ok_binary_response (length message + 5 + 2))
        (drop-first_line ok_binary_response message tail)
    ∙ rw (found, count)
        (take_binary-whole ok_binary_response (length message + 7) header body rest small)
