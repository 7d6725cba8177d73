-- ===== src/Rdcp/Response/Bounds.antt =====
-- What `RDCPResponse::Parse` consumes.
use xbdm_gdb_bridge.Prelude.{
  Bool-cases, Bytes, [], arith, inl, inr, length, none, some, true, ℕ, ◌+◌, ◌≡◌, ◌≤◌, ◌∷◌, ◌%◌, ◌^◌,
  Option-cases, drop, length-drop, take, ltb, ◌==◌, get_elem?, ◌-◌,
}
use xbdm_gdb_bridge.Rdcp.Response.{
  Outcome, SizeParser, incomplete, malformed, multiline_terminator, out_of_bounds, parse,
  parse_binary_response, parse_body, parse_line, parse_multiline, parse_multiline_response,
  parse_simple, parsed, search_for, starts_with, take_binary, terminator, ok_multiline_response,
  ok_binary_response, is_byte, read_status, message_of,
}

-- A response, or a reply that is skipped, takes at most the bytes that there are, and at least
-- four: the caller makes progress.
unfoldable pub Within : ℕ → Outcome → Type 0
Within available incomplete = Unit {0}
Within available out_of_bounds = Unit {0}
Within available (malformed n) = (2 ≤ n) × (n ≤ available)
Within available (parsed n response) = (4 ≤ n) × (n ≤ available)

starts_with-le : (pattern s : Bytes) → starts_with pattern s ≡ true → length pattern ≤ length s
unfolding starts_with
starts_with-le [] s h = omega arith
starts_with-le (x ∷ xs) [] h = ground arith
starts_with-le (x ∷ xs) (c ∷ cs) h =
    let others : starts_with xs cs ≡ true = ground arith in
    omega (arith, starts_with-le xs cs others)

pub search_for-le :
    (pattern s : Bytes) (i : ℕ) → search_for pattern s ≡ some i → i + length pattern ≤ length s
unfolding search_for
search_for-le pattern [] i h = ground arith
search_for-le pattern (c ∷ cs) i h = elim (Bool-cases (starts_with pattern (c ∷ cs))) [
  | inl e ↦ ground (arith, starts_with-le pattern (c ∷ cs) e)
  | inr n ↦ elim (Option-cases (search_for pattern cs)) [
    | inl e ↦ ground arith
    | inr (j, e) ↦ ground (arith, search_for-le pattern cs j e)
  ]
]

take_binary-Within :
    (status start : ℕ) (body : Bytes) (size consumed total : ℕ)
    → 4 ≤ start
    → start + length body ≤ total
    → Within total (take_binary status start body size consumed)
unfolding take_binary Within
take_binary-Within status start body size consumed total low h =
    elim (Bool-cases (ltb (length body % 2 ^ 32) consumed)) [
      | inl e ↦ rw e tt
      | inr n ↦ elim (Bool-cases (ltb (length body % 2 ^ 32 - consumed) size)) [
        | inl e ↦ rw (n, e) tt
        | inr m ↦ rw (n, m) (omega arith, ground arith)
      ]
    ]

parse_binary-Within :
    (f : SizeParser) (status start : ℕ) (body : Bytes) (total : ℕ)
    → 4 ≤ start
    → start + length body ≤ total
    → Within total (parse_binary_response f status start body)
unfolding parse_binary_response Within
parse_binary-Within none status start body total low h = tt
parse_binary-Within (some f) status start body total low h = elim (Option-cases (f body)) [
  | inl e ↦ rw e tt
  | inr ((size, consumed), e) ↦
      rw e (take_binary-Within status start body size consumed total low h)
]

parse_multiline_response-Within :
    (status start : ℕ) (message body : Bytes) (total : ℕ)
    → 4 ≤ start
    → start + length body ≤ total
    → Within total (parse_multiline_response status message start body)
unfolding parse_multiline_response Within
parse_multiline_response-Within status start message body total low h =
    elim (Option-cases (search_for multiline_terminator body)) [
      | inl e ↦ rw (e, parse_multiline_response, Within) tt
      | inr (i, e) ↦
          rw (e, parse_multiline_response, Within)
            (omega arith, omega (arith, search_for-le multiline_terminator body i e))
    ]

parse_multiline-Within :
    (status : ℕ) (buffer : Bytes) (line_end : ℕ)
    → line_end + 2 ≤ length buffer
    → Within (length buffer) (parse_multiline status buffer line_end)
unfolding parse_multiline Within
parse_multiline-Within status buffer line_end h = elim (Bool-cases (ltb line_end 5)) [
  | inl e ↦ rw e tt
  | inr n ↦ elim (Bool-cases (starts_with multiline_terminator (drop line_end buffer))) [
    | inl e ↦
        let size = starts_with-le multiline_terminator (drop line_end buffer) e in
        rw (n, e) (omega arith, omega (arith, length-drop line_end buffer))
    | inr m ↦
        rw (n, m)
          (parse_multiline_response-Within status (line_end + 2) (message_of buffer line_end)
            (drop (line_end + 2) buffer) (length buffer) (ground arith)
            (omega (arith, length-drop (line_end + 2) buffer)))
  ]
]

parse_body-Within :
    (f : SizeParser) (status : ℕ) (buffer : Bytes) (line_end : ℕ)
    → 2 ≤ line_end
    → line_end + 2 ≤ length buffer
    → Within (length buffer) (parse_body f status buffer line_end)
unfolding parse_body parse_simple Within
parse_body-Within f status buffer line_end low h =
    elim (Bool-cases (status == ok_multiline_response)) [
      | inl e ↦ rw e (parse_multiline-Within status buffer line_end h)
      | inr n ↦ elim (Bool-cases (status == ok_binary_response)) [
        | inl e ↦
            rw (n, e)
              (parse_binary-Within f status (line_end + 2) (drop (line_end + 2) buffer)
                (length buffer) (omega arith) (omega (arith, length-drop (line_end + 2) buffer)))
        | inr m ↦ elim (Bool-cases (ltb line_end 5)) [
          | inl e ↦ rw (n, m, e) tt
          | inr l ↦ rw (n, m, l) (omega arith, h)
        ]
      ]
    ]

-- Whatever has arrived and whatever function finds the size of a binary body: when `Parse` gives a
-- response it has consumed at least four bytes and no more than there are, and when it refuses a
-- line it has consumed at least two and no more than there are.
pub parse-Within : (f : SizeParser) (buffer : Bytes) → Within (length buffer) (parse f buffer)
unfolding parse parse_line Within
parse-Within f buffer = elim (Bool-cases (ltb (length buffer) 4)) [
  | inl e ↦ rw e tt
  | inr n ↦ elim (Option-cases (search_for terminator buffer)) [
    | inl e ↦ rw (n, e) tt
    | inr (line_end, e) ↦
        let fits : line_end + 2 ≤ length buffer = search_for-le terminator buffer line_end e in
        elim (Bool-cases (ltb (line_end + 2) 4)) [
          | inl short ↦ rw (n, e, short) (omega arith, fits)
          | inr long ↦ elim (Bool-cases (is_byte (get_elem? buffer 3) b'-')) [
            | inl dash ↦
                rw (n, e, long, dash)
                  (parse_body-Within f (read_status (take 3 buffer)) buffer line_end (ground arith)
                    fits)
            | inr other ↦ rw (n, e, long, other) (omega arith, fits)
          ]
        ]
  ]
]
