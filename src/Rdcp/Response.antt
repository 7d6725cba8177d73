-- ===== src/Rdcp/Response.antt =====
-- src/rdcp/rdcp_response.h and rdcp_response.cpp: how a reply is taken off the front of the bytes
-- that have arrived. The logging is left out.
pub mod Framing
pub mod Bodies
pub mod Bounds
use xbdm_gdb_bridge.Prelude.{
  Bool, Bytes, Option, [], codes, drop, false, get_elem?, if◌then◌else◌, leb, length, ltb, none,
  some, suc, take, true, ℕ, ◌%◌, ◌&&◌, ◌+◌, ◌-◌, ◌==◌, ◌^◌, ◌∷◌,
}
use xbdm_gdb_bridge.Cstd.{scan, to_long}

abbrev pub terminator : Bytes
terminator = 13 ∷ 10 ∷ []

abbrev pub multiline_terminator : Bytes
multiline_terminator = 13 ∷ 10 ∷ b'.' ∷ 13 ∷ 10 ∷ []

-- The enumerators of `StatusCode` that `Parse` tells apart.
abbrev pub ok_multiline_response : ℕ
ok_multiline_response = 202

abbrev pub ok_binary_response : ℕ
ok_binary_response = 203

-- `status_`, `response_message_` and `data_`.
pub record RdcpResponse : Type 0 where
  pub status : ℕ
  pub message : Bytes
  pub payload : Bytes

-- `ReadBinarySizeFunc`: the size of the body and how many bytes the size itself takes, or `none`
-- while more bytes are needed; a size is not negative. The function that the caller passes may be
-- empty.
abbrev pub SizeParser : Type 0
SizeParser = Option (Bytes → Option (ℕ × ℕ))

-- What `Parse` returns: 0, a negative count, or a positive one with a response. `out_of_bounds`
-- is undefined behaviour: a range whose end lies in front of its start, or behind the buffer.
pub data Outcome : Type 0 where
  incomplete out_of_bounds : Outcome
  malformed : ℕ → Outcome
  parsed : ℕ → RdcpResponse → Outcome

-- `memcmp` of the bytes of the first list.
unfoldable pub starts_with : Bytes → Bytes → Bool
starts_with [] s = true
starts_with (x ∷ xs) [] = false
starts_with (x ∷ xs) (c ∷ cs) = c == x && starts_with xs cs

-- `std::search`.
unfoldable pub search_for : Bytes → Bytes → Option ℕ
unfolding starts_with
search_for pattern [] = none
search_for pattern (c ∷ cs) = elim (starts_with pattern (c ∷ cs)) [
  | true ↦ some 0
  | false ↦ elim (search_for pattern cs) [ none ↦ none | some i ↦ some (suc i) ]
]

-- `ParseMultilineResponse` behind the message, which ends in front of `body_start`.
unfoldable pub parse_multiline_response : ℕ → Bytes → ℕ → Bytes → Outcome
unfolding search_for
parse_multiline_response status message body_start body =
    elim (search_for multiline_terminator body) [
      | none ↦ incomplete
      | some size ↦
          parsed (body_start + size + 5)
            (record { status = status; message = message; payload = take size body })
    ]

-- `ParseBinaryResponse` behind the size, which took `consumed` of the bytes of `body`.
unfoldable pub take_binary : ℕ → ℕ → Bytes → ℕ → ℕ → Outcome
take_binary status body_start body size consumed =
    let available = length body % 2 ^ 32 in
    if ltb available consumed
    then out_of_bounds
    else if ltb (available - consumed) size
    then incomplete
    else parsed (body_start + consumed + size)
        (record { status = status; message = []; payload = take size (drop consumed body) })

unfoldable pub parse_binary_response : SizeParser → ℕ → ℕ → Bytes → Outcome
unfolding take_binary
parse_binary_response none status body_start body = incomplete
parse_binary_response (some size_parser) status body_start body = elim (size_parser body) [
  | none ↦ incomplete
  | some (size, consumed) ↦ take_binary status body_start body size consumed
]

-- `strtol` in base 10 on the first three bytes, as a `uint32_t`.
unfoldable pub read_status : Bytes → ℕ
unfolding scan to_long
read_status code_buffer = elim (scan 10 code_buffer) [ none ↦ 0 | some n ↦ to_long n % 2 ^ 32 ]

-- The bytes of the message, `buffer + 5` up to the terminator at `line_end`.
abbrev pub message_of : Bytes → ℕ → Bytes
message_of buffer line_end = take (line_end - 5) (drop 5 buffer)

-- The `OK_MULTILINE_RESPONSE` case.
unfoldable pub parse_multiline : ℕ → Bytes → ℕ → Outcome
unfolding starts_with parse_multiline_response
parse_multiline status buffer line_end =
    let message = message_of buffer line_end in
    if ltb line_end 5
    then out_of_bounds
    else if starts_with multiline_terminator (drop line_end buffer)
    then parsed (line_end + 5) (record { status = status; message = message; payload = [] })
    else parse_multiline_response status message (line_end + 2) (drop (line_end + 2) buffer)

-- The `default` case.
unfoldable pub parse_simple : ℕ → Bytes → ℕ → Outcome
parse_simple status buffer line_end =
    let message = message_of buffer line_end in
    if ltb line_end 5
    then out_of_bounds
    else parsed (line_end + 2) (record { status = status; message = message; payload = message })

-- The `switch`.
unfoldable pub parse_body : SizeParser → ℕ → Bytes → ℕ → Outcome
unfolding parse_multiline parse_binary_response parse_simple
parse_body size_parser status buffer line_end =
    if status == ok_multiline_response
    then parse_multiline status buffer line_end
    else if status == ok_binary_response
    then parse_binary_response size_parser status (line_end + 2) (drop (line_end + 2) buffer)
    else parse_simple status buffer line_end

abbrev pub is_byte : Option ℕ → ℕ → Bool
is_byte none c = false
is_byte (some x) c = x == c

-- Behind the search for the end of the first line.
unfoldable pub parse_line : SizeParser → Bytes → ℕ → Outcome
unfolding parse_body read_status
parse_line size_parser buffer line_end =
    let packet_size = line_end + 2 in
    if ltb packet_size 4
    then malformed packet_size
    else if is_byte (get_elem? buffer 3) b'-'
    then parse_body size_parser (read_status (take 3 buffer)) buffer line_end
    else malformed packet_size

unfoldable pub parse : SizeParser → Bytes → Outcome
unfolding search_for parse_line
parse size_parser buffer =
    if ltb (length buffer) 4 then incomplete else elim (search_for terminator buffer) [
      | none ↦ incomplete
      | some line_end ↦ parse_line size_parser buffer line_end
    ]
