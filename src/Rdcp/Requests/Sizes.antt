-- ===== src/Rdcp/Requests/Sizes.antt =====
-- The sizes of the requests of src/rdcp/xbdm_requests.h, and of their replies.
use xbdm_gdb_bridge.Prelude.{
  Bool-cases, Bytes, [], ap, arith, codes, false, inl, inr, leb, length, length-append, none, refl,
  some, some-injective, sym, true, ℕ, ◌%◌, ◌*◌, ◌++◌, ◌+◌, ◌/◌, ◌<◌, ◌^◌, ◌∙◌, ◌∷◌, ◌≡◌, ◌≤◌,
  none_is_some,
}
use xbdm_gdb_bridge.Cstd.Laws.{Lacks}
use xbdm_gdb_bridge.Bridge.Serialize.{length-hex_fixed}
use xbdm_gdb_bridge.Rdcp.Request.{RdcpRequest, to_bytes}
use xbdm_gdb_bridge.Rdcp.Response.{ok_binary_response, parse, parsed}
use xbdm_gdb_bridge.Rdcp.Response.Framing.{first_line}
use xbdm_gdb_bridge.Rdcp.Response.Bodies.{parse-binary_reply}
use xbdm_gdb_bridge.Rdcp.Requests.{hex_string, plain_request}
use xbdm_gdb_bridge.Rdcp.Requests.Memory.{
  binary_size_int32_prefix, get_file, maximum_send_length, set_mem,
}

length-hex_string : (n : ℕ) → length (hex_string n) ≡ 10
unfolding hex_string
length-hex_string n = omega (arith, length-hex_fixed 8 (n % 2 ^ 32))

set_mem-small :
    (hex : Bytes → Bytes) (address : ℕ) (bytes : Bytes)
    → leb (length bytes) 120 ≡ true
    → set_mem hex address bytes
      ≡ some (
          plain_request
            (codes "setmem")
            (codes " addr=" ++ (hex_string address ++ (codes " data=" ++ hex bytes))))
unfolding set_mem
set_mem-small hex address bytes small = rw (set_mem, small) refl

set_mem-large :
    (hex : Bytes → Bytes) (address : ℕ) (bytes : Bytes)
    → leb (length bytes) 120 ≡ false
    → set_mem hex address bytes ≡ none
unfolding set_mem
set_mem-large hex address bytes large = rw (set_mem, large) refl

-- With a function for hexadecimal text that writes two characters for each byte, a request to set
-- memory that passes its assertion has 30 characters and two for each byte, and no more than a
-- command may have.
pub set_mem-maximum :
    (hex : Bytes → Bytes) (address : ℕ) (bytes : Bytes) (request : RdcpRequest)
    → ((b : Bytes) → length (hex b) ≡ 2 * length b)
    → set_mem hex address bytes ≡ some request
    → (length (to_bytes request) ≡ 30 + 2 * length bytes)
      × (length (to_bytes request) ≤ maximum_send_length)
unfolding set_mem to_bytes plain_request
set_mem-maximum hex address bytes request doubles e = elim (Bool-cases (leb (length bytes) 120)) [
  | inr large ↦
      absurd (omega (arith, none_is_some (sym (set_mem-large hex address bytes large) ∙ e)))
  | inl small ↦
      let text : Bytes = codes " addr=" ++ (hex_string address ++ (codes " data=" ++ hex bytes)) in
      let built : RdcpRequest = plain_request (codes "setmem") text in
      let same_request : built ≡ request =
        some-injective (sym (set_mem-small hex address bytes small) ∙ e) in
      let size : length (to_bytes built) ≡ 30 + 2 * length bytes = omega (
        arith,
        length-append text (13 ∷ 10 ∷ []),
        length-append (hex_string address) (codes " data=" ++ hex bytes),
        length-hex_string address,
        doubles bytes,
      ) in
      let total : length (to_bytes request) ≡ 30 + 2 * length bytes =
        ap (λ r. length (to_bytes r)) (sym same_request) ∙ size in
      let fits : length bytes ≤ 120 = ground (arith, small) in (total, omega (arith, total, fits))
]

-- The size in front of a file.
abbrev pub size_prefix : ℕ → Bytes
size_prefix n = n % 2 ^ 8 ∷ n / 2 ^ 8 % 2 ^ 8 ∷ n / 2 ^ 16 % 2 ^ 8 ∷ n / 2 ^ 24 ∷ []

-- A reply to a request for a file, whose message has no carriage return, with the size of the file
-- and its bytes behind the first line and less than 4 GiB there in all, is parsed to those bytes,
-- and the count leaves what follows.
pub get_file-reply :
    (path message body rest : Bytes)
    → Lacks 13 message
    → length (size_prefix (length body) ++ (body ++ rest)) < 2 ^ 32
    → parse (get_file path).binary_response_size_parser (
        first_line ok_binary_response message
        ++ 13 ∷ 10 ∷ (size_prefix (length body) ++ (body ++ rest)))
      ≡ parsed
          (length message + 7 + 4 + length body)
          (record { status = ok_binary_response; message = []; payload = body })
unfolding get_file binary_size_int32_prefix
get_file-reply path message body rest free small =
    let whole : length body % 2 ^ 8
          + length body / 2 ^ 8 % 2 ^ 8 * 2 ^ 8
          + length body / 2 ^ 16 % 2 ^ 8 * 2 ^ 16
          + length body / 2 ^ 24 * 2 ^ 24
        ≡ length body =
      omega arith in
    parse-binary_reply binary_size_int32_prefix message (size_prefix (length body)) body rest free
      (ap (λ n. some (n, 4)) whole) small
