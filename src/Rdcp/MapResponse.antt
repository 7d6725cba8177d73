-- ===== src/Rdcp/MapResponse.antt =====
-- `RDCPMapResponse` of src/rdcp/rdcp_response_processors.h and .cpp. What boost does is a
-- parameter: the tokens of a text without line ends, and `replace_all` of escaped quotes.
pub mod Fields
use xbdm_gdb_bridge.Prelude.{
  Bool, Bytes, List, Option, [], drop, false, if◌then◌else◌, none, same, some, take, true, ℕ, ◌%◌,
  ◌*◌, ◌+◌, ◌==◌, ◌^◌, ◌∷◌,
}
use xbdm_gdb_bridge.Cstd.{lower, memchr}
use xbdm_gdb_bridge.Args.Integers.{parse_int32, parse_uint32}

pub record MapResponse : Type 0 where
  pub entries : List (Bytes × Bytes)
  pub valueless_keys : List Bytes

abbrev pub empty_response : MapResponse
empty_response = record { entries = []; valueless_keys = [] }

-- The value behind an equals sign; behind a last one `token` has a NUL.
unfoldable pub value_text : (Bytes → Bytes) → Bytes → Bytes
value_text replace_quotes [] = []
value_text replace_quotes (c ∷ cs) = if c == b'"' then replace_quotes cs else c ∷ cs

-- A later value of a key hides the earlier ones.
unfoldable pub add_delimited : (Bytes → Bytes) → Bytes → Option ℕ → MapResponse → MapResponse
unfolding lower value_text
add_delimited replace_quotes token none r = record {
  entries = (lower token, []) ∷ r.entries;
  valueless_keys = lower token ∷ r.valueless_keys;
}
add_delimited replace_quotes token (some delimiter) r = record r {
  entries =
      (lower (take delimiter token), value_text replace_quotes (drop (delimiter + 1) token))
      ∷ r.entries;
}

-- The loop over the tokens.
unfoldable pub add_tokens : (Bytes → Bytes) → List Bytes → MapResponse → MapResponse
unfolding add_delimited memchr
add_tokens replace_quotes [] r = r
add_tokens replace_quotes (token ∷ tokens) r =
    add_tokens replace_quotes tokens (add_delimited replace_quotes token (memchr b'=' token) r)

unfoldable pub map_response : (Bytes → List Bytes) → (Bytes → Bytes) → Bytes → MapResponse
unfolding add_tokens
map_response tokens_of replace_quotes [] = empty_response
map_response tokens_of replace_quotes (c ∷ cs) =
    add_tokens replace_quotes (tokens_of (c ∷ cs)) empty_response

unfoldable pub find_key : Bytes → List (Bytes × Bytes) → Option Bytes
find_key key [] = none
find_key key ((k, v) ∷ entries) =
    let rest = find_key key entries in if same key k then some v else rest

unfoldable pub is_found : Option Bytes → Bool
is_found none = false
is_found (some v) = true

unfoldable pub has_key : MapResponse → Bytes → Bool
unfolding find_key lower is_found
has_key r key = is_found (find_key (lower key) r.entries)

unfoldable pub text_or : Bytes → Option Bytes → Bytes
text_or default_value none = default_value
text_or default_value (some v) = v

unfoldable pub get_string : MapResponse → Bytes → Bytes → Bytes
unfolding find_key lower text_or
get_string r key default_value = text_or default_value (find_key (lower key) r.entries)

-- `GetUInt32`, and `GetDWORD` as a 32-bit pattern.
unfoldable pub number_or : ℕ → Option Bytes → ℕ
unfolding parse_uint32
number_or default_value none = default_value
number_or default_value (some v) = parse_uint32 v

unfoldable pub get_uint32 : MapResponse → Bytes → ℕ → ℕ
unfolding find_key lower number_or
get_uint32 r key default_value = number_or default_value (find_key (lower key) r.entries)

unfoldable pub get_dword : MapResponse → Bytes → ℕ → ℕ
unfolding find_key lower number_or
get_dword r key default_value = number_or default_value (find_key (lower key) r.entries)

unfoldable pub optional_number : Option Bytes → Option ℕ
unfolding parse_uint32
optional_number none = none
optional_number (some v) = some (parse_uint32 v)

unfoldable pub get_optional_dword : MapResponse → Bytes → Option ℕ
unfolding find_key lower optional_number
get_optional_dword r key = optional_number (find_key (lower key) r.entries)

-- The two halves of a 64-bit pattern, or the default where one is missing.
unfoldable pub join_halves : ℕ → Option Bytes → Option Bytes → ℕ
unfolding parse_uint32 parse_int32
join_halves default_value none high = default_value
join_halves default_value (some low) none = default_value
join_halves default_value (some low) (some high) =
    (parse_int32 high * 2 ^ 32 + parse_uint32 low) % 2 ^ 64

unfoldable pub get_qword : MapResponse → Bytes → Bytes → ℕ → ℕ
unfolding find_key lower join_halves
get_qword r low_key high_key default_value =
    join_halves default_value (find_key (lower low_key) r.entries)
      (find_key (lower high_key) r.entries)
