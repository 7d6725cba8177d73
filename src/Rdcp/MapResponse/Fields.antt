-- ===== src/Rdcp/MapResponse/Fields.antt =====
-- Numbers in the fields of src/rdcp/rdcp_response_processors.cpp.
use xbdm_gdb_bridge.Prelude.{
  Bytes, List, [], ap, append_assoc, ap₂, arith, drop, drop_of_length, false, length, length-append,
  refl, same, same_iff, some, sym, take-length_append, ℕ, ◌%◌, ◌*◌, ◌++◌, ◌+◌, ◌/◌, ◌<◌, ◌^◌, ◌∙◌,
  ◌∷◌, ◌≡◌,
}
use xbdm_gdb_bridge.Cstd.{lower, memchr}
use xbdm_gdb_bridge.Cstd.Laws.{Lacks, memchr-Lacks}
use xbdm_gdb_bridge.Rdcp.Requests.{hex_string}
use xbdm_gdb_bridge.Rdcp.Requests.Numbers.{parse_int32-hex_string, parse_uint32-hex_string}
use xbdm_gdb_bridge.Rdcp.MapResponse.{
  MapResponse, add_delimited, add_tokens, find_key, get_qword, join_halves, value_text,
}

abbrev pub field : Bytes → Bytes → Bytes
field key value = key ++ b'=' ∷ value

add_delimited-field :
    (replace_quotes : Bytes → Bytes) (key value : Bytes) (r : MapResponse)
    → Lacks b'=' key
    → add_delimited replace_quotes (field key value) (memchr b'=' (field key value)) r ≡ record {
      entries = (lower key, value_text replace_quotes value) ∷ r.entries;
      valueless_keys = r.valueless_keys;
    }
unfolding add_delimited
add_delimited-field replace_quotes key value r h =
    let one : length key + 1 ≡ length (key ++ b'=' ∷ []) =
      omega (arith, length-append key (b'=' ∷ [])) in
    let behind : drop (length key + 1) (field key value) ≡ value =
      ap (drop (length key + 1)) (sym (append_assoc key (b'=' ∷ []) value))
      ∙ drop_of_length (length key + 1) (key ++ b'=' ∷ []) value one in
    ap (λ found. add_delimited replace_quotes (field key value) found r)
      (memchr-Lacks b'=' key value h)
    ∙ ap₂
        (λ k v. record {
          entries = (lower k, value_text replace_quotes v) ∷ r.entries;
          valueless_keys = r.valueless_keys;
        })
        (take-length_append key (b'=' ∷ value)) behind

value_text-hex_string :
    (replace_quotes : Bytes → Bytes) (n : ℕ)
    → value_text replace_quotes (hex_string n) ≡ hex_string n
unfolding value_text hex_string
value_text-hex_string replace_quotes n = refl

find_key-here :
    (key value : Bytes) (entries : List (Bytes × Bytes))
    → find_key key ((key, value) ∷ entries) ≡ some value
unfolding find_key
find_key-here key value entries = rw (find_key, (same_iff key key).1 refl) refl

find_key-behind :
    (key other value : Bytes) (entries : List (Bytes × Bytes))
    → same key other ≡ false
    → find_key key ((other, value) ∷ entries) ≡ find_key key entries
unfolding find_key
find_key-behind key other value entries h = rw (find_key, h) refl

join_halves-hex_string :
    (n default_value : ℕ)
    → n < 2 ^ 64
    → join_halves default_value (some (hex_string (n % 2 ^ 32))) (some (hex_string (n / 2 ^ 32)))
      ≡ n
unfolding join_halves
join_halves-hex_string n default_value h =
    ap₂ (λ high low. (high * 2 ^ 32 + low) % 2 ^ 64)
      (parse_int32-hex_string (n / 2 ^ 32) (omega (arith, h)))
      (parse_uint32-hex_string (n % 2 ^ 32) (omega arith))
    ∙ omega (arith, h)

-- Behind any other tokens, two tokens with the halves of a number below 2^64, as requests write
-- them, give the number back, where their keys hold no equals sign and differ even in lower case.
pub get_qword-fields :
    (replace_quotes : Bytes → Bytes) (r : MapResponse) (low_key high_key : Bytes)
    (n default_value : ℕ)
    → Lacks b'=' low_key
    → Lacks b'=' high_key
    → same (lower low_key) (lower high_key) ≡ false
    → n < 2 ^ 64
    → get_qword
        (add_tokens replace_quotes
          (field low_key (hex_string (n % 2 ^ 32)) ∷ field high_key (hex_string (n / 2 ^ 32)) ∷ [])
          r)
        low_key
        high_key
        default_value
      ≡ n
unfolding get_qword add_tokens
get_qword-fields replace_quotes r low_key high_key n default_value low high differ h =
    let low_text : Bytes = hex_string (n % 2 ^ 32) in
    let high_text : Bytes = hex_string (n / 2 ^ 32) in
    let first : MapResponse = record {
      entries = (lower low_key, low_text) ∷ r.entries;
      valueless_keys = r.valueless_keys;
    } in
    let both : MapResponse = record {
      entries = (lower high_key, high_text) ∷ first.entries;
      valueless_keys = r.valueless_keys;
    } in
    let after_low : add_delimited replace_quotes (field low_key low_text)
          (memchr b'=' (field low_key low_text)) r
        ≡ first =
      add_delimited-field replace_quotes low_key low_text r low
      ∙ ap
          (λ v. record {
            entries = (lower low_key, v) ∷ r.entries;
            valueless_keys = r.valueless_keys;
          })
          (value_text-hex_string replace_quotes (n % 2 ^ 32)) in
    let after_high : add_delimited replace_quotes (field high_key high_text)
          (memchr b'=' (field high_key high_text)) first
        ≡ both =
      add_delimited-field replace_quotes high_key high_text first high
      ∙ ap
          (λ v. record {
            entries = (lower high_key, v) ∷ first.entries;
            valueless_keys = r.valueless_keys;
          })
          (value_text-hex_string replace_quotes (n / 2 ^ 32)) in
    ap
      (λ t.
        get_qword
          (add_delimited replace_quotes (field high_key high_text)
            (memchr b'=' (field high_key high_text)) t)
          low_key high_key default_value)
      after_low
    ∙ (ap (λ t. get_qword t low_key high_key default_value) after_high
        ∙ (ap₂ (join_halves default_value)
              (find_key-behind (lower low_key) (lower high_key) high_text first.entries differ
                ∙ find_key-here (lower low_key) low_text r.entries)
              (find_key-here (lower high_key) high_text first.entries)
            ∙ join_halves-hex_string n default_value h))
