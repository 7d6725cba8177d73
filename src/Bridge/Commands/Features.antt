-- ===== src/Bridge/Commands/Features.antt =====
-- `HandleFeaturesRead` of src/xbox/bridge/gdb_bridge.cpp: GDB reads the description of the target,
-- `kTargetXML`, piece by piece.
pub mod Document
use xbdm_gdb_bridge.Prelude.{
  Bytes, Option, [], codes, drop, if◌then◌else◌, leb, length, none, same, some, take, ℕ, ◌%◌, ◌+◌,
  ◌-◌, ◌^◌, ◌∷◌,
}
use xbdm_gdb_bridge.Bridge.State.{
  GdbBridge, Handled, ebadmsg, handled, maybe_parse_hex_int, reply, send_error,
}
use xbdm_gdb_bridge.Rdcp.Response.{search_for}
use xbdm_gdb_bridge.Cstd.{memchr}

-- The piece, behind `l` if it is the last one and `m` if it is not.
unfoldable pub read_piece : Bytes → ℕ → ℕ → Bytes
read_piece target_xml start size =
    let available = length target_xml % 2 ^ 32 in
    let end_offset = (start + size) % 2 ^ 32 in
    if leb available start
    then b'l' ∷ []
    else if leb available end_offset
    then b'l' ∷ take (available - start) (drop start target_xml)
    else b'm' ∷ take size (drop start target_xml)

unfoldable pub both : Option ℕ → Option ℕ → Option (ℕ × ℕ)
both (some start) (some size) = some (start, size)
both _ _ = none

-- The text between the second colon and the end: the offset and the length.
unfoldable pub offset_and_size : Bytes → Option (ℕ × ℕ)
unfolding memchr maybe_parse_hex_int both
offset_and_size text = elim (memchr b',' text) [
  | none ↦ none
  | some split ↦
      both (maybe_parse_hex_int 32 (take split text))
        (maybe_parse_hex_int 32 (drop (split + 1) text))
]

-- The text behind `read:`: the name of the file, a colon, and the rest.
unfoldable pub parse_region : Bytes → Option (ℕ × ℕ)
unfolding memchr offset_and_size
parse_region text = elim (memchr b':' text) [
  | none ↦ none
  | some size ↦
      if same (take size text) (codes "target.xml")
      then offset_and_size (drop (size + 1) text)
      else none
]

unfoldable pub parse_features_read : Bytes → Option (ℕ × ℕ)
unfolding search_for parse_region
parse_features_read command = elim (search_for (codes "read:") command) [
  | none ↦ none
  | some i ↦ parse_region (drop (i + 5) command)
]

module _ {D : Type 0} (target_xml : Bytes) where
  -- `HandleFeaturesRead`.
  unfoldable pub handle_features_read : Bytes → GdbBridge D → Handled D
  unfolding parse_features_read read_piece reply send_error
  handle_features_read command b = elim (parse_features_read command) [
    | none ↦ handled (send_error ebadmsg b)
    | some (start, size) ↦ handled (reply (read_piece target_xml start size) b)
  ]
