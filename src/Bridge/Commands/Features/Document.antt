-- ===== src/Bridge/Commands/Features/Document.antt =====
-- The document that GDB puts together from the replies of `HandleFeaturesRead`.
use xbdm_gdb_bridge.Prelude.{
  Bool-cases, Bytes, [], ap, ap₂, arith, codes, drop, drop-add, drop-suc_append, drop_past, false,
  if◌then◌else◌, inl, inr, leb, length, length-drop, refl, some, suc, sym, take, take-append-drop,
  take-length_append, take_past, true, zero, ℕ, ◌%◌, ◌++◌, ◌+◌, ◌-◌, ◌<◌, ◌==◌, ◌^◌, ◌∙◌, ◌∷◌, ◌≡◌,
  ◌≤◌,
}
use xbdm_gdb_bridge.Cstd.{memchr}
use xbdm_gdb_bridge.Cstd.Laws.{memchr-Lacks}
use xbdm_gdb_bridge.Bridge.State.{maybe_parse_hex_int, print_hex}
use xbdm_gdb_bridge.Bridge.Numbers.{comma-IsNoDigit, maybe_parse_hex_int-print_hex, print_hex-Lacks}
use xbdm_gdb_bridge.Rdcp.Response.{search_for}
use xbdm_gdb_bridge.Bridge.Commands.Features.{
  both, offset_and_size, parse_features_read, parse_region, read_piece,
}

-- What GDB makes of a piece and of what it reads next.
unfoldable pub join_piece : Bytes → Bytes → Bytes
join_piece [] rest = []
join_piece (c ∷ cs) rest = if c == b'l' then cs else cs ++ rest

-- The loop of GDB: pieces are read behind each other up to one that starts with `l`.
unfoldable pub read_document : ℕ → Bytes → ℕ → ℕ → Bytes
unfolding read_piece join_piece
read_document zero target_xml start size = []
read_document (suc fuel) target_xml start size =
    let rest = read_document fuel target_xml (start + size) size in
    join_piece (read_piece target_xml start size) rest

-- The request for a piece.
unfoldable pub piece_request : ℕ → ℕ → Bytes
unfolding print_hex
piece_request start size =
    codes "qXfer:features:read:target.xml:" ++ (print_hex start ++ b',' ∷ print_hex size)

offset_and_size-comma :
    (text : Bytes) (split : ℕ)
    → memchr b',' text ≡ some split
    → offset_and_size text
      ≡ both
          (maybe_parse_hex_int 32 (take split text))
          (maybe_parse_hex_int 32 (drop (split + 1) text))
unfolding offset_and_size
offset_and_size-comma text split e = rw (offset_and_size, e) refl

both-some : (start size : ℕ) → both (some start) (some size) ≡ some (start, size)
unfolding both
both-some start size = refl

offset_and_size-print :
    (start size : ℕ)
    → start < 2 ^ 32
    → size < 2 ^ 32
    → offset_and_size (print_hex start ++ b',' ∷ print_hex size) ≡ some (start, size)
offset_and_size-print start size h k =
    offset_and_size-comma (print_hex start ++ b',' ∷ print_hex size) (length (print_hex start)) (
      memchr-Lacks b',' (print_hex start) (print_hex size)
        (print_hex-Lacks b',' start comma-IsNoDigit))
    ∙ (ap₂ both
          (ap (maybe_parse_hex_int 32)
              (take-length_append (print_hex start) (b',' ∷ print_hex size))
            ∙ maybe_parse_hex_int-print_hex 32 start (omega (arith, h)) (omega (arith, h)))
          (ap (maybe_parse_hex_int 32) (drop-suc_append (print_hex start) b',' (print_hex size))
            ∙ maybe_parse_hex_int-print_hex 32 size (omega (arith, k)) (omega (arith, k)))
        ∙ both-some start size)

-- The text of a request whose numbers fit 32 bits gives its numbers.
pub parse_features_read-request :
    (start size : ℕ)
    → start < 2 ^ 32
    → size < 2 ^ 32
    → parse_features_read (piece_request start size) ≡ some (start, size)
unfolding parse_features_read piece_request parse_region search_for memchr
parse_features_read-request start size h k = offset_and_size-print start size h k

read_piece-past :
    (target_xml : Bytes) (start size : ℕ)
    → length target_xml < 2 ^ 32
    → leb (length target_xml) start ≡ true
    → read_piece target_xml start size ≡ b'l' ∷ []
unfolding read_piece
read_piece-past target_xml start size fits e =
    let available : length target_xml % 2 ^ 32 ≡ length target_xml = omega (arith, fits) in
    rw (read_piece, available, e) refl

read_piece-last :
    (target_xml : Bytes) (start size : ℕ)
    → length target_xml < 2 ^ 32
    → leb (length target_xml) start ≡ false
    → leb (length target_xml) ((start + size) % 2 ^ 32) ≡ true
    → read_piece target_xml start size ≡ b'l' ∷ drop start target_xml
unfolding read_piece
read_piece-last target_xml start size fits e k =
    let available : length target_xml % 2 ^ 32 ≡ length target_xml = omega (arith, fits) in
    rw (read_piece, available, e, k)
      (ap (◌∷◌ b'l') (
        take_past (length target_xml - start) (drop start target_xml)
          (omega (arith, length-drop start target_xml))))

read_piece-more :
    (target_xml : Bytes) (start size : ℕ)
    → length target_xml < 2 ^ 32
    → leb (length target_xml) start ≡ false
    → leb (length target_xml) ((start + size) % 2 ^ 32) ≡ false
    → read_piece target_xml start size ≡ b'm' ∷ take size (drop start target_xml)
unfolding read_piece
read_piece-more target_xml start size fits e k =
    let available : length target_xml % 2 ^ 32 ≡ length target_xml = omega (arith, fits) in
    rw (read_piece, available, e, k) refl

read_document-step :
    (fuel : ℕ) (target_xml : Bytes) (start size : ℕ) (piece : Bytes)
    → read_piece target_xml start size ≡ piece
    → read_document (suc fuel) target_xml start size
      ≡ join_piece piece (read_document fuel target_xml (start + size) size)
unfolding read_document
read_document-step fuel target_xml start size piece e =
    ap (λ p. join_piece p (read_document fuel target_xml (start + size) size)) e

join_piece-last : (bytes rest : Bytes) → join_piece (b'l' ∷ bytes) rest ≡ bytes
unfolding join_piece
join_piece-last bytes rest = refl

join_piece-more : (bytes rest : Bytes) → join_piece (b'm' ∷ bytes) rest ≡ bytes ++ rest
unfolding join_piece
join_piece-more bytes rest = refl

-- What is read from an offset is the rest of the document.
read_document-drop :
    (fuel : ℕ) (target_xml : Bytes) (start size : ℕ)
    → 1 ≤ size
    → length target_xml + size < 2 ^ 32
    → start ≤ length target_xml
    → length target_xml - start < fuel
    → read_document fuel target_xml start size ≡ drop start target_xml
read_document-drop zero target_xml start size low fits within enough =
    absurd (omega (arith, enough))
read_document-drop (suc fuel) target_xml start size low fits within enough =
    let short : length target_xml < 2 ^ 32 = omega (arith, fits) in
    let rest = read_document fuel target_xml (start + size) size in
    elim (Bool-cases (leb (length target_xml) start)) [
      | inl e ↦
          read_document-step fuel target_xml start size (b'l' ∷ [])
            (read_piece-past target_xml start size short e)
          ∙ (join_piece-last [] rest ∙ sym (drop_past start target_xml (ground (arith, e))))
      | inr e ↦ elim (Bool-cases (leb (length target_xml) ((start + size) % 2 ^ 32))) [
        | inl k ↦
            read_document-step fuel target_xml start size (b'l' ∷ drop start target_xml)
              (read_piece-last target_xml start size short e k)
            ∙ join_piece-last (drop start target_xml) rest
        | inr k ↦
            let more : start + size ≤ length target_xml = ground (arith, e, k, fits) in
            read_document-step fuel target_xml start size (b'm' ∷ take size (drop start target_xml))
              (read_piece-more target_xml start size short e k)
            ∙ (join_piece-more (take size (drop start target_xml)) rest
                ∙ (ap (λ r. take size (drop start target_xml) ++ r)
                      (read_document-drop fuel target_xml (start + size) size low fits more
                          (omega (arith, enough, low, more))
                        ∙ drop-add start size target_xml)
                    ∙ take-append-drop size (drop start target_xml)))
      ]
    ]

-- Where the document and one piece fit 32 bits together, and a piece has at least one byte: GDB's
-- requests from 0 on, of which one more than there are bytes is enough, give the document.
pub read_document_whole :
    (target_xml : Bytes) (size : ℕ)
    → 1 ≤ size
    → length target_xml + size < 2 ^ 32
    → read_document (length target_xml + 1) target_xml 0 size ≡ target_xml
read_document_whole target_xml size low fits =
    read_document-drop (length target_xml + 1) target_xml 0 size low fits (omega arith)
      (omega arith)
