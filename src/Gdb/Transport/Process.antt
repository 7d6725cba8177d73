-- ===== src/Gdb/Transport/Process.antt =====
-- The loop of `ProcessUnescapedReadBuffer`: it ends, with no complete packet left, and delivers
-- what a well-formed frame holds; a frame whose checksum is not numeric repeats an older packet.
use xbdm_gdb_bridge.Prelude.{
  ==_iff, Bool-cases, Bytes, [], ap, append_assoc, arith, drop, drop_of_length, false, inl, inr,
  length, length-append, length-drop, none, refl, some, suc, zero, ℕ, ◌++◌, ◌+◌, ◌<◌, ◌==◌, ◌∙◌,
  ◌∷◌, ◌≡◌,
}
use xbdm_gdb_bridge.Cstd.Laws.{Lacks}
use xbdm_gdb_bridge.Cstd.{hex_byte}
use xbdm_gdb_bridge.Gdb.Packet.{GdbPacket, packet_leader, packet_trailer, parse, read_checksum}
use xbdm_gdb_bridge.Gdb.Packet.Parse.{
  drop-frame, frame, parse-frame, parse-raw_frame, raw_frame, received,
}
use xbdm_gdb_bridge.Gdb.Transport.{
  GdbTransport, Round, acknowledge, first_round, interrupt_command, last_round, on_interrupt,
  on_parsed, process_loop, process_unescaped_read_buffer,
}

-- Nothing more can be taken from the bytes: no interrupt, and no complete packet.
abbrev pub IsDrained : GdbPacket → Bytes → Type 0
IsDrained packet [] = Unit {0}
IsDrained packet (c ∷ cs) = ((c == interrupt_command) ≡ false) × ((parse packet (c ∷ cs)).0 ≡ 0)

process_loop_drains :
    (fuel : ℕ) (r : Round) (buffer : Bytes)
    → r.remaining ≡ buffer
    → length buffer < fuel
    → (s : Round) × (process_loop fuel r buffer ≡ some s) × IsDrained s.packet s.remaining
unfolding process_loop
process_loop_drains zero r buffer e h = absurd (omega arith)
process_loop_drains (suc fuel) r [] e h = (r, refl, rw e tt)
process_loop_drains (suc fuel) r (c ∷ cs) e h = elim (Bool-cases (c == interrupt_command)) [
  | inl interrupt ↦
      rw (interrupt, process_loop)
        (process_loop_drains fuel (on_interrupt r cs) cs refl (omega arith))
  | inr other ↦ elim (Bool-cases ((parse r.packet (c ∷ cs)).0 == 0)) [
    | inl wait ↦ rw (other, wait, process_loop) (r, refl, rw e (other, (==_iff _ 0).0 wait))
    | inr taken ↦
        rw (other, taken, process_loop)
          (process_loop_drains fuel (on_parsed r (parse r.packet (c ∷ cs)))
            (drop (parse r.packet (c ∷ cs)).0 (c ∷ cs)) (ap (drop (parse r.packet (c ∷ cs)).0) e)
            (ground (arith, length-drop (parse r.packet (c ∷ cs)).0 (c ∷ cs))))
  ]
]

pub process_of_loop :
    (t : GdbTransport) {s : Round}
    → process_loop (length t.unescaped_read_buffer + 1) (first_round t) t.unescaped_read_buffer
      ≡ some s
    → process_unescaped_read_buffer t ≡ some (last_round s)
unfolding process_unescaped_read_buffer
process_of_loop t ended = rw (ended, process_unescaped_read_buffer)

-- Processing ends for every buffer, and leaves bytes from which nothing more can be taken.
pub process_unescaped_read_buffer_drains :
    (t : GdbTransport)
    → (u : GdbTransport) × (packet : GdbPacket) × (process_unescaped_read_buffer t ≡ some u)
      × IsDrained packet u.unescaped_read_buffer
unfolding process_unescaped_read_buffer
process_unescaped_read_buffer_drains t =
    let (s, ended, drained) =
      process_loop_drains (length t.unescaped_read_buffer + 1) (first_round t)
        t.unescaped_read_buffer refl (omega arith) in
    (last_round s, s.packet, rw (ended, process_unescaped_read_buffer), drained)

-- One round on a call of `Parse` that consumed something.
process_loop_parsed :
    (fuel : ℕ) (r : Round) (c : ℕ) (cs : Bytes) (q : ℕ × GdbPacket)
    → (c == interrupt_command) ≡ false
    → parse r.packet (c ∷ cs) ≡ q
    → (q.0 == 0) ≡ false
    → process_loop (suc fuel) r (c ∷ cs) ≡ process_loop fuel (on_parsed r q) (drop q.0 (c ∷ cs))
unfolding process_loop
process_loop_parsed fuel r c cs q other parsed some_taken =
    rw (← parsed) (rw (other, rw (← parsed) at some_taken, process_loop))

pub process_loop-nil : (fuel : ℕ) (r : Round) → process_loop (suc fuel) r [] ≡ some r
unfolding process_loop
process_loop-nil fuel r = refl

-- One round on a frame that stands at the front.
pub process_loop-frame :
    (fuel : ℕ) (r : Round) (payload : Bytes) (sent : ℕ) (rest : Bytes)
    → r.remaining ≡ frame [] payload sent rest
    → Lacks packet_trailer payload
    → sent < 256
    → process_loop (suc fuel) r (frame [] payload sent rest)
      ≡ process_loop fuel
          (record {
            transport = acknowledge r.transport;
            packet = received payload sent;
            remaining = rest;
            packets = r.packets ++ received payload sent ∷ [];
          })
          rest
process_loop-frame fuel r payload sent rest e no_trailer h =
    let shape : 0 + length payload + 4 ≡ length payload + 4 = omega arith in
    let parsed = rw shape at (parse-frame r.packet [] payload sent rest tt no_trailer h) in
    process_loop_parsed fuel r packet_leader (payload ++ packet_trailer ∷ (hex_byte sent ++ rest))
      (length payload + 4, received payload sent) refl parsed (ground arith)
    ∙ rw (e, drop-frame payload sent rest)

drop-raw_frame :
    (payload : Bytes) (x y : ℕ) (rest : Bytes)
    → drop (length payload + 2) (raw_frame [] payload x y rest) ≡ x ∷ y ∷ rest
drop-raw_frame payload x y rest = rw (← append_assoc payload (packet_trailer ∷ []) (x ∷ y ∷ rest)) (
    drop_of_length (length payload + 2) (packet_leader ∷ (payload ++ packet_trailer ∷ []))
      (x ∷ y ∷ rest) (omega (arith, length-append payload (packet_trailer ∷ []))))

-- A frame at the front, with no `#` in its body, whose checksum is not numeric is acknowledged, and
-- the packet of the round before is handed to the handler once more in its place; only its two
-- checksum bytes are left.
pub process_loop_malformed :
    (fuel : ℕ) (r : Round) (payload : Bytes) (x y : ℕ) (rest : Bytes)
    → r.remaining ≡ raw_frame [] payload x y rest
    → Lacks packet_trailer payload
    → read_checksum (x ∷ y ∷ []) ≡ none
    → process_loop (suc fuel) r (raw_frame [] payload x y rest)
      ≡ process_loop fuel
          (record {
            transport = acknowledge r.transport;
            packet = r.packet;
            remaining = x ∷ y ∷ rest;
            packets = r.packets ++ r.packet ∷ [];
          })
          (x ∷ y ∷ rest)
process_loop_malformed fuel r payload x y rest e no_trailer h =
    let shape : 0 + length payload + 2 ≡ length payload + 2 = omega arith in
    let parsed = rw shape at (parse-raw_frame r.packet [] payload x y rest tt no_trailer h) in
    process_loop_parsed fuel r packet_leader (payload ++ packet_trailer ∷ x ∷ y ∷ rest)
      (length payload + 2, r.packet) refl parsed (ground arith)
    ∙ rw (e, drop-raw_frame payload x y rest)
