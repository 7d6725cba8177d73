-- ===== src/Bridge/Commands/Threads/Selection.antt =====
-- Which thread a command of GDB is for, and the list of threads that GDB is given
-- (src/xbox/bridge/gdb_bridge.cpp).
use xbdm_gdb_bridge.Prelude.{
  Bool-cases, Bytes, List, Option, Option-cases, [], ap, arith, false, inl, inr, none, refl, some,
  sym, true, ℕ, ◌<◌, ◌==◌, ◌^◌, ◌∙◌, ◌∷◌, ◌≡◌, ◌≤◌,
}
use xbdm_gdb_bridge.Bridge.Interface.{Boost, Debugger}
use xbdm_gdb_bridge.Bridge.State.{
  GdbBridge, handled, maybe_parse_hex_int, print_hex, reply, reply_if_connected, send_ok,
}
use xbdm_gdb_bridge.Bridge.Numbers.{maybe_parse_hex_int-print_hex}
use xbdm_gdb_bridge.Gdb.Packet.{make}
use xbdm_gdb_bridge.Cstd.{hex_prefix, scan, scan_digits, sign, skip_space}
use xbdm_gdb_bridge.Bridge.Commands.Threads.{
  get_thread_id_for_command, handle_select_thread_for_command_group, lookup, select_thread,
}
use xbdm_gdb_bridge.Bridge.Commands.Dispatch.{handle_packet}

-- `H` of a command letter and a thread.
unfoldable pub select_request : ℕ → ℕ → Bytes
unfolding print_hex
select_request operation thread_id = b'H' ∷ operation ∷ print_hex thread_id

no_digits : (thread_id : ℕ) → maybe_parse_hex_int 32 [] ≡ some thread_id → 1 ≤ 0
unfolding maybe_parse_hex_int scan skip_space sign hex_prefix scan_digits
no_digits thread_id e = ground (arith, e)

abbrev chosen : Option ℕ → ℕ
chosen none = 0
chosen (some thread_id) = thread_id

lookup-others :
    (key value letter : ℕ) (entries : List (ℕ × ℕ))
    → (key == letter) ≡ false
    → lookup letter ((key, value) ∷ entries) ≡ lookup letter entries
unfolding lookup
lookup-others key value letter entries other = rw (lookup, other) refl

module _ {D : Type 0} where
  -- What the selection leaves.
  abbrev pub selected : ℕ → ℕ → GdbBridge D → GdbBridge D
  selected operation thread_id b = record b {
    thread_id_for_command = (operation, thread_id) ∷ b.thread_id_for_command;
  }

  handle_select-text :
      (operation : ℕ) (text : Bytes) (thread_id : ℕ) (b : GdbBridge D)
      → maybe_parse_hex_int 32 text ≡ some thread_id
      → handle_select_thread_for_command_group (b'H' ∷ operation ∷ text) b
        ≡ handled (send_ok (selected operation thread_id b))
  unfolding handle_select_thread_for_command_group select_thread
  handle_select-text operation [] thread_id b e = absurd (omega (arith, no_digits thread_id e))
  handle_select-text operation (c ∷ cs) thread_id b e = ap (λ r. select_thread operation r b) e

  commands-send_ok : (b : GdbBridge D) → (send_ok b).thread_id_for_command ≡ b.thread_id_for_command
  unfolding send_ok reply_if_connected reply
  commands-send_ok b = elim (Bool-cases b.is_connected) [
    | inl e ↦ rw (send_ok, reply_if_connected, e) refl
    | inr e ↦ rw (send_ok, reply_if_connected, e) refl
  ]

  get_thread_id-lookup :
      (letter : ℕ) (b : GdbBridge D)
      → get_thread_id_for_command letter b ≡ chosen (lookup letter b.thread_id_for_command)
  unfolding get_thread_id_for_command
  get_thread_id-lookup letter b = elim (Option-cases (lookup letter b.thread_id_for_command)) [
    | inl e ↦ rw (get_thread_id_for_command, e) refl
    | inr (v, e) ↦ rw (get_thread_id_for_command, e) refl
  ]

  get_thread_id-send_ok :
      (letter : ℕ) (b : GdbBridge D)
      → get_thread_id_for_command letter (send_ok b) ≡ get_thread_id_for_command letter b
  get_thread_id-send_ok letter b =
      get_thread_id-lookup letter (send_ok b)
      ∙ (ap (λ entries. chosen (lookup letter entries)) (commands-send_ok b)
          ∙ sym (get_thread_id-lookup letter b))

  get_thread_id-selected :
      (operation thread_id : ℕ) (b : GdbBridge D)
      → get_thread_id_for_command operation (selected operation thread_id b) ≡ thread_id
  unfolding lookup
  get_thread_id-selected operation thread_id b =
      let found : (operation == operation) ≡ true = ground arith in
      get_thread_id-lookup operation (selected operation thread_id b) ∙ rw (lookup, found) refl

  get_thread_id-others :
      (operation thread_id letter : ℕ) (b : GdbBridge D)
      → (operation == letter) ≡ false
      → get_thread_id_for_command letter (selected operation thread_id b)
        ≡ get_thread_id_for_command letter b
  unfolding lookup
  get_thread_id-others operation thread_id letter b other =
      get_thread_id-lookup letter (selected operation thread_id b)
      ∙ (ap chosen (lookup-others operation thread_id letter b.thread_id_for_command other)
          ∙ sym (get_thread_id-lookup letter b))

module _ {D : Type 0} (boost : Boost) (debugger : Debugger D) (target_xml : Bytes)
    (swap : ℕ → ℕ) where
  dispatch_select :
      (rest : Bytes) (b : GdbBridge D)
      → handle_packet boost debugger target_xml swap (make (b'H' ∷ rest)) b
        ≡ handle_select_thread_for_command_group (b'H' ∷ rest) b
  unfolding handle_packet
  dispatch_select rest b = refl

  -- A request to select a thread whose id fits 32 bits, for a command letter, is acknowledged; from
  -- then on that letter is for that thread, and every other letter for the thread that it was for
  -- before.
  pub select-get_thread_id :
      (operation thread_id letter : ℕ) (b : GdbBridge D)
      → thread_id < 2 ^ 32
      → (operation == letter) ≡ false
      → (handle_packet boost debugger target_xml swap (make (select_request operation thread_id)) b
          ≡ handled (send_ok (selected operation thread_id b)))
        × (get_thread_id_for_command operation (send_ok (selected operation thread_id b))
            ≡ thread_id)
        × (get_thread_id_for_command letter (send_ok (selected operation thread_id b))
            ≡ get_thread_id_for_command letter b)
  unfolding select_request
  select-get_thread_id operation thread_id letter b h other = (
    dispatch_select (operation ∷ print_hex thread_id) b
        ∙ handle_select-text operation (print_hex thread_id) thread_id b
            (maybe_parse_hex_int-print_hex 32 thread_id (omega (arith, h)) (omega (arith, h))),
    get_thread_id-send_ok operation (selected operation thread_id b)
        ∙ get_thread_id-selected operation thread_id b,
    get_thread_id-send_ok letter (selected operation thread_id b)
        ∙ get_thread_id-others operation thread_id letter b other,
  )
