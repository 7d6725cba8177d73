-- ===== src/Bridge/Commands/Threads/Listing.antt =====
-- The requests of GDB for the list of threads (src/xbox/bridge/gdb_bridge.cpp), and how GDB reads
-- the replies. The parts of a text between commas.
use xbdm_gdb_bridge.Prelude.{
  Bytes, List, Option, [], ap, append-nil, ap₂, arith, codes, false, if◌then◌else◌, none, refl,
  some, true, ℕ, ◌++◌, ◌<◌, ◌==◌, ◌^◌, ◌∙◌, ◌∷◌, ◌≡◌,
}
use xbdm_gdb_bridge.Cstd.Laws.{Lacks}
use xbdm_gdb_bridge.Rdcp.Response.{starts_with}
use xbdm_gdb_bridge.Gdb.Packet.{make}
use xbdm_gdb_bridge.Bridge.Interface.{Boost, Debugger, IsBoost}
use xbdm_gdb_bridge.Bridge.State.{
  GdbBridge, Handled, handled, maybe_parse_hex_int, print_hex, reply,
}
use xbdm_gdb_bridge.Bridge.Numbers.{comma-IsNoDigit, print_hex-Lacks}
use xbdm_gdb_bridge.Bridge.Commands.Memory.Access.{parsed_back}
use xbdm_gdb_bridge.Bridge.Commands.Threads.{
  handle_thread_info_continue, handle_thread_info_start, list_threads, more_ids, send_ids,
  send_thread_info_buffer,
}
use xbdm_gdb_bridge.Bridge.Commands.Dispatch.{
  handle_command, handle_packet, handle_read_query, read_query,
}

abbrev pub in_front : ℕ → List Bytes → List Bytes
in_front c [] = (c ∷ []) ∷ []
in_front c (part ∷ parts) = (c ∷ part) ∷ parts

abbrev pub parts_at : ℕ → Bytes → List Bytes
parts_at comma [] = [] ∷ []
parts_at comma (c ∷ cs) =
    let rest = parts_at comma cs in if c == comma then [] ∷ rest else in_front c rest

abbrev pub both_read : Option ℕ → Option (List ℕ) → Option (List ℕ)
both_read none ids = none
both_read (some id) none = none
both_read (some id) (some ids) = some (id ∷ ids)

-- The number of each part.
abbrev pub numbers_of : List Bytes → Option (List ℕ)
numbers_of [] = some []
numbers_of (part ∷ parts) = both_read (maybe_parse_hex_int 32 part) (numbers_of parts)

-- The ids of a reply: behind an `m`, numbers with commas between them.
abbrev pub read_ids : Bytes → Option (List ℕ)
read_ids [] = none
read_ids (letter ∷ text) = if letter == b'm' then numbers_of (parts_at b',' text) else none

abbrev pub AllWords : List ℕ → Type 0
AllWords [] = Unit {0}
AllWords (id ∷ ids) = (id < 2 ^ 32) × AllWords ids

pub parts_at-Lacks :
    (comma : ℕ) (front : Bytes) → Lacks comma front → parts_at comma front ≡ front ∷ []
parts_at-Lacks comma [] h = refl
parts_at-Lacks comma (c ∷ cs) h = rw h.0 (ap (in_front c) (parts_at-Lacks comma cs h.1))

pub parts_at-first :
    (comma : ℕ) (front rest : Bytes)
    → Lacks comma front
    → parts_at comma (front ++ comma ∷ rest) ≡ front ∷ parts_at comma rest
parts_at-first comma [] rest h = let here : (comma == comma) ≡ true = ground arith in rw here refl
parts_at-first comma (c ∷ cs) rest h = rw h.0 (ap (in_front c) (parts_at-first comma cs rest h.1))

ids_read_one : (id : ℕ) → id < 2 ^ 32 → numbers_of (parts_at b',' (print_hex id)) ≡ some (id ∷ [])
ids_read_one id h =
    ap numbers_of (parts_at-Lacks b',' (print_hex id) (print_hex-Lacks b',' id comma-IsNoDigit))
    ∙ ap (λ n. both_read n (some [])) (parsed_back id h)

-- What stands behind the `m` of a reply is read back.
ids_read :
    (id : ℕ) (ids : List ℕ)
    → AllWords (id ∷ ids)
    → numbers_of (parts_at b',' (print_hex id ++ more_ids ids)) ≡ some (id ∷ ids)
unfolding more_ids
ids_read id [] h =
    ap (λ text. numbers_of (parts_at b',' text)) (append-nil (print_hex id)) ∙ ids_read_one id h.0
ids_read id (next_id ∷ ids) h =
    let lacks : Lacks b',' (print_hex id) = print_hex-Lacks b',' id comma-IsNoDigit in
    ap numbers_of (parts_at-first b',' (print_hex id) (print_hex next_id ++ more_ids ids) lacks)
    ∙ ap₂ both_read (parsed_back id h.0) (ids_read next_id ids h.1)

module _ {D : Type 0} where
  -- Three replies to the requests for the list, one after the other: the texts of the first two, of
  -- which GDB reads the ids, and the end of the list.
  pub record Lists (ask : Bytes → GdbBridge D → Handled D) (b : GdbBridge D) (d : D) (id : ℕ)
      (others : List ℕ) : Type 0 where
    pub first_text : Bytes
    pub second_text : Bytes
    pub first_read : read_ids first_text ≡ some (id ∷ [])
    pub second_read : read_ids second_text ≡ some others
    pub first_sent :
        ask (codes "qfThreadInfo") b
        ≡ handled (reply first_text (record b { debugger = d; thread_info_buffer = others }))
    pub second_sent :
        ask
          (codes "qsThreadInfo")
          (reply first_text (record b { debugger = d; thread_info_buffer = others }))
        ≡ handled (
            reply second_text
              (record (reply first_text (record b { debugger = d; thread_info_buffer = others })) {
                thread_info_buffer = [];
              }))
    pub end_sent :
        ask (codes "qsThreadInfo") (
          reply second_text
            (record (reply first_text (record b { debugger = d; thread_info_buffer = others })) {
              thread_info_buffer = [];
            }))
        ≡ handled (
            reply (codes "l") (
              reply second_text
                (record (reply first_text
                  (record b { debugger = d; thread_info_buffer = others })) {
                    thread_info_buffer = [];
                  })))

module _ {D : Type 0} (boost : Boost) (debugger : Debugger D) (target_xml : Bytes)
    (swap : ℕ → ℕ) where
  -- `HandlePacket` of the packet with this text.
  abbrev pub ask : Bytes → GdbBridge D → Handled D
  ask text b = handle_packet boost debugger target_xml swap (make text) b

  ask-start :
      (b : GdbBridge D)
      → IsBoost boost
      → ask (codes "qfThreadInfo") b ≡ handle_thread_info_start debugger b
  unfolding handle_packet handle_command handle_read_query read_query starts_with
  ask-start b documented =
      rw
        (
          documented.prefix_test (codes "fThreadInfo") (codes "Attached"),
          documented.prefix_test (codes "fThreadInfo") (codes "Supported"),
          documented.prefix_test (codes "fThreadInfo") (codes "ThreadExtraInfo"),
        )
        refl

  ask-continue :
      (b : GdbBridge D)
      → IsBoost boost
      → ask (codes "qsThreadInfo") b ≡ handle_thread_info_continue b
  unfolding handle_packet handle_command handle_read_query read_query starts_with
  ask-continue b documented =
      rw
        (
          documented.prefix_test (codes "sThreadInfo") (codes "Attached"),
          documented.prefix_test (codes "sThreadInfo") (codes "Supported"),
          documented.prefix_test (codes "sThreadInfo") (codes "ThreadExtraInfo"),
        )
        refl

  start-list :
      (d : D) (id : ℕ) (others : List ℕ) (b : GdbBridge D)
      → debugger.fetch_threads b.debugger ≡ (true, d)
      → debugger.thread_ids d ≡ id ∷ others
      → handle_thread_info_start debugger b
        ≡ handled
            (reply (b'm' ∷ print_hex id) (record b { debugger = d; thread_info_buffer = others }))
  unfolding handle_thread_info_start list_threads send_thread_info_buffer send_ids
  start-list d id others b fetched ids =
      ap (λ r. list_threads debugger r b) fetched
      ∙ ap (λ xs. handled (send_ids false xs (record b { debugger = d; thread_info_buffer = xs })))
          ids

  continue-list :
      (id : ℕ) (ids : List ℕ) (b : GdbBridge D)
      → b.thread_info_buffer ≡ id ∷ ids
      → handle_thread_info_continue b
        ≡ handled
            (reply (b'm' ∷ (print_hex id ++ more_ids ids)) (record b { thread_info_buffer = [] }))
  unfolding handle_thread_info_continue send_thread_info_buffer send_ids
  continue-list id ids b e = ap (λ xs. handled (send_ids true xs b)) e

  end-list :
      (b : GdbBridge D)
      → b.thread_info_buffer ≡ []
      → handle_thread_info_continue b ≡ handled (reply (codes "l") b)
  unfolding handle_thread_info_continue send_thread_info_buffer send_ids
  end-list b e = ap (λ xs. handled (send_ids true xs b)) e

  -- Where boost does what it documents and the debugger fetches at least two threads, whose ids fit
  -- 32 bits, GDB reads the id of the first in the reply to its first request for the list, the ids
  -- of all the others, in order, in the reply to the next one, and the request behind that is
  -- answered by the end of the list.
  pub list_complete :
      (d : D) (id next_id : ℕ) (ids : List ℕ) (b : GdbBridge D)
      → IsBoost boost
      → debugger.fetch_threads b.debugger ≡ (true, d)
      → debugger.thread_ids d ≡ id ∷ next_id ∷ ids
      → AllWords (id ∷ next_id ∷ ids)
      → Lists ask b d id (next_id ∷ ids)
  unfolding reply
  list_complete d id next_id ids b documented fetched threads fit = record {
    first_text = b'm' ∷ print_hex id;
    second_text = b'm' ∷ (print_hex next_id ++ more_ids ids);
    first_read = ids_read_one id fit.0;
    second_read = ids_read next_id ids fit.1;
    first_sent = ask-start b documented ∙ start-list d id (next_id ∷ ids) b fetched threads;
    second_sent = ask-continue _ documented ∙ continue-list next_id ids _ refl;
    end_sent = ask-continue _ documented ∙ end-list _ refl;
  }
