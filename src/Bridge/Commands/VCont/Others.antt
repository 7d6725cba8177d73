-- ===== src/Bridge/Commands/VCont/Others.antt =====
-- A packet that steps one thread and continues the others (`HandleVCont` of
-- src/xbox/bridge/gdb_bridge.cpp).
-- `vCont` with a step of one thread, and with a `c` for the others.
use xbdm_gdb_bridge.Prelude.{
  Bool-cases, Bytes, List, [], ap, arith, codes, false, if◌then◌else◌, inl, inr, length, none, refl,
  some, suc, true, zero, ℕ, ◌++◌, ◌<◌, ◌==◌, ◌^◌, ◌∙◌, ◌∷◌, ◌≡◌, ◌≤◌,
}
use xbdm_gdb_bridge.Bridge.Commands.Dispatch.{
  handle_command, handle_extended_v_command, handle_packet,
}
use xbdm_gdb_bridge.Bridge.Commands.Memory.Access.{parsed_back}
use xbdm_gdb_bridge.Bridge.Commands.VCont.{
  add_processed, after_step, contains, continue_others, handle_vcont, is_positive, mark_waiting,
  mark_waiting_for_stop_packet, vcont_action, vcont_continue, vcont_end, vcont_loop, vcont_step,
  vcont_thread,
}
use xbdm_gdb_bridge.Bridge.Interface.{Boost, Debugger, IsBoost}
use xbdm_gdb_bridge.Bridge.Numbers.{colon-IsNoDigit, print_hex-Lacks, semicolon-IsNoDigit}
use xbdm_gdb_bridge.Bridge.State.{GdbBridge, handled, minus_one, print_hex, with_debugger}
use xbdm_gdb_bridge.Gdb.Packet.{command, make}
use xbdm_gdb_bridge.Rdcp.Response.{starts_with}

abbrev pub step_command : ℕ → Bytes
step_command id = codes "s:" ++ print_hex id

abbrev pub step_one : ℕ → Bytes
step_one id = codes "vCont;" ++ (step_command id ++ codes ";c")

-- How many of the ids are not this one.
abbrev pub count_others : ℕ → List ℕ → ℕ
count_others id [] = 0
count_others id (i ∷ is) = let rest = count_others id is in if i == id then rest else suc rest

abbrev pub times {ℓ} : {A : Type ℓ} → ℕ → (A → A) → A → A
times zero f a = a
times (suc n) f a = times n f (f a)

not_empty : (c : ℕ) (cs : Bytes) → (length (c ∷ cs) == 0) ≡ false
not_empty c cs = ground arith

module _ {D : Type 0} (debugger : Debugger D) where
  -- The debugger after a call of `ContinueThread` for each other thread, all with the thread id -1.
  abbrev pub continued : ℕ → D → D
  continued id d =
      times (count_others id (debugger.thread_ids d))
        (λ e. (debugger.continue_thread 0xFFFF_FFFF e).1) d

  continue_others-times :
      (id : ℕ) (ids : List ℕ) (d : D)
      → continue_others debugger minus_one (id ∷ []) ids d
        ≡ times (count_others id ids) (λ e. (debugger.continue_thread 0xFFFF_FFFF e).1) d
  unfolding continue_others contains
  continue_others-times id [] d = refl
  continue_others-times id (i ∷ is) d = elim (Bool-cases (i == id)) [
    | inl e ↦ rw (continue_others, e) (continue_others-times id is d)
    | inr e ↦
        rw (continue_others, e)
          (continue_others-times id is (debugger.continue_thread 0xFFFF_FFFF d).1)
  ]

  step-action :
      (id : ℕ) (rest : Bytes) (d : D) (b : GdbBridge D)
      → is_positive id ≡ true
      → debugger.step_instruction (debugger.set_active_thread id b.debugger) ≡ (true, d)
      → vcont_action debugger (b's' ∷ rest) id (add_processed debugger id []) b
        ≡ some (with_debugger d b)
  unfolding vcont_action vcont_step after_step
  step-action id rest d b positive stepped =
      rw (vcont_step, positive) (ap (λ r. some (after_step debugger r b)) stepped)

  processed-one : (id : ℕ) → is_positive id ≡ true → add_processed debugger id [] ≡ id ∷ []
  processed-one id positive = rw positive refl

  continue-action :
      (id : ℕ) (b : GdbBridge D)
      → vcont_action debugger (codes "c") minus_one (id ∷ []) b
        ≡ some (with_debugger (continued id b.debugger) b)
  unfolding vcont_action vcont_continue
  continue-action id b =
      ap (λ d. some (with_debugger d b))
        (continue_others-times id (debugger.thread_ids b.debugger) b.debugger)

  module _ (boost : Boost) where
    vcont_loop-action :
        (command : Bytes) (commands : List Bytes) (processed : List ℕ) (b c : GdbBridge D)
        (thread_id : ℕ)
        → vcont_thread (boost.split b':' command) ≡ some thread_id
        → vcont_action debugger command thread_id (add_processed debugger thread_id processed) b
          ≡ some c
        → vcont_loop debugger boost (command ∷ commands) processed b
          ≡ vcont_loop debugger boost commands (add_processed debugger thread_id processed) c
    unfolding vcont_loop
    vcont_loop-action command commands processed b c thread_id named acts =
        rw (vcont_loop, named, acts) refl

    commands-split :
        (id : ℕ)
        → IsBoost boost
        → boost.split b';' (step_command id ++ codes ";c") ≡ step_command id ∷ codes "c" ∷ []
    commands-split id documented =
        documented.split_first b';' (step_command id) (codes "c")
          (refl, (refl, print_hex-Lacks b';' id semicolon-IsNoDigit))
        ∙ ap (◌∷◌ (step_command id)) (documented.split_last b';' (codes "c") (refl, tt))

    step-names :
        (id : ℕ)
        → IsBoost boost
        → id < 2 ^ 32
        → vcont_thread (boost.split b':' (step_command id)) ≡ some id
    unfolding vcont_thread
    step-names id documented h =
        ap vcont_thread (
          documented.split_first b':' (codes "s") (print_hex id) (refl, tt)
          ∙ ap (◌∷◌ (codes "s"))
              (documented.split_last b':' (print_hex id) (print_hex-Lacks b':' id colon-IsNoDigit)))
        ∙ parsed_back id h

    continue-names : IsBoost boost → vcont_thread (boost.split b':' (codes "c")) ≡ some minus_one
    unfolding vcont_thread
    continue-names documented = ap vcont_thread (documented.split_last b':' (codes "c") (refl, tt))

    loop-result :
        (id : ℕ) (d : D) (b : GdbBridge D)
        → IsBoost boost
        → 1 ≤ id
        → id < 2 ^ 31
        → debugger.step_instruction (debugger.set_active_thread id b.debugger) ≡ (true, d)
        → vcont_loop debugger boost (step_command id ∷ codes "c" ∷ []) [] b
          ≡ some (with_debugger (continued id d) b)
    unfolding vcont_loop
    loop-result id d b documented low high stepped =
        let positive : is_positive id ≡ true = ground (arith, low, high) in
        vcont_loop-action (step_command id) (codes "c" ∷ []) [] b (with_debugger d b) id
          (step-names id documented (omega (arith, high)))
          (step-action id (b':' ∷ print_hex id) d b positive stepped)
        ∙ (ap
              (λ processed.
                vcont_loop debugger boost (codes "c" ∷ []) processed (with_debugger d b))
              (processed-one id positive)
            ∙ vcont_loop-action (codes "c") [] (id ∷ []) (with_debugger d b)
                (with_debugger (continued id d) b) minus_one (continue-names documented)
                (continue-action id (with_debugger d b)))

    vcont-end :
        (b : GdbBridge D)
        → debugger.first_stopped_thread b.debugger ≡ none
        → vcont_end debugger (some b)
          ≡ handled
              (record b { debugger = (debugger.go b.debugger).1; waiting_on_stop_packet = true })
    unfolding vcont_end mark_waiting_for_stop_packet mark_waiting
    vcont-end b e =
        ap
          (λ t. handled (
            with_debugger (debugger.go (mark_waiting debugger t b).debugger).1
              (mark_waiting debugger t b)))
          e

    vcont-request :
        (id : ℕ) (b : GdbBridge D)
        → IsBoost boost
        → handle_vcont debugger boost (step_command id ++ codes ";c") b
          ≡ vcont_end debugger (vcont_loop debugger boost (step_command id ∷ codes "c" ∷ []) [] b)
    unfolding handle_vcont
    vcont-request id b documented =
        rw (handle_vcont, not_empty b's' (b':' ∷ (print_hex id ++ codes ";c")))
          (ap (λ commands. vcont_end debugger (vcont_loop debugger boost commands [] b))
            (commands-split id documented))

    module _ (target_xml : Bytes) (swap : ℕ → ℕ) where
      dispatch-vcont :
          (id : ℕ) (b : GdbBridge D)
          → IsBoost boost
          → handle_packet boost debugger target_xml swap (make (step_one id)) b
            ≡ handle_vcont debugger boost (step_command id ++ codes ";c") b
      unfolding handle_packet handle_command handle_extended_v_command starts_with
      dispatch-vcont id b documented =
          rw (documented.prefix_test (step_one id) (codes "vCont;")) refl

      -- Where boost does what it documents, the step of the thread succeeds, and afterwards no
      -- thread is stopped: a packet that steps one thread, with a positive 32-bit id, and continues
      -- the others calls ContinueThread once for each of the others, always with the thread id -1
      -- and never with theirs, lets the debugger go, and waits for a stop packet.
      pub vcont_continue-others :
          (id : ℕ) (d : D) (b : GdbBridge D)
          → IsBoost boost
          → 1 ≤ id
          → id < 2 ^ 31
          → debugger.step_instruction (debugger.set_active_thread id b.debugger) ≡ (true, d)
          → debugger.first_stopped_thread (continued id d) ≡ none
          → handle_packet boost debugger target_xml swap (make (step_one id)) b
            ≡ handled (record b {
              debugger = (debugger.go (continued id d)).1;
              waiting_on_stop_packet = true;
            })
      vcont_continue-others id d b documented low high stepped running =
          dispatch-vcont id b documented
          ∙ (vcont-request id b documented
              ∙ (ap (vcont_end debugger) (loop-result id d b documented low high stepped)
                  ∙ vcont-end (with_debugger (continued id d) b) running))
