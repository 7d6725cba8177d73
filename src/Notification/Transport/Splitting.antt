-- ===== src/Notification/Transport/Splitting.antt =====
-- Two reads of the notification channel (src/notification/xbdm_notification_transport.cpp), or one
-- with the same bytes.
use xbdm_gdb_bridge.Prelude.{
  Bool-cases, Bytes, List, Option, Option-cases, [], ap, append_assoc, ap₂, arith, drop, false, inl,
  inr, length, none, refl, some, subst, suc, sym, take, true, zero, ℕ, ◌&&◌, ◌++◌, ◌+◌, ◌==◌, ◌∙◌,
  ◌∷◌, ◌≡◌, ◌≤◌, some-injective, none_is_some,
}
use xbdm_gdb_bridge.Rdcp.Response.{search_for, starts_with, terminator}
use xbdm_gdb_bridge.Rdcp.Response.Bounds.{search_for-le}
use xbdm_gdb_bridge.Notification.Transport.{NotificationTransport, receive}
use xbdm_gdb_bridge.Notification.Transport.Chunks.{Drains, Reads, message, receive-Reads, rest}

starts_with-append :
    (pattern xs ys : Bytes)
    → length pattern ≤ length xs
    → starts_with pattern (xs ++ ys) ≡ starts_with pattern xs
unfolding starts_with
starts_with-append [] xs ys h = refl
starts_with-append (p ∷ ps) [] ys h = absurd (omega (arith, h))
starts_with-append (p ∷ ps) (x ∷ xs) ys h =
    ap (λ b. x == p && b) (starts_with-append ps xs ys (omega (arith, h)))

search_for-here :
    (pattern xs : Bytes) (x : ℕ)
    → starts_with pattern (x ∷ xs) ≡ true
    → search_for pattern (x ∷ xs) ≡ some 0
unfolding search_for
search_for-here pattern xs x e = rw (search_for, e) refl

search_for-later :
    (pattern xs : Bytes) (x i : ℕ)
    → starts_with pattern (x ∷ xs) ≡ false
    → search_for pattern xs ≡ some i
    → search_for pattern (x ∷ xs) ≡ some (suc i)
unfolding search_for
search_for-later pattern xs x i n e = rw (search_for, n, e) refl

search_for-never :
    (pattern xs : Bytes) (x : ℕ)
    → starts_with pattern (x ∷ xs) ≡ false
    → search_for pattern xs ≡ none
    → search_for pattern (x ∷ xs) ≡ none
unfolding search_for
search_for-never pattern xs x n e = rw (search_for, n, e) refl

search_for-nil : (pattern : Bytes) → search_for pattern [] ≡ none
unfolding search_for
search_for-nil pattern = refl

-- What is found is found in a longer text too, at the same place.
search_for-append :
    (pattern xs ys : Bytes) (i : ℕ)
    → search_for pattern xs ≡ some i
    → search_for pattern (xs ++ ys) ≡ some i
search_for-append pattern [] ys i h =
    absurd (omega (arith, none_is_some (sym (search_for-nil pattern) ∙ h)))
search_for-append pattern (x ∷ xs) ys i h =
    let same_start : starts_with pattern (x ∷ (xs ++ ys)) ≡ starts_with pattern (x ∷ xs) =
      starts_with-append pattern (x ∷ xs) ys (omega (arith, search_for-le pattern (x ∷ xs) i h)) in
    elim (Bool-cases (starts_with pattern (x ∷ xs))) [
      | inl e ↦
          search_for-here pattern (xs ++ ys) x (same_start ∙ e)
          ∙ (sym (search_for-here pattern xs x e) ∙ h)
      | inr n ↦ elim (Option-cases (search_for pattern xs)) [
        | inl e ↦ absurd (omega (arith, none_is_some (sym (search_for-never pattern xs x n e) ∙ h)))
        | inr (j, e) ↦
            search_for-later pattern (xs ++ ys) x j (same_start ∙ n)
              (search_for-append pattern xs ys j e)
            ∙ (sym (search_for-later pattern xs x j n e) ∙ h)
      ]
    ]

take-append : (n : ℕ) (xs ys : Bytes) → n ≤ length xs → take n (xs ++ ys) ≡ take n xs
take-append zero xs ys h = refl
take-append (suc n) [] ys h = absurd (omega (arith, h))
take-append (suc n) (x ∷ xs) ys h = ap (◌∷◌ x) (take-append n xs ys (omega (arith, h)))

drop-append : (n : ℕ) (xs ys : Bytes) → n ≤ length xs → drop n (xs ++ ys) ≡ drop n xs ++ ys
drop-append zero xs ys h = refl
drop-append (suc n) [] ys h = absurd (omega (arith, h))
drop-append (suc n) (x ∷ xs) ys h = drop-append n xs ys (omega (arith, h))

Drains-append :
    {buffer left last : Bytes} {messages others : List Bytes} (bytes : Bytes)
    → Drains buffer messages left
    → Drains (left ++ bytes) others last
    → Drains (buffer ++ bytes) (messages ++ others) last
Drains-append bytes (rest buffer e) d = d
Drains-append {last = last} {others = others} bytes (message {messages} buffer size e more) d =
    let inside : size + 2 ≤ length buffer = search_for-le terminator buffer size e in
    let behind : Drains (drop (size + 2) (buffer ++ bytes)) (messages ++ others) last =
      subst (λ xs. Drains xs (messages ++ others) last)
        (sym (drop-append (size + 2) buffer bytes inside)) (Drains-append bytes more d) in
    subst (λ m. Drains (buffer ++ bytes) (m ∷ (messages ++ others)) last)
      (take-append size buffer bytes (omega (arith, inside)))
      (message (buffer ++ bytes) size (search_for-append terminator buffer bytes size e) behind)

pub Drains-unique :
    {buffer left last : Bytes} {messages others : List Bytes}
    → Drains buffer messages left
    → Drains buffer others last
    → (messages ≡ others) × (left ≡ last)
Drains-unique (rest buffer e) (rest buffer' k) = (refl, refl)
Drains-unique (rest buffer e) (message buffer' size k more) = absurd (ground (arith, e, k))
Drains-unique (message buffer size e more) (rest buffer' k) = absurd (ground (arith, e, k))
Drains-unique {last = last} (message buffer size e more)
      (message {messages = others} buffer' size' k more') =
    let sizes : size' ≡ size = some-injective (sym k ∙ e) in
    let same_rest =
      Drains-unique more (subst (λ n. Drains (drop (n + 2) buffer) others last) sizes more') in
    (ap₂ (λ n ms. take n buffer ∷ ms) (sym sizes) same_rest.0, same_rest.1)

-- What a second read does after a first one.
abbrev pub and_then :
    Option NotificationTransport
    → (NotificationTransport → Option NotificationTransport)
    → Option NotificationTransport
and_then none k = none
and_then (some t) k = k t

-- In any state, two reads one after the other pass the same messages on, in the same order, and
-- leave the same bytes as one read with the bytes of both.
pub receive-append :
    (first second : Bytes) (t : NotificationTransport)
    → and_then (receive first t) (receive second) ≡ receive (first ++ second) t
receive-append first second t =
    let r : Reads first t = receive-Reads first t in
    let u : NotificationTransport = record {
      read_buffer = r.left;
      calls = t.calls ++ r.messages;
    } in
    let q : Reads second u = receive-Reads second u in
    let w : Reads (first ++ second) t = receive-Reads (first ++ second) t in
    let both : Drains (t.read_buffer ++ (first ++ second)) (r.messages ++ q.messages) q.left =
      subst (λ xs. Drains xs (r.messages ++ q.messages) q.left)
        (append_assoc t.read_buffer first second) (Drains-append second r.drains q.drains) in
    let same_end = Drains-unique both w.drains in
    ap (λ o. and_then o (receive second)) r.result
    ∙ (q.result
        ∙ (ap₂ (λ left calls. some (record { read_buffer = left; calls = calls })) same_end.1
              (append_assoc t.calls r.messages q.messages ∙ ap (◌++◌ t.calls) same_end.0)
            ∙ sym w.result))
