-- ===== src/Rdcp/Transport/Order.antt =====
-- What follows for the requests of `XBDMTransport` from what the service of Queue may do.
use xbdm_gdb_bridge.Prelude.{
  List, ap, append-nil, append_assoc, false, map, refl, subst, sym, ◌++◌, ◌==◌, ◌∙◌, ◌∷◌, ◌≡◌, [],
}
use xbdm_gdb_bridge.Rdcp.Request.{RdcpRequest}
use xbdm_gdb_bridge.Rdcp.Transport.{
  Ending, XbdmTransport, abandoned, completed, ok_send_binary_data, running,
}
use xbdm_gdb_bridge.Rdcp.Transport.Queue.{
  Event, Reach, Refines, Serves, Service, accept, all_offered, answer, give_up, here, next, run,
  stay, view,
}
use xbdm_gdb_bridge.Rdcp.Transport.Refinement.{run-Refines}

-- Every request that was ever taken in, the ended ones first.
abbrev pub ending_request : Ending → RdcpRequest
ending_request (completed request response) = request
ending_request (abandoned request) = request

abbrev pub accounted : Service → List RdcpRequest
accounted s = map ending_request s.ended ++ s.waiting

-- Not completed by a response that asks for binary data.
abbrev pub IsAnswered : Ending → Type 0
IsAnswered (completed request response) = (response.status == ok_send_binary_data) ≡ false
IsAnswered (abandoned request) = Unit {0}

abbrev pub AllAnswered : List Ending → Type 0
AllAnswered [] = Unit {0}
AllAnswered (ending ∷ endings) = IsAnswered ending × AllAnswered endings

map-append :
    (xs ys : List Ending)
    → map ending_request (xs ++ ys) ≡ map ending_request xs ++ map ending_request ys
map-append [] ys = refl
map-append (x ∷ xs) ys = ap (◌∷◌ (ending_request x)) (map-append xs ys)

map-abandoned :
    (requests : List RdcpRequest) → map ending_request (map abandoned requests) ≡ requests
map-abandoned [] = refl
map-abandoned (r ∷ rs) = ap (◌∷◌ r) (map-abandoned rs)

Serves-accounted :
    {s t : Service} {requests : List RdcpRequest}
    → Serves s requests t
    → accounted t ≡ accounted s ++ requests
Serves-accounted (stay s) = sym (append-nil (accounted s))
Serves-accounted (accept s request) =
    sym (append_assoc (map ending_request s.ended) s.waiting (request ∷ []))
Serves-accounted (answer request later ended response h) =
    ap (λ xs. xs ++ later) (map-append ended (completed request response ∷ []))
    ∙ (append_assoc (map ending_request ended) (request ∷ []) later
        ∙ sym (append-nil (map ending_request ended ++ request ∷ later)))
Serves-accounted (give_up s) =
    append-nil (map ending_request (s.ended ++ map abandoned s.waiting))
    ∙ (map-append s.ended (map abandoned s.waiting)
        ∙ (ap (◌++◌ (map ending_request s.ended)) (map-abandoned s.waiting)
            ∙ sym (append-nil (accounted s))))

Reach-accounted :
    {s t : Service} {requests : List RdcpRequest}
    → Reach s requests t
    → accounted t ≡ accounted s ++ requests
Reach-accounted (here s) = sym (append-nil (accounted s))
Reach-accounted {s} (next {first = first} {others} serves rest) =
    Reach-accounted rest
    ∙ (ap (λ xs. xs ++ others) (Serves-accounted serves) ∙ append_assoc (accounted s) first others)

AllAnswered-append :
    (xs ys : List Ending) → AllAnswered xs → AllAnswered ys → AllAnswered (xs ++ ys)
AllAnswered-append [] ys hx hy = hy
AllAnswered-append (x ∷ xs) ys hx hy = (hx.0, AllAnswered-append xs ys hx.1 hy)

AllAnswered-abandoned : (requests : List RdcpRequest) → AllAnswered (map abandoned requests)
AllAnswered-abandoned [] = tt
AllAnswered-abandoned (r ∷ rs) = (tt, AllAnswered-abandoned rs)

Serves-AllAnswered :
    {s t : Service} {requests : List RdcpRequest}
    → Serves s requests t
    → AllAnswered s.ended
    → AllAnswered t.ended
Serves-AllAnswered (stay s) h = h
Serves-AllAnswered (accept s request) h = h
Serves-AllAnswered (answer request later ended response e) h =
    AllAnswered-append ended (completed request response ∷ []) h (e, tt)
Serves-AllAnswered (give_up s) h =
    AllAnswered-append s.ended (map abandoned s.waiting) h (AllAnswered-abandoned s.waiting)

Reach-AllAnswered :
    {s t : Service} {requests : List RdcpRequest}
    → Reach s requests t
    → AllAnswered s.ended
    → AllAnswered t.ended
Reach-AllAnswered (here s) h = h
Reach-AllAnswered (next serves rest) h = Reach-AllAnswered rest (Serves-AllAnswered serves h)

run-Reach :
    (events : List Event) (t u : XbdmTransport)
    → run events t ≡ running u
    → Reach (view t) (all_offered events) (view u)
unfolding Refines
run-Reach events t u h = subst (Refines (view t) (all_offered events)) h (run-Refines events t)

-- In any order of calls, reads and connections that does not end in undefined behaviour, the
-- requests that have ended, in the order in which they ended, followed by those that wait, are
-- those of before followed by those that Send was given: none is lost, ends twice or overtakes
-- another.
pub run-accounted :
    (events : List Event) (t u : XbdmTransport)
    → run events t ≡ running u
    → accounted (view u) ≡ accounted (view t) ++ all_offered events
run-accounted events t u h = Reach-accounted (run-Reach events t u h)

-- Where no request so far was completed by a response that asks for binary data, none ever is, in
-- any order of calls, reads and connections that does not end in undefined behaviour.
pub run-AllAnswered :
    (events : List Event) (t u : XbdmTransport)
    → run events t ≡ running u
    → AllAnswered t.endings
    → AllAnswered u.endings
run-AllAnswered events t u h = Reach-AllAnswered (run-Reach events t u h)
