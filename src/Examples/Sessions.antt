-- ===== src/Examples/Sessions.antt =====
-- crates/client: a session with two waiters.
use klartext.Prelude.{
  ap, sym, ℕ, ◌≡◌, ◌≢◌, refl, ◌⊎◌, List, [], ◌∷◌, ◌++◌, foldl, Option, none, some, All, arith, ok,
  err,
}
use klartext.Hsfz.Frame.{HsfzFrame, diagnostic_frame}
use klartext.Hsfz.Reader.{ByteWriter}
use klartext.Client.Session.{
  request_in_flight, Answer, Delivery, final, PendingReq, Link, new_link, register, route_frame,
  drain, read_task, Event, delivered, wait, request_with_timeout,
}
use klartext.Client.Session.Routing.{Routed, route_frame-Routed, route_frame-other}
use klartext.Client.Session.Reading.{stream_of, read_task-stream_of}
use klartext.Client.Session.Invariant.{WellFormed}
use klartext.Client.Session.Interleaving.{
  Reachable, opened, after, registered, routed, Reachable-WellFormed,
}
use klartext.Client.Session.Waiting.{pendings, Released, wait_ends, request_releases}
use klartext.Examples.Frames.{
  vin_request, vin_request-IsWire, list_reader, list_reader-IsPrompt, list_reader-ended,
}

-- Requests of the service 0x22 to the ECUs 0x12 and 0x29.
abbrev two_waiters : Link (Unit {0})
two_waiters = (register 0x29 (0x22 ∷ []) (register 0x12 (0x22 ∷ []) (new_link {Io = Unit {0}})).1).1

-- The answer of the ECU 0x12.
abbrev vin_answer : HsfzFrame
vin_answer = diagnostic_frame 0x12 0xf4 (0x62 ∷ 0xf1 ∷ 0x90 ∷ 0x57 ∷ [])

answered :
    (route_frame two_waiters vin_answer).mail
    ≡ (0, final (ok (0x62 ∷ 0xf1 ∷ 0x90 ∷ 0x57 ∷ []))) ∷ []
unfolding route_frame register
answered = refl

route_frame-Routed_example : Routed two_waiters vin_answer (route_frame two_waiters vin_answer)
route_frame-Routed_example = route_frame-Routed two_waiters vin_answer

route_frame-other_example :
    ((route_frame two_waiters vin_answer).table 0x29 ≡ two_waiters.table 0x29)
    × ((route_frame two_waiters vin_answer).next_generation ≡ two_waiters.next_generation)
    × (new : List (ℕ × Delivery (Unit {0}))) × ((route_frame two_waiters vin_answer).mail
        ≡ two_waiters.mail ++ new)
    × All {A = ℕ × Delivery (Unit {0})}
        (λ m. (req : PendingReq) × (two_waiters.table 0x12 ≡ some req) × (m.0 ≡ req.generation))
        new
route_frame-other_example =
    route_frame-other two_waiters vin_answer 0x12 0xf4 0x29 refl (omega arith)

read_task-stream_of_example :
    read_task list_reader 1000 3 (stream_of (vin_request ∷ vin_request ∷ [])) two_waiters
    ≡ drain 256 (foldl route_frame two_waiters (vin_request ∷ vin_request ∷ []))
read_task-stream_of_example =
    read_task-stream_of list_reader 1000 list_reader-IsPrompt (list_reader-ended 1000)
      (vin_request ∷ vin_request ∷ []) (vin_request-IsWire, (vin_request-IsWire, tt)) 3
      (stream_of (vin_request ∷ vin_request ∷ [])) two_waiters (omega arith) refl

two_waiters-Reachable : Reachable (route_frame two_waiters vin_answer)
unfolding register
two_waiters-Reachable =
    after
      (after (after opened (registered 0x12 (0x22 ∷ []) (omega arith)))
        (registered 0x29 (0x22 ∷ []) (omega arith)))
      (routed vin_answer)

Reachable-WellFormed_example : WellFormed (route_frame two_waiters vin_answer)
Reachable-WellFormed_example = Reachable-WellFormed two_waiters-Reachable

wait_ends_example : (answer : Answer (Unit {0})) × (wait 2000 0 (pendings 11) ≡ some answer)
wait_ends_example = wait_ends 2000 (pendings 11) (omega arith)

-- A writer that keeps what is written.
abbrev list_writer : ByteWriter (Unit {0}) (List ℕ)
list_writer = record {
  write_all = λ w bs. (ok tt, w ++ bs);
  flush = λ w. (ok tt, w);
  written = λ w. w;
  write_all-ok = λ w bs w' e. sym (ap (λ p. p.1) e);
  flush-ok = λ w w' e. sym (ap (λ p. p.1) e);
}

abbrev answering : Link (Unit {0}) → Link (Unit {0}) × List (Event (Unit {0}))
answering link = (route_frame link vin_answer, delivered (final (ok (0x62 ∷ []))) ∷ [])

abbrev vin_requested : Option (Answer (Unit {0})) × Link (Unit {0}) × List ℕ
vin_requested =
    request_with_timeout list_writer 0xf4 0x12 (0x22 ∷ 0xf1 ∷ 0x90 ∷ []) 2000 answering new_link []

request_releases_example :
    ((vin_requested.0 ≡ some (err (request_in_flight 0x12)))
      × (vin_requested.2 ≡ [])
      × (vin_requested.1.table ≡ (new_link {Io = Unit {0}}).table)
      × ((new_link {Io = Unit {0}}).table 0x12 ≢ none))
    ⊎ (((new_link {Io = Unit {0}}).table 0x12 ≡ none) × Released 0x12 0 vin_requested.1)
request_releases_example =
    request_releases list_writer 0xf4 0x12 (0x22 ∷ 0xf1 ∷ 0x90 ∷ []) 2000 answering new_link []
