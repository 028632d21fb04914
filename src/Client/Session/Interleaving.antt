-- ===== src/Client/Session/Interleaving.antt =====
-- crates/client/src/session.rs: the interleavings of the requests, their guards and the reader task.
use klartext.Prelude.{ℕ, ◌+◌, ◌^◌, ◌<◌, refl, List, arith}
use klartext.Hsfz.Frame.{HsfzFrame}
use klartext.Client.Session.{Link, new_link, route_frame, register, drop_guard, drain}
use klartext.Client.Session.Invariant.{
  WellFormed, WellFormed-register, WellFormed-route_frame, WellFormed-drop_guard, WellFormed-drain,
}

-- What the tasks do to the link, one step at a time: a request registers, of fewer than 2 ^ 64 in
-- the session, the reader routes a frame, a guard is dropped, and the reader ends.
pub data Step {Io : Type 0} (link : Link Io) : Link Io → Type 0 where
  registered :
      (target : ℕ) (request : List ℕ)
      → link.next_generation + 1 < 2 ^ 64
      → Step link (register target request link).1
  routed : (frame : HsfzFrame) → Step link (route_frame link frame)
  dropped : (target generation : ℕ) → Step link (drop_guard target generation link)
  ended : Step link (drain 256 link)

pub data Reachable {Io : Type 0} : Link Io → Type 0 where
  opened : Reachable new_link
  after : {link link' : Link Io} → Reachable link → Step link link' → Reachable link'

-- Under every interleaving of registrations, frames, dropped guards and the end of the reader, two
-- waiters never share a generation, a request that still has a slot has had no final delivery, and
-- no request gets more than one.
pub Reachable-WellFormed : {Io : Type 0} {link : Link Io} → Reachable link → WellFormed link
Reachable-WellFormed opened = record {
  issued = λ t req e. absurd (cc e);
  unanswered = λ t req e. refl;
  distinct = λ t u a b e f same. absurd (cc e);
  single = λ g. omega arith;
  unborn = λ g h. refl;
}
Reachable-WellFormed (after {link = link} r (registered target request less)) =
    WellFormed-register link (Reachable-WellFormed r) less target request
Reachable-WellFormed (after {link = link} r (routed frame)) =
    WellFormed-route_frame link (Reachable-WellFormed r) frame
Reachable-WellFormed (after {link = link} r (dropped target generation)) =
    WellFormed-drop_guard link (Reachable-WellFormed r) target generation
Reachable-WellFormed (after {link = link} r ended) =
    WellFormed-drain 256 link (Reachable-WellFormed r)
