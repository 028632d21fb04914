-- ===== src/Client/Session/Waiting.antt =====
-- crates/client/src/session.rs: how long a request waits, and what it leaves behind.
use klartext.Prelude.{
  ℕ, zero, suc, ◌+◌, ◌≤◌, ◌≡◌, ◌≢◌, refl, ap, ◌∙◌, ◌⊎◌, inl, inr, Bool-cases, Option-cases, List,
  [], ◌∷◌, ◌++◌, Option, none, some, length, ltb, le→ltb, ◌==◌, if◌then◌else◌, err, Result-cases,
  arith, ==_refl,
}
use klartext.Hsfz.Frame.{read_timeout, diagnostic_frame}
use klartext.Hsfz.Reader.{ByteWriter, write_frame}
use klartext.Client.Session.{
  hsfz, request_in_flight, max_pending_ticks, Answer, final, pending, PendingReq, Link, register,
  drop_guard, Event, delivered, closed, elapsed, wait, request_with_timeout,
}

-- `k` answers "response pending".
abbrev pub pendings : {Io : Type 0} → ℕ → List (Event Io)
pendings zero = []
pendings (suc k) = delivered pending ∷ pendings k

module _ {Io : Type 0} (timeout : ℕ) where
  wait-pendings :
      (ticks k : ℕ) (events : List (Event Io))
      → ticks + k ≤ 10
      → wait timeout ticks (pendings k ++ events) ≡ wait timeout (ticks + k) events
  unfolding wait
  wait-pendings ticks zero events h = ap (λ n. wait timeout n events) (omega arith)
  wait-pendings ticks (suc k) events h = rw (le→ltb max_pending_ticks (ticks + 1) (omega arith)) (
      wait-pendings (ticks + 1) k events (omega arith)
      ∙ ap (λ n. wait timeout n events) (omega arith))

  wait-too_many :
      (ticks k : ℕ) (events : List (Event Io))
      → ticks ≤ 10
      → 11 ≤ ticks + k
      → wait timeout ticks (pendings k ++ events) ≡ some (err (hsfz (read_timeout timeout)))
  unfolding wait
  wait-too_many ticks zero events h g = absurd (omega arith)
  wait-too_many ticks (suc k) events h g = elim (Bool-cases (ltb max_pending_ticks (ticks + 1))) [
    | inl over ↦ rw over refl
    | inr under ↦ rw under (wait-too_many (ticks + 1) k events (ground arith) (omega arith))
  ]

  -- A request that sees `k` answers "response pending" and then a final one yields the final one
  -- when `k` is at most ten, and the timeout error when it is more.
  pub wait-final :
      (k : ℕ) (answer : Answer Io) (events : List (Event Io))
      → wait timeout 0 (pendings k ++ delivered (final answer) ∷ events)
        ≡ some (if ltb 10 k then err (hsfz (read_timeout timeout)) else answer)
  unfolding wait
  wait-final k answer events = elim (Bool-cases (ltb 10 k)) [
    | inl over ↦
        rw over (wait-too_many 0 k (delivered (final answer) ∷ events) (omega arith) (ground arith))
    | inr under ↦ rw under (wait-pendings 0 k (delivered (final answer) ∷ events) (ground arith))
  ]

  wait_ends_from :
      (ticks : ℕ) (events : List (Event Io))
      → ticks ≤ 10
      → 11 ≤ ticks + length events
      → (answer : Answer Io) × (wait timeout ticks events ≡ some answer)
  unfolding wait
  wait_ends_from ticks [] h g = absurd (omega arith)
  wait_ends_from ticks (delivered (final a) ∷ events) h g = (a, refl)
  wait_ends_from ticks (delivered pending ∷ events) h g =
      elim (Bool-cases (ltb max_pending_ticks (ticks + 1))) [
        | inl over ↦ rw over (_, refl)
        | inr under ↦ rw under (wait_ends_from (ticks + 1) events (ground arith) (omega arith))
      ]
  wait_ends_from ticks (closed ∷ events) h g = (_, refl)
  wait_ends_from ticks (elapsed ∷ events) h g = (_, refl)

  -- Whatever arrives, a request has its answer after eleven turns of the loop, each of which takes
  -- no longer than the timeout.
  pub wait_ends :
      (events : List (Event Io))
      → 11 ≤ length events
      → (answer : Answer Io) × (wait timeout 0 events ≡ some answer)
  wait_ends events h = wait_ends_from 0 events (omega arith) (omega arith)

-- No slot of the target carries the generation.
abbrev pub Released : {Io : Type 0} → ℕ → ℕ → Link Io → Type 0
Released target generation link =
    (req : PendingReq) → link.table target ≡ some req → req.generation ≢ generation

drop_guard-Released :
    {Io : Type 0} (target generation : ℕ) (link : Link Io)
    → Released target generation (drop_guard target generation link)
unfolding drop_guard
drop_guard-Released target generation link = elim (Option-cases (link.table target)) [
  | inl vacant ↦ rw (vacant, drop_guard) (λ req h same. cc h)
  | inr (held, e) ↦ elim (Bool-cases (held.generation == generation)) [
    | inl own ↦ rw (e, own, drop_guard, ==_refl target) (λ req h same. cc h)
    | inr newer ↦ rw (e, newer, drop_guard) (λ req h same. ground (arith, h, same))
  ]
]

register-taken :
    {Io : Type 0} (target : ℕ) (request : List ℕ) (link : Link Io) (held : PendingReq)
    → link.table target ≡ some held
    → (register target request link).1.table ≡ link.table
unfolding register
register-taken target request link held e = rw (e, register) refl

module _ {Io W : Type 0} (writer : ByteWriter Io W) (source target : ℕ) (request : List ℕ)
    (timeout : ℕ) (meanwhile : Link Io → Link Io × List (Event Io)) (link : Link Io) (w : W) where
  abbrev requested : Option (Answer Io) × Link Io × W
  requested = request_with_timeout writer source target request timeout meanwhile link w

  -- A request to a target with a request in flight is refused, writes nothing and leaves the table
  -- as it is. Any other request, on every way out and whatever the other tasks do meanwhile, leaves
  -- no slot of its own behind.
  pub request_releases :
      ((requested.0 ≡ some (err (request_in_flight target)))
        × (requested.2 ≡ w)
        × (requested.1.table ≡ link.table)
        × (link.table target ≢ none))
      ⊎ ((link.table target ≡ none) × Released target link.next_generation requested.1)
  unfolding request_with_timeout register
  request_releases = elim (Option-cases (link.table target)) [
    | inl vacant ↦
        elim (Result-cases (write_frame writer (diagnostic_frame source target request) w).0) [
          | inl (u, wrote) ↦
              rw (vacant, wrote, request_with_timeout)
                (inr (
                  refl,
                  drop_guard-Released target link.next_generation
                      (meanwhile (register target request link).1).0,
                ))
          | inr (inl (e, wrote)) ↦
              rw (vacant, wrote, request_with_timeout)
                (inr (
                  refl,
                  drop_guard-Released target link.next_generation (register target request link).1,
                ))
          | inr (inr wrote) ↦
              rw (vacant, wrote, request_with_timeout)
                (inr (
                  refl,
                  drop_guard-Released target link.next_generation (register target request link).1,
                ))
        ]
    | inr (held, e) ↦
        rw (e, request_with_timeout)
          (inl (refl, refl, register-taken target request link held e, λ h. cc h))
  ]
