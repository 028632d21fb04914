-- ===== src/Client/Session.antt =====
-- crates/client/src/session.rs: requests to several ECUs over one connection. The table of pending
-- requests, behind its lock, and the channels are one state, `Link`; a request's channel is named
-- by its generation, and `mail` holds all that was sent on the channels, in order.
pub mod Routing
pub mod Reading
pub mod Invariant
pub mod Interleaving
pub mod Waiting
use klartext.Prelude.{
  ℕ, zero, suc, ◌+◌, ◌%◌, ◌^◌, Bool, true, false, List, [], ◌∷◌, ◌++◌, Option, none, some,
  get_elem?, ltb, ◌==◌, if◌then◌else◌, Result, ok, err, panic,
}
use klartext.Uds.Nrc.{Nrc, from}
use klartext.Uds.Sid.{positive_response_sid, negative_response, nrc_response_pending}
use klartext.Uds.Response.{UdsError}
use klartext.Hsfz.Frame.{Error, read_timeout, diagnostic, diagnostic_frame, HsfzFrame}
use klartext.Hsfz.Reader.{ByteReader, ByteWriter, read_frame, write_frame}

-- `ClientError` of crates/client/src/error.rs.
pub data ClientError (Io : Type 0) : Type 0 where
  hsfz : Error Io → ClientError Io
  uds : UdsError → ClientError Io
  negative : (sid : ℕ) → (nrc : Nrc) → ClientError Io
  no_link_local_interface : ClientError Io
  no_gateway_found : (bind_ip : ℕ) → ClientError Io
  ambiguous_gateway : (count : ℕ) → ClientError Io
  no_measurement_read : ClientError Io
  unexpected_did : (requested got : ℕ) → ClientError Io
  connection_closed : ClientError Io
  request_in_flight : (target : ℕ) → ClientError Io

abbrev pub max_pending_ticks : ℕ
max_pending_ticks = 10

abbrev pub Answer : Type 0 → Type 0
Answer Io = Result (ClientError Io) (List ℕ)

pub data Delivery (Io : Type 0) : Type 0 where
  final : Answer Io → Delivery Io
  pending : Delivery Io

pub record PendingReq : Type 0 where
  pub request_sid : ℕ
  pub generation : ℕ

-- The table is keyed by the ECU's address, one byte.
pub record Link (Io : Type 0) : Type 0 where
  pub table : ℕ → Option PendingReq
  pub mail : List (ℕ × Delivery Io)
  pub next_generation : ℕ

abbrev pub new_link : {Io : Type 0} → Link Io
new_link = record { table = λ t. none; mail = []; next_generation = 0 }

abbrev pub update : ℕ → Option PendingReq → (ℕ → Option PendingReq) → ℕ → Option PendingReq
update target slot table t = if t == target then slot else table t

-- `bytes.get(i).copied().unwrap_or_default()`
abbrev pub byte_or_zero : List ℕ → ℕ → ℕ
byte_or_zero bytes i = elim (get_elem? bytes i) [ none ↦ 0 | some b ↦ b ]

abbrev pub is_byte : Option ℕ → ℕ → Bool
is_byte none n = false
is_byte (some b) n = b == n

-- `req.tx.send(delivery)`
unfoldable pub send : {Io : Type 0} → PendingReq → Delivery Io → Link Io → Link Io
send req delivery link = record link { mail = link.mail ++ (req.generation, delivery) ∷ [] }

-- `map.remove(&target)` and the final delivery on the channel of what it held.
unfoldable pub conclude : {Io : Type 0} → ℕ → PendingReq → Answer Io → Link Io → Link Io
unfolding send
conclude target req answer link =
    send req (final answer) (record link { table = update target none link.table })

-- The `match` of `route_frame` on the payload, with the waiter found.
unfoldable pub route_payload : {Io : Type 0} → Link Io → ℕ → PendingReq → List ℕ → Link Io
unfolding conclude send
route_payload link src req payload = elim (get_elem? payload 0) [
  | none ↦ link
  | some byte ↦
      if byte == positive_response_sid req.request_sid
      then conclude src req (ok payload) link
      else if byte == negative_response
      then (if is_byte (get_elem? payload 1) req.request_sid
          then (if byte_or_zero payload 2 == nrc_response_pending
              then send req pending link
              else conclude src req (err (negative req.request_sid (from (byte_or_zero payload 2))))
                  link)
          else link)
      else link
]

unfoldable pub route_frame : {Io : Type 0} → Link Io → HsfzFrame → Link Io
unfolding route_payload
route_frame link frame =
    if frame.control == diagnostic
    then elim frame.addr [
      | none ↦ link
      | some ends ↦ elim (link.table ends.0) [
        | none ↦ link
        | some req ↦ route_payload link ends.0 req frame.payload
      ]
    ]
    else link

-- `drop` of the `SlotGuard` of the request `generation` to `target`.
unfoldable pub drop_guard : {Io : Type 0} → ℕ → ℕ → Link Io → Link Io
drop_guard target generation link = elim (link.table target) [
  | none ↦ link
  | some req ↦
      if req.generation == generation
      then record link { table = update target none link.table }
      else link
]

-- The first part of `request_with_timeout`: a new generation, and the slot unless it is taken.
unfoldable pub register : {Io : Type 0} → ℕ → List ℕ → Link Io → Result (ClientError Io) ℕ × Link Io
register target request link =
    let counted : Link _ = record link { next_generation = (link.next_generation + 1) % 2 ^ 64 } in
    elim (link.table target) [
      | none ↦ (
        ok link.next_generation,
        record counted {
          table =
              update target
                (some (record {
                  request_sid = byte_or_zero request 0;
                  generation = link.next_generation;
                }))
                link.table;
        },
      )
      | some req ↦ (err (request_in_flight target), counted)
    ]

-- What one `timeout(timeout, rx.recv())` answers.
pub data Event (Io : Type 0) : Type 0 where
  delivered : Delivery Io → Event Io
  closed elapsed : Event Io

-- The loop that waits, over what its turns see; `none` while the events have not ended it.
unfoldable pub wait : {Io : Type 0} → (timeout ticks : ℕ) → List (Event Io) → Option (Answer Io)
wait timeout ticks [] = none
wait timeout ticks (delivered (final result) ∷ events) = some result
wait timeout ticks (delivered pending ∷ events) =
    let rest = wait timeout (ticks + 1) events in
    if ltb max_pending_ticks (ticks + 1) then some (err (hsfz (read_timeout timeout))) else rest
wait timeout ticks (closed ∷ events) = some (err connection_closed)
wait timeout ticks (elapsed ∷ events) = some (err (hsfz (read_timeout timeout)))

-- `request_with_timeout`. `meanwhile` is what the other tasks do to the link while the request
-- waits, and the events it sees; the answer is `none` when the future is dropped while it waits.
unfoldable pub request_with_timeout :
    {Io W : Type 0}
    → ByteWriter Io W
    → (source target : ℕ) → List ℕ
    → (timeout : ℕ) → (Link Io → Link Io × List (Event Io))
    → Link Io
    → W
    → Option (Answer Io) × Link Io × W
unfolding register drop_guard wait
request_with_timeout writer source target request timeout meanwhile link w =
    let slot = register target request link in
    elim slot.0 [
      | err e ↦ (some (err e), slot.1, w)
      | panic ↦ (some panic, slot.1, w)
      | ok generation ↦
          let wrote = write_frame writer (diagnostic_frame source target request) w in
          elim wrote.0 [
            | err e ↦ (some (err (hsfz e)), drop_guard target generation slot.1, wrote.1)
            | panic ↦ (some panic, drop_guard target generation slot.1, wrote.1)
            | ok u ↦
                let world = meanwhile slot.1 in
                (wait timeout 0 world.1, drop_guard target generation world.0, wrote.1)
          ]
    ]

-- The end of the reader task: every waiter below the address `n` is told that the connection is
-- closed, and its slot is drained.
unfoldable pub drain : {Io : Type 0} → ℕ → Link Io → Link Io
unfolding conclude
drain zero link = link
drain (suc n) link =
    let told : Link _ = elim (link.table n) [
      | none ↦ link
      | some req ↦ conclude n req (err connection_closed) link
    ] in
    drain n told

-- The reader task, on fuel: it routes frames until a read fails.
unfoldable pub read_task : {Io R : Type 0} → ByteReader Io R → ℕ → ℕ → R → Link Io → Link Io
unfolding drain route_frame
read_task reader cap zero r link = link
read_task reader cap (suc fuel) r link =
    let next = read_frame reader cap r in
    elim next.0 [
      | ok frame ↦ read_task reader cap fuel next.1 (route_frame link frame)
      | err e ↦ drain 256 link
      | panic ↦ drain 256 link
    ]
