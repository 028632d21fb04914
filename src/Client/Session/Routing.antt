-- ===== src/Client/Session/Routing.antt =====
-- crates/client/src/session.rs: where the reader's frames go.
use klartext.Prelude.{
  subst, some-injective, ℕ, ◌≡◌, ◌≢◌, refl, sym, ap, ◌∙◌, inl, inr, true, false, Bool-cases,
  Option-cases, List, [], ◌∷◌, ◌++◌, append-nil, Option, none, some, get_elem?, All, ◌==◌, ==_iff,
  ne→==, if◌then◌else◌, ok, err, arith,
}
use klartext.Uds.Nrc.{from}
use klartext.Uds.Sid.{positive_response_sid, negative_response, nrc_response_pending}
use klartext.Hsfz.Frame.{diagnostic, HsfzFrame}
use klartext.Client.Session.{
  Answer, negative, Delivery, final, pending, PendingReq, Link, byte_or_zero, is_byte, send,
  conclude, route_payload, route_frame,
}

-- What a frame does, by the frame and the waiter at the address it comes from.
pub data Routed {Io : Type 0} (link : Link Io) (frame : HsfzFrame) : Link Io → Type 0 where
  no_diagnostic : frame.control ≢ diagnostic → Routed link frame link
  no_addresses : frame.addr ≡ none → Routed link frame link
  no_waiter :
      (src tgt : ℕ) → frame.addr ≡ some (src, tgt) → link.table src ≡ none → Routed link frame link
  positive :
      (src tgt : ℕ) (req : PendingReq)
      → frame.control ≡ diagnostic
      → frame.addr ≡ some (src, tgt)
      → link.table src ≡ some req
      → get_elem? frame.payload 0 ≡ some (positive_response_sid req.request_sid)
      → Routed link frame (conclude src req (ok frame.payload) link)
  still_pending :
      (src tgt : ℕ) (req : PendingReq)
      → frame.control ≡ diagnostic
      → frame.addr ≡ some (src, tgt)
      → link.table src ≡ some req
      → get_elem? frame.payload 0 ≡ some negative_response
      → get_elem? frame.payload 1 ≡ some req.request_sid
      → byte_or_zero frame.payload 2 ≡ nrc_response_pending
      → Routed link frame (send req pending link)
  rejected :
      (src tgt : ℕ) (req : PendingReq)
      → frame.control ≡ diagnostic
      → frame.addr ≡ some (src, tgt)
      → link.table src ≡ some req
      → get_elem? frame.payload 0 ≡ some negative_response
      → get_elem? frame.payload 1 ≡ some req.request_sid
      → byte_or_zero frame.payload 2 ≢ nrc_response_pending
      → Routed link frame (
          conclude src req
            (err (negative req.request_sid (from (byte_or_zero frame.payload 2))))
            link)
  stray :
      (src tgt : ℕ) (req : PendingReq)
      → frame.addr ≡ some (src, tgt)
      → link.table src ≡ some req
      → get_elem? frame.payload 0 ≢ some (positive_response_sid req.request_sid)
      → ¬ (
          (get_elem? frame.payload 0 ≡ some negative_response)
          × (get_elem? frame.payload 1 ≡ some req.request_sid))
      → Routed link frame link

is_byte_iff : (o : Option ℕ) (n : ℕ) → (is_byte o n ≡ true) → o ≡ some n
is_byte_iff none n h = absurd (cc h)
is_byte_iff (some b) n h = ap some ((==_iff b n).0 h)

is_byte_not : (o : Option ℕ) (n : ℕ) → (is_byte o n ≡ false) → o ≢ some n
is_byte_not none n h = λ e. cc e
is_byte_not (some b) n h = λ e. ground (arith, h, e)

other : (a b : ℕ) → (a == b) ≡ false → some a ≢ some b
other a b h = λ e. ground (arith, h, e)

module _ {Io : Type 0} (link : Link Io) (frame : HsfzFrame) (src tgt : ℕ) (req : PendingReq)
    (dia : frame.control ≡ diagnostic) (addressed : frame.addr ≡ some (src, tgt))
    (waiter : link.table src ≡ some req) where
  -- The part of the `match` on a negative response.
  negative_part :
      get_elem? frame.payload 0 ≡ some negative_response
      → get_elem? frame.payload 0 ≢ some (positive_response_sid req.request_sid)
      → Routed link frame (
          if is_byte (get_elem? frame.payload 1) req.request_sid
          then (if byte_or_zero frame.payload 2 == nrc_response_pending
              then send req pending link
              else conclude src req
                  (err (negative req.request_sid (from (byte_or_zero frame.payload 2))))
                  link)
          else link)
  negative_part neg no_positive =
      elim (Bool-cases (is_byte (get_elem? frame.payload 1) req.request_sid)) [
        | inl own ↦
            let echo = is_byte_iff _ _ own in
            elim (Bool-cases (byte_or_zero frame.payload 2 == nrc_response_pending)) [
              | inl later ↦
                  rw (own, later)
                    (still_pending src tgt req dia addressed waiter neg echo ((==_iff _ _).0 later))
              | inr now ↦
                  rw (own, now) (rejected src tgt req dia addressed waiter neg echo (ground arith))
            ]
        | inr foreign ↦
            rw foreign
              (stray src tgt req addressed waiter no_positive (λ q. is_byte_not _ _ foreign q.1))
      ]

  route_payload-Routed : Routed link frame (route_payload link src req frame.payload)
  unfolding route_payload
  route_payload-Routed = elim (Option-cases (get_elem? frame.payload 0)) [
    | inl empty ↦
        rw (empty, route_payload)
          (stray src tgt req addressed waiter (λ e. cc (empty, e)) (λ e. cc (empty, e.0)))
    | inr (byte, e) ↦ elim (Bool-cases (byte == positive_response_sid req.request_sid)) [
      | inl yes_positive ↦
          rw (e, yes_positive, route_payload)
            (positive src tgt req dia addressed waiter (e ∙ ap some ((==_iff _ _).0 yes_positive)))
      | inr no_positive ↦ elim (Bool-cases (byte == negative_response)) [
        | inl yes_negative ↦
            rw (e, no_positive, yes_negative, route_payload)
              (negative_part (e ∙ ap some ((==_iff _ _).0 yes_negative))
                (λ q. other byte _ no_positive (sym e ∙ q)))
        | inr no_negative ↦
            rw (e, no_positive, no_negative, route_payload)
              (stray src tgt req addressed waiter (λ q. other byte _ no_positive (sym e ∙ q))
                (λ q. other byte _ no_negative (sym e ∙ q.0)))
      ]
    ]
  ]

-- Each frame is routed in one of seven ways, as `Routed` lists them: only a diagnostic frame whose
-- source address has a waiter does anything, and then only to that waiter: its positive response
-- and its own negative response conclude it, "response pending" keeps it waiting, and all else,
-- the negative response to another service included, is dropped.
pub route_frame-Routed :
    {Io : Type 0} (link : Link Io) (frame : HsfzFrame) → Routed link frame (route_frame link frame)
unfolding route_frame
route_frame-Routed {Io} link frame = elim (Bool-cases (frame.control == diagnostic)) [
  | inl yes_diagnostic ↦
      let dia : frame.control ≡ diagnostic = (==_iff _ _).0 yes_diagnostic in
      elim (Option-cases frame.addr) [
        | inl bare ↦ becomes (rw (yes_diagnostic, bare, route_frame) refl) (no_addresses bare)
        | inr ((src, tgt), addressed) ↦ elim (Option-cases (link.table src)) [
          | inl vacant ↦
              becomes (rw (yes_diagnostic, addressed, vacant, route_frame) refl)
                (no_waiter src tgt addressed vacant)
          | inr (req, waiter) ↦
              becomes (rw (yes_diagnostic, addressed, waiter, route_frame) refl)
                (route_payload-Routed link frame src tgt req dia addressed waiter)
        ]
      ]
  | inr no_diagnostic_word ↦
      becomes (rw (no_diagnostic_word, route_frame) refl)
        (no_diagnostic (λ e. ground (arith, no_diagnostic_word, e)))
]
  where
    becomes :
        {after : Link Io}
        → route_frame link frame ≡ after
        → Routed link frame after
        → Routed link frame (route_frame link frame)
    becomes e routed = subst (λ l. Routed link frame l) (sym e) routed

-- No frame touches the slot of any address but the one that it comes from, and none sends anything
-- on a channel but that of the waiter there.
pub route_frame-other :
    {Io : Type 0} (link : Link Io) (frame : HsfzFrame) (src tgt other_address : ℕ)
    → frame.addr ≡ some (src, tgt)
    → other_address ≢ src
    → ((route_frame link frame).table other_address ≡ link.table other_address)
      × ((route_frame link frame).next_generation ≡ link.next_generation)
      × (new : List (ℕ × Delivery Io)) × ((route_frame link frame).mail ≡ link.mail ++ new)
      × All {A = ℕ × Delivery Io}
          (λ m. (req : PendingReq) × (link.table src ≡ some req) × (m.0 ≡ req.generation))
          new
unfolding conclude send
route_frame-other {Io} link frame src tgt t addressed far =
    unchanged (route_frame-Routed link frame)
  where
    apart : (src' tgt' : ℕ) → frame.addr ≡ some (src', tgt') → src' ≡ src
    apart src' tgt' e = ap (λ p. p.0) (some-injective _ _ (sym e ∙ addressed))

    Untouched : Link Io → Type 0
    Untouched after =
        (after.table t ≡ link.table t)
        × (after.next_generation ≡ link.next_generation)
        × (new : List (ℕ × Delivery Io)) × (after.mail ≡ link.mail ++ new)
        × All {A = ℕ × Delivery Io}
            (λ m. (req : PendingReq) × (link.table src ≡ some req) × (m.0 ≡ req.generation)) new

    still : Untouched link
    still = (refl, refl, [], sym (append-nil link.mail), tt)

    waits :
        (src' tgt' : ℕ) (req : PendingReq) (delivery : Delivery Io)
        → frame.addr ≡ some (src', tgt')
        → link.table src' ≡ some req
        → All {A = ℕ × Delivery Io}
            (λ m. (r : PendingReq) × (link.table src ≡ some r) × (m.0 ≡ r.generation))
            ((req.generation, delivery) ∷ [])
    waits src' tgt' req delivery e waiter =
        ((req, subst (λ a. link.table a ≡ some req) (apart src' tgt' e) waiter, refl), tt)

    concluded :
        (src' tgt' : ℕ) (req : PendingReq) (answer : Answer Io)
        → frame.addr ≡ some (src', tgt')
        → link.table src' ≡ some req
        → Untouched (conclude src' req answer link)
    concluded src' tgt' req answer e waiter = (
      rw (ne→== t src' (λ q. far (q ∙ apart src' tgt' e))) refl,
      refl,
      (req.generation, final answer) ∷ [],
      refl,
      waits src' tgt' req (final answer) e waiter,
    )

    unchanged : {after : Link Io} → Routed link frame after → Untouched after
    unchanged (no_diagnostic _) = still
    unchanged (no_addresses _) = still
    unchanged (no_waiter _ _ _ _) = still
    unchanged (positive src' tgt' req _ e waiter _) = concluded src' tgt' req _ e waiter
    unchanged (still_pending src' tgt' req _ e waiter _ _ _) =
        (refl, refl, (req.generation, pending) ∷ [], refl, waits src' tgt' req pending e waiter)
    unchanged (rejected src' tgt' req _ e waiter _ _ _) = concluded src' tgt' req _ e waiter
    unchanged (stray _ _ _ _ _ _ _) = still
