-- ===== src/Best/Bridge/Safety.antt =====
-- crates/best/src/gate.rs over crates/best/src/bridge.rs: what reaches the transport.
use klartext.Prelude.{
  subst, some-injective, ℕ, ◌≤◌, ◌<◌, ◌≡◌, refl, sym, ◌∙◌, inl, inr, Bool-cases, List, [], ◌∷◌,
  ◌++◌, All, All-append, some, Option-cases, arith, length, ◌==◌, ==_iff, ==_refl, if◌then◌else◌,
  Result, ok, err, map_ok, Result-cases,
}
use klartext.Best.Telegram.{Telegram, TelegramError, encode, decode, decode_request, peek_sid}
use klartext.Best.Telegram.RoundTrip.{decode-encode}
use klartext.Best.Telegram.Safety.{
  peek_sid-decode_request, decode_request-decode, decode_request-ne-panic,
}
use klartext.Best.Exchange.{ExchangeError, unexpected, refused, UdsExchange}
use klartext.Best.Gate.{Policy, gated_request}
use klartext.Best.Gate.Safety.{
  Permits, Admission, Admission-delegate, Admission-refuse, delegated, rejected,
  gated_request-Admission, gated_request_blind,
}
use klartext.Best.Bridge.{BareUdsTransport, telegram_request}

-- A call of the transport: the ECU's address and the bare bytes.
abbrev pub Call : Type 0
Call = ℕ × List ℕ

-- The transport with a list of the calls that reached it.
abbrev pub recorded : {S : Type 0} → BareUdsTransport S → BareUdsTransport (List Call × S)
recorded call (calls, s) target uds =
    let answer = call s target uds in (answer.0, (calls ++ (target, uds) ∷ [], answer.1))

-- The bytes of a call are none, or they start with a service that the policy permits.
abbrev pub CallPermitted : Policy → Call → Type 0
CallPermitted policy (target, []) = Unit
CallPermitted policy (target, sid ∷ rest) = Permits policy sid

-- The answer of the bridge once the request telegram is decoded.
pub telegram_request-ok :
    {S : Type 0} (call : BareUdsTransport S) (s : S) (target : ℕ) (frame : List ℕ) (tel : Telegram)
    → decode_request frame ≡ ok tel
    → telegram_request call s target frame ≡ (
        if tel.target == target
        then (map_ok (encode 0xf1 target) (call s target tel.uds).0, (call s target tel.uds).1)
        else (err (unexpected frame), s))
unfolding telegram_request
telegram_request-ok call s target frame tel e = rw (e, telegram_request)

pub telegram_request-err :
    {S : Type 0} (call : BareUdsTransport S) (s : S) (target : ℕ) (frame : List ℕ)
    {x : TelegramError}
    → decode_request frame ≡ err x
    → telegram_request call s target frame ≡ (err (unexpected frame), s)
unfolding telegram_request
telegram_request-err call s target frame e = rw (e, telegram_request)

-- The bridge makes one call at most, with the telegram's own payload and to its own address.
pub data Forwarded (calls : List Call) (target : ℕ) (frame : List ℕ) : List Call → Type 0 where
  kept : {after : List Call} → after ≡ calls → Forwarded calls target frame after
  called :
      {after : List Call} (tel : Telegram)
      → decode_request frame ≡ ok tel
      → tel.target ≡ target
      → after ≡ calls ++ (target, tel.uds) ∷ []
      → Forwarded calls target frame after

module _ {S : Type 0} (call : BareUdsTransport S) (policy : Policy) where
  pub telegram_request-Forwarded :
      (calls : List Call) (s : S) (target : ℕ) (frame : List ℕ)
      → Forwarded calls target frame (telegram_request (recorded call) (calls, s) target frame).1.0
  telegram_request-Forwarded calls s target frame = elim (Result-cases (decode_request frame)) [
    | inl (tel, e) ↦ elim (Bool-cases (tel.target == target)) [
      | inl same ↦
          called tel e ((==_iff tel.target target).0 same)
            (rw (telegram_request-ok (recorded call) (calls, s) target frame tel e, same))
      | inr other ↦
          kept (rw (telegram_request-ok (recorded call) (calls, s) target frame tel e, other))
    ]
    | inr (inl (x, e)) ↦ kept (rw (telegram_request-err (recorded call) (calls, s) target frame e))
    | inr (inr e) ↦ absurd (decode_request-ne-panic frame e)
  ]

  -- A call whose telegram passed the gate carries a permitted payload.
  forwarded-permitted :
      (target : ℕ) (frame : List ℕ) (tel : Telegram) (sid : ℕ)
      → peek_sid frame ≡ some sid
      → Permits policy sid
      → decode_request frame ≡ ok tel
      → (uds : List ℕ) → tel.uds ≡ uds
      → CallPermitted policy (target, uds)
  forwarded-permitted target frame tel sid peek permit e [] u = tt
  forwarded-permitted target frame tel sid peek permit e (b ∷ rest) u =
      subst (Permits policy)
        (some-injective sid b (sym peek ∙ peek_sid-decode_request frame tel b rest e u)) permit

  Forwarded-permitted :
      (calls : List Call) (target : ℕ) (frame : List ℕ) (sid : ℕ) (after : List Call)
      → peek_sid frame ≡ some sid
      → Permits policy sid
      → Forwarded calls target frame after
      → All (CallPermitted policy) calls
      → All (CallPermitted policy) after
  Forwarded-permitted calls target frame sid after peek permit (kept e) h = rw e h
  Forwarded-permitted calls target frame sid after peek permit (called tel d _ e) h = rw e (
      All-append (CallPermitted policy) calls _ h
        (forwarded-permitted target frame tel sid peek permit d tel.uds refl, tt))

  admitted-permitted :
      (calls : List Call) (s : S) (target : ℕ) (frame : List ℕ) (sid : ℕ)
      (answer : Result ExchangeError (List ℕ) × (List Call × S))
      → peek_sid frame ≡ some sid
      → Admission
          (telegram_request (recorded call) (calls, s) target frame)
          (err (refused sid frame), (calls, s))
          policy
          sid
          answer
      → All (CallPermitted policy) calls
      → All (CallPermitted policy) answer.1.0
  admitted-permitted calls s target frame sid answer peek (delegated permit e) h = rw e (
      Forwarded-permitted calls target frame sid _ peek permit
        (telegram_request-Forwarded calls s target frame) h)
  admitted-permitted calls s target frame sid answer peek (rejected _ e) h = rw e h

-- The live stack: the gate over the bridge over the transport.
unfoldable pub live : {S : Type 0} → BareUdsTransport S → Policy → UdsExchange (List Call × S)
live call = gated_request (telegram_request (recorded call))

-- The telegrams of a job, sent one after the other.
unfoldable pub send_all : {S : Type 0} → UdsExchange S → S → List (ℕ × List ℕ) → S
send_all exchange s [] = s
send_all exchange s ((target, frame) ∷ rest) = send_all exchange (exchange s target frame).1 rest

module _ {S : Type 0} (call : BareUdsTransport S) (policy : Policy) where
  live-permitted :
      (calls : List Call) (s : S) (target : ℕ) (frame : List ℕ)
      → All (CallPermitted policy) calls
      → All (CallPermitted policy) (live call policy (calls, s) target frame).1.0
  unfolding live
  live-permitted calls s target frame h = elim (Option-cases (peek_sid frame)) [
    | inl e ↦ rw (gated_request_blind {S = List Call × S} _ policy (calls, s) target frame e) h
    | inr (sid, e) ↦
        admitted-permitted call policy calls s target frame sid _ e
          (gated_request-Admission {S = List Call × S} _ policy (calls, s) target frame sid e) h
  ]

  send_all-permitted :
      (frames : List (ℕ × List ℕ)) (calls : List Call) (s : S)
      → All (CallPermitted policy) calls
      → All (CallPermitted policy) (send_all (live call policy) (calls, s) frames).0
  unfolding send_all
  send_all-permitted [] calls s h = h
  send_all-permitted ((target, frame) ∷ rest) calls s h =
      send_all-permitted rest _ _ (live-permitted calls s target frame h)

  -- Whatever telegrams a job sends, well formed or not, each call that reaches the transport is
  -- empty or starts with a service byte that the policy permits.
  pub send_all_safe :
      (s : S) (frames : List (ℕ × List ℕ))
      → All (CallPermitted policy) (send_all (live call policy) ([], s) frames).0
  send_all_safe s frames = send_all-permitted frames [] s tt

-- A well-formed telegram of a permitted service makes one call, with the bare bytes, and the
-- transport's answer of 1 to 65535 bytes comes back in a telegram that decodes to it, addressed
-- from the ECU to the tester, 0xf1.
pub live-encode :
    {S : Type 0} (call : BareUdsTransport S) (policy : Policy) (calls : List Call) (s s' : S)
    (target sid : ℕ) (rest response : List ℕ)
    → Permits policy sid
    → length (sid ∷ rest) ≤ 65535
    → 0 < length response
    → length response ≤ 65535
    → call s target (sid ∷ rest) ≡ (ok response, s')
    → (reply : List ℕ) × (live call policy (calls, s) target (encode target 0xf1 (sid ∷ rest))
        ≡ (ok reply, (calls ++ (target, sid ∷ rest) ∷ [], s')))
      × (decode reply ≡ ok (record { target = 0xf1; source = target; uds = response }))
unfolding live
live-encode {S} call policy calls s s' target sid rest response permit fits some_bytes fits'
      answer =
    (
      encode 0xf1 target response,
      Admission-delegate
            (gated_request-Admission {S = List Call × S} _ policy (calls, s) target frame sid peek)
            permit
          ∙ telegram_request-ok (recorded call) (calls, s) target frame tel request
          ∙ rw (==_refl, answer),
      decode-encode 0xf1 target response some_bytes fits',
    )
  where
    frame : List ℕ
    frame = encode target 0xf1 (sid ∷ rest)

    tel : Telegram
    tel = record { target = target; source = 0xf1; uds = sid ∷ rest }

    request : decode_request frame ≡ ok tel
    request =
        decode_request-decode frame tel (decode-encode target 0xf1 (sid ∷ rest) (omega arith) fits)

    peek : peek_sid frame ≡ some sid
    peek = peek_sid-decode_request frame tel sid rest request refl

-- A well-formed telegram of a service that the policy does not permit makes no call: the answer
-- is `refused`, with the service byte.
pub live_refuses :
    {S : Type 0} (call : BareUdsTransport S) (policy : Policy) (calls : List Call) (s : S)
    (target sid : ℕ) (rest : List ℕ)
    → ¬ Permits policy sid
    → length (sid ∷ rest) ≤ 65535
    → let frame = encode target 0xf1 (sid ∷ rest) in
      live call policy (calls, s) target frame ≡ (err (refused sid frame), (calls, s))
unfolding live
live_refuses {S} call policy calls s target sid rest forbidden fits =
    Admission-refuse
      (gated_request-Admission {S = List Call × S} _ policy (calls, s) target frame sid peek)
      forbidden
  where
    frame : List ℕ
    frame = encode target 0xf1 (sid ∷ rest)

    tel : Telegram
    tel = record { target = target; source = 0xf1; uds = sid ∷ rest }

    peek : peek_sid frame ≡ some sid
    peek =
        peek_sid-decode_request frame tel sid rest
          (decode_request-decode frame tel
            (decode-encode target 0xf1 (sid ∷ rest) (omega arith) fits))
          refl
