-- ===== src/Examples/Live.antt =====
-- crates/best: jobs on the live stack.
use klartext.Prelude.{ℕ, ◌+◌, ◌≡◌, refl, List, [], ◌∷◌, some, All, ok, err}
use klartext.Best.Telegram.{header, header_and_length, encode, peek_sid}
use klartext.Best.Exchange.{refused}
use klartext.Best.Gate.{read_only, gated_request}
use klartext.Best.Gate.Safety.{Admission, gated_request-Admission}
use klartext.Best.Bridge.{BareUdsTransport}
use klartext.Best.Bridge.Safety.{CallPermitted, live, send_all, send_all_safe}

-- An ECU that answers every request with `62` and the request, and counts.
abbrev counting : BareUdsTransport ℕ
counting n target uds = (ok (0x62 ∷ uds), n + 1)

-- A read, a write, a download request, and bytes that are no telegram.
abbrev job : List (ℕ × List ℕ)
job =
    (0x12, encode 0x12 0xf1 (0x22 ∷ 0xf1 ∷ 0x90 ∷ []))
    ∷ (0x12, encode 0x12 0xf1 (0x2e ∷ 0xf1 ∷ 0x90 ∷ 0x00 ∷ []))
    ∷ (0x12, encode 0x12 0xf1 (0x34 ∷ 0x00 ∷ []))
    ∷ (0x12, 0x80 ∷ 0x12 ∷ [])
    ∷ []

send_all_safe_example :
    All (CallPermitted read_only) (send_all (live counting read_only) ([], 0) job).0
send_all_safe_example = send_all_safe counting read_only 0 job

gated_request-Admission_example :
    Admission
      (counting 0 0x12 (encode 0x12 0xf1 (0x2e ∷ [])))
      (err (refused 0x2e (encode 0x12 0xf1 (0x2e ∷ []))), 0)
      read_only
      0x2e
      (gated_request counting read_only 0 0x12 (encode 0x12 0xf1 (0x2e ∷ [])))
unfolding peek_sid encode header header_and_length
gated_request-Admission_example =
    gated_request-Admission counting read_only 0 0x12 (encode 0x12 0xf1 (0x2e ∷ [])) 0x2e seen
  where
    seen : peek_sid (encode 0x12 0xf1 (0x2e ∷ [])) ≡ some 0x2e
    seen = refl
