-- ===== src/Best/Bridge.antt =====
-- crates/best/src/bridge.rs: the telegrams of the job on one side, bare UDS on the other. The
-- transport behind `BareUdsTransport::call` is a parameter.
pub mod Safety
pub mod Targets
use klartext.Prelude.{ℕ, List, ◌==◌, if◌then◌else◌, Result, ok, err, panic, map_ok, map_err}
use klartext.Best.Telegram.{encode, decode_request}
use klartext.Best.Exchange.{ExchangeError, unexpected, UdsExchange}

-- `BareUdsTransport::call(&self, target, uds)`.
abbrev pub BareUdsTransport : Type 0 → Type 0
BareUdsTransport S = S → ℕ → List ℕ → Result ExchangeError (List ℕ) × S

-- `TelegramExchange::request`.
unfoldable pub telegram_request : {S : Type 0} → BareUdsTransport S → UdsExchange S
telegram_request call s target frame =
    elim (map_err (λ e. unexpected frame) (decode_request frame)) [
      | ok decoded ↦
          let answer = call s target decoded.uds in
          if decoded.target == target
          then (map_ok (encode 0xf1 target) answer.0, answer.1)
          else (err (unexpected frame), s)
      | err e ↦ (err e, s)
      | panic ↦ (panic, s)
    ]
