-- ===== src/Best/Gate.antt =====
-- crates/best/src/gate.rs: the gate on each outgoing telegram's service byte, the outermost layer
-- of the live stack.
pub mod Safety
use klartext.Prelude.{
  ℕ, Bool, ◌&&◌, ◌||◌, List, Option, none, some, leb, ◌==◌, if◌then◌else◌, Result, err,
}
use klartext.Best.Telegram.{peek_sid}
use klartext.Best.Exchange.{ExchangeError, unexpected, refused, UdsExchange}

pub data Policy : Type 0 where
  read_only confirmed_write : Policy

pub data SidClass : Type 0 where
  pass gated refuse_always : SidClass

unfoldable pub classify : ℕ → SidClass
classify sid =
    if sid == 0x10 || sid == 0x3e || sid == 0x22 || sid == 0x2c || sid == 0x19
    then pass
    else if leb 0x34 sid && leb sid 0x37
    then refuse_always
    else gated

-- The arms of the gate's `match` on the policy and the class.
unfoldable pub arm {ℓ} : {A : Type ℓ} → (delegate refuse : A) → Policy → SidClass → A
arm delegate refuse read_only refuse_always = refuse
arm delegate refuse confirmed_write refuse_always = refuse
arm delegate refuse read_only pass = delegate
arm delegate refuse confirmed_write pass = delegate
arm delegate refuse confirmed_write gated = delegate
arm delegate refuse read_only gated = refuse

-- `GatedExchange::request`, over the inner exchange and the policy that the gate was built with.
unfoldable pub gated_request : {S : Type 0} → UdsExchange S → Policy → UdsExchange S
gated_request inner policy s target frame = elim (peek_sid frame) [
  | none ↦ (err (unexpected frame), s)
  | some sid ↦ arm (inner s target frame) (err (refused sid frame), s) policy (classify sid)
]
