-- ===== src/Best/Engine/Safety.antt =====
-- crates/best/src/engine.rs: what a run sends.
use klartext.Prelude.{
  map, ℕ, zero, suc, ◌≡◌, refl, sym, ap, subst, ◌∙◌, Option, none, some, List, [], ◌∷◌, All, Result,
  ok, err, panic,
}
use klartext.Sgbd.Cp1252.{Text}
use klartext.Sgbd.Program.{Prg, job_bytecode}
use klartext.Best.Exchange.{UdsExchange}
use klartext.Best.Gate.{Policy}
use klartext.Best.Bridge.{BareUdsTransport}
use klartext.Best.Bridge.Safety.{Call, CallPermitted, live, send_all, send_all_safe}
use klartext.Best.Bridge.Targets.{CallTo, send_all-CallTo}
use klartext.Best.Decode.{DecodeError, Op, decode_job}
use klartext.Best.Machine.{Machine}
use klartext.Best.Exec.{ExecError, Flow, next, jumped, end_of_job, exchange, wait}
use klartext.Best.Results.{ResultSet}
use klartext.Best.Floats.{F64}
use klartext.Best.Context.{ExecCtx, State}
use klartext.Best.Step.{step}
use klartext.Best.Engine.{
  RunError, job_not_found, decode_failed, Turn, again, ended, op_at, answered, resumed, acted,
  stepped, fetched, turn, run_loop, run_job, start, max_instructions,
}

module _ {S : Type 0} (request : UdsExchange S) (target : ℕ) where
  -- The state of the exchange is that after some telegrams for the ECU.
  abbrev Sent : S → S → Type 0
  Sent x y =
      (frames : List (List ℕ)) × (y ≡ send_all request x (map (λ frame. (target, frame)) frames))

  Sent-refl : (x : S) → Sent x x
  unfolding send_all
  Sent-refl x = ([], refl)

  Sent-step : (x : S) (frame : List ℕ) (y : S) → Sent (request x target frame).1 y → Sent x y
  unfolding send_all
  Sent-step x frame y (frames, e) = (frame ∷ frames, e)

  Sent-trans : (x y z : S) → Sent x y → Sent y z → Sent x z
  unfolding send_all
  Sent-trans x y z ([], e) (gs, f) =
      (gs, f ∙ ap (λ w. send_all request w (map (λ frame. (target, frame)) gs)) e)
  Sent-trans x y z (frame ∷ frames, e) later =
      Sent-step x frame z (Sent-trans (request x target frame).1 y z (frames, e) later)

module _ (f64 : F64) {S : Type 0} (request : UdsExchange S) (target : ℕ) (ops : List Op) where
  -- The state of the exchange after a round.
  abbrev after : Turn f64.F S → S
  after (again s x) = x
  after (ended result x) = x

  resumed-Sent :
      (ctx : ExecCtx f64.F) (x : S) (r : Result RunError (Machine f64.F))
      → after (resumed f64 request target ops ctx x r) ≡ x
  resumed-Sent ctx x (ok m) = refl
  resumed-Sent ctx x (err e) = refl
  resumed-Sent ctx x panic = refl

  acted-Sent :
      (flow : Flow) (s : State f64.F) (x : S)
      → Sent request target x (after (acted f64 request target ops flow s x))
  unfolding acted
  acted-Sent next s x = Sent-refl request target x
  acted-Sent jumped s x = Sent-refl request target x
  acted-Sent (wait seconds) s x = Sent-refl request target x
  acted-Sent end_of_job s x = Sent-refl request target x
  acted-Sent (exchange frame dest) s x =
      let answer = request x target frame in
      subst (Sent request target x) (sym (resumed-Sent s.1 answer.1 (answered dest answer.0 s.0)))
        (Sent-step request target x frame answer.1 (Sent-refl request target answer.1))

  stepped-Sent :
      (out : Result ExecError Flow × State f64.F) (x : S)
      → Sent request target x (after (stepped f64 request target ops out x))
  stepped-Sent (ok flow, s) x = acted-Sent flow s x
  stepped-Sent (err e, s) x = Sent-refl request target x
  stepped-Sent (panic, s) x = Sent-refl request target x

  turn-Sent :
      (s : State f64.F) (x : S) → Sent request target x (after (turn f64 request target ops s x))
  unfolding turn
  turn-Sent s x = go (op_at ops s.0.pc)
    where
      go : (o : Option Op) → Sent request target x (after (fetched f64 request target ops o s x))
      go none = Sent-refl request target x
      go (some op) = stepped-Sent (step f64 op s) x

  run_loop-Sent :
      (fuel : ℕ) (s : State f64.F) (x : S)
      → Sent request target x (run_loop f64 request target ops fuel s x).1
  unfolding run_loop
  run_loop-Sent zero s x = Sent-refl request target x
  run_loop-Sent (suc fuel) s x =
      go (turn f64 request target ops s x) (turn-Sent s x) (run_loop-Sent fuel)
    where
      go :
          (t : Turn f64.F S)
          → Sent request target x (after t)
          → ((s' : State f64.F) (x' : S)
              → Sent request target x' (run_loop f64 request target ops fuel s' x').1)
          → let out : Result RunError (ResultSet f64.F) × S = elim t [
            | again s' x' ↦ run_loop f64 request target ops fuel s' x'
            | ended result x' ↦ (result, x')
          ] in
            Sent request target x out.1
      go (again s' x') sent rest = Sent-trans request target x x' _ sent (rest s' x')
      go (ended result x') sent rest = sent

-- What is sent by a run of a job is a list of telegrams.
run_job-Sent :
    (f64 : F64) {S : Type 0} (prg : Prg) (name : Text) (target : ℕ) (args : List ℕ)
    (request : UdsExchange S) (x : S)
    → Sent request target x (run_job f64 prg name target args request x).1
unfolding run_job
run_job-Sent f64 {S} prg name target args request x = go (job_bytecode prg name)
  where
    decoded :
        (d : Option (Result DecodeError (List Op)))
        → let out : Result RunError (ResultSet f64.F) × S = elim d [
          | none ↦ (panic, x)
          | some decoded ↦ elim decoded [
            | ok ops ↦ run_loop f64 request target ops max_instructions (start f64 prg args) x
            | err e ↦ (err (decode_failed e), x)
            | panic ↦ (panic, x)
          ]
        ] in
          Sent request target x out.1
    decoded none = Sent-refl request target x
    decoded (some (ok ops)) =
        run_loop-Sent f64 request target ops max_instructions (start f64 prg args) x
    decoded (some (err e)) = Sent-refl request target x
    decoded (some panic) = Sent-refl request target x

    go :
        (code : Option (List ℕ))
        → let out : Result RunError (ResultSet f64.F) × S = elim code [
          | none ↦ (err (job_not_found name), x)
          | some code ↦ elim (decode_job code) [
            | none ↦ (panic, x)
            | some decoded ↦ elim decoded [
              | ok ops ↦ run_loop f64 request target ops max_instructions (start f64 prg args) x
              | err e ↦ (err (decode_failed e), x)
              | panic ↦ (panic, x)
            ]
          ]
        ] in
          Sent request target x out.1
    go none = Sent-refl request target x
    go (some code) = decoded (decode_job code)

-- Whatever a job does, behind the gate and the bridge each call that reaches the transport is one of the
-- ECU that the run was asked for, and is empty or starts with a service byte that the policy permits.
pub run_job-permitted :
    (f64 : F64) {S : Type 0} (prg : Prg) (name : Text) (target : ℕ) (args : List ℕ)
    (call : BareUdsTransport S) (policy : Policy) (s : S)
    → let calls = (run_job f64 prg name target args (live call policy) ([], s)).1.0 in
      All (CallTo target) calls × All (CallPermitted policy) calls
run_job-permitted f64 prg name target args call policy s =
    let (frames, e) = run_job-Sent f64 prg name target args (live call policy) ([], s) in
    subst (λ (y : List Call × _). All (CallTo target) y.0 × All (CallPermitted policy) y.0) (sym e)
      (
        send_all-CallTo call policy target frames [] s tt,
        send_all_safe call policy s (map (λ frame. (target, frame)) frames),
      )
