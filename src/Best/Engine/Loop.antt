-- ===== src/Best/Engine/Loop.antt =====
-- crates/best/src/engine.rs: how the loop over the instructions ends.
use klartext.Prelude.{
  ℕ, zero, suc, ◌<◌, ◌≡◌, ◌≢◌, refl, subst, Bool, true, false, Option, none, some, List, [], ◌∷◌,
  length, All, Result, ok, err, panic, ◌==◌, if◌then◌else◌,
}
use klartext.Best.Exchange.{ExchangeError, UdsExchange}
use klartext.Best.Decode.{Operand, Op}
use klartext.Best.Decode.Reads.{OperandInRange}
use klartext.Best.Decode.Operands.{OpInRange}
use klartext.Best.Machine.{bytes, Machine}
use klartext.Best.Machine.Bytes.{IsMachine}
use klartext.Best.Machine.Bounds.{Any}
use klartext.Best.Exec.{
  ExecError, Flow, next, jumped, end_of_job, exchange, wait, set_error, trap_bit_no_response,
  write_to,
}
use klartext.Best.Exec.Keeps.{Sound, Post, FlowInRange, Keeps-write_to, Keeps-set_error}
use klartext.Best.Results.{ResultSet}
use klartext.Best.Floats.{F64}
use klartext.Best.Context.{State}
use klartext.Best.Context.Keeps.{IsState}
use klartext.Best.Step.{step}
use klartext.Best.Step.Keeps.{step-IsState}
use klartext.Best.Engine.{
  RunError, job_not_found, decode_failed, exec_failed, exchange_failed, bad_pc, loop_bound, Turn,
  again, ended, op_at, answer_to, answered, resumed, acted, stepped, fetched, turn, run_loop,
  max_instructions,
}

-- The machine after an answer, or the error that ends the run: it is that of the answer itself, or of
-- the write of it.
abbrev Written : {F : Type 0} → Result ExchangeError (List ℕ) → Result RunError (Machine F) → Type 0
Written answer (ok m) = IsMachine m
Written answer (err (exec_failed e)) = Sound e
Written answer (err (exchange_failed e)) = answer ≡ err e
Written answer (err _) = ⊥
Written answer panic = ⊥

module _ {F : Type 0} where
  answer_to-Written :
      (answer : Result ExchangeError (List ℕ)) (dest : Operand) (response : List ℕ) (m : Machine F)
      → OperandInRange dest
      → IsMachine m
      → Written answer (answer_to dest response m)
  answer_to-Written answer dest response m h w =
      go (write_to dest (bytes response) m) ((Keeps-write_to dest (bytes response) h).at m w)
    where
      go :
          (out : Result ExecError (Unit {0}) × Machine F)
          → IsMachine out.1 × Post Any out.0
          → Written answer
              (elim out.0 [ ok u ↦ ok out.1 | err e ↦ err (exec_failed e) | panic ↦ panic ])
      go (ok u, m') (v, p) = v
      go (err e, m') (v, p) = p
      go (panic, m') (v, p) = p

  answered-Written :
      (dest : Operand) (answer : Result ExchangeError (List ℕ)) (m : Machine F)
      → OperandInRange dest
      → answer ≢ panic
      → IsMachine m
      → Written answer (answered dest answer m)
  unfolding answered
  answered-Written dest (ok response) m h n w = answer_to-Written (ok response) dest response m h w
  answered-Written dest panic m h n w = absurd (n refl)
  answered-Written dest (err e) m h n w =
      go (set_error trap_bit_no_response m) ((Keeps-set_error trap_bit_no_response).at m w)
    where
      go :
          (out : Result ExecError (Unit {0}) × Machine F)
          → IsMachine out.1 × Post Any out.0
          → Written (err e) (elim out.0 [
            | ok u ↦ answer_to dest [] out.1
            | err t ↦ err (exchange_failed e)
            | panic ↦ panic
          ])
      go (ok u, m') (v, p) = answer_to-Written (err e) dest [] m' h v
      go (err t, m') (v, p) = refl
      go (panic, m') (v, p) = p

op_at-InRange :
    (ops : List Op) (pc : ℕ) (op : Op) → All OpInRange ops → op_at ops pc ≡ some op → OpInRange op
unfolding op_at
op_at-InRange [] pc op h e = absurd (cc)
op_at-InRange (o ∷ ops) pc op h e = later (op_at ops pc) (op_at-InRange ops pc op h.1) e
  where
    this : (b : Bool) → ◌≡◌ {A = Option Op} (if b then some o else none) (some op) → OpInRange op
    this true q = subst OpInRange (cc) h.0
    this false q = absurd (cc)

    later :
        (r : Option Op)
        → (r ≡ some op → OpInRange op)
        → ◌≡◌ {A = Option Op}
            (elim r [ some l ↦ some l | none ↦ if o.offset == pc then some o else none ])
            (some op)
        → OpInRange op
    later (some l) found q = found q
    later none found q = this (o.offset == pc) q

-- An error that the exchange gives for a telegram to the ECU.
abbrev pub Gave : {S : Type 0} → UdsExchange S → ℕ → ExchangeError → Type 0
Gave {S} request target e = (x : S) × (frame : List ℕ) × ((request x target frame).0 ≡ err e)

-- An exchange that answers or fails, and does not abort.
abbrev pub Answers : {S : Type 0} → UdsExchange S → Type 0
Answers {S} request = (x : S) (target : ℕ) (frame : List ℕ) → (request x target frame).0 ≢ panic

-- What ends the loop: results with a current set, an error of an instruction that is no register out of
-- range, an error that the exchange gave, a place without an instruction, or the bound.
abbrev pub Stopped :
    {S F : Type 0} → UdsExchange S → ℕ → List Op → Result RunError (ResultSet F) → Type 0
Stopped request target ops (ok results) = 0 < length results.sets
Stopped request target ops (err (exec_failed e)) = Sound e
Stopped request target ops (err (exchange_failed e)) = Gave request target e
Stopped request target ops (err (bad_pc pc)) = op_at ops pc ≡ none
Stopped request target ops (err (loop_bound n)) = n ≡ max_instructions
Stopped request target ops (err (job_not_found name)) = ⊥
Stopped request target ops (err (decode_failed e)) = ⊥
Stopped request target ops panic = ⊥

module _ (f64 : F64) {S : Type 0} (request : UdsExchange S) (answers : Answers request) (target : ℕ)
    (ops : List Op) (h : All OpInRange ops) where
  abbrev TurnSound : Turn f64.F S → Type 0
  TurnSound (again s x) = IsState s
  TurnSound (ended result x) = Stopped request target ops result

  resumed-Sound :
      (s : State f64.F) (x x' : S) (frame : List ℕ) (r : Result RunError (Machine f64.F))
      → IsState s
      → Written (request x target frame).0 r
      → TurnSound (resumed f64 request target ops s.1 x' r)
  resumed-Sound s x x' frame (ok m) w v = record {
    machine_sizes = v;
    some_set = w.some_set;
    cursor = w.cursor;
  }
  resumed-Sound s x x' frame (err (exec_failed e)) w v = v
  resumed-Sound s x x' frame (err (exchange_failed e)) w v = (x, frame, v)
  resumed-Sound s x x' frame (err (job_not_found name)) w v = v
  resumed-Sound s x x' frame (err (decode_failed e)) w v = v
  resumed-Sound s x x' frame (err (bad_pc pc)) w v = absurd v
  resumed-Sound s x x' frame (err (loop_bound n)) w v = absurd v
  resumed-Sound s x x' frame panic w v = v

  acted-Sound :
      (flow : Flow) (s : State f64.F) (x : S)
      → IsState s
      → FlowInRange flow
      → TurnSound (acted f64 request target ops flow s x)
  unfolding acted
  acted-Sound next s x w p = w
  acted-Sound jumped s x w p = w
  acted-Sound (wait seconds) s x w p = w
  acted-Sound end_of_job s x w p = w.some_set
  acted-Sound (exchange frame dest) s x w p =
      let answer = request x target frame in
      resumed-Sound s x answer.1 frame (answered dest answer.0 s.0) w
        (answered-Written dest answer.0 s.0 p (answers x target frame) w.machine_sizes)

  stepped-Sound :
      (out : Result ExecError Flow × State f64.F) (x : S)
      → IsState out.1 × Post FlowInRange out.0
      → TurnSound (stepped f64 request target ops out x)
  stepped-Sound (ok flow, s) x (w, p) = acted-Sound flow s x w p
  stepped-Sound (err e, s) x (w, p) = p
  stepped-Sound (panic, s) x (w, p) = p

  turn-Sound : (s : State f64.F) (x : S) → IsState s → TurnSound (turn f64 request target ops s x)
  unfolding turn
  turn-Sound s x w = go (op_at ops s.0.pc) refl
    where
      go : (o : Option Op) → op_at ops s.0.pc ≡ o → TurnSound (fetched f64 request target ops o s x)
      go none found = found
      go (some op) found =
          stepped-Sound (step f64 op s) x
            (step-IsState f64 op s (op_at-InRange ops s.0.pc op h found) w)

  pub run_loop-Sound :
      (fuel : ℕ) (s : State f64.F) (x : S)
      → IsState s
      → Stopped request target ops (run_loop f64 request target ops fuel s x).0
  unfolding run_loop
  run_loop-Sound zero s x w = refl
  run_loop-Sound (suc fuel) s x w =
      go (turn f64 request target ops s x) (turn-Sound s x w) (run_loop-Sound fuel)
    where
      go :
          (t : Turn f64.F S)
          → TurnSound t
          → ((s' : State f64.F) (x' : S)
              → IsState s'
              → Stopped request target ops (run_loop f64 request target ops fuel s' x').0)
          → let out : Result RunError (ResultSet f64.F) × S = elim t [
            | again s' x' ↦ run_loop f64 request target ops fuel s' x'
            | ended result x' ↦ (result, x')
          ] in
            Stopped request target ops out.0
      go (again s' x') sound rest = rest s' x' sound
      go (ended result x') sound rest = sound
