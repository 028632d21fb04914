-- ===== src/Client/Session/Reading.antt =====
-- crates/client/src/session.rs: the reader task over a stream of frames.
use klartext.Prelude.{
  ℕ, zero, suc, ◌<◌, ◌≡◌, refl, ap, ◌∙◌, List, [], ◌∷◌, ◌++◌, foldl, length, All, ok, err, arith,
}
use klartext.Hsfz.Frame.{Error, HsfzFrame, encode}
use klartext.Hsfz.Frame.RoundTrip.{IsWire}
use klartext.Hsfz.Reader.{ByteReader, IsPrompt, read_frame}
use klartext.Hsfz.Reader.Stream.{read_frame-encode}
use klartext.Client.Session.{Link, route_frame, drain, read_task}

-- The frames that follow each other in a stream.
abbrev pub stream_of : List HsfzFrame → List ℕ
stream_of [] = []
stream_of (f ∷ fs) = encode f ++ stream_of fs

read_task-step :
    {Io R : Type 0} (reader : ByteReader Io R) (idle fuel : ℕ) (r r' : R) (link : Link Io)
    (f : HsfzFrame)
    → read_frame reader idle r ≡ (ok f, r')
    → read_task reader idle (suc fuel) r link ≡ read_task reader idle fuel r' (route_frame link f)
unfolding read_task
read_task-step reader idle fuel r r' link f step =
    rw (ap (λ n. n.0) step, read_task)
      (ap (λ n. read_task reader idle fuel n.1 (route_frame link f)) step)

-- The reader task of a prompt reader, on a stream of well-formed frames behind which every read fails,
-- routes these frames one after the other and then drains the table: with more turns than frames it
-- ends.
pub read_task-stream_of :
    {Io R : Type 0} (reader : ByteReader Io R) (idle : ℕ)
    → IsPrompt reader
    → ((r : R) → reader.pending r ≡ [] → (e : Error Io) × ((read_frame reader idle r).0 ≡ err e))
    → (frames : List HsfzFrame) → All IsWire frames
    → (fuel : ℕ) (r : R) (link : Link Io) → length frames < fuel
    → reader.pending r ≡ stream_of frames
    → read_task reader idle fuel r link ≡ drain 256 (foldl route_frame link frames)
unfolding read_task
read_task-stream_of reader idle prompt ended frames wire zero r link h p = absurd (omega arith)
read_task-stream_of reader idle prompt ended [] wire (suc fuel) r link h p =
    let (e, failed) = ended r p in rw (failed, read_task) refl
read_task-stream_of reader idle prompt ended (f ∷ fs) wire (suc fuel) r link h p =
    let (r', step, p') = read_frame-encode reader idle prompt r f (stream_of fs) wire.0 p in
    read_task-step reader idle fuel r r' link f step
    ∙ (read_task-stream_of reader idle prompt ended fs wire.1 fuel r' (route_frame link f)
        (omega arith) p')
