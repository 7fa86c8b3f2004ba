-- ===== src/Ui/Logs/Messages.antt =====
-- The messages that the loop of `streamPodLogs` sends.
use kube_ephemerals.Prelude.{
  ℕ, zero, suc, ◌≤◌, String, ◌==◌, ◌<>◌, Bool, true, false, Option, none, some, List, [], ◌∷◌, ◌++◌,
  length, any, ◌≡◌, refl, ap, sym, ◌∙◌, if◌then◌else◌, Bool-cases, inl, inr, arith,
}
use mathlib.Core.List.{append-nil, append_assoc}
use kube_ephemerals.Exec.{Result, ok, err}
use kube_ephemerals.Ui.Services.{KubeClient, ReadError, ReadResult, eof, failed}
use kube_ephemerals.Ui.Respond.{Server}
use kube_ephemerals.Ui.Logs.{stream_logs, after_read, written, tell}

abbrev pub is_last : ReadResult → Bool
is_last r = elim r.error [ none ↦ false | some _ ↦ true ]

-- The chunks of the reads before the first error.
abbrev pub chunks : List ReadResult → List String
chunks [] = []
chunks (r ∷ rs) = let rest = chunks rs in if is_last r then [] else r.chunk ∷ rest

abbrev pub nonempty : List String → List String
nonempty [] = []
nonempty (c ∷ cs) = let rest = nonempty cs in if c == "" then rest else c ∷ rest

abbrev farewell : Option ReadError → List String → List String
farewell none rest = rest
farewell (some eof) rest = []
farewell (some (failed f)) rest = ("Error: " <> f.text) ∷ []

-- The message for the first error, unless it is the stream's end.
abbrev pub last_message : List ReadResult → List String
last_message [] = []
last_message (r ∷ rs) = farewell r.error (last_message rs)

abbrev pub messages : List ReadResult → List String
messages reads = nonempty (chunks reads) ++ last_message reads

-- A stream that gives the reads of a script, and a connection that takes every message.
pub record Scripted (s : Server) (k : KubeClient s.World s.Stream) (stream : s.Stream)
    (conn : s.Conn) (script : s.World → List ReadResult) (sent : s.World → List String)
    : Type 0 where
  pub on_read :
      (w : s.World) (r : ReadResult) (rs : List ReadResult)
      → script w ≡ (r ∷ rs)
      → ((k.read stream w).0 ≡ r)
        × (script (k.read stream w).1 ≡ rs)
        × (sent (k.read stream w).1 ≡ sent w)
  pub on_write :
      (message : String) (w : s.World)
      → ((s.upgrader.write_message conn message w).0 ≡ ok tt)
        × (script (s.upgrader.write_message conn message w).1 ≡ script w)
        × (sent (s.upgrader.write_message conn message w).1 ≡ sent w ++ message ∷ [])

module _ (s : Server) (k : KubeClient s.World s.Stream) (stream : s.Stream) (conn : s.Conn)
    (script : s.World → List ReadResult) (sent : s.World → List String)
    (scripted : Scripted s k stream conn script sent) where
  abbrev pub Sends : ℕ → s.World → List String → Type 0
  Sends fuel w messages =
      (w' : s.World) × (stream_logs s k stream conn fuel w ≡ some w')
      × (sent w' ≡ sent w ++ messages)

  took :
      (next : s.World → Option s.World) (x : Result (Unit {0}) × s.World)
      → x.0 ≡ ok tt
      → written s next x ≡ next x.1
  took next (ok tt, w) h = refl
  took next (err e, w) h = absurd (ground (arith, h))

  -- What the loop sends after a read, from what it sends after the following ones.
  after-Sends :
      (fuel : ℕ) (chunk : String) (error : Option ReadError) (rs : List ReadResult) (w : s.World)
      → script w ≡ rs
      → any is_last (record { chunk = chunk; error = error } ∷ rs) ≡ true
      → ((w' : s.World) → script w' ≡ rs → any is_last rs ≡ true → Sends fuel w' (messages rs))
      → (w' : s.World) × (after_read s conn (stream_logs s k stream conn fuel) chunk error w
          ≡ some w')
        × (sent w' ≡ sent w ++ messages (record { chunk = chunk; error = error } ∷ rs))
  after-Sends fuel chunk (some eof) rs w h last next = (w, refl, sym (append-nil (sent w)))
  after-Sends fuel chunk (some (failed f)) rs w h last next =
      (tell s conn ("Error: " <> f.text) w, refl, (scripted.on_write ("Error: " <> f.text) w).2)
  after-Sends fuel chunk none rs w h last next = elim (Bool-cases (chunk == "")) [
    | inl empty ↦ let (w', same, all) = next w h last in (w', rw empty same, rw empty all)
    | inr given ↦
        let (accepted, kept, grown) = scripted.on_write chunk w in
        let (w', same, all) = next (s.upgrader.write_message conn chunk w).1 (kept ∙ h) last in
        (
          w',
          rw given (took (stream_logs s k stream conn fuel) _ accepted ∙ same),
          rw given
              (all ∙ ap (λ ms. ms ++ messages rs) grown ∙ append_assoc (sent w) (chunk ∷ []) _),
        )
  ]

  sends :
      (fuel : ℕ) (reads : List ReadResult) (w : s.World)
      → script w ≡ reads
      → any is_last reads ≡ true
      → length reads ≤ fuel
      → Sends fuel w (messages reads)
  unfolding stream_logs
  sends fuel [] w h last enough = absurd (ground (arith, last))
  sends zero (r ∷ rs) w h last enough = absurd (ground (arith, enough))
  sends (suc fuel) (r ∷ rs) w h last enough =
      let (same_read, rest, same_sent) = scripted.on_read w r rs h in
      let (w', same, all) =
        after-Sends fuel r.chunk r.error rs (k.read stream w).1 rest last
          (λ w' from last'. sends fuel rs w' from last' (ground (arith, enough))) in
      (w', rw same_read same, all ∙ ap (λ ms. ms ++ messages (r ∷ rs)) same_sent)

  -- A stream whose script comes to an error is sent to its end, with as much fuel as it has reads: the
  -- chunks that are read before the first error and are not empty, in their order, and then a message
  -- of that error, unless it is the end of the stream. A chunk that comes with the error is not sent.
  pub stream_logs-Sends :
      (fuel : ℕ) (w : s.World)
      → any is_last (script w) ≡ true
      → length (script w) ≤ fuel
      → Sends fuel w (messages (script w))
  stream_logs-Sends fuel w = sends fuel (script w) w refl
