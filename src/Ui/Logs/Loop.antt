-- ===== src/Ui/Logs/Loop.antt =====
-- The loop of `streamPodLogs`: it ends with the stream, and what it sends.
use kube_ephemerals.Prelude.{
  ℕ, zero, suc, ◌+◌, ◌<◌, ◌≤◌, String, ◌==◌, ◌<>◌, Option, none, some, ◌≡◌, refl, Bool-cases, inl,
  inr, arith,
}
use kube_ephemerals.Exec.{Result, ok, err}
use kube_ephemerals.Ui.Services.{KubeClient, ReadError, eof, failed}
use kube_ephemerals.Ui.Respond.{Server}
use kube_ephemerals.Ui.Logs.{stream_logs, after_read, written, tell}

-- A number that every read with no error makes smaller, such as the bytes that are left.
pub record Drains (s : Server) (k : KubeClient s.World s.Stream) (stream : s.Stream) (conn : s.Conn)
    (left : s.World → ℕ) : Type 0 where
  pub on_read : (w : s.World) → (k.read stream w).0.error ≡ none → left (k.read stream w).1 < left w
  pub on_write :
      (message : String) (w : s.World) → left (s.upgrader.write_message conn message w).1 ≤ left w

module _ (s : Server) (k : KubeClient s.World s.Stream) (stream : s.Stream) (conn : s.Conn) where
  -- The world that the loop leaves, with every fuel above a bound.
  abbrev Ends : ℕ → s.World → Type 0
  Ends bound w =
      (w' : s.World) × ((fuel : ℕ) → bound < fuel → stream_logs s k stream conn fuel w ≡ some w')

  -- The same of what follows in the loop, with the fuel that is left.
  abbrev Follows : ℕ → s.World → Type 0
  Follows bound w =
      (w' : s.World) × ((fuel : ℕ) → bound ≤ fuel → stream_logs s k stream conn fuel w ≡ some w')

  abbrev EndsAfter : ℕ → String → Option ReadError → s.World → Type 0
  EndsAfter bound chunk error w =
      (w' : s.World) × ((fuel : ℕ)
        → bound ≤ fuel
        → after_read s conn (stream_logs s k stream conn fuel) chunk error w ≡ some w')

  read_at :
      (bound : ℕ) (w w' : s.World)
      → ((fuel : ℕ)
          → bound ≤ fuel
          → after_read s conn
              (stream_logs s k stream conn fuel)
              (k.read stream w).0.chunk
              (k.read stream w).0.error
              (k.read stream w).1
            ≡ some w')
      → (fuel : ℕ) → bound < fuel
      → stream_logs s k stream conn fuel w ≡ some w'
  unfolding stream_logs
  read_at bound w w' same zero enough = absurd (ground (arith, enough))
  read_at bound w w' same (suc fuel) enough = same fuel (ground (arith, enough))

  sent_chunk :
      (bound : ℕ) (x : Result (Unit {0}) × s.World)
      → Follows bound x.1
      → (w' : s.World) × ((fuel : ℕ)
          → bound ≤ fuel
          → written s (stream_logs s k stream conn fuel) x ≡ some w')
  sent_chunk bound (ok _, w) follows = follows
  sent_chunk bound (err _, w) follows = (w, λ fuel enough. refl)

  module _ (left : s.World → ℕ) (drains : Drains s k stream conn left) where
    after_ends :
        (bound : ℕ) (chunk : String) (error : Option ReadError) (w : s.World)
        → ((w' : s.World) → left w' ≤ left w → error ≡ none → Follows bound w')
        → EndsAfter bound chunk error w
    after_ends bound chunk (some eof) w rest = (w, λ fuel enough. refl)
    after_ends bound chunk (some (failed f)) w rest =
        (tell s conn ("Error: " <> f.text) w, λ fuel enough. refl)
    after_ends bound chunk none w rest = elim (Bool-cases (chunk == "")) [
      | inl empty ↦
          let (w', same) = rest w (ground arith) refl in
          (w', λ fuel enough. rw empty (same fuel enough))
      | inr given ↦
          let (w', same) =
            sent_chunk bound (s.upgrader.write_message conn chunk w)
              (rest _ (drains.on_write chunk w) refl) in
          (w', λ fuel enough. rw given (same fuel enough))
    ]

    step-Ends :
        (bound : ℕ) (w : s.World)
        → ((w' : s.World) → left w' < left w → Follows bound w')
        → Ends bound w
    step-Ends bound w rest =
        let (w', same) =
          after_ends bound (k.read stream w).0.chunk (k.read stream w).0.error (k.read stream w).1
            (λ w' fewer read. rest w' (ground (arith, fewer, drains.on_read w read))) in
        (w', read_at bound w w' same)

    ends : (bound : ℕ) (w : s.World) → left w ≤ bound → Ends bound w
    ends zero w enough = step-Ends zero w (λ w' fewer. absurd (ground (arith, fewer, enough)))
    ends (suc bound) w enough = step-Ends (suc bound) w (λ w' fewer.
        let (end, same) = ends bound w' (ground (arith, fewer, enough)) in
        (end, λ fuel given. same fuel (ground (arith, given))))

    -- The loop ends whenever some number is made smaller by every read that comes without an error
    -- and not larger by a message: with any fuel above that number it leaves a world, and with more
    -- fuel it leaves the same.
    pub stream_logs-ends :
        (w : s.World) (fuel more : ℕ)
        → left w < fuel
        → (w' : s.World) × (stream_logs s k stream conn fuel w ≡ some w')
          × (stream_logs s k stream conn (fuel + more) w ≡ some w')
    stream_logs-ends w fuel more enough =
        let (w', same) = ends (left w) w (ground arith) in
        (w', same fuel enough, same (fuel + more) (ground (arith, enough)))
