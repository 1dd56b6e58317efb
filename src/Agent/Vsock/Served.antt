-- ===== src/Agent/Vsock/Served.antt =====
-- vsock.rs: the bytes that a guest writes are handled frame by frame.
use bigtop.Common.{
  ℕ, zero, suc, ◌≤◌, ◌≡◌, refl, ap, ◌∙◌, some, List, [], ◌∷◌, ◌++◌, String, get, length,
  length-append, All, arith, if◌then◌else◌,
}
use bigtop.Core.Ids.{TaskId}
use bigtop.Agent.Vsock.{max_frame_payload, handshake, LogFrame, encode}
use bigtop.Agent.Vsock.Frames.{decode-encode}
use bigtop.Agent.Vsock.Hub.{
  Channel, Hub, notify_completion, on_frame, serve_next, serve, greet, handle_connection,
}

-- What a guest writes that sends these frames.
unfoldable pub encode_all : List LogFrame → List ℕ
unfolding encode
encode_all [] = []
encode_all (frame ∷ frames) = encode frame ++ encode_all frames

abbrev pub Fits : LogFrame → Type 0
Fits frame = length frame.payload ≤ max_frame_payload

frames-encode_all : (frames : List LogFrame) → length frames ≤ length (encode_all frames)
unfolding encode_all encode
frames-encode_all [] = omega arith
frames-encode_all (frame ∷ frames) =
    ground (arith, frames-encode_all frames, length-append frame.payload (encode_all frames))

module _ (lossy : List ℕ → String) (lines : List ℕ → List String) where
  -- The frames one after another: a complete frame or a closed channel ends the connection, and its
  -- end without a complete frame is a completion too.
  unfoldable pub served : TaskId → List LogFrame → Hub → Hub
  unfolding on_frame notify_completion
  served task_id [] hub = notify_completion task_id hub
  served task_id (frame ∷ frames) hub =
      let r = on_frame lossy lines task_id frame hub in
      let rest = served task_id frames r.1 in if r.0 then rest else r.1

  serve-served :
      (fuel : ℕ) (task_id : TaskId) (frames : List LogFrame) (hub : Hub)
      → length frames ≤ fuel
      → All Fits frames
      → serve lossy lines fuel task_id (encode_all frames) hub ≡ served task_id frames hub
  unfolding serve serve_next served encode_all
  serve-served zero task_id [] hub h fits = refl
  serve-served (suc fuel) task_id [] hub h fits = refl
  serve-served zero task_id (frame ∷ frames) hub h fits = absurd (omega arith)
  serve-served (suc fuel) task_id (frame ∷ frames) hub h fits =
      ap (λ d. serve_next lossy lines (serve lossy lines fuel task_id) task_id d hub)
        (decode-encode frame (encode_all frames) fits.0)
      ∙ ap
          (λ r.
            if (on_frame lossy lines task_id frame hub).0
            then r
            else (on_frame lossy lines task_id frame hub).1)
          (serve-served fuel task_id frames _ (omega arith) fits.1)

  -- The bytes that a guest writes for a greeting and any frames, each with a payload of at most 1
  -- MiB, are handled as those frames one after another, to the first complete frame, a closed
  -- channel or the end, where the greeting names a task that is registered; the loop never runs out
  -- of fuel before.
  pub handle_connection-served :
      (greeting : LogFrame) (frames : List LogFrame) (hub : Hub) (channel : Channel)
      → All Fits (greeting ∷ frames)
      → greeting.stream ≡ handshake
      → get (lossy greeting.payload) hub.senders ≡ some channel
      → handle_connection lossy lines (encode_all (greeting ∷ frames)) hub
        ≡ served (lossy greeting.payload) frames hub
  unfolding handle_connection greet encode_all
  handle_connection-served greeting frames hub channel fits first known =
      ap (λ d. greet lossy lines d hub) (decode-encode greeting (encode_all frames) fits.0)
      ∙ rw (first, known)
          (serve-served (suc (length (encode_all frames))) (lossy greeting.payload) frames hub
            (omega (arith, frames-encode_all frames)) fits.1)
