-- ===== src/Agent/Vsock/Frames.antt =====
-- vsock.rs: a frame that was encoded is decoded again.
use Prim.Native.Nat.{min}
use bigtop.Common.{
  ℕ, ◌+◌, ◌/◌, ◌%◌, ◌≤◌, ◌<◌, ◌≡◌, ap, ◌∙◌, some, List, ◌++◌, length, arith, length-append,
  take-append_len, drop-append_len,
}
use bigtop.Agent.Vsock.{
  max_frame_payload, u32_max, LogStream, LogFrame, Decoded, to_u8, from_u8, from_be_bytes, encode,
  decode, decode_body,
}

from_be_bytes-be_bytes :
    (n : ℕ)
    → n ≤ u32_max
    → from_be_bytes (n / 16_777_216 % 256) (n / 65_536 % 256) (n / 256 % 256) (n % 256) ≡ n
from_be_bytes-be_bytes n h = omega arith

from_u8-to_u8 : (stream : LogStream) → from_u8 (to_u8 stream) ≡ some stream
unfolding from_u8 to_u8
from_u8-to_u8 stream = ground arith

decode_body-encoded :
    (f : LogFrame) (rest : List ℕ)
    → length f.payload ≤ max_frame_payload
    → decode_body (length f.payload + 1) (to_u8 f.stream) (f.payload ++ rest) ≡ Decoded.frame f rest
unfolding decode_body
decode_body-encoded f rest h = ground (
  arith,
  from_u8-to_u8 f.stream,
  length-append f.payload rest,
  take-append_len f.payload rest,
  drop-append_len f.payload rest,
)

decode_body-long :
    (len selector : ℕ) (rest : List ℕ)
    → max_frame_payload + 1 < len
    → decode_body len selector rest ≡ Decoded.bad_length len
unfolding decode_body
decode_body-long len selector rest h = ground arith

-- A log frame with a payload of at most 1 MiB is decoded as it was encoded, whatever bytes follow
-- it, and those bytes are left for the next frame.
pub decode-encode :
    (f : LogFrame) (rest : List ℕ)
    → length f.payload ≤ max_frame_payload
    → decode (encode f ++ rest) ≡ Decoded.frame f rest
unfolding decode encode
decode-encode f rest h =
    ap (λ n. decode_body n (to_u8 f.stream) (f.payload ++ rest))
      (from_be_bytes-be_bytes (min (length f.payload + 1) u32_max) (omega arith) ∙ fits)
    ∙ decode_body-encoded f rest h
  where
    fits : min (length f.payload + 1) u32_max ≡ length f.payload + 1
    fits = omega (arith, h)

-- A frame with a longer payload is refused by its length.
decode-encode_long :
    (f : LogFrame) (rest : List ℕ)
    → max_frame_payload < length f.payload
    → decode (encode f ++ rest) ≡ Decoded.bad_length (min (length f.payload + 1) u32_max)
unfolding decode encode
decode-encode_long f rest h =
    ap (λ n. decode_body n (to_u8 f.stream) (f.payload ++ rest))
      (from_be_bytes-be_bytes (min (length f.payload + 1) u32_max) (omega arith))
    ∙ decode_body-long (min (length f.payload + 1) u32_max) (to_u8 f.stream) (f.payload ++ rest)
        (omega (arith, h))
