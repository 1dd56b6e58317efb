-- ===== src/Agent/Vsock.antt =====
-- crates/bigtop-agent/src/vsock.rs: the frames of the log channel between guest and agent. A byte is
-- a number; a reader is the list of the bytes that come before the peer closes.
pub mod Frames
pub mod Hub
pub mod Served
use Prim.Native.Nat.{min}
use bigtop.Common.{
  ℕ, ◌+◌, ◌-◌, ◌*◌, ◌/◌, ◌%◌, Bool, true, false, ◌||◌, Option, none, some, List, [], ◌∷◌, ◌++◌,
  length, take, drop, ltb, eqb, if◌then◌else◌,
}

abbrev pub max_frame_payload : ℕ
max_frame_payload = 1_048_576

abbrev pub u32_max : ℕ
u32_max = 4_294_967_295

pub data LogStream : Type 0 where
  handshake stdout stderr complete : LogStream

-- `stream as u8`
unfoldable pub to_u8 : LogStream → ℕ
to_u8 handshake = 0
to_u8 stdout = 1
to_u8 stderr = 2
to_u8 complete = 3

unfoldable pub from_u8 : ℕ → Option LogStream
from_u8 value =
    if eqb value 0
    then some handshake
    else (if eqb value 1
        then some stdout
        else (if eqb value 2 then some stderr else (if eqb value 3 then some complete else none)))

pub record LogFrame : Type 0 where
  pub stream : LogStream
  pub payload : List ℕ

-- `u32::to_be_bytes`, with more bytes behind.
abbrev pub be_bytes : ℕ → List ℕ → List ℕ
be_bytes n rest = n / 16_777_216 % 256 ∷ n / 65_536 % 256 ∷ n / 256 % 256 ∷ n % 256 ∷ rest

-- `u32::from_be_bytes`
abbrev pub from_be_bytes : ℕ → ℕ → ℕ → ℕ → ℕ
from_be_bytes b0 b1 b2 b3 = b0 * 16_777_216 + b1 * 65_536 + b2 * 256 + b3

unfoldable pub encode : LogFrame → List ℕ
unfolding to_u8
encode frame =
    be_bytes (min (length frame.payload + 1) u32_max) (to_u8 frame.stream ∷ frame.payload)

-- What `decode` returns: the end of the stream, a frame and the bytes that are left, or an error.
pub data Decoded : Type 0 where
  eof : Decoded
  frame : LogFrame → List ℕ → Decoded
  bad_length : ℕ → Decoded
  bad_stream : ℕ → Decoded
  truncated_header truncated_frame : Decoded

-- `decode` behind the header.
unfoldable pub decode_body : ℕ → ℕ → List ℕ → Decoded
unfolding from_u8
decode_body len selector rest =
    if eqb len 0 || ltb (max_frame_payload + 1) len
    then bad_length len
    else elim (from_u8 selector) [
      | none ↦ bad_stream selector
      | some stream ↦
          if ltb (length rest) (len - 1)
          then truncated_frame
          else frame (record { stream = stream; payload = take (len - 1) rest })
              (drop (len - 1) rest)
    ]

unfoldable pub decode : List ℕ → Decoded
unfolding decode_body
decode [] = eof
decode (b0 ∷ b1 ∷ b2 ∷ b3 ∷ selector ∷ rest) = decode_body (from_be_bytes b0 b1 b2 b3) selector rest
decode _ = truncated_header
