-- ===== src/Gateway/Frames/Sockets.antt =====
-- ReadMessage and WriteMessage of backend/services/ws-gateway/protocol.go, over a socket of messages.
use constell.Prelude.{
  ℕ, ◌^◌, ◌<◌, ◌≡◌, sym, ap, ◌∙◌, Bool, true, false, Option, none, some, List, [], nat_eq,
  string_eq, length,
}
use mathlib.Core.List.{append-nil}
use constell.Prelude.Exec.{Result, ok, err}
use constell.Gateway.Frames.{
  Codec, FrameError, encode_frame, decode_frame, decode_frame-encode_frame,
}

-- What comes over a WebSocket: the data of a binary message, or another type of message.
pub data SocketMessage : Type 0 where
  binary : List ℕ → SocketMessage
  other_type : List ℕ → SocketMessage

pub data MessageError : Type 0 where
  socket_failed : MessageError
  not_binary : MessageError
  frame_failed : FrameError → MessageError

abbrev or_frame_failed : {M : Type 0} → Result FrameError M → Result MessageError M
or_frame_failed (ok msg) = ok msg
or_frame_failed (err e) = err (frame_failed e)

module _ {M : Type 0} (codec : Codec M) where
  -- ReadMessage; none is a read that fails.
  unfoldable pub read_message : Option SocketMessage → Result MessageError M
  unfolding decode_frame
  read_message none = err socket_failed
  read_message (some (other_type bytes)) = err not_binary
  read_message (some (binary bytes)) = or_frame_failed (decode_frame codec bytes)

  module _ {W : Type 0} (write : SocketMessage → W → Bool × W) where
    abbrev pub write_result : Bool × W → Result MessageError (Unit {0}) × W
    write_result (true, w) = (ok tt, w)
    write_result (false, w) = (err socket_failed, w)

    abbrev pub write_encoded : Result FrameError (List ℕ) → W → Result MessageError (Unit {0}) × W
    write_encoded (ok frame) w = write_result (write (binary frame) w)
    write_encoded (err e) w = (err (frame_failed e), w)

    -- WriteMessage
    unfoldable pub write_frame : M → W → Result MessageError (Unit {0}) × W
    unfolding encode_frame
    write_frame msg w = write_encoded (encode_frame codec msg) w

  -- A message that the protobuf library marshals to less than 4 GB goes out as one binary message,
  -- and ReadMessage reads that message as the one written.
  pub read_message-write_frame :
      {W : Type 0} (write : SocketMessage → W → Bool × W) (msg : M) (payload : List ℕ) (w : W)
      → codec.marshal msg ≡ some payload
      → length payload < 2 ^ 32
      → (sent : SocketMessage) × (write_frame write msg w ≡ write_result write (write sent w))
        × (read_message (some sent) ≡ ok msg)
  unfolding read_message write_frame
  read_message-write_frame write msg payload w h small =
      let (frame, encoded, decoded) = decode_frame-encode_frame codec msg payload [] h small in
      (
        binary frame,
        ap (λ r. write_encoded write r w) encoded,
        ap or_frame_failed (ap (decode_frame codec) (sym (append-nil frame)) ∙ decoded),
      )
