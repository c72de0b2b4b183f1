-- ===== src/Gateway/Frames.antt =====
-- The length-prefixed frames of backend/services/ws-gateway/protocol.go, for both of the types that
-- have them: ServerEvent and ClientMessage.
pub mod Sockets
use constell.Prelude.{
  ℕ, zero, suc, ◌+◌, ◌*◌, ◌/◌, ◌%◌, ◌^◌, ◌<◌, ◌≡◌, refl, sym, ap, ◌∙◌, ◌⊎◌, inl, inr, false, Option,
  none, some, List, [], ◌∷◌, ◌++◌, arith, ltb, if◌then◌else◌, lt→ltb, le→ltb, nat_eq, string_eq,
  length, take, drop, length-append, length-take, take-length-append,
}
use constell.Prelude.Exec.{Result, ok, err}

-- proto.Marshal and proto.Unmarshal, and what their documentation says of them.
pub record Codec (M : Type 0) : Type 0 where
  pub marshal : M → Option (List ℕ)
  pub unmarshal : List ℕ → Option M
  pub unmarshal-marshal :
      (m : M) (payload : List ℕ) → marshal m ≡ some payload → unmarshal payload ≡ some m

pub data FrameError : Type 0 where
  marshal_failed : FrameError
  too_short : FrameError
  length_mismatch : FrameError
  unmarshal_failed : FrameError

abbrev pub frame_header_size : ℕ
frame_header_size = 4

-- binary.BigEndian.PutUint32 and Uint32; bytes past the four are not looked at.
unfoldable pub put_uint32 : ℕ → List ℕ
put_uint32 v = v / 2 ^ 24 % 256 ∷ v / 2 ^ 16 % 256 ∷ v / 2 ^ 8 % 256 ∷ v % 256 ∷ []

unfoldable pub uint32 : List ℕ → ℕ
uint32 (a ∷ b ∷ c ∷ d ∷ rest) = a * 2 ^ 24 + b * 2 ^ 16 + c * 2 ^ 8 + d
uint32 rest = 0

abbrev as_frame : List ℕ → Result FrameError (List ℕ)
as_frame frame = ok frame

ok-injective : {x y : List ℕ} → as_frame x ≡ as_frame y → x ≡ y
ok-injective h = cc

module _ {M : Type 0} (codec : Codec M) where
  framed : Option (List ℕ) → Result FrameError (List ℕ)
  unfolding put_uint32
  framed none = err marshal_failed
  framed (some payload) = ok (put_uint32 (length payload % 2 ^ 32) ++ payload)

  -- EncodeFrame, EncodeClientFrame
  unfoldable pub encode_frame : M → Result FrameError (List ℕ)
  unfolding framed
  encode_frame msg = framed (codec.marshal msg)

  decoded : Option M → Result FrameError M
  decoded none = err unmarshal_failed
  decoded (some msg) = ok msg

  -- DecodeFrame, DecodeClientFrame
  unfoldable pub decode_frame : List ℕ → Result FrameError M
  unfolding decoded uint32
  decode_frame bytes =
      if ltb (length bytes) frame_header_size
      then err too_short
      else let size : ℕ = uint32 (take frame_header_size bytes) in
        let payload : List ℕ = drop frame_header_size bytes in
        if ltb (length payload) size
        then err length_mismatch
        else decoded (codec.unmarshal (take size payload))

  uint32-put_uint32 :
      (v : ℕ) (rest : List ℕ) → v < 2 ^ 32 → uint32 (take 4 (put_uint32 v ++ rest)) ≡ v
  unfolding uint32 put_uint32
  uint32-put_uint32 v rest h = omega arith

  -- Four bytes of header, and what the decoder makes of the rest.
  decode_frame_lem :
      (v : ℕ) (rest : List ℕ)
      → v < 2 ^ 32
      → decode_frame (put_uint32 v ++ rest) ≡ (
          if ltb (length rest) v
          then err length_mismatch
          else decoded (codec.unmarshal (take v rest)))
  unfolding decode_frame put_uint32
  decode_frame_lem v rest h =
      let long : ltb (length (put_uint32 v ++ rest)) frame_header_size ≡ false =
        le→ltb (length (put_uint32 v ++ rest)) frame_header_size (omega arith) in
      rw (uint32-put_uint32 v rest h, long) refl

  -- A message that the protobuf library marshals to less than 4 GB is encoded as a frame, and
  -- decoding the frame gives the message back, whatever bytes follow.
  pub decode_frame-encode_frame :
      (msg : M) (payload trailing : List ℕ)
      → codec.marshal msg ≡ some payload
      → length payload < 2 ^ 32
      → (frame : List ℕ) × (encode_frame msg ≡ ok frame)
        × (decode_frame (frame ++ trailing) ≡ ok msg)
  unfolding encode_frame framed decoded
  decode_frame-encode_frame msg payload trailing h small =
      let whole : length payload % 2 ^ 32 ≡ length payload = omega arith in
      (
        put_uint32 (length payload % 2 ^ 32) ++ payload,
        rw h refl,
        decode_frame_lem (length payload % 2 ^ 32) (payload ++ trailing) (omega arith)
            ∙ rw
                (
                  whole,
                  le→ltb (length (payload ++ trailing)) (length payload)
                      (omega (arith, length-append payload trailing)),
                  take-length-append payload trailing,
                  codec.unmarshal-marshal msg payload h,
                )
                refl,
      )

  cut_payload :
      (v n : ℕ) (payload : List ℕ)
      → v < 2 ^ 32
      → n < v
      → decode_frame (put_uint32 v ++ take n payload) ≡ err length_mismatch
  cut_payload v n payload small short =
      decode_frame_lem v (take n payload) small
      ∙ rw (lt→ltb (length (take n payload)) v (omega (arith, length-take n payload))) refl

  cut_frame :
      (v n : ℕ) (payload : List ℕ)
      → v < 2 ^ 32
      → n < 4 + v
      → (decode_frame (take n (put_uint32 v ++ payload)) ≡ err too_short)
        ⊎ (decode_frame (take n (put_uint32 v ++ payload)) ≡ err length_mismatch)
  unfolding decode_frame put_uint32
  cut_frame v zero payload small short = inl refl
  cut_frame v (suc zero) payload small short = inl refl
  cut_frame v (suc (suc zero)) payload small short = inl refl
  cut_frame v (suc (suc (suc zero))) payload small short = inl refl
  cut_frame v (suc (suc (suc (suc n)))) payload small short =
      inr (cut_payload v n payload small (omega arith))

  -- Every proper prefix of a frame, of a message of less than 4 GB, is refused as too short or
  -- for its length.
  pub decode_frame-take :
      (msg : M) (payload frame : List ℕ) (n : ℕ)
      → codec.marshal msg ≡ some payload
      → length payload < 2 ^ 32
      → encode_frame msg ≡ ok frame
      → n < length frame
      → (decode_frame (take n frame) ≡ err too_short)
        ⊎ (decode_frame (take n frame) ≡ err length_mismatch)
  unfolding encode_frame framed
  decode_frame-take msg payload frame n h small encoded short =
      let encoding : List ℕ = put_uint32 (length payload % 2 ^ 32) ++ payload in
      let at : encode_frame msg ≡ ok encoding = rw h refl in
      let same : frame ≡ encoding = ok-injective (sym encoded ∙ at) in
      let size : length frame ≡ 4 + length payload = ap length same ∙ omega arith in
      rw same (cut_frame (length payload % 2 ^ 32) n payload (omega arith) (omega (arith, size)))
