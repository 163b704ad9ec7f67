-- ===== src/Protocol/Frames.antt =====
-- Frames (src/protocol.rs): what is read back from what was written, and what is refused.
use mtack.Base.{
  ℕ, suc, zero, ◌^◌, ◌/◌, ◌%◌, ◌≤◌, ◌<◌, ◌≡◌, refl, ◌∷◌, ◌++◌, Bytes, arith, length, take,
  length-append, length-drop, ◌*◌, ◌+◌, [], length-take, take-length-append, drop-length-append,
  lt→ltb,
}
use mtack.Base.Results.{ok, err}
use mtack.Protocol.{
  unexpected_eof, invalid_data, max_frame_len, write_frame, read_exact, read_payload, read_frame,
  encode_size, decode_size, read_u8, read_u32,
}

read_exact-append : (xs rest : Bytes) → read_exact (length xs) (xs ++ rest) ≡ ok (xs, rest)
unfolding read_exact
read_exact-append xs rest =
    ground (arith, length-append xs rest, take-length-append xs rest, drop-length-append xs rest)

-- A frame of at most 16 MiB is read back whole, whatever follows it in the stream.
pub read_frame-write_frame :
    (tag : ℕ) (payload rest : Bytes) {bytes : Bytes}
    → length payload ≤ max_frame_len
    → write_frame tag payload ≡ ok bytes
    → read_frame (bytes ++ rest) ≡ ok ((tag, payload), rest)
unfolding write_frame read_frame read_payload
read_frame-write_frame tag payload rest h w = ground (arith, read_exact-append payload rest)

take_payload :
    (tag : ℕ) (payload : Bytes) (j : ℕ)
    → j < length payload
    → length payload ≤ max_frame_len
    → read_payload tag (length payload) (take j payload) ≡ err unexpected_eof
unfolding read_payload read_exact
take_payload tag payload j h m = ground (arith, length-take j payload)

-- A frame that is cut short anywhere, even inside its header, gives the end-of-file error and no
-- message.
read_frame_cut :
    (tag : ℕ) (payload : Bytes) (k : ℕ) {bytes : Bytes}
    → length payload ≤ max_frame_len
    → write_frame tag payload ≡ ok bytes
    → k < length bytes
    → read_frame (take k bytes) ≡ err unexpected_eof
unfolding write_frame read_frame
read_frame_cut tag payload zero h w l = refl
read_frame_cut tag payload (suc zero) h w l = ground arith
read_frame_cut tag payload (suc (suc zero)) h w l = ground arith
read_frame_cut tag payload (suc (suc (suc zero))) h w l = ground arith
read_frame_cut tag payload (suc (suc (suc (suc zero)))) h w l = ground arith
read_frame_cut tag payload (suc (suc (suc (suc (suc j))))) h w l =
    ground (arith, take_payload tag payload j)

pub write_frame_total :
    (tag : ℕ) (payload : Bytes)
    → length payload < 2 ^ 32
    → (bytes : Bytes) × (write_frame tag payload ≡ ok bytes)
unfolding write_frame
write_frame_total tag payload h = (
  tag
      ∷ (length payload / 2 ^ 24)
      ∷ (length payload / 2 ^ 16 % 256)
      ∷ (length payload / 2 ^ 8 % 256)
      ∷ (length payload % 256)
      ∷ payload,
  rw (lt→ltb (length payload) (2 ^ 32) h),
)

-- A payload above 16 MiB and below 4 GiB is written, and then refused by every reader.
pub read_frame_too_large :
    (tag : ℕ) (payload rest : Bytes) {bytes : Bytes}
    → max_frame_len < length payload
    → write_frame tag payload ≡ ok bytes
    → read_frame (bytes ++ rest) ≡ err (invalid_data "frame too large")
unfolding write_frame read_frame read_payload
read_frame_too_large tag payload rest h w = ground arith

pub decode_size-encode_size :
    (cols rows : ℕ) → decode_size (encode_size cols rows) ≡ ok (cols, rows)
unfolding decode_size encode_size
decode_size-encode_size cols rows = ground arith

read_payload-length :
    (tag len : ℕ) (stream : Bytes) (r : (ℕ × Bytes) × Bytes)
    → read_payload tag len stream ≡ ok r
    → length r.1 ≤ length stream
unfolding read_payload read_exact
read_payload-length tag len stream r h = ground (arith, length-drop len stream)

-- A frame takes its header at least.
pub read_frame-length :
    (stream : Bytes) (r : (ℕ × Bytes) × Bytes)
    → read_frame stream ≡ ok r
    → length r.1 < length stream
unfolding read_frame read_u8 read_u32
read_frame-length [] r h = cc
read_frame-length (a ∷ []) r h = cc
read_frame-length (a ∷ b ∷ []) r h = cc
read_frame-length (a ∷ b ∷ c ∷ []) r h = cc
read_frame-length (a ∷ b ∷ c ∷ d ∷ []) r h = cc
read_frame-length (a ∷ b ∷ c ∷ d ∷ e ∷ bs) r h =
    omega (arith, read_payload-length a (b * 2 ^ 24 + c * 2 ^ 16 + d * 2 ^ 8 + e) bs r h)
