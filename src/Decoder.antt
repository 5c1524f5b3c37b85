-- ===== src/Decoder.antt =====
-- libagorac/helpers/agoradecoder.cpp: `AgoraDecoder::decode` and `copyDeocodedFrame`, over
-- libavcodec as an interface.
pub mod Copy
pub mod Lifecycle
mod Tests
use server_side_custom_video.Prelude.{
  ℕ, zero, suc, ◌+◌, ◌*◌, ◌/◌, Bool, true, false, Option, none, some, Bytes, if◌then◌else◌,
}
use server_side_custom_video.Audio.Memory.{read_at, write_at, ◌>>=◌}

-- What `decode` uses of libavcodec.
pub record Library : Type 1 where
  pub Context : Type 0
  pub Frame : Type 0
  -- `avcodec_send_packet`, and whether it returns 0
  pub send_packet : Context → Bytes → Context × Bool
  -- `avcodec_receive_frame` into a frame, and whether it returns 0
  pub receive_frame : Context → Frame → Context × Bool × Frame

module _ (L : Library) where
  -- the members that `decode` changes
  pub record AgoraDecoder : Type 0 where
    pub context : L.Context
    pub out_frame : L.Frame

  abbrev pub after_receive : L.Context × Bool × L.Frame → Bool × AgoraDecoder
  after_receive (context, ok, frame) = (ok, record { context = context; out_frame = frame })

  abbrev pub after_send : L.Context × Bool → L.Frame → Bool × AgoraDecoder
  after_send (context, ok) frame =
      if ok
      then after_receive (L.receive_frame context frame)
      else (false, record { context = context; out_frame = frame })

  unfoldable pub decode : Bytes → AgoraDecoder → Bool × AgoraDecoder
  decode packet d = after_send (L.send_packet d.context packet) d.out_frame

-- One plane of a picture: so many bytes from each line to the next.
pub record Plane : Type 0 where
  pub bytes : Bytes
  pub line_size : ℕ

pub record Picture : Type 0 where
  pub width : ℕ
  pub height : ℕ
  pub y : Plane
  pub u : Plane
  pub v : Plane

-- a loop of `copyDeocodedFrame`, so many lines from `at` on, `width` bytes of each; none is an
-- access past the plane or the buffer
unfoldable pub copy_lines : (lines width at : ℕ) → Plane → Bytes → (total : ℕ) → Option (Bytes × ℕ)
copy_lines zero width at plane buffer total = some (buffer, total)
copy_lines (suc lines) width at plane buffer total = read_at plane.bytes at width >>= λ line.
    write_at buffer total line >>= λ next.
    copy_lines lines width (at + plane.line_size) plane next (total + width)

-- `copyDeocodedFrame`: the buffer and the bytes written to it
unfoldable pub copy_decoded_frame : Picture → Bytes → Option (Bytes × ℕ)
copy_decoded_frame picture buffer =
    copy_lines picture.height picture.width 0 picture.y buffer 0 >>= λ (b1, n1).
    copy_lines (picture.height / 2) (picture.width / 2) 0 picture.u b1 n1 >>= λ (b2, n2).
    copy_lines (picture.height / 2) (picture.width / 2) 0 picture.v b2 n2
