-- ===== src/Video/Sample.antt =====
-- A stream of nginx-rtmp-module with one key frame, for the tests.
use server_side_custom_video.Prelude.{refl, false, List, [], ◌∷◌, Bytes, arith, reverse}
use server_side_custom_video.Chain.{Chain}
use server_side_custom_video.Nginx.{Nginx, CodecCtx, Reverses}
use server_side_custom_video.Words.{big_endian, little_endian}
use server_side_custom_video.Video.AnnexB.{Item, nal, blank}
use server_side_custom_video.Video.AnnexB.Message.{IsH264}

-- nginx-rtmp-module as far as the code relies on it
abbrev pub nginx : Nginx
nginx = record {
  rmemcpy = λ bs. reverse bs;
  get_video_frame_type = λ c. 1;
  video_key_frame = 1;
  is_codec_header = λ c. false;
  video_h264 = 7;
  audio_aac = 10;
}

pub nginx-Reverses : Reverses nginx
nginx-Reverses bs = refl

abbrev pub sps_set : Bytes
sps_set = 0x67 ∷ 0x42 ∷ []

abbrev pub pps_set : Bytes
pps_set = 0x68 ∷ 0xce ∷ []

-- one SPS, with the reserved bits set in its count, and one PPS, cut in two buffers
abbrev pub config : Chain
config =
    (0x17 ∷ 0 ∷ 0 ∷ 0 ∷ 0 ∷ 1 ∷ 0x42 ∷ 0 ∷ 0x1e ∷ 0xff ∷ 0xe1 ∷ 0 ∷ [])
    ∷ (2 ∷ 0x67 ∷ 0x42 ∷ 1 ∷ 0 ∷ 2 ∷ 0x68 ∷ 0xce ∷ [])
    ∷ []

abbrev pub h264_codec : CodecCtx
h264_codec = record {
  avc_header = config;
  video_codec_id = 7;
  avc_nal_bytes = 4;
  aac_header = [];
  audio_codec_id = 10;
  sample_rate = 48000;
}

-- an SEI, a delimiter that is dropped, an empty unit and an IDR slice
abbrev pub units : List Item
units = nal 0x06 (5 ∷ []) ∷ nal 0x09 (0xf0 ∷ []) ∷ blank ∷ nal 0x65 (0x88 ∷ 0x84 ∷ []) ∷ []

-- cut in the middle of a length, with an empty buffer
abbrev pub keyframe_chain : Chain
keyframe_chain =
    (0x17 ∷ 1 ∷ 0 ∷ 0 ∷ 0 ∷ 0 ∷ 0 ∷ [])
    ∷ (0 ∷ 2 ∷ 0x06 ∷ 5 ∷ 0 ∷ 0 ∷ 0 ∷ 2 ∷ 0x09 ∷ 0xf0 ∷ 0 ∷ 0 ∷ 0 ∷ 0 ∷ [])
    ∷ []
    ∷ (0 ∷ 0 ∷ 0 ∷ 3 ∷ 0x65 ∷ 0x88 ∷ 0x84 ∷ [])
    ∷ []

pub h264_codec-IsH264 : IsH264 nginx (sps_set ∷ []) (pps_set ∷ []) h264_codec
unfolding big_endian little_endian
h264_codec-IsH264 = record {
  h264 = refl;
  field = omega arith;
  config = record {
    skipped = 0x17 ∷ 0 ∷ 0 ∷ 0 ∷ 0 ∷ 1 ∷ 0x42 ∷ 0 ∷ 0x1e ∷ 0xff ∷ [];
    sps_count = 0xe1;
    rest = [];
    ten = refl;
    counted = refl;
    layout = refl;
    good_sps = omega arith;
    good_pps = omega arith;
  };
}
