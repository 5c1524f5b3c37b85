-- ===== src/Video/Tests.antt =====
-- The video path on concrete messages.
use server_side_custom_video.Video.Sync.{get_video_sync_bytes_pos}
use server_side_custom_video.Prelude.{
  ℕ, ◌≤◌, ◌≡◌, refl, true, [], ◌∷◌, ◌++◌, Option, some, Bytes, arith,
}
use server_side_custom_video.Chain.{Chain, custom_copy, skip_drained}
use server_side_custom_video.Chain.Copy.{flat, read, custom_copy_refines}
use server_side_custom_video.Words.{big_endian, little_endian, load}
use server_side_custom_video.Video.Out.{hls_bufsize, append_aud, fresh_out, put}
use server_side_custom_video.Video.ParamSets.{
  append_sps_pps, append_header, copy_param_sets, copy_nals, copy_nal, copy_set, done, fetch,
  need_room, store, ◌>>=◌,
}
use server_side_custom_video.Video.ParamSets.Sets.{printed_sets, append_sps_pps_lem}
use server_side_custom_video.Video.Convert.{
  Flow, Status, go, leave, avcc_to_annexb, after_header, read_header, loop, step, nal_unit,
  place_nal, write_nal, copy_body, add_aud, add_sps_pps,
}
use server_side_custom_video.Video.Convert.Loop.{avcc_to_annexb-ends, length-avcc_to_annexb}
use server_side_custom_video.Video.Send.{VideoCall, send_video, IsAccounted, send_video-IsAccounted}
use server_side_custom_video.Video.AnnexB.{nal, pieces}
use server_side_custom_video.Video.AnnexB.Message.{
  annexb, avcc_to_annexb_lem, avcc_to_annexb-one_byte_unit,
}
use server_side_custom_video.Video.Sample.{
  nginx, nginx-Reverses, sps_set, pps_set, h264_codec, units, keyframe_chain, h264_codec-IsH264,
}

keyframe_frame :
    avcc_to_annexb nginx (some h264_codec) 28 keyframe_chain
    ≡ some (
        go (
          0 ∷ 0 ∷ 0 ∷ 1 ∷ 0x09 ∷ 0xf0 ∷ 0 ∷ 0 ∷ 1 ∷ 0x06 ∷ 5 ∷ 0 ∷ 0 ∷ 0 ∷ 1 ∷ 0x67 ∷ 0x42 ∷ 0 ∷ 0
          ∷ 0 ∷ 1 ∷ 0x68 ∷ 0xce ∷ 0 ∷ 0 ∷ 1 ∷ 0x65 ∷ 0x88 ∷ 0x84 ∷ []))
unfolding avcc_to_annexb after_header read_header custom_copy skip_drained loop step load nal_unit
    place_nal write_nal copy_body add_aud add_sps_pps append_aud append_sps_pps append_header
    copy_param_sets copy_nals copy_nal copy_set done fetch need_room store ◌>>=◌
keyframe_frame = refl

custom_copy_refines_example :
    flat (custom_copy 3 ((1 ∷ []) ∷ [] ∷ (2 ∷ 3 ∷ []) ∷ [])) ≡ some (1 ∷ 2 ∷ 3 ∷ [], [])
unfolding read
custom_copy_refines_example = custom_copy_refines 3 ((1 ∷ []) ∷ [] ∷ (2 ∷ 3 ∷ []) ∷ []) (λ e. cc)

avcc_to_annexb_lem_example :
    avcc_to_annexb nginx (some h264_codec) 28 keyframe_chain
    ≡ some (go (annexb (sps_set ∷ []) (pps_set ∷ []) units))
unfolding big_endian little_endian pieces
avcc_to_annexb_lem_example =
    avcc_to_annexb_lem nginx (sps_set ∷ []) (pps_set ∷ []) h264_codec units 0x17 (0 ∷ 0 ∷ 0 ∷ []) 28
      keyframe_chain nginx-Reverses h264_codec-IsH264 (omega arith) (omega arith) refl refl
      (omega arith)

-- an end of sequence, one byte long, behind the IDR slice
abbrev ended_chain : Chain
ended_chain =
    (0x17 ∷ 1 ∷ 0 ∷ 0 ∷ 0 ∷ 0 ∷ 0 ∷ 0 ∷ 3 ∷ 0x65 ∷ 0x88 ∷ 0x84 ∷ 0 ∷ 0 ∷ 0 ∷ 1 ∷ 0x0a ∷ []) ∷ []

avcc_to_annexb-one_byte_unit_example :
    (r : Status) × (avcc_to_annexb nginx (some h264_codec) 17 ended_chain ≡ some (leave r))
unfolding big_endian little_endian pieces
avcc_to_annexb-one_byte_unit_example =
    avcc_to_annexb-one_byte_unit nginx (sps_set ∷ []) (pps_set ∷ []) h264_codec
      (nal 0x65 (0x88 ∷ 0x84 ∷ []) ∷ []) 0x0a 0x17 (0 ∷ 0 ∷ 0 ∷ []) 17 ended_chain nginx-Reverses
      h264_codec-IsH264 (omega arith) (omega arith) refl refl (omega arith)

avcc_to_annexb-ends_example :
    (r : Flow Bytes) × (avcc_to_annexb nginx (some h264_codec) 28 keyframe_chain ≡ some r)
avcc_to_annexb-ends_example = avcc_to_annexb-ends nginx h264_codec 28 keyframe_chain (omega arith)

append_sps_pps_lem_example :
    append_sps_pps nginx (some h264_codec) fresh_out
    ≡ (true, put fresh_out (printed_sets (sps_set ∷ []) ++ printed_sets (pps_set ∷ [])))
append_sps_pps_lem_example =
    append_sps_pps_lem nginx nginx-Reverses (sps_set ∷ []) (pps_set ∷ []) h264_codec fresh_out
      h264_codec-IsH264.config (omega arith)

send_video-IsAccounted_example :
    (r : Option VideoCall × ℕ) × (send_video nginx true (some h264_codec) 28 40 keyframe_chain
      ≡ some r)
    × IsAccounted true r
send_video-IsAccounted_example =
    send_video-IsAccounted nginx true h264_codec 28 40 keyframe_chain (omega arith)

length-avcc_to_annexb_example : 29 ≤ hls_bufsize
length-avcc_to_annexb_example =
    length-avcc_to_annexb nginx (some h264_codec) 28 keyframe_chain
      (0 ∷ 0 ∷ 0 ∷ 1 ∷ 0x09 ∷ 0xf0 ∷ 0 ∷ 0 ∷ 1 ∷ 0x06 ∷ 5 ∷ 0 ∷ 0 ∷ 0 ∷ 1 ∷ 0x67 ∷ 0x42 ∷ 0 ∷ 0 ∷ 0
        ∷ 1 ∷ 0x68 ∷ 0xce ∷ 0 ∷ 0 ∷ 1 ∷ 0x65 ∷ 0x88 ∷ 0x84 ∷ [])
      keyframe_frame

-- the start codes of three and of four bytes
long_start_code : get_video_sync_bytes_pos (0 ∷ 0 ∷ 0 ∷ 1 ∷ []) ≡ some 4
unfolding get_video_sync_bytes_pos
long_start_code = refl

short_start_code : get_video_sync_bytes_pos (0 ∷ 0 ∷ 1 ∷ []) ≡ some 3
unfolding get_video_sync_bytes_pos
short_start_code = refl
