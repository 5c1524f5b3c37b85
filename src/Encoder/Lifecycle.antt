-- ===== src/Encoder/Lifecycle.antt =====
-- libagorac/helpers/agoraencoder.cpp: the constructor of `AgoraEncoder`, `init` and the destructor,
-- as far as the pointers go; with the decoder's, as `agora_init` of libagorac/agorac.cpp calls them.
use server_side_custom_video.Prelude.{◌≡◌, Bool, true, false, not, ◌&&◌, if◌then◌else◌, arith}
use server_side_custom_video.Decoder.Lifecycle.{
  DecoderMembers, Pointer, unset, null_pointer, allocated, InitCalls, freed, wild, constructed,
  init_members, destroy,
}

pub record EncoderMembers : Type 0 where
  pub codec : Pointer
  pub scale_context : Pointer
  -- whether `x264_picture_alloc` has filled `m_avInputFrame`
  pub has_picture : Bool

abbrev pub constructed_encoder : EncoderMembers
constructed_encoder = record { codec = unset; scale_context = null_pointer; has_picture = false }

-- which of `x264_encoder_open` and `sws_getContext` succeed
unfoldable pub init_encoder : (opens has_scaler : Bool) → EncoderMembers → Bool × EncoderMembers
init_encoder opens has_scaler m =
    if not opens then (false, record m { codec = null_pointer }) else (
      true,
      record {
        codec = allocated;
        scale_context = if has_scaler then allocated else null_pointer;
        has_picture = true;
      },
    )

abbrev pub is_allocated : Pointer → Bool
is_allocated unset = false
is_allocated null_pointer = false
is_allocated allocated = true

-- What the destructor comes to: nothing to free, the encoder with or without a scaler, or a use of
-- a pointer that was never set.
pub data EncoderClosed : Type 0 where
  untouched : EncoderClosed
  closed : (scaler : Bool) → EncoderClosed
  wild_encoder : EncoderClosed

-- the destructor
unfoldable pub destroy_encoder : EncoderMembers → EncoderClosed
destroy_encoder m = elim m.codec [
  | unset ↦ wild_encoder
  | null_pointer ↦ untouched
  | allocated ↦ closed (is_allocated m.scale_context)
]

-- `!ctx->videoDecoder->init() || !ctx->videoEncoder->init()`, on new objects
unfoldable pub init_codecs :
    InitCalls → (opens has_scaler : Bool) → Bool × DecoderMembers × EncoderMembers
init_codecs c opens has_scaler =
    let (ok, decoder) = init_members c constructed in
    let (good, encoder) = init_encoder opens has_scaler constructed_encoder in
    if ok then (good, decoder, encoder) else (false, decoder, constructed_encoder)

-- the calls of the decoder up to `avcodec_open2`
abbrev pub opens_decoder : InitCalls → Bool
opens_decoder c = c.finds_decoder && c.allocates_context && c.opens

-- The set-up of the codecs succeeds exactly if each call but that for the scaler does. The
-- destructor of the decoder then frees its context and its frame, and that of the encoder closes it,
-- with the scaler if there is one. If the set-up fails, the decoder's destructor is safe exactly if
-- the decoder could be opened, and the encoder's exactly if the decoder is complete; else it uses a
-- pointer that was never set.
pub codecs-destroyed :
    (c : InitCalls) (opens has_scaler : Bool)
    → let (ok, decoder, encoder) = init_codecs c opens has_scaler in
      (ok ≡ (opens_decoder c && c.allocates_frame && opens))
      × (destroy decoder ≡ (if opens_decoder c then freed true c.allocates_frame else wild))
      × (destroy_encoder encoder ≡ (
          if opens_decoder c && c.allocates_frame
          then (if opens then closed has_scaler else untouched)
          else wild_encoder))
unfolding init_codecs init_members init_encoder destroy destroy_encoder
codecs-destroyed c opens has_scaler = ground arith
