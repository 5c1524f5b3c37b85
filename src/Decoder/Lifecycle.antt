-- ===== src/Decoder/Lifecycle.antt =====
-- libagorac/helpers/agoradecoder.cpp: the constructor of `AgoraDecoder`, `init_members` and the destructor,
-- as far as the pointers go.
use server_side_custom_video.Prelude.{Bool, true, false, not, if◌then◌else◌}

-- A pointer member; the constructor does not set them.
pub data Pointer : Type 0 where
  unset null_pointer allocated : Pointer

pub record DecoderMembers : Type 0 where
  pub codec : Pointer
  pub context : Pointer
  pub out_frame : Pointer

-- which calls of libavcodec succeed
pub record InitCalls : Type 0 where
  pub finds_decoder : Bool
  pub allocates_context : Bool
  pub opens : Bool
  pub allocates_frame : Bool

abbrev pub constructed : DecoderMembers
constructed = record { codec = unset; context = unset; out_frame = unset }

unfoldable pub init_members : InitCalls → DecoderMembers → Bool × DecoderMembers
init_members c m =
    if not c.finds_decoder
    then (false, record m { codec = null_pointer })
    else if not c.allocates_context
    then (false, record m { codec = allocated; context = null_pointer })
    else if not c.opens
    then (false, record m { codec = allocated; context = allocated })
    else if not c.allocates_frame
    then (false, record { codec = allocated; context = allocated; out_frame = null_pointer })
    else (true, record { codec = allocated; context = allocated; out_frame = allocated })

-- What the destructor comes to: whether it has freed a context and a frame, or a use of a pointer
-- that was never set.
pub data Destroyed : Type 0 where
  freed : (context frame : Bool) → Destroyed
  wild : Destroyed

abbrev pub free_frame : (context : Bool) → Pointer → Destroyed
free_frame context unset = wild
free_frame context null_pointer = freed context false
free_frame context allocated = freed context true

-- the destructor; `avcodec_close` takes a null pointer
unfoldable pub destroy : DecoderMembers → Destroyed
destroy m = elim m.context [
  | unset ↦ wild
  | null_pointer ↦ free_frame false m.out_frame
  | allocated ↦ free_frame true m.out_frame
]
