-- ===== src/Video/AnnexB.antt =====
-- What an Annex B frame is, without the code: the length-prefixed form of a message, the units of
-- the frame in their order, and their bytes.
pub mod Pieces
pub mod Unit
pub mod Round
pub mod Frame
pub mod Message
use server_side_custom_video.Prelude.{
  ℕ, ◌+◌, ◌%◌, ◌^◌, ◌<◌, Bool, not, ◌&&◌, ◌||◌, List, [], ◌∷◌, ◌++◌, Bytes, leb, ◌==◌,
  if◌then◌else◌, length,
}
use server_side_custom_video.Words.{big_endian}
use server_side_custom_video.Video.Out.{aud_nal}
use server_side_custom_video.Video.Convert.{start_code}

-- What stands in a message: NAL units, each a header byte and a body, and empty ones.
pub data Item : Type 0 where
  blank : Item
  nal : ℕ → Bytes → Item

-- the message in AVCC form, with lengths of `k` bytes
abbrev pub avcc : ℕ → List Item → Bytes
avcc k [] = []
avcc k (blank ∷ items) = big_endian k 0 ++ avcc k items
avcc k (nal header body ∷ items) = big_endian k (length body + 1) ++ header ∷ (body ++ avcc k items)

-- The length of a unit fits its field, and its body is not empty.
abbrev pub IsCoded : ℕ → Item → Type 0
IsCoded k blank = Unit {0}
IsCoded k (nal header body) = (0 < length body) × (length body + 1 < 256 ^ k)

abbrev pub nal_type : ℕ → ℕ
nal_type header = header % 2 ^ 5

-- SPS, PPS and access unit delimiters of the message itself are dropped.
abbrev pub is_dropped : ℕ → Bool
is_dropped t = leb 7 t && leb t 9

-- slices of a picture, IDR or not, and SEI
abbrev pub opens_unit : ℕ → Bool
opens_unit t = t == 1 || t == 5 || t == 6

pub data Piece : Type 0 where
  delimiter param_sets : Piece
  coded : ℕ → Bytes → Piece

-- A delimiter stands in front of the first slice or SEI.
abbrev pub delimit : Bool → ℕ → List Piece
delimit aud t = if not aud && opens_unit t then delimiter ∷ [] else []

-- Parameter sets stand in front of an IDR slice, unless they do already: a non-IDR slice since
-- then calls for them again.
abbrev pub refresh : Bool → ℕ → List Piece
refresh sets t = if not sets && t == 5 then param_sets ∷ [] else []

abbrev pub still_fresh : Bool → ℕ → Bool
still_fresh sets t = t == 5 || sets && not (t == 1)

-- the pieces of the frame, given whether a delimiter and parameter sets stand already
unfoldable pub pieces : Bool → Bool → List Item → List Piece
pieces aud sets [] = []
pieces aud sets (blank ∷ items) = pieces aud sets items
pieces aud sets (nal header body ∷ items) =
    let t = nal_type header in
    if is_dropped t
    then pieces aud sets items
    else delimit aud t
      ++ refresh sets t
      ++ coded header body ∷ pieces (aud || opens_unit t) (still_fresh sets t) items

-- A piece is printed behind what stands before it: the first start code has four bytes.
abbrev pub print : Bytes → Bytes → Piece → Bytes
print sets before delimiter = before ++ aud_nal
print sets before param_sets = before ++ sets
print sets before (coded header body) = before ++ start_code before ++ header ∷ body

abbrev pub prints : Bytes → Bytes → List Piece → Bytes
prints sets before [] = before
prints sets before (p ∷ ps) = prints sets (print sets before p) ps
