-- ===== src/Video/AnnexB/Pieces.antt =====
-- Laws of the printed form.
use server_side_custom_video.Prelude.{
  ◌≤◌, ◌≡◌, refl, List, [], ◌∷◌, ◌++◌, Bytes, arith, length, length-append,
}
use server_side_custom_video.Video.Out.{aud_nal}
use server_side_custom_video.Video.Convert.{start_code}
use server_side_custom_video.Video.AnnexB.{Piece, delimiter, param_sets, coded, print, prints}

pub prints-append :
    (sets before : Bytes) (ps qs : List Piece)
    → prints sets before (ps ++ qs) ≡ prints sets (prints sets before ps) qs
prints-append sets before [] qs = refl
prints-append sets before (p ∷ ps) qs = prints-append sets (print sets before p) ps qs

length-print : (sets before : Bytes) (p : Piece) → length before ≤ length (print sets before p)
length-print sets before delimiter = omega (arith, length-append before aud_nal)
length-print sets before param_sets = omega (arith, length-append before sets)
length-print sets before (coded header body) = omega (
  arith,
  length-append before (start_code before),
  length-append (before ++ start_code before) (header ∷ body),
  length-append before (start_code before ++ header ∷ body),
)

-- Printing only adds.
pub length-prints :
    (sets before : Bytes) (ps : List Piece) → length before ≤ length (prints sets before ps)
length-prints sets before [] = omega arith
length-prints sets before (p ∷ ps) =
    omega (arith, length-print sets before p, length-prints sets (print sets before p) ps)
