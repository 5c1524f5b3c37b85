-- ===== src/Decoder/Tests.antt =====
-- A picture of four by two, with a pitch of five.
use server_side_custom_video.Prelude.{
  ℕ, ◌+◌, ◌≡◌, refl, List, [], ◌∷◌, ◌++◌, some, Bytes, drop, arith, true, length,
}
use server_side_custom_video.Decoder.{Picture, copy_decoded_frame, Library, decode}
use server_side_custom_video.Decoder.Copy.{packed, copy_decoded_frame-packed}

abbrev picture : Picture
picture = record {
  width = 4;
  height = 2;
  y = record { bytes = 1 ∷ 2 ∷ 3 ∷ 4 ∷ 0 ∷ 5 ∷ 6 ∷ 7 ∷ 8 ∷ []; line_size = 5 };
  u = record { bytes = 11 ∷ 12 ∷ []; line_size = 3 };
  v = record { bytes = 21 ∷ 22 ∷ 0 ∷ []; line_size = 3 };
}

abbrev ys : List (Bytes × Bytes)
ys = (1 ∷ 2 ∷ 3 ∷ 4 ∷ [], 0 ∷ []) ∷ (5 ∷ 6 ∷ 7 ∷ 8 ∷ [], []) ∷ []

abbrev us : List (Bytes × Bytes)
us = (11 ∷ 12 ∷ [], []) ∷ []

abbrev vs : List (Bytes × Bytes)
vs = (21 ∷ 22 ∷ [], 0 ∷ []) ∷ []

abbrev buffer : Bytes
buffer = 0 ∷ 0 ∷ 0 ∷ 0 ∷ 0 ∷ 0 ∷ 0 ∷ 0 ∷ 0 ∷ 0 ∷ 0 ∷ 0 ∷ 99 ∷ []

copy_decoded_frame-packed_example :
    copy_decoded_frame picture buffer
    ≡ some (packed ys ++ (packed us ++ (packed vs ++ drop 12 buffer)), 12)
copy_decoded_frame-packed_example =
    copy_decoded_frame-packed picture ys us vs buffer
      (record { count = refl; bytes = refl; filled = (refl, refl, refl) })
      (record { count = refl; bytes = refl; filled = refl })
      (record { count = refl; bytes = refl; filled = refl }) (omega arith)

-- A packet that is refused leaves the frame as it was.
abbrev library : Library
library = record {
  Context = ℕ;
  Frame = Bytes;
  send_packet = λ n packet. (n + length packet, true);
  receive_frame = λ n frame. (0, true, n ∷ frame);
}

decodes :
    decode library (7 ∷ 8 ∷ []) (record { context = 0; out_frame = [] })
    ≡ (true, record { context = 0; out_frame = 2 ∷ [] })
unfolding decode
decodes = refl
