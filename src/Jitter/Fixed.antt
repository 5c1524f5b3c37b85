-- ===== src/Jitter/Fixed.antt =====
-- Numbers with three decimals, in place of `float` and `double`.
use server_side_custom_video.Prelude.{ℕ, ◌*◌, ◌/◌, ◌^◌, ltb}
use server_side_custom_video.Text.{ℤ, pos, negsuc}
use server_side_custom_video.Long.{Float}

abbrev thousandths : ℤ → ℕ
thousandths (pos a) = 1000 * a
thousandths (negsuc a) = 0

abbrev pub fixed : Float
fixed = record {
  Number = ℕ;
  from_long = thousandths;
  literal = λ n d. n * 1000 / 10 ^ d;
  times_float = λ a b. a * b / 1000;
  over = λ a b. a * 1000 / b;
  less_float = ltb;
  truncate = λ a. pos (a / 1000);
}
