-- ===== src/ResultValues/Tests.antt =====
-- Runs of the code of result_values.py, and its theorems at concrete inputs.
use cubingnow.Prelude.{pos, negsuc, true, some, text, ◌≡◌, ◌↔◌, refl, arith}
use cubingnow.ResultValues.{
  is_better, comparison_key, key_le, decode_multi_blind, clock, format_result, decimal,
}
use cubingnow.ResultValues.Order.{rank, ◌≺◌, ◌≼◌, comparison_key-le_iff, is_better_iff}
use cubingnow.ResultValues.Decode.{encode, decode-encode}
use cubingnow.ResultValues.Clock.{read_clock, read_clock-clock}

format_samples :
    (format_result (text "333") (text "single") (some (pos 6123)) ≡ text "1:01.23")
    × (format_result (text "333") (text "single") (some (pos 423005)) ≡ text "1:10:30.05")
    × (format_result (text "333") (text "single") (some (negsuc 0)) ≡ text "DNF")
    × (format_result (text "333mbf") (text "single") (some (pos 580348100)) ≡ text "41/41 58:01")
    × (format_result (text "333fm") (text "average") (some (pos 2633)) ≡ text "26.33")
    × (format_result (text "333fm") (text "average") (some (pos 2600)) ≡ text "26.0")
unfolding format_result decimal
format_samples = (refl, refl, refl, refl, refl, refl)

comparison_key-le_iff_example :
    (key_le
        (comparison_key (text "333") (some (pos 712)))
        (comparison_key (text "333") (some (negsuc 0)))
      ≡ true)
    ↔ (rank (some (pos 712)) ≼ rank (some (negsuc 0)))
comparison_key-le_iff_example =
    comparison_key-le_iff (text "333") (some (pos 712)) (some (negsuc 0))

is_better_iff_example :
    (is_better (text "333") (some (pos 712)) (some (pos 713)) ≡ true)
    ↔ (rank (some (pos 712)) ≺ rank (some (pos 713)))
is_better_iff_example = is_better_iff (text "333") (some (pos 712)) (some (pos 713))

decode-encode_example :
    decode_multi_blind (pos (encode 41 3481 0))
    ≡ record { solved = 41; attempted = 41; centiseconds = some 348100 }
decode-encode_example =
    decode-encode 41 3481 0 (omega arith) (omega arith) (omega arith) (omega arith)

read_clock-clock_example : read_clock (clock (some 423005)) ≡ some 423005
read_clock-clock_example = read_clock-clock 423005
