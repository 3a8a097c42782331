-- ===== src/ResultValues/Decode.antt =====
-- `decode_multi_blind` reads the WCA encoding 0DDTTTTTMM of a multi-blind attempt.
use cubingnow.Prelude.{ℕ, ◌+◌, ◌-◌, ◌*◌, ◌≤◌, ◌<◌, pos, ◌≡◌, arith, none, some, ◌==◌, if◌then◌else◌}
use cubingnow.ResultValues.{decode_multi_blind}

-- DD is 99 less the points, TTTTT the seconds (99999 where unknown), MM the missed cubes.
abbrev pub encode : ℕ → ℕ → ℕ → ℕ
encode points seconds missed = (99 - points) * 10000000 + seconds * 100 + missed

-- Decoding an encoded attempt gives back its points plus missed cubes as solved, the cubes
-- attempted, and its time in centiseconds or none at 99999 seconds, for all fields in range.
pub decode-encode :
    (points seconds missed : ℕ)
    → points ≤ 99
    → seconds < 100000
    → missed < 100
    → 0 < encode points seconds missed
    → decode_multi_blind (pos (encode points seconds missed)) ≡ record {
      solved = points + missed;
      attempted = points + missed + missed;
      centiseconds = if seconds == 99999 then none else some (seconds * 100);
    }
unfolding decode_multi_blind
decode-encode points seconds missed p s m nz = ground arith
