-- ===== src/Finalization/Tests.antt =====
-- Runs of the code of finalization.py, and its theorem at a concrete input.
use cubingnow.Prelude.{ℤ, pos, negsuc, true, false, some, List, [], ◌∷◌, text, ◌≡◌, ◌↔◌, refl}
use cubingnow.ResultValues.{is_better}
use cubingnow.Finalization.{
  RoundFinalizationRule, round_result_is_finalized, all_expected_attempts_are_entered,
  cutoff_is_final, attempt_is_entered, cubingchina_expected_attempts, cubingchina_finalization_rule,
}
use cubingnow.Finalization.Positions.{IsFinal, round_result_is_finalized_iff}

abbrev cutoff_rule : RoundFinalizationRule
cutoff_rule = record {
  expected_attempts = pos 5;
  cutoff_attempts = some (pos 2);
  cutoff_value = some (pos 1500);
}

abbrev missed : List ℤ
missed = pos 1600 ∷ negsuc 0 ∷ []

finalized_samples :
    (round_result_is_finalized missed cutoff_rule (text "333") ≡ true)
    × (round_result_is_finalized (pos 1400 ∷ pos 1600 ∷ []) cutoff_rule (text "333") ≡ false)
    × (round_result_is_finalized (pos 1600 ∷ pos 1700 ∷ pos 1800 ∷ []) cutoff_rule (text "333")
        ≡ false)
unfolding round_result_is_finalized all_expected_attempts_are_entered cutoff_is_final
    attempt_is_entered is_better
finalized_samples = (refl, refl, refl)

rule_samples :
    (cubingchina_expected_attempts (text " M ") ≡ pos 3)
    × (cubingchina_expected_attempts (text "2") ≡ pos 2)
    × (cubingchina_expected_attempts (text "x") ≡ pos 0)
    × (cubingchina_finalization_rule
          (record { format = text "a"; cutoff = some (pos 15); event_id = text "333" })
        ≡ cutoff_rule)
unfolding cubingchina_expected_attempts cubingchina_finalization_rule
rule_samples = (refl, refl, refl, refl)

round_result_is_finalized_iff_example :
    (round_result_is_finalized missed cutoff_rule (text "333") ≡ true)
    ↔ IsFinal missed cutoff_rule (text "333")
round_result_is_finalized_iff_example =
    round_result_is_finalized_iff missed cutoff_rule (text "333")
