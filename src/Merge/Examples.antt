-- ===== src/Merge/Examples.antt =====
-- Runs of the merge gate on the inputs of its own self-test, and its theorems at them.
use whimbrel.Prelude.{◌+◌, String}
use whimbrel.Prelude.{◌≡◌, refl}
use whimbrel.Prelude.{none, some, arith}
use whimbrel.Prelude.{List, [], ◌∷◌, ◌++◌, map, reverse}
use whimbrel.Prelude.{keep}
use whimbrel.Prelude.Text.{
  Text, codes, text_eq, strip_prefix, run, strip, lstrip, splitlines, is_word, is_line_end,
}
use whimbrel.Prelude.Dict.{lookup, has_key}
use whimbrel.Merge.Kconfig
use whimbrel.Merge.Kconfig.{fragment_symbols, merge_overrides, parse_final_config}
use whimbrel.Merge.Classify.{
  Failure, Lists, dependent_drops, annotated, no_lines, add_info, classify, check_merge_log,
  classify_loop,
}
use whimbrel.Merge.Classify
use whimbrel.Merge.Laws.{Ask, reports, bad_in, drop_in, classify-reports}
use whimbrel.Merge.Fuel.{classify_loop_enough}
use whimbrel.Merge.Keeps.{
  Setting, keep_y, check_keeps, kept_rows, kept_row, print_config, entry_of,
  parse_final_config-print,
}

program : Unit {0}
unfolding text_eq strip_prefix run strip lstrip splitlines is_word lookup has_key Kconfig.bare
    Kconfig.is_unset_line Kconfig.mem Kconfig.y_match Kconfig.n_match Kconfig.setting
    Kconfig.settings Kconfig.is_symbol fragment_symbols merge_overrides parse_final_config
    Kconfig.redefined_match Kconfig.redundant_match Kconfig.not_final_match Kconfig.requested_match
    Kconfig.actual_match Classify.record_asked Classify.record_not_final Classify.read_request
    Classify.line_kind Classify.after_line Classify.record_line classify_loop
    Classify.summarize_drops classify check_merge_log kept_row kept_rows check_keeps
program = tt

abbrev log_lines : List String → Text
log_lines [] = []
log_lines (s ∷ rest) = codes s ++ 10 ∷ log_lines rest

-- Case 1 of the self-test together with case 3, and an annotated survivor.
abbrev frag : Text
frag = log_lines (
    "# CONFIG_FTRACE is not set" ∷ "# SCSI_MOD: leftover" ∷ "# CONFIG_EFI is not set"
    ∷ "# merge-override EFI: PORTABLE select EFI" ∷ [])

abbrev log : Text
log = log_lines (
    "Value of CONFIG_RTC_CLASS is redefined by fragment /tmp/frag:"
    ∷ "Value requested for CONFIG_FTRACE not in final .config"
    ∷ "Requested value: # CONFIG_FTRACE is not set" ∷ "Actual value: CONFIG_FTRACE=y" ∷ ""
    ∷ "Value requested for CONFIG_SCSI_MOD not in final .config"
    ∷ "Requested value: CONFIG_SCSI_MOD=y" ∷ "Actual value: " ∷ ""
    ∷ "Value requested for CONFIG_EFI not in final .config"
    ∷ "Requested value: # CONFIG_EFI is not set" ∷ "Actual value: CONFIG_EFI=y" ∷ "" ∷ [])

mixed : classify frag log ≡ record {
  info =
      Classify.redefined (codes "CONFIG_RTC_CLASS")
      ∷ annotated (codes "CONFIG_EFI") (codes "unset") (codes "CONFIG_EFI=y")
      ∷ dependent_drops 1
      ∷ [];
  fails =
      record { cfg = codes "CONFIG_FTRACE"; want = codes "unset"; got = codes "CONFIG_FTRACE=y" }
      ∷ [];
  drops = codes "CONFIG_SCSI_MOD" ∷ [];
}
unfolding program
mixed = refl

-- A keep that the fragment asked for and that is gone fails; after an unset it has vanished.
lost_keep :
    check_merge_log (log_lines ("CONFIG_NET=y" ∷ [])) (
      log_lines (
        "Value requested for CONFIG_NET not in final .config" ∷ "Requested value: CONFIG_NET=y"
        ∷ "Actual value: " ∷ []))
    ≡ 1
unfolding program
lost_keep = refl

vanished_swap :
    check_merge_log (log_lines ("# CONFIG_SWAP is not set" ∷ [])) (
      log_lines (
        "Value requested for CONFIG_SWAP not in final .config"
        ∷ "Requested value: # CONFIG_SWAP is not set" ∷ "Actual value: " ∷ []))
    ≡ 0
unfolding program
vanished_swap = refl

abbrev kept_settings : List Setting
kept_settings = map (λ s. record { sym = s; val = some (codes "y") }) keep_y

keeps_pass : (check_keeps (print_config kept_settings)).1 ≡ []
unfolding program
keeps_pass = refl

classify-reports_example :
    (map (λ (f : Failure). f.cfg) (classify frag log).fails
      ≡ map (λ (a : Ask). a.cfg) (keep (bad_in frag) (reports log)))
    × ((classify frag log).drops ≡ map (λ (a : Ask). a.cfg) (keep (drop_in frag) (reports log)))
classify-reports_example = classify-reports frag log

classify_loop_enough_example :
    classify_loop (fragment_symbols frag) (merge_overrides frag) (13 + 7) (splitlines log) no_lines
    ≡ classify_loop (fragment_symbols frag) (merge_overrides frag) 13 (splitlines log) no_lines
unfolding splitlines
classify_loop_enough_example =
    classify_loop_enough (fragment_symbols frag) (merge_overrides frag) 13 7 (splitlines log)
      no_lines (omega arith)

abbrev two_settings : List Setting
two_settings =
    record { sym = codes "NET"; val = some (codes "y") }
    ∷ record { sym = codes "USB"; val = none }
    ∷ []

parse_final_config-print_example :
    parse_final_config (print_config two_settings) ≡ reverse (map entry_of two_settings)
unfolding Kconfig.is_symbol is_line_end strip
parse_final_config-print_example = parse_final_config-print two_settings (ground arith)
