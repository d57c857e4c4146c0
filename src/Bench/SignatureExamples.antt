-- ===== src/Bench/SignatureExamples.antt =====
-- The signatures on concrete trials: one whose first frame is late, and captures that break off.
use whimbrel.Prelude.{◌≡◌, refl, ◌↔◌}
use whimbrel.Prelude.{true, Option, none, some}
use whimbrel.Prelude.{List, [], ◌∷◌}
use whimbrel.Prelude.{if◌then◌else◌}
use whimbrel.Prelude.{ok, err}
use whimbrel.Prelude.Text.{
  Text, codes, text_eq, text_leb, strip, lstrip, splitlines, split_on, is_digit, is_space, decimal,
  contains, decimal_text,
}
use whimbrel.Prelude.Int.{ℤ, pos, negsuc, ◌-ℤ◌}
use whimbrel.Prelude.Dict.{lookup}
use whimbrel.Prelude.Sort.{insert, sort}
use whimbrel.Prelude.Grouping
use whimbrel.Pcap.Tshark
use whimbrel.Pcap.Tshark.{Proc, time_ns, tshark_table}
use whimbrel.Pcap.Extract
use whimbrel.Pcap.Extract.{Extract, guest_tx_filter, extract_pcap}
use whimbrel.Pcap.Capture.{tshark, whole}
use whimbrel.Bench.Connect.{has_column}
use whimbrel.Bench.Failure.{no_ftx_column}
use whimbrel.Bench.Signature
use whimbrel.Bench.Signature.{FtxRow, LossEvent, loss_event, arp_arm, arp_signature}
use whimbrel.Bench.Losses.{IsLoss, arp_signature_iff}
use whimbrel.Bench.GateSignature
use whimbrel.Bench.GateSignature.{
  FailureSignature, gate_failure_signature, gate_failure_signature-agrees,
}
use mathlib.Core.List.{Memᴰ}

abbrev trial : Text → Text → Option ℤ → FtxRow
trial config n ftx = record {
  batch_id = codes "b-1";
  system = codes "whimbrel";
  config = config;
  trial = n;
  warmup = codes "0";
  guest_ftx_ns = ftx;
  guest_arp_req_n = codes "2";
}

abbrev late : FtxRow
late = trial (codes "safe") (codes "3") (some (pos 52_000_000))

-- The other arm is late as a whole, which is no event.
abbrev trials : List FtxRow
trials =
    trial (codes "safe") (codes "1") (some (pos 1_000_000))
    ∷ trial (codes "fast") (codes "1") (some (pos 60_000_000))
    ∷ trial (codes "safe") (codes "2") none
    ∷ late
    ∷ trial (codes "safe") (codes "4") (some (negsuc 99))
    ∷ []

abbrev ftx_columns : List Text
ftx_columns = codes "batch_id" ∷ codes "guest_ftx_ns" ∷ []

abbrev event : LossEvent
event = loss_event (arp_arm late) (pos 1_000_000) late (pos 52_000_000)

signature_program : Unit {0}
unfolding text_eq text_leb insert sort has_column Grouping.append_to Grouping.group_from
    Grouping.group_by Signature.same_arp_arm Signature.arp_groups Signature.ftx_values
    Signature.upper_median Signature.row_loss Signature.row_losses Signature.losses_from
    Signature.all_losses arp_signature ◌-ℤ◌
signature_program = tt

one_late : arp_signature ftx_columns trials ≡ ok (event ∷ [])
unfolding signature_program
one_late = refl

no_stamps : arp_signature (codes "batch_id" ∷ []) trials ≡ err no_ftx_column
unfolding signature_program
no_stamps = refl

arp_signature_iff_example : Memᴰ event (event ∷ []) ↔ IsLoss trials event
arp_signature_iff_example = arp_signature_iff ftx_columns trials (event ∷ []) one_late event

gate_program : Unit {0}
unfolding text_eq lookup strip lstrip splitlines split_on is_digit is_space decimal contains
    Tshark.row_of Tshark.table_rows tshark_table time_ns GateSignature.flushed_times
    GateSignature.with_syn GateSignature.with_times gate_failure_signature ◌-ℤ◌
gate_program = tt

whole_capture : gate_failure_signature tshark whole true ≡ record {
  guest_arp_req_n = some 1;
  guest_ftx_ns = some (negsuc 49);
  syn_grid_dt_ns = some (pos 250);
}
unfolding gate_program
whole_capture = refl

-- No frame of the guest, and a capture that cannot be read.
abbrev silent : Text → List Text → Proc
silent f fields =
    if text_eq f guest_tx_filter
    then record { returncode = 0; stdout = []; stderr = [] }
    else tshark f fields

abbrev broken : Text → List Text → Proc
broken f fields = record { returncode = 2; stdout = []; stderr = [] }

no_guest_frame :
    gate_failure_signature silent whole true
    ≡ record { guest_arp_req_n = some 1; guest_ftx_ns = none; syn_grid_dt_ns = none }
unfolding gate_program
no_guest_frame = refl

unreadable_capture :
    gate_failure_signature broken whole true
    ≡ record { guest_arp_req_n = none; guest_ftx_ns = none; syn_grid_dt_ns = none }
unfolding gate_program
unreadable_capture = refl

abbrev columns_read : Extract
columns_read = record {
  w_ns = pos 250;
  d_ack_ns = pos 50;
  d_fin_ns = pos 90;
  synack_to_http_ns = pos 550;
  http_len = 92;
  guest_ftx_ns = some (negsuc 49);
  guest_arp_req_n = 1;
}

reads_columns : extract_pcap tshark whole true ≡ ok columns_read
unfolding gate_program decimal_text Tshark.int_of Extract.first_match Extract.find_frames
    Extract.read_stamps Extract.find_ends Extract.guest_ftx Extract.intervals extract_pcap
reads_columns = refl

gate_failure_signature-agrees_example :
    ((gate_failure_signature tshark whole true).guest_arp_req_n ≡ some 1)
    × ((gate_failure_signature tshark whole true).guest_ftx_ns ≡ some (negsuc 49))
gate_failure_signature-agrees_example =
    gate_failure_signature-agrees tshark whole true columns_read reads_columns
