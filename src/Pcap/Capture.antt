-- ===== src/Pcap/Capture.antt =====
-- The tables of a capture, as tshark might give them, for the runs.
use whimbrel.Prelude.{Option, some}
use whimbrel.Prelude.{List, [], ◌∷◌}
use whimbrel.Prelude.{if◌then◌else◌}
use whimbrel.Prelude.Text.{Text, codes, text_eq, decimal}
use whimbrel.Prelude.Int.{ℤ, pos}
use whimbrel.Pcap.Tshark.{Proc}
use whimbrel.Pcap.Extract.{
  arp_filter, synack_filter, http_filter, ack_filter, fin_filter, guest_tx_filter,
  guest_arp_req_filter,
}
use whimbrel.Pcap.Grid.{syn_in_filter}

abbrev pub table : List (Text × Text) → Text → Text
table [] f = []
table ((g, out) ∷ known) f = if text_eq g f then out else table known f

-- Whole numbers stand for times; the last two columns of the HTTP row are its length and FIN flag.
abbrev pub outputs : List (Text × Text)
outputs =
    (arp_filter, codes "100\t4\n")
    ∷ (synack_filter, codes "350\t9\n500\t11\n")
    ∷ (http_filter, codes "900\t12\t4093\t92\t1\n")
    ∷ (ack_filter 4093 12, codes "950\t13\t4093\n")
    ∷ (fin_filter 12, codes "990\t15\n")
    ∷ (guest_tx_filter, codes "50\t2\n")
    ∷ (guest_arp_req_filter, codes "50\t2\n")
    ∷ (syn_in_filter, codes "20\t1\n\n300\t8\n400\t10\n")
    ∷ []

abbrev pub tshark : Text → List Text → Proc
tshark f fields = record { returncode = 0; stdout = table outputs f; stderr = [] }

abbrev pub whole : Text → Option ℤ
whole s = some (pos (decimal s))
