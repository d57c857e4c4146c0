-- ===== src/Pcap/Tshark.antt =====
-- `tshark_table` and the fields of its rows, of scripts/pcap_http.py.
use whimbrel.Prelude.{ℕ, ◌+◌}
use whimbrel.Prelude.{◌&&◌, not, Option, none, some}
use whimbrel.Prelude.{List, [], ◌∷◌, map}
use whimbrel.Prelude.{ltb, leb, ◌==◌, if◌then◌else◌}
use whimbrel.Prelude.{length, all}
use whimbrel.Prelude.{Result, ok, err, ◌>>=◌}
use whimbrel.Prelude.Text.{Text, codes, strip, split_on, splitlines, contains, is_digit, decimal}
use whimbrel.Prelude.Dict.{Dict, lookup}
use whimbrel.Prelude.Int.{ℤ}

-- What tshark leaves: its status and its two streams.
pub record Proc : Type 0 where
  pub returncode : ℕ
  pub stdout : Text
  pub stderr : Text

-- `PcapExtractError` by its message, and the two exceptions that are not one.
pub data PcapError : Type 0 where
  missing_pcap : PcapError
  not_permitted : Text → PcapError
  unreadable : Text → ℕ → PcapError
  no_arp : PcapError
  no_synack : PcapError
  no_http : PcapError
  synack_before_arp : PcapError
  http_before_synack : PcapError
  bad_nxtseq : Text → PcapError
  no_ack : Text → PcapError
  no_fin : PcapError
  ack_before_http : PcapError
  fin_before_http : PcapError
  rst_present : List Text → PcapError
  no_guest_tx : PcapError
  no_syn : PcapError
  no_syn_after_tx : PcapError
  off_grid : ℤ → PcapError
  key_error : Text → PcapError
  value_error : Text → PcapError

abbrev pub Row : Type 0
Row = Dict Text

-- `str.lower`, for ASCII.
abbrev lower : Text → Text
lower s = map (λ c. if leb 65 c && leb c 90 then c + 32 else c) s

-- `while len(parts) < len(fields): parts.append("")` and the `zip`.
unfoldable pub row_of : List Text → List Text → Row
row_of [] parts = []
row_of (f ∷ fields) [] = (f, []) ∷ row_of fields []
row_of (f ∷ fields) (p ∷ parts) = (f, p) ∷ row_of fields parts

-- The loop over the lines of the output.
unfoldable pub table_rows : List Text → List Text → List Row
table_rows fields [] = []
table_rows fields (line ∷ lines) =
    let rest = table_rows fields lines in
    if length (strip line) == 0 then rest else row_of fields (split_on 9 line) ∷ rest

abbrev pub table_fields : List Text → List Text
table_fields extra = codes "frame.time_relative" ∷ codes "frame.number" ∷ extra

-- `row[name]`
abbrev pub field : Text → Row → Result PcapError Text
field name row = elim (lookup name row) [ none ↦ err (key_error name) | some v ↦ ok v ]

-- `int(s)` of a string of digits, with blanks around it.
unfoldable pub int_of : Text → Result PcapError ℕ
int_of s =
    let d = strip s in
    if ltb 0 (length d) && all is_digit d then ok (decimal d) else err (value_error s)

-- tshark on the capture at hand, given the display filter and the fields.
module _ (tshark : Text → List Text → Proc) where
  unfoldable pub tshark_table : Text → List Text → Result PcapError (List Row)
  tshark_table display_filter extra =
      let proc = tshark display_filter (table_fields extra) in
      if not (proc.returncode == 0)
      then if contains (codes "permission") (lower (strip proc.stderr))
        then err (not_permitted (strip proc.stderr))
        else err (unreadable (strip proc.stderr) proc.returncode)
      else ok (table_rows (table_fields extra) (splitlines proc.stdout))

-- `float(s)`, times 10^9 and rounded.
module _ (float_ns : Text → Option ℤ) where
  unfoldable pub time_ns : Row → Result PcapError ℤ
  time_ns row = do
    s ← field (codes "frame.time_relative") row
    elim (float_ns s) [ none ↦ err (value_error s) | some t ↦ ok t ]
