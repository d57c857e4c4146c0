-- ===== src/Pcap/Order.antt =====
-- An extract keeps the order of the exchange: its intervals are not negative, and add up.
use whimbrel.Prelude.{◌≡◌}
use whimbrel.Prelude.{Bool, Option, arith}
use whimbrel.Prelude.{List, [], ◌∷◌}
use whimbrel.Prelude.{inl, inr, true}
use whimbrel.Prelude.{ok, ◌>>=◌, bind-ok, Result-cases}
use whimbrel.Prelude.Text.{Text, codes, decimal, strip}
use whimbrel.Prelude.Int.{ℤ, pos, ◌-ℤ◌, ◌+ℤ◌, ◌≤ℤ◌, int_laws}
use whimbrel.Pcap.Tshark.{Proc, time_ns, field, int_of, no_arp, no_synack, no_http, no_ack, no_fin}
use whimbrel.Pcap.Extract.{
  Extract, Frames, Stamps, Ends, arp_filter, synack_filter, http_filter, ack_filter, fin_filter,
  is_number, first_match, find_frames, read_stamps, find_ends, intervals, extract_pcap,
}

abbrev pub http_fields : List Text
http_fields = codes "tcp.nxtseq" ∷ codes "tcp.len" ∷ codes "tcp.flags.fin" ∷ []

module _ (tshark : Text → List Text → Proc) (float_ns : Text → Option ℤ) where
  -- The frames and their order on the one clock of the capture, and the intervals between them.
  pub record IsExchange (e : Extract) : Type 0 where
    pub frames : Frames
    pub stamps : Stamps
    pub ends : Ends
    pub is_arp : first_match tshark float_ns arp_filter [] no_arp ≡ ok frames.arp
    pub is_synack : first_match tshark float_ns synack_filter [] no_synack ≡ ok frames.syn
    pub is_http : first_match tshark float_ns http_filter http_fields no_http ≡ ok frames.http
    pub at_arp : time_ns float_ns frames.arp ≡ ok stamps.t_arp
    pub at_synack : time_ns float_ns frames.syn ≡ ok stamps.t_syn
    pub at_http : time_ns float_ns frames.http ≡ ok stamps.t_http
    pub number : Text
    pub at_number : field (codes "frame.number") frames.http ≡ ok number
    pub fn_of : int_of number ≡ ok stamps.fn_http
    pub nxtseq : Text
    pub at_nxtseq : field (codes "tcp.nxtseq") frames.http ≡ ok nxtseq
    pub nxt_of : (stamps.nxt ≡ strip nxtseq) × (is_number stamps.nxt ≡ true)
    pub is_ack :
        first_match tshark float_ns
          (ack_filter (decimal stamps.nxt) stamps.fn_http)
          (codes "tcp.ack" ∷ [])
          (no_ack stamps.nxt)
        ≡ ok ends.ack
    pub is_fin : first_match tshark float_ns (fin_filter stamps.fn_http) [] no_fin ≡ ok ends.fin
    pub at_ack : time_ns float_ns ends.ack ≡ ok ends.t_ack
    pub at_fin : time_ns float_ns ends.fin ≡ ok ends.t_fin
    pub in_order :
        (stamps.t_arp ≤ℤ stamps.t_syn)
        × (stamps.t_syn ≤ℤ stamps.t_http)
        × (stamps.t_http ≤ℤ ends.t_ack)
        × (stamps.t_http ≤ℤ ends.t_fin)
    pub to_synack : stamps.t_arp +ℤ e.w_ns ≡ stamps.t_syn
    pub to_http : stamps.t_syn +ℤ e.synack_to_http_ns ≡ stamps.t_http
    pub to_ack : stamps.t_http +ℤ e.d_ack_ns ≡ ends.t_ack
    pub to_fin : stamps.t_http +ℤ e.d_fin_ns ≡ ends.t_fin

  -- The frame number and the next sequence number are those of the HTTP frame.
  read_stamps-http :
      (f : Frames) (s : Stamps)
      → read_stamps tshark float_ns f ≡ ok s
      → ((number : Text) × (field (codes "frame.number") f.http ≡ ok number)
          × (int_of number ≡ ok s.fn_http))
        × ((nxtseq : Text) × (field (codes "tcp.nxtseq") f.http ≡ ok nxtseq)
            × (s.nxt ≡ strip nxtseq)
            × (is_number s.nxt ≡ true))
  unfolding read_stamps
  read_stamps-http f s h = elim (Result-cases (field (codes "frame.number") f.http)) [
    | inr (e, failed) ↦ absurd (ground arith)
    | inl (number, at_number) ↦ elim (Result-cases (field (codes "tcp.nxtseq") f.http)) [
      | inr (e, failed) ↦ absurd (ground arith)
      | inl (nxtseq, at_nxtseq) ↦
          ((number, at_number, ground arith), (nxtseq, at_nxtseq, ground arith, ground arith))
    ]
  ]

  pub find_frames-first :
      (present : Bool) (f : Frames)
      → find_frames tshark float_ns present ≡ ok f
      → (first_match tshark float_ns arp_filter [] no_arp ≡ ok f.arp)
        × (first_match tshark float_ns synack_filter [] no_synack ≡ ok f.syn)
        × (first_match tshark float_ns http_filter http_fields no_http ≡ ok f.http)
  unfolding find_frames
  find_frames-first present f h = ground arith

  pub read_stamps-ordered :
      (f : Frames) (s : Stamps)
      → read_stamps tshark float_ns f ≡ ok s
      → (time_ns float_ns f.arp ≡ ok s.t_arp)
        × (time_ns float_ns f.syn ≡ ok s.t_syn)
        × (time_ns float_ns f.http ≡ ok s.t_http)
        × (s.t_arp ≤ℤ s.t_syn)
        × (s.t_syn ≤ℤ s.t_http)
  unfolding read_stamps
  read_stamps-ordered f s h = ground arith

  find_ends-ordered :
      (s : Stamps) (ends : Ends)
      → find_ends tshark float_ns s ≡ ok ends
      → (first_match tshark float_ns
            (ack_filter (decimal s.nxt) s.fn_http)
            (codes "tcp.ack" ∷ [])
            (no_ack s.nxt)
          ≡ ok ends.ack)
        × (first_match tshark float_ns (fin_filter s.fn_http) [] no_fin ≡ ok ends.fin)
        × (time_ns float_ns ends.ack ≡ ok ends.t_ack)
        × (time_ns float_ns ends.fin ≡ ok ends.t_fin)
        × (s.t_http ≤ℤ ends.t_ack)
        × (s.t_http ≤ℤ ends.t_fin)
  unfolding find_ends
  find_ends-ordered s ends h = ground arith

  intervals-differences :
      (f : Frames) (s : Stamps) (ends : Ends) (e : Extract)
      → intervals tshark float_ns f s ends ≡ ok e
      → (e.w_ns ≡ s.t_syn -ℤ s.t_arp)
        × (e.synack_to_http_ns ≡ s.t_http -ℤ s.t_syn)
        × (e.d_ack_ns ≡ ends.t_ack -ℤ s.t_http)
        × (e.d_fin_ns ≡ ends.t_fin -ℤ s.t_http)
  unfolding intervals
  intervals-differences f s ends e h = ground arith

  undo : (a b : ℤ) → a +ℤ (b -ℤ a) ≡ b
  undo a b = grind int_laws

  -- The steps of an extraction.
  pub extract_pcap-steps :
      (present : Bool) (e : Extract)
      → extract_pcap tshark float_ns present ≡ ok e
      → (f : Frames) × (s : Stamps) × (ends : Ends) × (find_frames tshark float_ns present ≡ ok f)
        × (read_stamps tshark float_ns f ≡ ok s)
        × (find_ends tshark float_ns s ≡ ok ends)
        × (intervals tshark float_ns f s ends ≡ ok e)
  unfolding extract_pcap
  extract_pcap-steps present e h =
      let (f, found, h1) =
        bind-ok (find_frames tshark float_ns present)
          (λ f. read_stamps tshark float_ns f >>= λ s.
            find_ends tshark float_ns s >>= λ ends. intervals tshark float_ns f s ends)
          h in
      let (s, read, h2) =
        bind-ok (read_stamps tshark float_ns f)
          (λ s. find_ends tshark float_ns s >>= λ ends. intervals tshark float_ns f s ends) h1 in
      let (ends, ended, h3) =
        bind-ok (find_ends tshark float_ns s) (λ ends. intervals tshark float_ns f s ends) h2 in
      (f, s, ends, found, read, ended, h3)

  -- What `extract_pcap` returns are the intervals between five frames, each the first that its
  -- filter gives: slirp's ARP request, the guest's SYN/ACK, the HTTP response, and behind the number of
  -- its frame the ACK of its next sequence number and the FIN. They come in that order.
  pub extract_pcap-IsExchange :
      (present : Bool) (e : Extract) → extract_pcap tshark float_ns present ≡ ok e → IsExchange e
  extract_pcap-IsExchange present e h =
      let (f, s, ends, found, read, ended, h3) = extract_pcap-steps present e h in
      let (is_arp, is_synack, is_http) = find_frames-first present f found in
      let (at_arp, at_synack, at_http, first_two, next_two) = read_stamps-ordered f s read in
      let ((number, at_number, fn_of), (nxtseq, at_nxtseq, nxt_is, nxt_digits)) =
        read_stamps-http f s read in
      let (is_ack, is_fin, at_ack, at_fin, acked, closed) = find_ends-ordered s ends ended in
      let (w, between, d_ack, d_fin) = intervals-differences f s ends e h3 in
      record {
        frames = f;
        stamps = s;
        ends = ends;
        is_arp = is_arp;
        is_synack = is_synack;
        is_http = is_http;
        at_arp = at_arp;
        at_synack = at_synack;
        at_http = at_http;
        number = number;
        at_number = at_number;
        fn_of = fn_of;
        nxtseq = nxtseq;
        at_nxtseq = at_nxtseq;
        nxt_of = (nxt_is, nxt_digits);
        is_ack = is_ack;
        is_fin = is_fin;
        at_ack = at_ack;
        at_fin = at_fin;
        in_order = (first_two, next_two, acked, closed);
        to_synack = rw w (undo s.t_arp s.t_syn);
        to_http = rw between (undo s.t_syn s.t_http);
        to_ack = rw d_ack (undo s.t_http ends.t_ack);
        to_fin = rw d_fin (undo s.t_http ends.t_fin);
      }

  forward : (a w b : ℤ) → a +ℤ w ≡ b → a ≤ℤ b → pos 0 ≤ℤ w
  forward a w b h le = grind int_laws

  -- No interval of an extract is negative.
  pub IsExchange-forward :
      (e : Extract)
      → IsExchange e
      → (pos 0 ≤ℤ e.w_ns)
        × (pos 0 ≤ℤ e.d_ack_ns)
        × (pos 0 ≤ℤ e.d_fin_ns)
        × (pos 0 ≤ℤ e.synack_to_http_ns)
  IsExchange-forward e x =
      let (first_two, next_two, acked, closed) = x.in_order in
      (
        forward x.stamps.t_arp e.w_ns x.stamps.t_syn x.to_synack first_two,
        forward x.stamps.t_http e.d_ack_ns x.ends.t_ack x.to_ack acked,
        forward x.stamps.t_http e.d_fin_ns x.ends.t_fin x.to_fin closed,
        forward x.stamps.t_syn e.synack_to_http_ns x.stamps.t_http x.to_http next_two,
      )
