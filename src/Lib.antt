-- ===== src/Lib.antt =====
-- Whimbrel's measurement scripts: the Python code that boots the unikernel and its Linux reference,
-- reads their captures and serial logs, and refuses a measurement that does not meet the protocol.
--
-- The program is one harness with passes beside it. scripts/bench.py picks the arms of a campaign,
-- schedules their boots, and runs each trial through gates: the phase dump of the serial line, the
-- intervals of the capture (scripts/pcap_http.py), and the controls. The client of a trial is
-- scripts/bench-client.py, a process that connects until the guest answers. Two passes read what
-- campaigns have recorded: scripts/d0070-pcap-pass.py extracts the captures again and judges a
-- prediction, and scripts/regime-witness.py tells in which regime each campaign ran.
-- scripts/report-exhibits.py makes the exhibits of campaigns that pass its validators. Two tools stand on
-- their own: scripts/label-linux-initcalls.py names the initcalls of an
-- instrumented Linux boot, and scripts/linux-merge-warnings.py refuses a kernel configuration in which
-- a fragment's wish did not stick.
--
-- Files:
--   Prelude: Booleans and lists over the native numbers, Python's exceptions as a result, integers,
--     text as a list of code points with the string methods that the scripts call, sorting, dicts,
--     and the grouping of rows by a key.
--   Label: scripts/label-linux-initcalls.py. SystemMap is `load_system_map`, Resolve is `resolve` with
--     its binary search, Serial is `parse_serial` with its regular expressions, Run is `label`, Table is
--     the report that it writes; Laws is about the report.
--   Merge: scripts/linux-merge-warnings.py. Kconfig has the line formats, `fragment_symbols` and
--     `parse_final_config`; Classify is `classify` and `check_merge_log`; Laws, Fuel and Keeps are
--     about the reports, the loop and `check_keeps`.
--   Stats: `percentile` and `iqr` of scripts/bench.py and `percentile` of scripts/d0070-pcap-pass.py.
--     Their values are natural numbers, and a percentile is kept fourfold, a median twofold. Stability
--     is `compare_stability` of scripts/bench.py.
--   Pcap: scripts/pcap_http.py. Tshark is `tshark_table`, Extract is `extract_pcap` and
--     `assert_no_rst`, Grid is `assert_syn_grid`; Order, Anchor and Columns are about them.
--   Bench: scripts/bench.py. Failure is `BenchFail`, with a constructor for each message. Arms is
--     `configs_for` and what a trial makes of an arm, Schedule is the order in which `cmd_run` runs its
--     trials, Journal its `one_trial`, with the rows it adds and the record of a trial that a gate has
--     stopped (without the signature of its capture, which stands by itself, and the columns that
--     repeat the host), PhaseRow and Phases are `parse_phases`, Intervals is
--     `require_pcap_intervals`, Cpus and Host are
--     the gates on the machine, Probe and Trial the decisions of `run_trial`, Connect and Aggregate the
--     gates on the rows of a campaign, ManifestLine and Manifest are `parse_linux_manifest`, Hashes is
--     `linux_kernel_hash_failures`, Artifacts is `verify_linux_artifacts`, Signature is `arp_signature`,
--     GateSignature is `gate_failure_signature`. Launch, Losses, Order, Recorded, Ended, Dump, Online,
--     Control, Sound, Span, Groups, RowGates and Uniform are about them.
--     Summary is `cmd_summarize`: Metrics is `metric_table`, Startup is `s_trial_ns` and
--     `s_header_lines`, Gates has the comparisons of medians and of batches, Run is the command; Keys,
--     Tables, Verdicts, Passes and Lanes are about them.
--   Client: scripts/bench-client.py. Net is the interface of the clock and a socket, and the laws that
--     are relied on; Wait, Attempt and Receive are `wait_until`, `attempt_connect` and
--     `recv_response`, Loop is `run_loop`, Calibrate is `calibrate`; Pace and Report are about the loop.
--   Pass: scripts/d0070-pcap-pass.py. Campaign is `validate_campaign`, Analyze is `analyze_row`, Verdict
--     is what `render_table` judges, Run is `run_pass` with its threads, Frames, PcapFile and SelfTest
--     build the capture of the self-test, and PcapFormat describes the file format that it is held
--     against; Pinned, Confirmed, Arrival, Checksum and RoundTrip are about them.
--   Witness: scripts/regime-witness.py. Rows has the rows and `is_dip`, Join is `warmup_join`, Campaign
--     is `campaign`, Classify is `classify_row`, Positions and Finding are `structural_finding`;
--     Summary, Covers, Sources and Structure are about them.
--   Exhibits: scripts/report-exhibits.py. Rows has the rows, Lanes is `require_e2e3g_stable` and
--     `require_delta_s_sane`, Gates the gates that the validators share, Validate is `validate` and
--     `validate_t48`, Firmware is `validate_t47`, Unprobed is `validate_t48c`; Passes, Steady,
--     Bound, Systems and Window are about them.
--     Initcalls is `parse_initcall_label_file`, which reads what Label writes; Reading, Sections,
--     LabelLines and LabelFile are about the two of them.
--   Each part ends with Examples, where the code runs on concrete inputs.
--
-- A Python function that raises is one into `Result`, and a loop is recursion on its list. Some loops
-- take fuel: that of `classify`, with as many rounds as the log has lines, since each round reads one;
-- the binary search, with as many as the table has entries, since each round narrows the interval; the
-- folding of a checksum, with as many as the sum, which each round lowers; the waits of the client, for
-- each nanosecond that is left as many rounds as there may be readings of the clock at one time, since
-- each round shows a later time or is one of these; its attempts, with a round for each nanosecond that
-- is left, since they are a millisecond apart; and its reception, with a round for each segment that
-- the peer still sends.
--
-- Assumed of the client's machine: its clock does not go back, but may show one time at several readings
-- in a row, no more than a fixed number; a sleep at one time adds none of these; the peer sends finitely
-- many segments.
--
-- Parameters: tshark's run on a capture, Python's `float`, `random.shuffle` and the order in which
-- threads end, of which only that they rearrange their list is assumed, the files of a campaign at its
-- commit, the number of microseconds that a time is printed as, the text of
-- /proc/stat and the run of a trial in the loop of `cmd_run`, the digest of an artifact's file, and the system
-- calls of the client. Times of a capture are counted in whole nanoseconds, and in
-- picoseconds where the code has a tolerance below one.
--
-- Not modelled: writing and formatting (tables, messages beyond their constructor, figures), reading
-- files and running processes, characters outside ASCII in `\w`, `\d` and `lower`, a sign or an
-- underscore in the argument of `int`, and rounding of floating-point numbers. The unikernel itself is
-- Rust and assembly and lies outside this development.
pub mod Prelude
pub mod Label
pub mod Merge
pub mod Stats
pub mod Pcap
pub mod Bench
pub mod Client
pub mod Pass
pub mod Witness
pub mod Exhibits
