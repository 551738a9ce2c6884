-- ===== src/Tests/Logger.antt =====
-- The theorems about dpilogger.c at concrete inputs.
use hwdb_opendpi.Dpilogger.Capture.Again.{process_packet_again}
use hwdb_opendpi.Prelude.{
  fault, ◌≢◌, ℕ, ◌≤◌, ◌≡◌, ◌∙◌, ◌==◌, sym, Bool-cases, refl, inl, inr, true, false, Option, none,
  some, List, [], ◌∷◌, ◌++◌, arith, length, replicate, if◌then◌else◌, done,
}
use hwdb_opendpi.Stable.{str_eq}
use hwdb_opendpi.Stable.Lookup.{eq_of_str_eq}
use hwdb_opendpi.Tests.Tables.{big_endian}
use hwdb_opendpi.Tests.Table.{table, table-IsLawful}
use hwdb_opendpi.Dpilogger.{
  Ends, flow_key, extracted, with_udp, extract_headers, extract_ip, extract_transport,
}
use hwdb_opendpi.Dpilogger.Headers.{Within, extract_headers-Within}
use hwdb_opendpi.Dpilogger.Keys.{answering, flow_key-answering}
use hwdb_opendpi.Dpilogger.Flows.{
  host_at, no_host, dead_key, Key, OsdpiFlow, Logger, garbadge_collect_osdpi_flows, get_osdpi_flow,
}
use hwdb_opendpi.Dpilogger.Flows.Aging.{flow_of, IsLogger, aged, garbadge_collect_osdpi_flows-aged}
use hwdb_opendpi.Dpilogger.Flows.Accounting.{counted, current, get_osdpi_flow-counted}
use hwdb_opendpi.Dpilogger.Capture.{Captured, process_packet}
use hwdb_opendpi.Dpilogger.Capture.Ids.{HasIds}
use hwdb_opendpi.Dpilogger.Capture.Packets.{Processed, process_packet-Processed}
use hwdb_opendpi.Dpilogger.Options.{
  Opt, device_capture, default_cfg, parse_options, main, pcap_open_live, hwdb_server_addr,
  hwdb_server_port,
}
use hwdb_opendpi.Dpilogger.Options.Fields.{
  parse_options_fields, filter_calls, running, willing, main-calls,
}

-- An Ethernet frame with a UDP packet without data.
abbrev frame : List ℕ
frame = replicate 12 0 ++ (8 ∷ 0 ∷ 69 ∷ (replicate 8 0 ++ (17 ∷ (replicate 10 0 ++ replicate 8 0))))

extract_headers_example : Within (length frame) (extract_headers frame)
extract_headers_example = extract_headers-Within frame

abbrev one_byte : ℕ → List ℕ
one_byte a = a ∷ []

abbrev ends : Ends
ends = record { saddr = 7; daddr = 3; source = 987; dest = 40000 }

flow_key_example : flow_key one_byte (45 ∷ []) (answering ends) ≡ flow_key one_byte (45 ∷ []) ends
flow_key_example = flow_key-answering one_byte (45 ∷ []) ends (omega arith)

-- One flow, and no host.
abbrev seen : OsdpiFlow
seen = record { byte_count = 60; pkt_count = 1; first_pkt = 100; last_pkt = 100; ipoque_flow = 1 }

no_host-ne : {p : ℕ} → no_host ≡ host_at p → ⊥
no_host-ne e = cc

no_host-alive : no_host ≢ dead_key
no_host-alive e = cc

none-ne : {p : ℕ} → none ≡ some p → ⊥
none-ne e = cc

abbrev heap : ℕ → Option OsdpiFlow
heap n = if n == 0 then some seen else none

abbrev logger : Logger table
logger = record {
  flows = ((5 ∷ [], 0) ∷ [], (refl, tt));
  ids = [];
  flow_at = heap;
  id_at = λ p. none;
  brk = 2;
  room = 8;
  timer = 100;
  frag_warning_used = false;
}

key_found :
    (k : Key) (p : ℕ)
    → (if str_eq k (5 ∷ []) then some 0 else none) ≡ some p
    → (k ≡ (5 ∷ [])) × (0 ≡ p)
key_found k p e = elim (Bool-cases (str_eq k (5 ∷ []))) [
  | inl t ↦ (eq_of_str_eq k (5 ∷ []) t, cc)
  | inr f ↦ absurd (none-ne (rw f at e))
]

logger-IsLogger : IsLogger table logger
logger-IsLogger = record {
  live = λ k p e. (seen, rw (← (key_found k p e).1) refl);
  below = λ k p e. omega (arith, (key_found k p e).1);
  apart = λ j k p e f. (key_found j p e).0 ∙ sym (key_found k p f).0;
}

logger-HasIds : HasIds table logger
logger-HasIds = record {
  live = λ k p e. absurd (no_host-ne e);
  below = λ k p e. absurd (no_host-ne e);
}

garbadge_collect_osdpi_flows_example :
    (s' : Logger table) × (garbadge_collect_osdpi_flows table true 111 logger ≡ done s')
    × IsLogger table s'
    × ((j : Key) → flow_of table s' j ≡ aged 111 (flow_of table logger j))
    × (logger.room ≤ s'.room)
garbadge_collect_osdpi_flows_example =
    garbadge_collect_osdpi_flows-aged table table-IsLawful 111 true logger logger-IsLogger

get_osdpi_flow_example :
    (s' : Logger table) × (p : ℕ) × (fresh : ℕ) × (get_osdpi_flow table true one_byte
        (45 ∷ [])
        ends
        60
        111
        logger
      ≡ done (p, s'))
    × IsLogger table s'
    × (table.get s'.flows (flow_key one_byte (45 ∷ []) ends) ≡ some p)
    × ((j : Key)
        → flow_of table s' j ≡ (
            if str_eq j (flow_key one_byte (45 ∷ []) ends)
            then some (
                counted 60 111 fresh
                  (current table true 111 logger (flow_key one_byte (45 ∷ []) ends)))
            else current table true 111 logger j))
get_osdpi_flow_example =
    get_osdpi_flow-counted table table-IsLawful true one_byte (45 ∷ []) ends 60 111 logger
      logger-IsLogger (omega arith)

abbrev captured : Captured
captured = record { tv_sec = 111; tv_usec = 5000; address = 4096; bytes = frame }

frame_headers : extract_headers frame ≡ extracted (with_udp 14 34)
unfolding extract_headers extract_ip extract_transport
frame_headers = refl

-- The second host has another address in memory.
search-dst : table.get_host ((4122 ∷ []) ∷ []) (4126 ∷ []) ≢ dead_key
unfolding str_eq
search-dst e = no_host-alive e

handled :
    Processed table table-IsLawful one_byte true
      (with_udp 14 34)
      captured
      logger
      (process_packet table one_byte true captured logger)
handled =
    process_packet-Processed table table-IsLawful one_byte true (with_udp 14 34) captured logger
      logger-IsLogger logger-HasIds (omega arith) no_host-alive search-dst frame_headers

-- A second later another packet stands at the same place.
process_packet_again_example :
    process_packet table one_byte true (record captured { tv_sec = 112 }) handled.after ≡ fault
process_packet_again_example =
    process_packet_again table table-IsLawful one_byte true true (with_udp 14 34) (with_udp 14 34)
      captured (record captured { tv_sec = 112 }) logger handled.after _ frame_headers refl
      handled.result frame_headers refl

process_packet_example :
    Processed table table-IsLawful one_byte true
      (with_udp 14 34)
      captured
      logger
      (process_packet table one_byte true captured logger)
process_packet_example =
    process_packet-Processed table table-IsLawful one_byte true (with_udp 14 34) captured logger
      logger-IsLogger logger-HasIds (omega arith) no_host-alive search-dst frame_headers

-- "-v -r ab -i cd"
abbrev opts : List Opt
opts =
    record { c = b'v'; optarg = [] }
    ∷ record { c = b'r'; optarg = b'a' ∷ b'b' ∷ [] }
    ∷ record { c = b'i'; optarg = b'c' ∷ b'd' ∷ [] }
    ∷ []

parse_options_example :
    parse_options true opts
    ≡ done (record {
      verbose = true;
      capture = device_capture;
      filename = b'a' ∷ b'b' ∷ [];
      dev_name = b'c' ∷ b'd' ∷ [];
      pcap_filter = default_cfg.pcap_filter;
      target = hwdb_server_addr;
      port = hwdb_server_port;
    })
parse_options_example = parse_options_fields opts (
  (inr (inr (inr refl)), omega arith),
  ((inr (inl refl), omega arith), ((inr (inr (inl refl)), omega arith), tt)),
)

main-calls_example :
    main willing opts
    ≡ done (pcap_open_live (b'c' ∷ b'd' ∷ []) ∷ (filter_calls default_cfg.pcap_filter ++ running))
main-calls_example = main-calls opts (
  (inr (inr (inr refl)), omega arith),
  ((inr (inl refl), omega arith), ((inr (inr (inl refl)), omega arith), tt)),
)
