-- ===== src/Dpilogger/Options.antt =====
-- dpilogger.c: the configuration and the start of the program. getopt gives a list of options; the
-- answers of libpcap, of the rpc system and of OpenDPI are an argument. A text that does not fit
-- its array overflows it, which is a `fault`.
pub mod Fields
use hwdb_opendpi.Prelude.{
  ℕ, Bool, true, false, List, [], ◌∷◌, ◌++◌, ltb, ◌==◌, if◌then◌else◌, length, Outcome, done, exits,
  fault, ◌>>=◌,
}

pub data CaptureType : Type 0 where
  file_capture device_capture : CaptureType

-- The fields of `struct str_cfg` that are set before the capture begins.
pub record Config : Type 0 where
  pub verbose : Bool
  pub capture : CaptureType
  pub filename : List ℕ
  pub dev_name : List ℕ
  pub pcap_filter : List ℕ
  pub target : List ℕ
  pub port : ℕ

abbrev pub array_size : ℕ
array_size = 1000

-- "localhost", and HWDB_SERVER_PORT.
abbrev pub hwdb_server_addr : List ℕ
hwdb_server_addr = 108 ∷ 111 ∷ 99 ∷ 97 ∷ 108 ∷ 104 ∷ 111 ∷ 115 ∷ 116 ∷ []

abbrev pub hwdb_server_port : ℕ
hwdb_server_port = 987

-- "eth0" and "udp or tcp"; `filename` is a global array, and empty.
abbrev pub default_cfg : Config
default_cfg = record {
  verbose = false;
  capture = device_capture;
  filename = [];
  dev_name = 101 ∷ 116 ∷ 104 ∷ 48 ∷ [];
  pcap_filter = 117 ∷ 100 ∷ 112 ∷ 32 ∷ 111 ∷ 114 ∷ 32 ∷ 116 ∷ 99 ∷ 112 ∷ [];
  target = [];
  port = 0;
}

-- Whether libhashish makes the table of flows decides.
unfoldable pub init_cfg : Bool → Outcome Config
init_cfg made = if made then done default_cfg else exits 1

-- What getopt returns, and `optarg`.
pub record Opt : Type 0 where
  pub c : ℕ
  pub optarg : List ℕ

-- `strcpy` to an array of a thousand bytes.
abbrev pub strcpy : List ℕ → Config → Outcome Config
strcpy text cfg = if ltb (length text) array_size then done cfg else fault

-- The switch. 'h' is not among the options of getopt, and the default case exits alike.
unfoldable pub parse_option : Opt → Config → Outcome Config
parse_option o cfg =
    if o.c == b'f'
    then strcpy o.optarg (record cfg { pcap_filter = o.optarg })
    else if o.c == b'r'
    then strcpy o.optarg (record cfg { filename = o.optarg; capture = file_capture })
    else if o.c == b'i'
    then strcpy o.optarg (record cfg { dev_name = o.optarg; capture = device_capture })
    else if o.c == b'v'
    then done (record cfg { verbose = true })
    else exits 0

unfoldable pub parse_loop : List Opt → Config → Outcome Config
unfolding parse_option
parse_loop [] cfg = done cfg
parse_loop (o ∷ os) cfg = parse_option o cfg >>= parse_loop os

unfoldable pub parse_options : Bool → List Opt → Outcome Config
unfolding init_cfg parse_loop
parse_options made os = init_cfg made >>= λ cfg.
    parse_loop os (record cfg { target = hwdb_server_addr; port = hwdb_server_port })

-- What the libraries answer.
pub record Answers : Type 0 where
  pub makes_table : Bool
  pub opens : Bool
  pub compiles : Bool
  pub sets_filter : Bool
  pub rpc_starts : Bool
  pub connects : Bool
  pub detects : Bool

-- The calls that are made, in order.
pub data Call : Type 0 where
  pcap_open_live : List ℕ → Call
  pcap_open_offline : List ℕ → Call
  pcap_compile : List ℕ → Call
  pcap_setfilter rpc_init : Call
  rpc_connect : List ℕ → ℕ → Call
  ipoque_init_detection_module enable_all_protocols pcap_loop pcap_close : Call

abbrev pub require : Bool → ℕ → Outcome (List Call) → Outcome (List Call)
require true status rest = rest
require false status rest = exits status

abbrev pub then_calls : List Call → Outcome (List Call) → Outcome (List Call)
then_calls calls rest = rest >>= λ more. done (calls ++ more)

abbrev pub opening : Config → CaptureType → Call
opening cfg device_capture = pcap_open_live cfg.dev_name
opening cfg file_capture = pcap_open_offline cfg.filename

-- The filter, unless it is empty.
unfoldable pub set_filter : Answers → List ℕ → Outcome (List Call) → Outcome (List Call)
set_filter a [] rest = rest
set_filter a (x ∷ xs) rest =
    require a.compiles 1
      (require a.sets_filter 1 (then_calls (pcap_compile (x ∷ xs) ∷ pcap_setfilter ∷ []) rest))

-- `exit(-1)` is the status 255.
unfoldable pub init : Answers → Config → Outcome (List Call)
unfolding set_filter
init a cfg = require a.opens 1 (
    then_calls (opening cfg cfg.capture ∷ []) (
      set_filter a cfg.pcap_filter (
        require a.rpc_starts 255 (
          require a.connects 255 (
            require a.detects 255 (
              done (
                rpc_init
                ∷ rpc_connect hwdb_server_addr hwdb_server_port
                ∷ ipoque_init_detection_module
                ∷ enable_all_protocols
                ∷ [])))))))

-- The packets of the capture are handled between the last two calls.
unfoldable pub main : Answers → List Opt → Outcome (List Call)
unfolding parse_options init
main a os = parse_options a.makes_table os >>= λ cfg.
    init a cfg >>= λ calls. done (calls ++ (pcap_loop ∷ pcap_close ∷ []))
