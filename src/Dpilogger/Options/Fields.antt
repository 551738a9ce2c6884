-- ===== src/Dpilogger/Options/Fields.antt =====
-- dpilogger.c, `parse_options`, `init` and `main`: what the options decide, and what is called.
use hwdb_opendpi.Prelude.{
  ℕ, ◌<◌, ◌≡◌, ◌⊎◌, refl, inl, inr, Bool, true, false, List, [], ◌∷◌, ◌==◌, if◌then◌else◌, length,
  All, ltb_of_lt, done, ◌>>=◌, ◌++◌,
}
use hwdb_opendpi.Dpilogger.Options.{
  Config, CaptureType, file_capture, device_capture, array_size, init_cfg, default_cfg, Opt,
  parse_option, parse_loop, parse_options, hwdb_server_addr, hwdb_server_port, Answers, set_filter,
  opening, init, main, Call, pcap_open_live, pcap_open_offline, pcap_compile, pcap_setfilter,
  rpc_init, rpc_connect, ipoque_init_detection_module, enable_all_protocols, pcap_loop, pcap_close,
}

-- The argument of the last option `c`, or `d`.
abbrev pub last_arg : ℕ → List Opt → List ℕ → List ℕ
last_arg c [] d = d
last_arg c (o ∷ os) d = last_arg c os (if o.c == c then o.optarg else d)

abbrev pub given : ℕ → List Opt → Bool → Bool
given c [] b = b
given c (o ∷ os) b = given c os (if o.c == c then true else b)

-- The source that the last of the options -r and -i names.
abbrev pub last_capture : List Opt → CaptureType → CaptureType
last_capture [] d = d
last_capture (o ∷ os) d =
    last_capture os
      (if o.c == b'r' then file_capture else if o.c == b'i' then device_capture else d)

-- An option of the program, whose argument fits.
abbrev pub IsOption : Opt → Type 0
IsOption o =
    ((o.c ≡ b'f') ⊎ (o.c ≡ b'r') ⊎ (o.c ≡ b'i') ⊎ (o.c ≡ b'v')) × (length o.optarg < array_size)

parse_loop_fields :
    (os : List Opt) (cfg : Config)
    → All IsOption os
    → parse_loop os cfg
      ≡ done (record cfg {
        verbose = given b'v' os cfg.verbose;
        capture = last_capture os cfg.capture;
        filename = last_arg b'r' os cfg.filename;
        dev_name = last_arg b'i' os cfg.dev_name;
        pcap_filter = last_arg b'f' os cfg.pcap_filter;
      })
unfolding parse_loop parse_option
parse_loop_fields [] cfg h = refl
parse_loop_fields (o ∷ os) cfg ((inl e, short), h) =
    rw (e, ltb_of_lt (length o.optarg) array_size short)
      (parse_loop_fields os (record cfg { pcap_filter = o.optarg }) h)
parse_loop_fields (o ∷ os) cfg ((inr (inl e), short), h) =
    rw (e, ltb_of_lt (length o.optarg) array_size short)
      (parse_loop_fields os (record cfg { filename = o.optarg; capture = file_capture }) h)
parse_loop_fields (o ∷ os) cfg ((inr (inr (inl e)), short), h) =
    rw (e, ltb_of_lt (length o.optarg) array_size short)
      (parse_loop_fields os (record cfg { dev_name = o.optarg; capture = device_capture }) h)
parse_loop_fields (o ∷ os) cfg ((inr (inr (inr e)), short), h) =
    rw (e) (parse_loop_fields os (record cfg { verbose = true }) h)

-- When every option is one of the program's and its argument fits, the configuration is built, and
-- each field is decided by the last of its own options, or else by its default.
pub parse_options_fields :
    (os : List Opt)
    → All IsOption os
    → parse_options true os
      ≡ done (record {
        verbose = given b'v' os false;
        capture = last_capture os device_capture;
        filename = last_arg b'r' os [];
        dev_name = last_arg b'i' os default_cfg.dev_name;
        pcap_filter = last_arg b'f' os default_cfg.pcap_filter;
        target = hwdb_server_addr;
        port = hwdb_server_port;
      })
unfolding parse_options init_cfg
parse_options_fields os h =
    parse_loop_fields os (record default_cfg { target = hwdb_server_addr; port = hwdb_server_port })
      h

-- What is called for the filter.
abbrev pub filter_calls : List ℕ → List Call
filter_calls [] = []
filter_calls (x ∷ xs) = pcap_compile (x ∷ xs) ∷ pcap_setfilter ∷ []

-- What is called behind the filter, until the program ends.
abbrev pub running : List Call
running =
    rpc_init
    ∷ rpc_connect hwdb_server_addr hwdb_server_port
    ∷ ipoque_init_detection_module
    ∷ enable_all_protocols
    ∷ pcap_loop
    ∷ pcap_close
    ∷ []

-- Every library does what it is asked for.
abbrev pub willing : Answers
willing = record {
  makes_table = true;
  opens = true;
  compiles = true;
  sets_filter = true;
  rpc_starts = true;
  connects = true;
  detects = true;
}

abbrev pub opened_by : CaptureType → List ℕ → List ℕ → Call
opened_by file_capture file device = pcap_open_offline file
opened_by device_capture file device = pcap_open_live device

opening_lem :
    (cfg : Config) (ty : CaptureType) → opening cfg ty ≡ opened_by ty cfg.filename cfg.dev_name
opening_lem cfg file_capture = refl
opening_lem cfg device_capture = refl

init-calls :
    (cfg : Config) (filter : List ℕ)
    → cfg.pcap_filter ≡ filter
    → (init willing cfg >>= λ calls. done (calls ++ (pcap_loop ∷ pcap_close ∷ [])))
      ≡ done (opened_by cfg.capture cfg.filename cfg.dev_name ∷ (filter_calls filter ++ running))
unfolding init set_filter
init-calls cfg [] e = rw (e, opening_lem cfg cfg.capture) refl
init-calls cfg (x ∷ xs) e = rw (e, opening_lem cfg cfg.capture) refl

-- When every option is one of the program's and its argument fits, and no library refuses a call,
-- the program opens the source that the last of -r and -i names, a file or a device, or else the
-- device eth0. It sets the filter of the last -f, or else the default one, unless that is empty,
-- then starts the rpc system, connects to the database and starts the detection before it captures,
-- and closes the capture at the end; it makes no other of these calls.
pub main-calls :
    (os : List Opt)
    → All IsOption os
    → main willing os
      ≡ done (
          opened_by
            (last_capture os device_capture)
            (last_arg b'r' os [])
            (last_arg b'i' os default_cfg.dev_name)
          ∷ (filter_calls (last_arg b'f' os default_cfg.pcap_filter) ++ running))
unfolding main
main-calls os h = rw (parse_options_fields os h) (
    init-calls
      (record {
        verbose = given b'v' os false;
        capture = last_capture os device_capture;
        filename = last_arg b'r' os [];
        dev_name = last_arg b'i' os default_cfg.dev_name;
        pcap_filter = last_arg b'f' os default_cfg.pcap_filter;
        target = hwdb_server_addr;
        port = hwdb_server_port;
      })
      (last_arg b'f' os default_cfg.pcap_filter) refl)
