-- ===== src/Dpilogger/Capture/Packets.antt =====
-- dpilogger.c, `process_packet`: a captured packet is counted in its flow and handed to the
-- detection.
use mathlib.Core.Path.{subst}
use hwdb_opendpi.Prelude.{
  ◌≢◌, ℕ, ◌+◌, ◌-◌, ◌*◌, ◌/◌, ◌%◌, ◌^◌, ◌≤◌, ◌≡◌, refl, sym, ap, ◌∙◌, inl, inr, Bool, true, Option,
  none, some, List, arith, ◌==◌, if◌then◌else◌, length, take, drop, Bool-cases, Outcome, done,
}
use hwdb_opendpi.Stable.{str_eq}
use hwdb_opendpi.Stable.Lookup.{str_eq_refl}
use hwdb_opendpi.Endpoint.{ByteOrder}
use hwdb_opendpi.Dpilogger.{PacketHeader, extracted, ether_hdr_len, extract_headers, flow_key}
use hwdb_opendpi.Dpilogger.Flows.{
  dead_key, Key, HashTable, IsLawful, OsdpiFlow, Logger, get_osdpi_flow,
}
use hwdb_opendpi.Dpilogger.Flows.Aging.{pointed, flow_of, IsLogger}
use hwdb_opendpi.Dpilogger.Flows.Accounting.{counted, current, get_osdpi_flow-counted}
use hwdb_opendpi.Dpilogger.Capture.{
  Captured, Detection, be16, protocol_name, ip_of, ends_of, get_id, detect, process_headers,
  process_packet,
}
use hwdb_opendpi.Dpilogger.Capture.Ids.{
  with_host, HasIds, SameIds, SameIds-HasIds, KeepsIds, leaves, get_osdpi_flow-KeepsIds, Identified,
  get_id-Identified,
}

done_inv :
    (T : HashTable) {s t : Logger T} {p : ℕ}
    → KeepsIds T {A = ℕ × Logger T} (λ r. r.1) s (done (p, t))
    → SameIds T s t
done_inv T (leaves h) = h

module _ ⦃net : ByteOrder⦄ (T : HashTable) (lawful : IsLawful T) (inet_ntoa : ℕ → List ℕ)
    (made : Bool) where
  abbrev pub key_of : PacketHeader → Captured → Key
  key_of h c = flow_key inet_ntoa (protocol_name h) (ends_of h c.bytes)

  abbrev pub ipsize_of : Captured → ℕ
  ipsize_of c = (length c.bytes - ether_hdr_len) % 2 ^ 16

  abbrev pub seconds : Captured → ℕ
  seconds c = c.tv_sec % 2 ^ 32

  -- What the detection is called with, unless the packet is a later fragment.
  abbrev pub called : PacketHeader → Captured → ℕ → ℕ → OsdpiFlow → Option Detection
  called h c src dst f =
      if be16 c.bytes (ip_of h + 6) % 2 ^ 13 == 0
      then some (record {
        flow = f.ipoque_flow;
        packet = drop (ip_of h) c.bytes;
        packetlen = ipsize_of c;
        time = (c.tv_sec * 1000 + c.tv_usec / 1000) % 2 ^ 64 % 2 ^ 32;
        src = src;
        dst = dst;
      })
      else none

  detect_lem :
      (h : PacketHeader) (c : Captured) (src dst p : ℕ) (f : OsdpiFlow) (s : Logger T)
      → s.flow_at p ≡ some f
      → (warned : Bool) × (detect T inet_ntoa h c src dst p s
          ≡ done (called h c src dst f, record s { frag_warning_used = warned }))
  unfolding detect
  detect_lem h c src dst p f s at = elim (Bool-cases (be16 c.bytes (ip_of h + 6) % 2 ^ 13 == 0)) [
    | inl e ↦ (s.frag_warning_used, rw (at, detect, e) refl)
    | inr e ↦ (true, rw (at, detect, e) refl)
  ]

  Identified-IsLogger :
      (k : Key) (s s' : Logger T)
      → Identified T lawful inet_ntoa k s s'
      → IsLogger T s
      → IsLogger T s'
  Identified-IsLogger k s s' same v = record {
    live = λ k p e. rw same.flow_at (v.live k p (rw same.flows at e));
    below = λ k p e. omega (arith, v.below k p (rw same.flows at e), same.brk);
    apart = λ j k p e e'. v.apart j k p (rw same.flows at e) (rw same.flows at e');
  }

  Identified-current :
      (k : Key) (s s' : Logger T)
      → Identified T lawful inet_ntoa k s s'
      → (time : ℕ) (j : Key) → current T made time s' j ≡ current T made time s j
  Identified-current k s s' same time j = rw (same.flows, same.flow_at, same.timer) refl

  module _ (h : PacketHeader) (c : Captured) (s : Logger T) where
    -- The keys of the two hosts: the texts of the addresses in memory where theirs stand.
    abbrev pub src_key : Key
    src_key = inet_ntoa ((c.address + (ip_of h + 12)) % 2 ^ 32)

    abbrev pub dst_key : Key
    dst_key = inet_ntoa ((c.address + (ip_of h + 16)) % 2 ^ 32)

    abbrev pub recorded_flow : ℕ → OsdpiFlow
    recorded_flow fresh =
        counted (ipsize_of c) (seconds c) fresh (current T made (seconds c) s (key_of h c))

    -- After the packet: its flow has it, the others are as they were but for a collection, and it
    -- was handed to the detection.
    pub record Processed (o : Outcome (Option Detection × Logger T)) : Type 0 where
      pub after : Logger T
      pub valid : IsLogger T after
      pub hosts : HasIds T after
      pub src : ℕ
      pub dst : ℕ
      pub fresh : ℕ
      pub result : o ≡ done (called h c src dst (recorded_flow fresh), after)
      pub flow :
          (j : Key)
          → flow_of T after j ≡ (
              if str_eq j (key_of h c)
              then some (recorded_flow fresh)
              else current T made (seconds c) s j)

    abbrev call_flow : Logger T → Outcome (ℕ × Logger T)
    call_flow =
        get_osdpi_flow T made inet_ntoa (protocol_name h) (ends_of h c.bytes) (ipsize_of c)
          (seconds c)

    -- The flow's part, from a state `s2` whose flows are those of `s`.
    pub record Entered (s2 : Logger T) : Type 0 where
      pub s3 : Logger T
      pub p : ℕ
      pub fresh : ℕ
      pub run : call_flow s2 ≡ done (p, s3)
      pub valid : IsLogger T s3
      pub hosts : HasIds T s3
      pub here : s3.flow_at p ≡ some (recorded_flow fresh)
      pub flow :
          (j : Key)
          → flow_of T s3 j ≡ (
              if str_eq j (key_of h c)
              then some (recorded_flow fresh)
              else current T made (seconds c) s j)

    enters :
        (s2 : Logger T)
        → IsLogger T s2
        → HasIds T s2
        → 3 ≤ s2.room
        → ((j : Key) → current T made (seconds c) s2 j ≡ current T made (seconds c) s j)
        → Entered s2
    enters s2 v hosts room past =
        let (s3, p, fresh, run, v3, found, flow) =
          get_osdpi_flow-counted T lawful made inet_ntoa (protocol_name h) (ends_of h c.bytes)
            (ipsize_of c) (seconds c) s2 v room in
        let same = done_inv T (
          subst (KeepsIds T (λ r. r.1) s2) run (
            get_osdpi_flow-KeepsIds T made inet_ntoa (protocol_name h) (ends_of h c.bytes)
              (ipsize_of c) (seconds c) s2)) in
        let now : flow_of T s3 (key_of h c) ≡ some (recorded_flow fresh) =
          flow (key_of h c) ∙ rw (str_eq_refl (key_of h c), past (key_of h c)) refl in
        record {
          s3 = s3;
          p = p;
          fresh = fresh;
          run = run;
          valid = v3;
          hosts = SameIds-HasIds T s2 s3 same hosts;
          here = ap (pointed s3.flow_at) (sym found) ∙ now;
          flow = λ j. flow j ∙ rw (past j, past (key_of h c)) refl;
        }

    process_headers_steps :
        (s1 s2 s3 s4 : Logger T) (src dst p : ℕ) (out : Option Detection)
        → get_id T inet_ntoa (c.address + (ip_of h + 12)) (take 4 (drop (ip_of h + 12) c.bytes)) s
          ≡ done (src, s1)
        → get_id T inet_ntoa (c.address + (ip_of h + 16)) (take 4 (drop (ip_of h + 16) c.bytes)) s1
          ≡ done (dst, s2)
        → call_flow s2 ≡ done (p, s3)
        → detect T inet_ntoa h c src dst p s3 ≡ done (out, s4)
        → process_headers T inet_ntoa made h c s ≡ done (out, s4)
    unfolding process_headers
    process_headers_steps s1 s2 s3 s4 src dst p out e1 e2 e3 e4 = rw (e1, e2, e3, e4) refl

    process_headers-Processed :
        IsLogger T s
        → HasIds T s
        → 7 ≤ s.room
        → T.get_host s.ids src_key ≢ dead_key
        → T.get_host (with_host T s src_key) dst_key ≢ dead_key
        → Processed (process_headers T inet_ntoa made h c s)
    process_headers-Processed v hosts room src_readable dst_readable =
        let (src, s1, run1, same1) =
          get_id-Identified T lawful inet_ntoa s hosts (c.address + (ip_of h + 12))
            (take 4 (drop (ip_of h + 12) c.bytes)) (omega arith) src_readable in
        let v1 = Identified-IsLogger src_key s s1 same1 v in
        let (dst, s2, run2, same2) =
          get_id-Identified T lawful inet_ntoa s1 same1.hosts (c.address + (ip_of h + 16))
            (take 4 (drop (ip_of h + 16) c.bytes)) (omega (arith, same1.room))
            (rw same1.ids dst_readable) in
        let w =
          enters s2 (Identified-IsLogger dst_key s1 s2 same2 v1) same2.hosts
            (omega (arith, same1.room, same2.room))
            (λ j.
              Identified-current dst_key s1 s2 same2 (seconds c) j
              ∙ Identified-current src_key s s1 same1 (seconds c) j) in
        let (warned, run4) = detect_lem h c src dst w.p (recorded_flow w.fresh) w.s3 w.here in
        let after : Logger T = record w.s3 { frag_warning_used = warned } in
        record {
          after = after;
          valid = record { live = w.valid.live; below = w.valid.below; apart = w.valid.apart };
          hosts = record { live = w.hosts.live; below = w.hosts.below };
          src = src;
          dst = dst;
          fresh = w.fresh;
          result = process_headers_steps s1 s2 w.s3 after src dst w.p _ run1 run2 w.run run4;
          flow = w.flow;
        }

    -- While seven blocks are left, and when neither search for a host reads a key that is gone, a
    -- packet whose headers extract_headers gives is counted in the flow of its key, changes no
    -- other flow but those that a due collection removes if its iterator is made, keeps the tables
    -- well-formed, and is handed to the detection with its flow's state unless its fragment offset
    -- is not 0.
    pub process_packet-Processed :
        IsLogger T s
        → HasIds T s
        → 7 ≤ s.room
        → T.get_host s.ids src_key ≢ dead_key
        → T.get_host (with_host T s src_key) dst_key ≢ dead_key
        → extract_headers c.bytes ≡ extracted h
        → Processed (process_packet T inet_ntoa made c s)
    unfolding process_packet
    process_packet-Processed v hosts room src_readable dst_readable e =
        rw (e, process_packet) (process_headers-Processed v hosts room src_readable dst_readable)
