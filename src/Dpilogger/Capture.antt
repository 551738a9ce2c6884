-- ===== src/Dpilogger/Capture.antt =====
-- dpilogger.c: what is done with a captured packet. OpenDPI's detection is a call that is recorded
-- with its arguments; its result is not used. The headers lie within the packet (Headers.antt), so
-- no field that is read here is missing.
pub mod Ids
pub mod Packets
pub mod Again
use hwdb_opendpi.Prelude.{
  ℕ, ◌+◌, ◌-◌, ◌*◌, ◌/◌, ◌%◌, ◌^◌, Bool, true, false, Option, none, some, List, [], ◌∷◌, ltb, ◌==◌,
  if◌then◌else◌, length, take, drop, get_or, Outcome, done, exits, fault, ◌>>=◌,
}
use hwdb_opendpi.Endpoint.{ByteOrder}
use hwdb_opendpi.Dpilogger.{
  Ends, PacketHeader, with_tcp, with_udp, Extracted, extracted, refused, overrun, ether_hdr_len,
  extract_headers,
}
use hwdb_opendpi.Dpilogger.Flows.{
  host_at, no_host, dead_key, HashTable, OsdpiId, write, Logger, malloc, get_osdpi_flow,
}

-- `struct pcap_pkthdr` and the packet: `address` is where its bytes stand in memory.
pub record Captured : Type 0 where
  pub tv_sec : ℕ
  pub tv_usec : ℕ
  pub address : ℕ
  pub bytes : List ℕ

-- The arguments of `ipoque_detection_process_packet`, whose time has 32 bits: the flow's state, the
-- packet behind the Ethernet header and its length, the time, and the states of the two hosts.
pub record Detection : Type 0 where
  pub flow : ℕ
  pub packet : List ℕ
  pub packetlen : ℕ
  pub time : ℕ
  pub src : ℕ
  pub dst : ℕ

-- Two and four bytes in network order.
abbrev pub be16 : List ℕ → ℕ → ℕ
be16 xs i = get_or xs i 0 * 256 + get_or xs (i + 1) 0

abbrev pub be32 : List ℕ → ℕ → ℕ
be32 xs i = be16 xs i * 2 ^ 16 + be16 xs (i + 2)

-- `-TCP` and `-UDP`
abbrev pub protocol_name : PacketHeader → List ℕ
protocol_name (with_tcp ip l4) = 45 ∷ 84 ∷ 67 ∷ 80 ∷ []
protocol_name (with_udp ip l4) = 45 ∷ 85 ∷ 68 ∷ 80 ∷ []

abbrev pub ip_of : PacketHeader → ℕ
ip_of (with_tcp ip l4) = ip
ip_of (with_udp ip l4) = ip

abbrev pub l4_of : PacketHeader → ℕ
l4_of (with_tcp ip l4) = l4
l4_of (with_udp ip l4) = l4

-- `hdr->ip->saddr` and `daddr` as the machine reads them, and the ports through `ntohs`.
abbrev pub ends_of : ⦃net : ByteOrder⦄ → PacketHeader → List ℕ → Ends
ends_of ⦃net⦄ h xs = record {
  saddr = net.htonl (be32 xs (ip_of h + 12));
  daddr = net.htonl (be32 xs (ip_of h + 16));
  source = be16 xs (l4_of h);
  dest = be16 xs (l4_of h + 2);
}

module _ (T : HashTable) (inet_ntoa : ℕ → List ℕ) where
  -- `ip` is a pointer to four bytes, and `addr.s_addr = ip` takes the pointer itself. The key that
  -- the table keeps is `str_ip`, which is gone when the function returns.
  unfoldable pub get_id : ℕ → List ℕ → Logger T → Outcome (ℕ × Logger T)
  unfolding malloc
  get_id ip four_bytes s =
      let str_ip = inet_ntoa (ip % 2 ^ 32) in
      elim (T.get_host s.ids str_ip) [
        | dead_key ↦ fault
        | host_at p ↦ elim (s.id_at p) [ none ↦ fault | some d ↦ done (d.ipoque_id, s) ]
        | no_host ↦ elim (malloc T s) [
          | none ↦ exits 1
          | some (p, s1) ↦ elim (malloc T s1) [
            | none ↦ exits 1
            | some (q, s2) ↦ done (
              q,
              record s2 {
                id_at = write s2.id_at p (some (record { ip = four_bytes; ipoque_id = q }));
                ids = T.insert_host s2.ids str_ip p;
              },
            )
          ]
        ]
      ]

  module _ ⦃net : ByteOrder⦄ where
    -- The call of the detection, or the warning about a fragment.
    unfoldable pub detect :
        PacketHeader → Captured → ℕ → ℕ → ℕ → Logger T → Outcome (Option Detection × Logger T)
    detect h c src dst p s = elim (s.flow_at p) [
      | none ↦ fault
      | some f ↦
          if be16 c.bytes (ip_of h + 6) % 2 ^ 13 == 0
          then done (
            some (record {
              flow = f.ipoque_flow;
              packet = drop (ip_of h) c.bytes;
              packetlen = (length c.bytes - ether_hdr_len) % 2 ^ 16;
              time = (c.tv_sec * 1000 + c.tv_usec / 1000) % 2 ^ 64 % 2 ^ 32;
              src = src;
              dst = dst;
            }),
            s,
          )
          else done (none, record s { frag_warning_used = true })
    ]

    -- `made` is whether an iterator is made for a collection of flows that is due.
    unfoldable pub process_headers :
        Bool → PacketHeader → Captured → Logger T → Outcome (Option Detection × Logger T)
    unfolding get_id get_osdpi_flow detect
    process_headers made h c s =
        get_id (c.address + (ip_of h + 12)) (take 4 (drop (ip_of h + 12) c.bytes)) s >>= λ r1.
        get_id (c.address + (ip_of h + 16)) (take 4 (drop (ip_of h + 16) c.bytes)) r1.1 >>= λ r2.
        get_osdpi_flow T made inet_ntoa (protocol_name h) (ends_of h c.bytes)
          ((length c.bytes - ether_hdr_len) % 2 ^ 16) (c.tv_sec % 2 ^ 32) r2.1
        >>= λ r3. detect h c r1.0 r2.0 r3.0 r3.1

    unfoldable pub process_packet :
        Bool → Captured → Logger T → Outcome (Option Detection × Logger T)
    unfolding extract_headers process_headers
    process_packet made c s = elim (extract_headers c.bytes) [
      | overrun ↦ fault
      | refused ↦ done (none, s)
      | extracted h ↦ process_headers made h c s
    ]
