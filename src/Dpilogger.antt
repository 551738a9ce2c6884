-- ===== src/Dpilogger.antt =====
-- dpilogger.c: the headers of a captured packet, and the key of its flow. A pointer into the packet
-- is an offset. `inet_ntoa` is a parameter.
pub mod Headers
pub mod Keys
pub mod Flows
pub mod Capture
pub mod Options
use hwdb_opendpi.Prelude.{
  ℕ, ◌+◌, ◌*◌, ◌/◌, ◌%◌, Option, none, some, List, [], ◌∷◌, ◌++◌, ltb, ◌==◌, if◌then◌else◌, length,
  get_elem?, take,
}

-- The fields of `struct packet_header` that are set: the offsets of the IP header and of the TCP or
-- UDP header.
pub data PacketHeader : Type 0 where
  with_tcp : (ip tcp : ℕ) → PacketHeader
  with_udp : (ip udp : ℕ) → PacketHeader

-- `refused` is the result 0, and `overrun` a read past the end of the packet.
pub data Extracted : Type 0 where
  extracted : PacketHeader → Extracted
  refused : Extracted
  overrun : Extracted

-- ETHER_HDR_LEN of <net/ethernet.h>.
abbrev pub ether_hdr_len : ℕ
ether_hdr_len = 14

-- `sizeof(struct iphdr)`, `sizeof(struct tcphdr)` and `sizeof(struct udphdr)`
abbrev pub iphdr_size : ℕ
iphdr_size = 20

abbrev pub tcphdr_size : ℕ
tcphdr_size = 20

abbrev pub udphdr_size : ℕ
udphdr_size = 8

abbrev pub reading : Option ℕ → (ℕ → Extracted) → Extracted
reading none f = overrun
reading (some x) f = f x

-- The TCP or UDP header at `ptr`; `protocol` is the field of the IP header.
unfoldable pub extract_transport : List ℕ → ℕ → ℕ → Extracted
extract_transport data_bytes ptr protocol =
    if protocol == 6
    then (if ltb (length data_bytes) (ptr + tcphdr_size)
        then refused
        else extracted (with_tcp ether_hdr_len ptr))
    else if protocol == 17
    then (if ltb (length data_bytes) (ptr + udphdr_size)
        then refused
        else extracted (with_udp ether_hdr_len ptr))
    else refused

-- The IP header, whose length field counts words of four bytes.
unfoldable pub extract_ip : List ℕ → Extracted
unfolding extract_transport
extract_ip data_bytes =
    if ltb (length data_bytes) (ether_hdr_len + iphdr_size)
    then refused
    else reading (get_elem? data_bytes ether_hdr_len) (λ b.
      if ltb (length data_bytes) (ether_hdr_len + b % 16 * 4)
      then refused
      else reading (get_elem? data_bytes (ether_hdr_len + 9))
          (extract_transport data_bytes (ether_hdr_len + b % 16 * 4)))

-- `ether_type` is in network order.
unfoldable pub extract_headers : List ℕ → Extracted
unfolding extract_ip
extract_headers data_bytes =
    if ltb (length data_bytes) ether_hdr_len
    then refused
    else reading (get_elem? data_bytes 12) (λ hi.
      reading (get_elem? data_bytes 13)
        (λ lo. if hi * 256 + lo == 0x0800 then extract_ip data_bytes else refused))

-- What the key of a flow is made from: the addresses as the machine reads them, and the ports in
-- the host's order.
pub record Ends : Type 0 where
  pub saddr : ℕ
  pub daddr : ℕ
  pub source : ℕ
  pub dest : ℕ

-- `%05d` of a port.
unfoldable pub five_digits : ℕ → List ℕ
five_digits p =
    (48 + p / 10000 % 10)
    ∷ (48 + p / 1000 % 10)
    ∷ (48 + p / 100 % 10)
    ∷ (48 + p / 10 % 10)
    ∷ (48 + p % 10)
    ∷ []

-- `snprintf(flow_key, 50, "%s:%05d-%s:%05d-TCP", ...)`; `name` is "-TCP" or "-UDP".
unfoldable pub flow_key : (ℕ → List ℕ) → List ℕ → Ends → List ℕ
unfolding five_digits
flow_key inet_ntoa name e =
    let text = λ (a p b q : ℕ). take 49 (
      inet_ntoa a
      ++ (58 ∷ (five_digits p ++ (45 ∷ (inet_ntoa b ++ (58 ∷ (five_digits q ++ name))))))) in
    if ltb e.saddr e.daddr
    then text e.saddr e.source e.daddr e.dest
    else text e.daddr e.dest e.saddr e.source
