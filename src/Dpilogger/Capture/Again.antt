-- ===== src/Dpilogger/Capture/Again.antt =====
-- dpilogger.c, `process_packet`: packets that stand at the same address in memory one after the
-- other, and the key of the first one's host.
use mathlib.Core.Path.{subst}
use hwdb_opendpi.Prelude.{
  ◌-◌, ℕ, ◌+◌, ◌%◌, ◌^◌, ◌≡◌, refl, ap, inl, inr, Bool, Option, List, arith, ◌==◌, length, take,
  drop, Bool-cases, Option-cases, Outcome, done, exits, fault, ◌>>=◌,
}
use hwdb_opendpi.Endpoint.{ByteOrder}
use hwdb_opendpi.Dpilogger.{PacketHeader, extracted, ether_hdr_len, extract_headers}
use hwdb_opendpi.Dpilogger.Flows.{Key, HashTable, IsLawful, Logger, malloc, no_host, dead_key}
use hwdb_opendpi.Dpilogger.Capture.{
  Captured, Detection, be16, protocol_name, ip_of, ends_of, get_id, detect, process_headers,
  process_packet,
}
use hwdb_opendpi.Dpilogger.Capture.Ids.{
  KeepsIds, leaves, stops, fails, get_osdpi_flow-KeepsIds, HostLookup-cases,
}

module _ (T : HashTable) (lawful : IsLawful T) (inet_ntoa : ℕ → List ℕ) (k : Key) where
  -- A search for `k` would read a key that is gone.
  abbrev IsDead : Logger T → Type 0
  IsDead s = T.get_host s.ids k ≡ dead_key

  -- So it is in the state that an operation leaves, if it does.
  abbrev Leaves : {A : Type 0} → (A → Logger T) → Outcome A → Type 0
  Leaves st (done a) = IsDead (st a)
  Leaves st (exits n) = Unit {0}
  Leaves st fault = Unit {0}

  Leaves-bind :
      {A B : Type 0} (st : A → Logger T) (st' : B → Logger T) (o : Outcome A) (f : A → Outcome B)
      → Leaves st o
      → ((a : A) → IsDead (st a) → Leaves st' (f a))
      → Leaves st' (o >>= f)
  Leaves-bind st st' (done a) f h go = go a h
  Leaves-bind st st' (exits n) f h go = tt
  Leaves-bind st st' fault f h go = tt

  get_id-dead :
      (ip : ℕ) (four_bytes : List ℕ) (s : Logger T)
      → IsDead s
      → Leaves (λ r. r.1) (get_id T inet_ntoa ip four_bytes s)
  unfolding get_id malloc
  get_id-dead ip four_bytes s e =
      let str_ip = inet_ntoa (ip % 2 ^ 32) in
      elim (HostLookup-cases (T.get_host s.ids str_ip)) [
        | inl d ↦ rw (d, get_id) tt
        | inr (inl absent) ↦ elim (Bool-cases (s.room == 0)) [
          | inl r ↦ rw (absent, get_id, r) tt
          | inr r ↦ elim (Bool-cases (s.room - 1 == 0)) [
            | inl r' ↦ rw (absent, get_id, r, r') tt
            | inr r' ↦ rw (absent, get_id, r, r') (lawful.stays-dead s.ids str_ip k s.brk e)
          ]
        ]
        | inr (inr (p, known)) ↦ elim (Option-cases (s.id_at p)) [
          | inl n ↦ rw (known, get_id, n) tt
          | inr (d, at) ↦ rw (known, get_id, at) e
        ]
      ]

  -- The key that get_id inserts.
  get_id-gone :
      (ip : ℕ) (four_bytes : List ℕ) (s : Logger T)
      → inet_ntoa (ip % 2 ^ 32) ≡ k
      → T.get_host s.ids k ≡ no_host
      → Leaves (λ r. r.1) (get_id T inet_ntoa ip four_bytes s)
  unfolding get_id malloc
  get_id-gone ip four_bytes s key absent = elim (Bool-cases (s.room == 0)) [
    | inl r ↦ rw (key, absent, get_id, r) tt
    | inr r ↦ elim (Bool-cases (s.room - 1 == 0)) [
      | inl r' ↦ rw (key, absent, get_id, r, r') tt
      | inr r' ↦ rw (key, absent, get_id, r, r', key) (lawful.insert-dead s.ids k s.brk absent)
    ]
  ]

  KeepsIds-Leaves :
      {A : Type 0} (st : A → Logger T) (s : Logger T) {o : Outcome A}
      → IsDead s
      → KeepsIds T st s o
      → Leaves st o
  KeepsIds-Leaves st s e (leaves same) = rw same.ids e
  KeepsIds-Leaves st s e stops = tt
  KeepsIds-Leaves st s e fails = tt

  module _ ⦃net : ByteOrder⦄ where
    detect-dead :
        (h : PacketHeader) (c : Captured) (src dst p : ℕ) (s : Logger T)
        → IsDead s
        → Leaves (λ r. r.1) (detect T inet_ntoa h c src dst p s)
    unfolding detect
    detect-dead h c src dst p s e = elim (Option-cases (s.flow_at p)) [
      | inl n ↦ rw (n, detect) tt
      | inr (f, at) ↦ elim (Bool-cases (be16 c.bytes (ip_of h + 6) % 2 ^ 13 == 0)) [
        | inl first ↦ rw (at, detect, first) e
        | inr later ↦ rw (at, detect, later) e
      ]
    ]

    process_headers-Leaves :
        (made : Bool) (h : PacketHeader) (c : Captured) (s : Logger T)
        → inet_ntoa ((c.address + (ip_of h + 12)) % 2 ^ 32) ≡ k
        → T.get_host s.ids k ≡ no_host
        → Leaves (λ r. r.1) (process_headers T inet_ntoa made h c s)
    unfolding process_headers
    process_headers-Leaves made h c s key absent =
        Leaves-bind (λ r. r.1) (λ r. r.1) _ _
          (get_id-gone (c.address + (ip_of h + 12)) (take 4 (drop (ip_of h + 12) c.bytes)) s key
            absent)
          (λ r1 e1.
            Leaves-bind (λ r. r.1) (λ r. r.1) _ _
              (get_id-dead (c.address + (ip_of h + 16)) (take 4 (drop (ip_of h + 16) c.bytes)) r1.1
                e1)
              (λ r2 e2.
                Leaves-bind (λ r. r.1) (λ r. r.1) _ _
                  (KeepsIds-Leaves (λ r. r.1) r2.1 e2
                    (get_osdpi_flow-KeepsIds T made inet_ntoa (protocol_name h) (ends_of h c.bytes)
                      ((length c.bytes - ether_hdr_len) % 2 ^ 16) (c.tv_sec % 2 ^ 32) r2.1))
                  (λ r3 e3. detect-dead h c r1.0 r2.0 r3.0 r3.1 e3)))

    get_id-fault :
        (ip : ℕ) (four_bytes : List ℕ) (s : Logger T)
        → inet_ntoa (ip % 2 ^ 32) ≡ k
        → IsDead s
        → get_id T inet_ntoa ip four_bytes s ≡ fault
    unfolding get_id
    get_id-fault ip four_bytes s key dead = rw (key, dead, get_id) refl

    process_headers-fault :
        (made : Bool) (h : PacketHeader) (c : Captured) (s : Logger T)
        → inet_ntoa ((c.address + (ip_of h + 12)) % 2 ^ 32) ≡ k
        → IsDead s
        → process_headers T inet_ntoa made h c s ≡ fault
    unfolding process_headers
    process_headers-fault made h c s key dead =
        rw
          (get_id-fault (c.address + (ip_of h + 12)) (take 4 (drop (ip_of h + 12) c.bytes)) s key
            dead)
          refl

module _ ⦃net : ByteOrder⦄ (T : HashTable) (lawful : IsLawful T) (inet_ntoa : ℕ → List ℕ) where
  -- When a packet with headers has been handled whose source has no entry in the table of hosts,
  -- every packet that is handled next and whose IP header stands at the same address in memory,
  -- whoever sent it, makes the table read a key that is gone.
  pub process_packet_again :
      (made made' : Bool) (h h' : PacketHeader) (c c' : Captured) (s s' : Logger T)
      (out : Option Detection)
      → extract_headers c.bytes ≡ extracted h
      → T.get_host s.ids (inet_ntoa ((c.address + (ip_of h + 12)) % 2 ^ 32)) ≡ no_host
      → process_packet T inet_ntoa made c s ≡ done (out, s')
      → extract_headers c'.bytes ≡ extracted h'
      → c'.address + ip_of h' ≡ c.address + ip_of h
      → process_packet T inet_ntoa made' c' s' ≡ fault
  unfolding process_packet
  process_packet_again made made' h h' c c' s s' out e absent run e' same =
      let k = inet_ntoa ((c.address + (ip_of h + 12)) % 2 ^ 32) in
      let at : c'.address + (ip_of h' + 12) ≡ c.address + (ip_of h + 12) = omega (arith, same) in
      let key : inet_ntoa ((c'.address + (ip_of h' + 12)) % 2 ^ 32) ≡ k =
        ap (λ a. inet_ntoa (a % 2 ^ 32)) at in
      let run' : process_headers T inet_ntoa made h c s ≡ done (out, s') =
        rw (e, process_packet) at run in
      let dead : T.get_host s'.ids k ≡ dead_key =
        subst (Leaves T lawful inet_ntoa k (λ r. r.1)) run'
          (process_headers-Leaves T lawful inet_ntoa k made h c s refl absent) in
      rw (e', process_packet) (process_headers-fault T lawful inet_ntoa k made' h' c' s' key dead)
