-- ===== src/Dpilogger/Headers.antt =====
-- dpilogger.c, `extract_headers`: the headers lie within the packet.
use hwdb_opendpi.Prelude.{
  ℕ, zero, suc, ◌+◌, ◌*◌, ◌%◌, ◌≤◌, ◌<◌, ◌≡◌, refl, inl, inr, Bool, true, false, some, List, [],
  ◌∷◌, arith, ltb, ◌==◌, if◌then◌else◌, length, get_elem?, Bool-cases,
}
use hwdb_opendpi.Dpilogger.{
  with_tcp, with_udp, Extracted, extracted, refused, overrun, reading, ether_hdr_len, iphdr_size,
  tcphdr_size, udphdr_size, extract_transport, extract_ip, extract_headers,
}

-- The result is no read past the end, and the headers that it gives end within the `n` bytes.
abbrev pub Within : ℕ → Extracted → Type 0
Within n refused = Unit {0}
Within n overrun = ⊥
Within n (extracted (with_tcp ip tcp)) = (ip + iphdr_size ≤ n) × (tcp + tcphdr_size ≤ n)
Within n (extracted (with_udp ip udp)) = (ip + iphdr_size ≤ n) × (udp + udphdr_size ≤ n)

get_elem?-lt : (xs : List ℕ) (i : ℕ) → i < length xs → (x : ℕ) × (get_elem? xs i ≡ some x)
get_elem?-lt [] i h = absurd (omega arith)
get_elem?-lt (x ∷ xs) zero h = (x, refl)
get_elem?-lt (x ∷ xs) (suc i) h = get_elem?-lt xs i (omega arith)

Within-reading :
    (xs : List ℕ) (n i : ℕ) (f : ℕ → Extracted)
    → i < length xs
    → ((x : ℕ) → Within n (f x))
    → Within n (reading (get_elem? xs i) f)
Within-reading xs n i f h k = let (x, e) = get_elem?-lt xs i h in rw e (k x)

-- `if (data_len < need) return 0;`
Within-guard :
    (n need : ℕ) (y : Extracted)
    → (need ≤ n → Within n y)
    → Within n (if ltb n need then refused else y)
Within-guard n need y k = elim (Bool-cases (ltb n need)) [
  | inl e ↦ rw e tt
  | inr e ↦ rw e (k (ground arith))
]

Within-test :
    (n : ℕ) (b : Bool) (x y : Extracted) → Within n x → Within n y → Within n (if b then x else y)
Within-test n true x y h k = h
Within-test n false x y h k = k

module _ (xs : List ℕ) where
  extract_transport-Within :
      (ptr protocol : ℕ)
      → ether_hdr_len + iphdr_size ≤ length xs
      → Within (length xs) (extract_transport xs ptr protocol)
  unfolding extract_transport
  extract_transport-Within ptr protocol h =
      Within-test _ (protocol == 6) _ _
        (Within-guard (length xs) (ptr + tcphdr_size) (extracted (with_tcp ether_hdr_len ptr))
          (λ k. (h, k)))
        (Within-test _ (protocol == 17) _ _
          (Within-guard (length xs) (ptr + udphdr_size) (extracted (with_udp ether_hdr_len ptr))
            (λ k. (h, k)))
          tt)

  extract_ip-Within : Within (length xs) (extract_ip xs)
  unfolding extract_ip
  extract_ip-Within = Within-guard (length xs) (ether_hdr_len + iphdr_size) _ (λ h.
      Within-reading xs _ ether_hdr_len _ (omega arith) (λ b.
        Within-guard (length xs) (ether_hdr_len + b % 16 * 4) _ (λ _.
          Within-reading xs _ (ether_hdr_len + 9) _ (omega arith)
            (λ protocol. extract_transport-Within (ether_hdr_len + b % 16 * 4) protocol h))))

  -- Whatever bytes a captured packet has, extract_headers reads none past its end, and the IP
  -- header and the TCP or UDP header that it gives end within the packet.
  pub extract_headers-Within : Within (length xs) (extract_headers xs)
  unfolding extract_headers
  extract_headers-Within = Within-guard (length xs) ether_hdr_len _ (λ h.
      Within-reading xs _ 12 _ (omega arith) (λ hi.
        Within-reading xs _ 13 _ (omega arith)
          (λ lo. Within-test _ (hi * 256 + lo == 0x0800) _ _ extract_ip-Within tt)))
