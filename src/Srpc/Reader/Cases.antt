-- ===== src/Srpc/Reader/Cases.antt =====
-- srpc.c, `reader`: a statement about the switch from one about each of its cases.
use hwdb_opendpi.Prelude.{ℕ, ◌≡◌, Option, [], ◌==◌, if◌then◌else◌, ==_of_eq, ==_of_ne}
use native.Mathlib.Decide.{ℕ_discrete}
use hwdb_opendpi.Endpoint.{ByteOrder}
use hwdb_opendpi.Payload.{
  cmd_connect, cmd_cack, cmd_query, cmd_qack, cmd_response, cmd_rack, cmd_disconnect, cmd_dack,
  cmd_fragment, cmd_fack, cmd_ping, cmd_pack, cmd_seqno, cmd_sack,
}
use hwdb_opendpi.Crecord.{CRecord, st_idle, st_awaiting_response, st_timedout}
use hwdb_opendpi.Srpc.{Srpc, Result, ok}
use hwdb_opendpi.Srpc.Reader.{
  Arrival, on_connect, on_ack, on_query, on_response, on_disconnect, on_fragment, on_fack, on_ping,
  on_pack, on_seqno, on_sack, dispatch,
}

if_cases {ℓ} :
    {A : Type 0} (P : A → Type ℓ) (a b : ℕ) (x y : A)
    → (a ≡ b → P x)
    → P y
    → P (if a == b then x else y)
if_cases P a b x y h k = elim (ℕ_discrete a b) [
  | yes e ↦ rw (==_of_eq a b e) (h e)
  | no ne ↦ rw (==_of_ne a b ne) k
]

module _ ⦃net : ByteOrder⦄ (P : Result → Type 0) (fill cmd : ℕ) (a : Arrival) (cr : Option CRecord)
    (s : Srpc) where
  pub dispatch_cases :
      (cmd ≡ cmd_connect → P (on_connect a cr s))
      → (cmd ≡ cmd_cack → P (on_ack st_idle a cr s))
      → (cmd ≡ cmd_query → P (on_query a cr s))
      → (cmd ≡ cmd_qack → P (on_ack st_awaiting_response a cr s))
      → (cmd ≡ cmd_response → P (on_response a cr s))
      → (cmd ≡ cmd_rack → P (on_ack st_idle a cr s))
      → (cmd ≡ cmd_disconnect → P (on_disconnect a cr s))
      → (cmd ≡ cmd_dack → P (on_ack st_timedout a cr s))
      → (cmd ≡ cmd_fragment → P (on_fragment fill a cr s))
      → (cmd ≡ cmd_fack → P (on_fack a cr s))
      → (cmd ≡ cmd_ping → P (on_ping a cr s))
      → (cmd ≡ cmd_pack → P (on_pack a cr s))
      → (cmd ≡ cmd_seqno → P (on_seqno a cr s))
      → (cmd ≡ cmd_sack → P (on_sack a cr s))
      → P (ok s [])
      → P (dispatch fill cmd a cr s)
  unfolding dispatch
  dispatch_cases c1 c2 c3 c4 c5 c6 c7 c8 c9 c10 c11 c12 c13 c14 rest =
      if_cases P cmd cmd_connect _ _ c1 (
        if_cases P cmd cmd_cack _ _ c2 (
          if_cases P cmd cmd_query _ _ c3 (
            if_cases P cmd cmd_qack _ _ c4 (
              if_cases P cmd cmd_response _ _ c5 (
                if_cases P cmd cmd_rack _ _ c6 (
                  if_cases P cmd cmd_disconnect _ _ c7 (
                    if_cases P cmd cmd_dack _ _ c8 (
                      if_cases P cmd cmd_fragment _ _ c9 (
                        if_cases P cmd cmd_fack _ _ c10 (
                          if_cases P cmd cmd_ping _ _ c11 (
                            if_cases P cmd cmd_pack _ _ c12 (
                              if_cases P cmd cmd_seqno _ _ c13
                                (if_cases P cmd cmd_sack _ _ c14 rest)))))))))))))
