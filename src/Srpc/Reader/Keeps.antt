-- ===== src/Srpc/Reader/Keeps.antt =====
-- srpc.c, `reader`: the invariant of the shared state, kept by every datagram.
use hwdb_opendpi.Prelude.{
  ℕ, ◌*◌, ◌-◌, ◌∙◌, ◌<◌, ◌≡◌, refl, Bool, true, false, inl, inr, Option, none, some, List, [], ◌∷◌,
  arith, length, length-set, get_or, Option-cases, Bool-cases, ◌==◌, if◌then◌else◌,
}
use hwdb_opendpi.Endpoint.{ByteOrder, sockaddr_size, endpoint_complete, endpoint_duplicate}
use hwdb_opendpi.Payload.{Packet, DataPayload, fr_size}
use hwdb_opendpi.Stable.{Name, Stable, SRecord, stable_size, hash, stable_lookup}
use hwdb_opendpi.Crecord.{
  CRecord, crecord_create, crecord_set_state, crecord_set_payload, crecord_set_service,
}
use hwdb_opendpi.Ctable.Invariant.{IsTable, ctable_insert-IsTable, store-IsTable}
use hwdb_opendpi.Ctable.Lookup.{ctable_lookup-Found}
use hwdb_opendpi.Srpc.{
  Srpc, Message, Result, ok, fault, Queue, Request, update, enqueue, push_to, resend, memcpy_at,
  first_fragment,
}
use hwdb_opendpi.Srpc.Reader.Cases.{dispatch_cases}
use hwdb_opendpi.Srpc.Reader.{
  Arrival, Datagram, arrival, reply, connect_new, connect_old, on_connect, on_ack, accept_query,
  last_of_query, on_query, last_of_response, on_response, on_disconnect, accept_fragment,
  start_fragments, next_fragment, on_fragment, on_fack, on_ping, on_pack, on_seqno, on_sack,
  dispatch, reader,
}

-- The table is well-formed, the next address is not NULL, and the service table has its size.
pub record IsSrpc (s : Srpc) : Type 0 where
  pub table : IsTable s.brk s.ctable
  pub alive : 0 < s.brk
  pub services : length s.stable ≡ stable_size

-- A handler that does not run into a fault keeps the invariant.
pub data Keeps : Result → Type 0 where
  fails : Keeps fault
  leaves : {s : Srpc} {out : List Message} → IsSrpc s → Keeps (ok s out)

abbrev Whole : CRecord → Type 0
Whole c = length c.ep.addr ≡ sockaddr_size

pub update-Keeps :
    (c : CRecord) (s : Srpc) (out : List Message) → Whole c → IsSrpc s → Keeps (update c s out)
unfolding update
update-Keeps c s out whole v = leaves (record {
  table = store-IsTable s.brk c s.ctable whole v.table;
  alive = v.alive;
  services = v.services;
})

Keeps-if : (b : Bool) {x y : Result} → Keeps x → Keeps y → Keeps (if b then x else y)
Keeps-if true h k = h
Keeps-if false h k = k

pub enqueue-services :
    (svc : Name) (q : Request) (st st' : Stable Queue)
    → enqueue svc q st ≡ some st'
    → length st' ≡ length st
unfolding enqueue
enqueue-services svc q st st' e = elim (Option-cases (hash svc)) [
  | inl none_found ↦ ground arith
  | inr (hv, found) ↦ ground (arith, length-set st hv (push_to svc q (get_or st hv [])))
]

module _ ⦃net : ByteOrder⦄ where
  reply-Keeps :
      (c : CRecord) (p : Packet) (st : ℕ) (s : Srpc) → Whole c → IsSrpc s → Keeps (reply c p st s)
  unfolding reply crecord_set_payload crecord_set_state
  reply-Keeps c p st s whole v = update-Keeps _ s _ whole v

  connect_new-Keeps :
      (a : Arrival) (svc : Name) (s : Srpc)
      → length a.ep.addr ≡ sockaddr_size
      → IsSrpc s
      → Keeps (connect_new a svc s)
  unfolding connect_new crecord_create crecord_set_state crecord_set_payload crecord_set_service
      endpoint_duplicate
  connect_new-Keeps a svc s whole v = elim (Bool-cases (s.brk == 0)) [
    | inl e ↦ rw (e, connect_new) fails
    | inr e ↦
        rw (e, connect_new)
          (leaves (record {
            table = ctable_insert-IsTable s.brk _ s.ctable v.table (omega arith) whole;
            alive = omega arith;
            services = v.services;
          }))
  ]

  connect_old-Keeps :
      (c : CRecord) (svc : Name) (s : Srpc) → Whole c → IsSrpc s → Keeps (connect_old c svc s)
  unfolding connect_old crecord_set_state crecord_set_service
  connect_old-Keeps c svc s whole v = Keeps-if _ (update-Keeps _ s _ whole v) (leaves v)

  on_connect-Keeps :
      (a : Arrival) (cr : Option CRecord) (s : Srpc)
      → length a.ep.addr ≡ sockaddr_size
      → ((c : CRecord) → cr ≡ some c → Whole c)
      → IsSrpc s
      → Keeps (on_connect a cr s)
  unfolding on_connect
  on_connect-Keeps a cr s whole known v = elim (Option-cases (stable_lookup s.stable a.sname)) [
    | inl e ↦ rw (e, on_connect) fails
    | inr (none, e) ↦ rw (e, on_connect) (leaves v)
    | inr (some sv, e) ↦ rw (e, on_connect) (by_record sv cr known)
  ]
    where
      by_record :
          (sv : SRecord Queue) (cr : Option CRecord)
          → ((c : CRecord) → cr ≡ some c → Whole c)
          → Keeps
              (elim cr [ none ↦ connect_new a sv.s_name s | some c ↦ connect_old c sv.s_name s ])
      by_record sv none h = connect_new-Keeps a sv.s_name s whole v
      by_record sv (some c) h = connect_old-Keeps c sv.s_name s (h c refl) v

  module _ (a : Arrival) (c : CRecord) (s : Srpc) (whole : Whole c) (v : IsSrpc s) where
    on_ack-Keeps : (st : ℕ) → Keeps (on_ack st a (some c) s)
    unfolding on_ack crecord_set_state
    on_ack-Keeps st = Keeps-if _ (update-Keeps _ s _ whole v) (leaves v)

    on_disconnect-Keeps : Keeps (on_disconnect a (some c) s)
    unfolding on_disconnect crecord_set_state
    on_disconnect-Keeps = update-Keeps _ s _ whole v

    on_fack-Keeps : Keeps (on_fack a (some c) s)
    unfolding on_fack crecord_set_state
    on_fack-Keeps = Keeps-if _ (update-Keeps _ s _ whole v) (leaves v)

    on_pack-Keeps : Keeps (on_pack a (some c) s)
    unfolding on_pack crecord_set_state
    on_pack-Keeps = update-Keeps _ s _ whole v

    on_seqno-Keeps : Keeps (on_seqno a (some c) s)
    unfolding on_seqno
    on_seqno-Keeps = Keeps-if _ (reply-Keeps _ _ _ s whole v) (leaves v)

    on_sack-Keeps : Keeps (on_sack a (some c) s)
    unfolding on_sack crecord_set_state
    on_sack-Keeps = Keeps-if _ (update-Keeps _ s _ whole v) (leaves v)

    resend-Keeps : Keeps (update (crecord_set_state c c.state) s (resend c ∷ []))
    unfolding crecord_set_state
    resend-Keeps = update-Keeps _ s _ whole v

  accept_query-Keeps :
      (a : Arrival) (c : CRecord) (p : DataPayload) (n : ℕ) (s : Srpc)
      → Whole c
      → IsSrpc s
      → Keeps (accept_query a c p n s)
  unfolding accept_query
  accept_query-Keeps a c p n s whole v = elim (Option-cases c.svc) [
    | inl e ↦ rw (e, accept_query) fails
    | inr (svc, e) ↦
        let q : Request = record { sender = c.ep; packet = p; size = n } in
        elim (Option-cases (enqueue svc q s.stable)) [
          | inl e' ↦ rw (e, accept_query, e') fails
          | inr (st, e') ↦
              rw (e, accept_query, e')
                (reply-Keeps c _ _ (record s { stable = st }) whole
                  (record {
                    table = v.table;
                    alive = v.alive;
                    services = enqueue-services svc q s.stable st e' ∙ v.services;
                  }))
        ]
  ]

  accept_fragment-Keeps :
      (a : Arrival) (c : CRecord) (s : Srpc) → Whole c → IsSrpc s → Keeps (accept_fragment a c s)
  unfolding accept_fragment
  accept_fragment-Keeps a c s whole v = reply-Keeps _ _ _ s whole v

  module _ (a : Arrival) (c : CRecord) (s : Srpc) (whole : Whole c) (v : IsSrpc s) where
    abbrev patch : DataPayload → Option (List ℕ)
    patch p = memcpy_at p.bytes (fr_size * (a.fnum - 1)) a.dp.bytes (net.ntohs a.dp.dhdr.flen)

    last_of_query-Keeps : Keeps (last_of_query a c s)
    unfolding last_of_query
    last_of_query-Keeps = elim (Option-cases c.resp) [
      | inl e ↦ rw (e, last_of_query) fails
      | inr (p, e) ↦ elim (Option-cases (patch p)) [
        | inl e' ↦ rw (e, last_of_query, e') fails
        | inr (b, e') ↦ rw (e, last_of_query, e') (accept_query-Keeps a _ _ _ s whole v)
      ]
    ]

    last_of_response-Keeps : Keeps (last_of_response a c s)
    unfolding last_of_response
    last_of_response-Keeps = elim (Option-cases c.resp) [
      | inl e ↦ rw (e, last_of_response) fails
      | inr (p, e) ↦ elim (Option-cases (patch p)) [
        | inl e' ↦ rw (e, last_of_response, e') fails
        | inr (b, e') ↦ rw (e, last_of_response, e') (reply-Keeps _ _ _ s whole v)
      ]
    ]

    next_fragment-Keeps : Keeps (next_fragment a c s)
    unfolding next_fragment
    next_fragment-Keeps = elim (Option-cases c.resp) [
      | inl e ↦ rw (e, next_fragment) fails
      | inr (p, e) ↦ elim (Option-cases (patch p)) [
        | inl e' ↦ rw (e, next_fragment, e') fails
        | inr (b, e') ↦ rw (e, next_fragment, e') (accept_fragment-Keeps a _ s whole v)
      ]
    ]

    start_fragments-Keeps : (fill : ℕ) → Keeps (start_fragments fill a c s)
    unfolding start_fragments
    start_fragments-Keeps fill =
        elim (Option-cases (first_fragment fill a.n (net.ntohs a.dp.dhdr.tlen) a.dp)) [
          | inl e ↦ rw (e, start_fragments) fails
          | inr (p, e) ↦ rw (e, start_fragments) (accept_fragment-Keeps a _ s whole v)
        ]

    on_query-Keeps : Keeps (on_query a (some c) s)
    unfolding on_query
    on_query-Keeps =
        Keeps-if _ (accept_query-Keeps a _ _ _ s whole v)
          (Keeps-if _ last_of_query-Keeps (Keeps-if _ (resend-Keeps a c s whole v) (leaves v)))

    on_response-Keeps : Keeps (on_response a (some c) s)
    unfolding on_response
    on_response-Keeps =
        Keeps-if _
          (Keeps-if _ (reply-Keeps _ _ _ s whole v) (Keeps-if _ last_of_response-Keeps (leaves v)))
          (leaves v)

    on_fragment-Keeps : (fill : ℕ) → Keeps (on_fragment fill a (some c) s)
    unfolding on_fragment
    on_fragment-Keeps fill =
        Keeps-if _ (start_fragments-Keeps fill)
          (Keeps-if _ next_fragment-Keeps (Keeps-if _ (resend-Keeps a c s whole v) (leaves v)))

  -- Every case of the switch keeps the invariant, for a known and for an unknown sender.
  dispatch-Keeps :
      (fill cmd : ℕ) (a : Arrival) (cr : Option CRecord) (s : Srpc)
      → length a.ep.addr ≡ sockaddr_size
      → ((c : CRecord) → cr ≡ some c → Whole c)
      → IsSrpc s
      → Keeps (dispatch fill cmd a cr s)
  unfolding on_ack on_query on_response on_disconnect on_fragment on_fack on_ping on_pack on_seqno
      on_sack
  dispatch-Keeps fill cmd a none s whole known v =
      dispatch_cases Keeps fill cmd a none s (λ _. on_connect-Keeps a none s whole known v)
        (λ _. leaves v) (λ _. leaves v) (λ _. leaves v) (λ _. leaves v) (λ _. leaves v)
        (λ _. leaves v) (λ _. leaves v) (λ _. leaves v) (λ _. leaves v) (λ _. leaves v)
        (λ _. leaves v) (λ _. leaves v) (λ _. leaves v) (leaves v)
  dispatch-Keeps fill cmd a (some c) s whole known v =
      let w = known c refl in
      dispatch_cases Keeps fill cmd a (some c) s (λ _. on_connect-Keeps a (some c) s whole known v)
        (λ _. on_ack-Keeps a c s w v _) (λ _. on_query-Keeps a c s w v)
        (λ _. on_ack-Keeps a c s w v _) (λ _. on_response-Keeps a c s w v)
        (λ _. on_ack-Keeps a c s w v _) (λ _. on_disconnect-Keeps a c s w v)
        (λ _. on_ack-Keeps a c s w v _) (λ _. on_fragment-Keeps a c s w v fill)
        (λ _. on_fack-Keeps a c s w v) (λ _. leaves v) (λ _. on_pack-Keeps a c s w v)
        (λ _. on_seqno-Keeps a c s w v) (λ _. on_sack-Keeps a c s w v) (leaves v)

  -- Whatever datagram arrives, if any, from an address of full length: the reader keeps the
  -- invariant of the shared state, unless it runs into a fault.
  pub reader-Keeps :
      (fill : ℕ) (d : Option Datagram) (s : Srpc)
      → ((g : Datagram) → d ≡ some g → length g.sender ≡ sockaddr_size)
      → IsSrpc s
      → Keeps (reader fill d s)
  unfolding reader endpoint_complete
  reader-Keeps fill none s whole v = leaves v
  reader-Keeps fill (some d) s whole v =
      Keeps-if _
        (Keeps-if _
          (dispatch-Keeps fill _ _ _ s (whole d refl)
            (λ c found.
              (ctable_lookup-Found s.brk s.ctable v.table (arrival d).ep (whole d refl) c
                found).0.whole)
            v)
          (leaves v))
        fails
