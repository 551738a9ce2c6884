-- ===== src/Srpc/Reader/Safe.antt =====
-- srpc.c, `reader`: the datagrams that never make the reader leave its objects.
use hwdb_opendpi.Stable.Lookup.{stable_lookup-ne}
use hwdb_opendpi.Prelude.{
  ℕ, ◌+◌, ◌-◌, ◌*◌, ◌≤◌, ◌<◌, ◌≡◌, ◌≢◌, ◌⊎◌, refl, inl, inr, Bool, true, false, ◌&&◌, ◌||◌, Option,
  none, some, List, arith, length, ltb, leb, ◌==◌, if◌then◌else◌, Option-cases, ==_of_ne,
}
use hwdb_opendpi.Endpoint.{ByteOrder}
use hwdb_opendpi.Payload.{
  DataPayload, cmd_connect, cmd_query, cmd_response, cmd_fragment, cmd_low, cmd_high, fr_size,
}
use hwdb_opendpi.Stable.{Name, Stable, SRecord, hash, stable_lookup}
use hwdb_opendpi.Crecord.{
  CRecord, crecord_create, st_fragment_sent, st_seqno_sent, st_idle, st_fack_sent, st_qack_sent,
  st_response_sent, st_query_sent, st_awaiting_response,
}
use hwdb_opendpi.Ctable.{ctable_lookup}
use hwdb_opendpi.Srpc.{
  Srpc, Message, Result, ok, fault, Queue, Request, data_offset, first_fragment, memcpy_at, is_next,
  update, enqueue,
}
use hwdb_opendpi.Srpc.Reader.{
  Arrival, Datagram, arrival, buf_size, reply, connect_new, connect_old, on_connect, on_ack,
  accept_query, last_of_query, on_query, last_of_response, on_response, start_fragments,
  next_fragment, accept_fragment, on_fragment, on_disconnect, on_fack, on_ping, on_pack, on_seqno,
  on_sack, dispatch, reader,
}
use hwdb_opendpi.Srpc.Reader.Cases.{dispatch_cases}
use hwdb_opendpi.Srpc.Reader.Effects.{IsSound, IsServing}

-- A result that is no fault.
data IsFine : Result → Type 0 where
  fine : {s : Srpc} {out : List Message} → IsFine (ok s out)

fine-ne : (x : Result) → IsFine x → x ≢ fault
fine-ne (ok s out) fine e = cc
fine-ne fault h e = elim h [ ]

IsFine-if :
    (b : Bool) (x y : Result)
    → (b ≡ true → IsFine x)
    → (b ≡ false → IsFine y)
    → IsFine (if b then x else y)
IsFine-if true x y h k = h refl
IsFine-if false x y h k = k refl

IsFine-option :
    {A : Type 0} (o : Option A) {k : A → Result}
    → o ≢ none
    → ((x : A) → o ≡ some x → IsFine (k x))
    → IsFine (elim o [ none ↦ fault | some x ↦ k x ])
IsFine-option none there h = absurd (there refl)
IsFine-option (some x) there h = h x refl

-- The commands whose messages carry data.
abbrev pub CarriesData : ℕ → Type 0
CarriesData cmd = (cmd ≡ cmd_query) ⊎ ((cmd ≡ cmd_response) ⊎ (cmd ≡ cmd_fragment))

-- The datagram is shorter than the buffer, a CONNECT asks for a name with an index, a FRAGMENT is
-- not longer than the message that it states, and a message that carries data states no more of it
-- than the buffer holds. If the connection is putting a message together, its piece lies in the
-- block.
pub record IsHonest ⦃net : ByteOrder⦄ (d : Datagram) (s : Srpc) : Type 0 where
  pub fits : d.n < buf_size
  pub named : net.ntohs d.payload.hdr.command ≡ cmd_connect → hash d.sname ≢ none
  pub starts :
      net.ntohs d.payload.hdr.command ≡ cmd_fragment
      → d.n ≤ data_offset + net.ntohs d.payload.dhdr.tlen
  pub continues :
      (c : CRecord) (p : DataPayload)
      → CarriesData (net.ntohs d.payload.hdr.command)
      → ctable_lookup s.ctable (arrival d).ep ≡ some c
      → c.state ≡ st_fack_sent
      → c.resp ≡ some p
      → fr_size * (d.payload.hdr.fnum - 1) + net.ntohs d.payload.dhdr.flen ≤ length p.bytes
  pub filled :
      CarriesData (net.ntohs d.payload.hdr.command)
      → net.ntohs d.payload.dhdr.flen ≤ length d.payload.bytes

memcpy_at-ne :
    (dst : List ℕ) (off : ℕ) (src : List ℕ) (k : ℕ)
    → off + k ≤ length dst
    → k ≤ length src
    → memcpy_at dst off src k ≢ none
unfolding memcpy_at
memcpy_at-ne dst off src k h g e = ground arith

first_fragment-ne :
    (fill n tlen : ℕ) (dp : DataPayload)
    → n ≤ data_offset + tlen
    → first_fragment fill n tlen dp ≢ none
unfolding first_fragment
first_fragment-ne fill n tlen dp h e = ground arith

enqueue-ne :
    (svc : Name) (i : ℕ) (q : Request) (st : Stable Queue)
    → hash svc ≡ some i
    → enqueue svc q st ≢ none
unfolding enqueue
enqueue-ne svc i q st e = rw (e, enqueue) (λ f. cc)

none_of : {A : Type 0} (o : Option A) (x : A) → o ≡ some x → o ≢ none
none_of o x e f = cc

module _ ⦃net : ByteOrder⦄ (a : Arrival) (s : Srpc) where
  connect_new-IsFine : (svc : Name) → 0 < s.brk → IsFine (connect_new a svc s)
  unfolding connect_new crecord_create
  connect_new-IsFine svc alive = rw (==_of_ne s.brk 0 (omega (arith, alive)), connect_new) fine

  on_connect-IsFine :
      (cr : Option CRecord)
      → 0 < s.brk
      → stable_lookup s.stable a.sname ≢ none
      → IsFine (on_connect a cr s)
  unfolding on_connect connect_old update
  on_connect-IsFine cr alive named = elim (Option-cases (stable_lookup s.stable a.sname)) [
    | inl e ↦ absurd (named e)
    | inr (none, e) ↦ rw (e, on_connect) fine
    | inr (some sv, e) ↦ rw (e, on_connect) (by_record sv cr)
  ]
    where
      by_record :
          (sv : SRecord Queue) (cr : Option CRecord)
          → IsFine
              (elim cr [ none ↦ connect_new a sv.s_name s | some c ↦ connect_old c sv.s_name s ])
      by_record sv none = connect_new-IsFine sv.s_name alive
      by_record sv (some c) = IsFine-if (c.state == st_idle) _ _ (λ _. fine) (λ _. fine)

  module _ (c : CRecord) (sound : IsSound c)
      (continues : (p : DataPayload)
        → c.state ≡ st_fack_sent
        → c.resp ≡ some p
        → fr_size * (a.fnum - 1) + net.ntohs a.dp.dhdr.flen ≤ length p.bytes)
      (filled : net.ntohs a.dp.dhdr.flen ≤ length a.dp.bytes) where
    accept_query-IsFine :
        (c' : CRecord) (p : DataPayload) (n : ℕ)
        → (svc : Name) × (i : ℕ) × (c'.svc ≡ some svc) × (hash svc ≡ some i)
        → IsFine (accept_query a c' p n s)
    unfolding accept_query reply update
    accept_query-IsFine c' p n (svc, i, e, f) =
        IsFine-option c'.svc (none_of c'.svc svc e) (λ name is.
          IsFine-option (enqueue name (record { sender = c'.ep; packet = p; size = n }) s.stable)
            (enqueue-ne name i _ s.stable (cc)) (λ st _. fine))

    -- The next piece goes to the block of a record that holds one.
    pieced :
        (k : DataPayload → List ℕ → Result)
        → c.state ≡ st_fack_sent
        → ((p : DataPayload) (b : List ℕ) → IsFine (k p b))
        → IsFine (elim c.resp [
          | none ↦ fault
          | some p ↦
              elim (memcpy_at p.bytes
                (fr_size * (a.fnum - 1))
                a.dp.bytes
                (net.ntohs a.dp.dhdr.flen)) [ none ↦ fault | some b ↦ k p b ]
        ])
    pieced k state h = IsFine-option c.resp (sound state) (λ p is.
        IsFine-option
          (memcpy_at p.bytes (fr_size * (a.fnum - 1)) a.dp.bytes (net.ntohs a.dp.dhdr.flen))
          (memcpy_at-ne p.bytes _ a.dp.bytes _ (continues p state is) filled) (λ b _. h p b))

    on_query-IsFine :
        (svc : Name) × (i : ℕ) × (c.svc ≡ some svc) × (hash svc ≡ some i)
        → IsFine (on_query a (some c) s)
    unfolding on_query last_of_query update
    on_query-IsFine offered =
        IsFine-if (is_next a.seqno c.seqno && (c.state == st_idle || c.state == st_response_sent)) _
          _ (λ _. accept_query-IsFine (record c { seqno = a.seqno }) _ _ offered)
          (λ _.
            IsFine-if
              (a.seqno == c.seqno
                && (c.state == st_fack_sent && (a.fnum == c.last_frag + 1 && a.fnum == a.nfrags)))
              _ _
              (λ e.
                pieced _ (ground arith)
                  (λ p b. accept_query-IsFine (record c { resp = none }) _ _ offered))
              (λ _.
                IsFine-if
                  (a.seqno == c.seqno && (c.state == st_qack_sent || c.state == st_response_sent)) _
                  _ (λ _. fine) (λ _. fine)))

    on_response-IsFine : IsFine (on_response a (some c) s)
    unfolding on_response last_of_response reply update
    on_response-IsFine =
        IsFine-if (a.seqno == c.seqno) _ _
          (λ _.
            IsFine-if (c.state == st_query_sent || c.state == st_awaiting_response) _ _ (λ _. fine)
              (λ _.
                IsFine-if
                  (c.state == st_fack_sent && (a.fnum == c.last_frag + 1 && a.fnum == a.nfrags)) _ _
                  (λ e. pieced _ (ground arith) (λ p b. fine)) (λ _. fine)))
          (λ _. fine)

    on_fragment-IsFine :
        (fill : ℕ)
        → a.n ≤ data_offset + net.ntohs a.dp.dhdr.tlen
        → IsFine (on_fragment fill a (some c) s)
    unfolding on_fragment start_fragments next_fragment accept_fragment reply update
    on_fragment-IsFine fill starts =
        IsFine-if
          ((c.state == st_idle || c.state == st_response_sent)
              && (is_next a.seqno c.seqno && a.fnum == 1)
            || (c.state == st_query_sent || c.state == st_awaiting_response)
              && (a.seqno == c.seqno && a.fnum == 1))
          _ _
          (λ _.
            IsFine-option (first_fragment fill a.n (net.ntohs a.dp.dhdr.tlen) a.dp)
              (first_fragment-ne fill a.n _ a.dp starts) (λ p _. fine))
          (λ _.
            IsFine-if (a.seqno == c.seqno && (c.state == st_fack_sent && a.fnum == c.last_frag + 1))
              _ _ (λ e. pieced _ (ground arith) (λ p b. fine))
              (λ _.
                IsFine-if (a.seqno == c.seqno && (c.state == st_fack_sent && a.fnum == c.last_frag))
                  _ _ (λ _. fine) (λ _. fine)))

module _ ⦃net : ByteOrder⦄ (fill : ℕ) (d : Datagram) (s : Srpc) (alive : 0 < s.brk)
    (honest : IsHonest d s) where
  abbrev cmd : ℕ
  cmd = net.ntohs d.payload.hdr.command

  dispatch-IsFine :
      (cr : Option CRecord)
      → ctable_lookup s.ctable (arrival d).ep ≡ cr
      → ((c : CRecord) → cr ≡ some c → IsSound c)
      → ((c : CRecord) → cr ≡ some c → IsServing c)
      → IsFine (dispatch fill cmd (arrival d) cr s)
  unfolding on_ack on_query on_response on_disconnect on_fragment on_fack on_ping on_pack on_seqno
      on_sack reply update
  dispatch-IsFine none found sound serving =
      dispatch_cases IsFine fill cmd (arrival d) none s
        (λ e.
          on_connect-IsFine (arrival d) s none alive
            (stable_lookup-ne s.stable d.sname (honest.named e)))
        (λ _. fine) (λ _. fine) (λ _. fine) (λ _. fine) (λ _. fine) (λ _. fine) (λ _. fine)
        (λ _. fine) (λ _. fine) (λ _. fine) (λ _. fine) (λ _. fine) (λ _. fine) fine
  dispatch-IsFine (some c) found sound serving =
      let a : Arrival = arrival d in
      let there : CarriesData cmd
          → (p : DataPayload) → c.state ≡ st_fack_sent
          → c.resp ≡ some p
          → fr_size * (a.fnum - 1) + net.ntohs a.dp.dhdr.flen ≤ length p.bytes =
        λ kind p state is. honest.continues c p kind found state is in
      dispatch_cases IsFine fill cmd a (some c) s
        (λ e.
          on_connect-IsFine a s (some c) alive (stable_lookup-ne s.stable d.sname (honest.named e)))
        (λ _. IsFine-if (a.seqno == c.seqno) _ _ (λ _. fine) (λ _. fine))
        (λ e.
          on_query-IsFine a s c (sound c refl) (there (inl e)) (honest.filled (inl e))
            (serving c refl))
        (λ _. IsFine-if (a.seqno == c.seqno) _ _ (λ _. fine) (λ _. fine))
        (λ e.
          on_response-IsFine a s c (sound c refl) (there (inr (inl e)))
            (honest.filled (inr (inl e))))
        (λ _. IsFine-if (a.seqno == c.seqno) _ _ (λ _. fine) (λ _. fine)) (λ _. fine)
        (λ _. IsFine-if (a.seqno == c.seqno) _ _ (λ _. fine) (λ _. fine))
        (λ e.
          on_fragment-IsFine a s c (sound c refl) (there (inr (inr e)))
            (honest.filled (inr (inr e))) fill (honest.starts e))
        (λ _.
          IsFine-if (a.seqno == c.seqno && (c.state == st_fragment_sent && a.fnum == c.last_frag)) _
            _ (λ _. fine) (λ _. fine))
        (λ _. fine) (λ _. fine)
        (λ _.
          IsFine-if (c.state == st_idle || c.state == st_response_sent) _ _ (λ _. fine) (λ _. fine))
        (λ _. IsFine-if (c.state == st_seqno_sent) _ _ (λ _. fine) (λ _. fine)) fine

  reader-IsFine :
      ((c : CRecord) → ctable_lookup s.ctable (arrival d).ep ≡ some c → IsSound c)
      → ((c : CRecord) → ctable_lookup s.ctable (arrival d).ep ≡ some c → IsServing c)
      → IsFine (reader fill (some d) s)
  unfolding reader
  reader-IsFine sound serving =
      let f : ltb d.n buf_size ≡ true = ground (arith, honest.fits) in
      rw f (
        IsFine-if (leb cmd_low cmd && leb cmd cmd_high) _ _
          (λ _. dispatch-IsFine _ refl sound serving) (λ _. fine))

  -- An honest datagram never makes the reader leave its objects, on a connection that holds its
  -- block and has its service.
  pub reader_safe :
      ((c : CRecord) → ctable_lookup s.ctable (arrival d).ep ≡ some c → IsSound c)
      → ((c : CRecord) → ctable_lookup s.ctable (arrival d).ep ≡ some c → IsServing c)
      → reader fill (some d) s ≢ fault
  reader_safe sound serving = fine-ne _ (reader-IsFine sound serving)
