-- ===== src/Srpc/Reader/Effects/Messages.antt =====
-- srpc.c, `reader`: what CONNECT, QUERY and RESPONSE do to the sender's record.
use hwdb_opendpi.Stable.Lookup.{stable_lookup-hash}
use hwdb_opendpi.Prelude.{
  ℕ, ◌+◌, ◌-◌, ◌*◌, ◌^◌, ◌≤◌, ◌<◌, ◌≡◌, refl, inl, inr, true, ◌&&◌, ◌||◌, Option, none, some, List,
  arith, ◌==◌, Option-cases, Bool-cases,
}
use hwdb_opendpi.Endpoint.{ByteOrder, endpoint_duplicate}
use hwdb_opendpi.Payload.{DataPayload, cmd_connect, fr_size}
use hwdb_opendpi.Stable.{hash, Name, SRecord, stable_lookup}
use hwdb_opendpi.Crecord.{
  CRecord, crecord_create, crecord_set_state, crecord_set_payload, crecord_set_service, st_idle,
  st_qack_sent, st_response_sent, st_query_sent, st_awaiting_response, st_fack_sent,
}
use hwdb_opendpi.Srpc.{Srpc, Result, fault, Queue, update, enqueue, is_next, memcpy_at}
use hwdb_opendpi.Srpc.Reader.{
  Arrival, reply, connect_new, connect_old, on_connect, accept_query, last_of_query, on_query,
  last_of_response, on_response,
}
use hwdb_opendpi.Srpc.Reader.Effects.{
  rank, IsServing, IsCalm, IsOrdinary, Effect, faults, nothing, accepts, opens, sound_in, Effect-if,
  to_state, reply-Effect, stays, connect_old-Effect,
}

pub is_next_lem : (x y : ℕ) → x < 2 ^ 32 → y < 2 ^ 32 → is_next x y ≡ true → x ≡ y + 1
is_next_lem x y a b e = ground arith

-- A missing value is a fault.
pub Effect-option :
    {A : Type 0} (cmd : ℕ) (a : Arrival) (s : Srpc) (o : Option A) {cr : Option CRecord}
    {k : A → Result}
    → ((x : A) → Effect cmd a s cr (k x))
    → Effect cmd a s cr (elim o [ none ↦ fault | some x ↦ k x ])
Effect-option cmd a s none h = faults
Effect-option cmd a s (some x) h = h x

module _ ⦃net : ByteOrder⦄ where
  connect_new-Effect :
      (cmd : ℕ) (a : Arrival) (svc : Name) (i : ℕ) (s : Srpc)
      → cmd ≡ cmd_connect
      → hash svc ≡ some i
      → Effect cmd a s none (connect_new a svc s)
  unfolding connect_new crecord_create crecord_set_state crecord_set_payload crecord_set_service
      endpoint_duplicate
  connect_new-Effect cmd a svc i s is known = elim (Bool-cases (s.brk == 0)) [
    | inl e ↦ rw (e, connect_new) faults
    | inr e ↦
        rw (e, connect_new)
          (opens _ (record {
            connect = is;
            ep = refl;
            self = refl;
            seqno = refl;
            state = refl;
            serving = (svc, i, refl, known);
          }))
  ]

  pub on_connect-Effect :
      (cmd : ℕ) (a : Arrival) (cr : Option CRecord) (s : Srpc)
      → cmd ≡ cmd_connect
      → Effect cmd a s cr (on_connect a cr s)
  unfolding on_connect
  on_connect-Effect cmd a cr s is = elim (Option-cases (stable_lookup s.stable a.sname)) [
    | inl e ↦ rw (e, on_connect) faults
    | inr (none, e) ↦ rw (e, on_connect) nothing
    | inr (some sv, e) ↦
        rw (e, on_connect) (by_record sv (stable_lookup-hash s.stable a.sname sv e) cr)
  ]
    where
      by_record :
          (sv : SRecord Queue)
          → (i : ℕ) × (hash sv.s_name ≡ some i)
          → (cr : Option CRecord)
          → Effect cmd a s cr
              (elim cr [ none ↦ connect_new a sv.s_name s | some c ↦ connect_old c sv.s_name s ])
      by_record sv (i, known) none = connect_new-Effect cmd a sv.s_name i s is known
      by_record sv (i, known) (some c) = connect_old-Effect cmd a c s sv.s_name i known

module _ ⦃net : ByteOrder⦄ (cmd : ℕ) (a : Arrival) (c : CRecord) (s : Srpc)
    (small : a.seqno < 2 ^ 32) where
  -- The record `c'` with the number of the query is acknowledged and its query queued.
  accept_query-Effect :
      (c' : CRecord) (p : DataPayload) (n : ℕ)
      → c'.self ≡ c.self
      → c'.ep ≡ c.ep
      → c'.seqno ≡ a.seqno
      → (IsServing c → IsServing c')
      → IsOrdinary cmd
      → (IsCalm c → rank c ≤ 2 * a.seqno)
      → Effect cmd a s (some c) (accept_query a c' p n s)
  unfolding accept_query reply update crecord_set_state crecord_set_payload
  accept_query-Effect c' p n self ep seqno serving o low = Effect-option cmd a s c'.svc (λ svc.
      Effect-option cmd a s (enqueue svc (record { sender = c'.ep; packet = p; size = n }) s.stable)
        (λ st.
          accepts
            (record {
              self = self;
              ep = ep;
              serving = serving;
              sound = λ _. sound_in _ _ (omega arith);
              goes = λ o v. (
                record {
                  not_sent = omega arith;
                  not_awaiting = omega arith;
                  small = omega (arith, small, seqno);
                },
                omega (arith, low v, seqno),
              );
            })
            o (λ v. (low v, omega (arith, seqno)))))

  -- A step on a record that puts a message of its own number together, or starts the next one.
  abbrev pub patched : DataPayload → Option (List ℕ)
  patched p = memcpy_at p.bytes (fr_size * (a.fnum - 1)) a.dp.bytes (net.ntohs a.dp.dhdr.flen)

  last_of_query-Effect :
      IsOrdinary cmd
      → a.seqno ≡ c.seqno
      → c.state ≡ st_fack_sent
      → Effect cmd a s (some c) (last_of_query a c s)
  unfolding last_of_query
  last_of_query-Effect o same state = Effect-option cmd a s c.resp (λ p.
      Effect-option cmd a s (patched p) (λ b.
        accept_query-Effect (record c { resp = none }) _ _ refl refl (cc) (λ v. v) o
          (λ v. ground arith)))

  pub on_query-Effect : IsOrdinary cmd → Effect cmd a s (some c) (on_query a (some c) s)
  unfolding on_query
  on_query-Effect o =
      Effect-if cmd a s
        (is_next a.seqno c.seqno && (c.state == st_idle || c.state == st_response_sent))
        (λ e.
          accept_query-Effect (record c { seqno = a.seqno }) _ _ refl refl refl (λ v. v) o
            (λ v.
              let f : is_next a.seqno c.seqno ≡ true = ground arith in
              let g : a.seqno ≡ c.seqno + 1 = is_next_lem a.seqno c.seqno small v.small f in
              ground arith))
        (λ _.
          Effect-if cmd a s
            (a.seqno == c.seqno
              && (c.state == st_fack_sent && (a.fnum == c.last_frag + 1 && a.fnum == a.nfrags)))
            (λ e. last_of_query-Effect o (ground arith) (ground arith))
            (λ _.
              Effect-if cmd a s
                (a.seqno == c.seqno && (c.state == st_qack_sent || c.state == st_response_sent))
                (λ e. stays cmd a c s _) (λ _. nothing)))

  last_of_response-Effect : Effect cmd a s (some c) (last_of_response a c s)
  unfolding last_of_response crecord_set_state crecord_set_payload
  last_of_response-Effect = Effect-option cmd a s c.resp (λ p.
      Effect-option cmd a s (patched p) (λ b.
        reply-Effect cmd a c s _ _ _ (
          to_state cmd c _ refl refl refl (λ v. v) (omega arith)
            (λ o. (omega arith, omega arith)))))

  pub on_response-Effect : Effect cmd a s (some c) (on_response a (some c) s)
  unfolding on_response crecord_set_state crecord_set_payload
  on_response-Effect =
      Effect-if cmd a s (a.seqno == c.seqno)
        (λ _.
          Effect-if cmd a s (c.state == st_query_sent || c.state == st_awaiting_response)
            (λ _. reply-Effect cmd a c s _ _ _ (
              to_state cmd c _ refl refl refl (λ v. v) (omega arith)
                (λ o. (omega arith, omega arith))))
            (λ _.
              Effect-if cmd a s
                (c.state == st_fack_sent && (a.fnum == c.last_frag + 1 && a.fnum == a.nfrags))
                (λ _. last_of_response-Effect) (λ _. nothing)))
        (λ _. nothing)
