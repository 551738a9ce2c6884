-- ===== src/Srpc/Reader/Effects.antt =====
-- srpc.c, `reader`: what one datagram does to the record of its sender, to its sequence number and
-- to the queues of the services.
pub mod Messages
pub mod Switch
use hwdb_opendpi.Prelude.{
  ℕ, ◌+◌, ◌-◌, ◌*◌, ◌%◌, ◌^◌, ◌≤◌, ◌<◌, ◌≡◌, ◌≢◌, refl, sym, ◌∙◌, inl, inr, Bool, true, false, ◌&&◌,
  ◌||◌, Option, none, some, List, [], ◌∷◌, arith, ◌==◌, if◌then◌else◌, Option-cases, Bool-cases,
}
use hwdb_opendpi.Endpoint.{ByteOrder, RpcEndpoint, endpoint_duplicate}
use hwdb_opendpi.Payload.{
  Packet, DataPayload, cmd_connect, cmd_qack, cmd_seqno, cp_size, attempts, ticks, fr_size,
}
use hwdb_opendpi.Stable.{hash, Name, Stable, SRecord, stable_lookup}
use hwdb_opendpi.Crecord.{
  CRecord, crecord_create, crecord_set_state, crecord_set_payload, crecord_set_service, st_idle,
  st_qack_sent, st_response_sent, st_query_sent, st_awaiting_response, st_timedout,
  st_fragment_sent, st_seqno_sent, st_fack_received, st_fack_sent,
}
use hwdb_opendpi.Ctable.{ctable_insert, store}
use hwdb_opendpi.Srpc.{
  Srpc, Message, Result, ok, fault, Queue, Request, update, enqueue, is_next, memcpy_at,
  first_fragment, copied,
}
use hwdb_opendpi.Srpc.Reader.{
  Arrival, reply, connect_new, connect_old, on_connect, on_ack, accept_query, last_of_query,
  on_query, last_of_response, on_response, on_disconnect, accept_fragment, start_fragments,
  next_fragment, on_fragment, on_fack, on_ping, on_pack, on_seqno, on_sack, dispatch,
}
use hwdb_opendpi.Srpc.Reader.Cases.{dispatch_cases}

-- Twice the sequence number, and one more unless a message of that number is still being put
-- together. A query of the number `n` can be accepted while this is at most 2 n.
abbrev pub rank : CRecord → ℕ
rank c = 2 * c.seqno + (if c.state == st_fack_sent then 0 else 1)

-- A record of a server: no query of its own is under way.
pub record IsCalm (c : CRecord) : Type 0 where
  pub not_sent : c.state ≢ st_query_sent
  pub not_awaiting : c.state ≢ st_awaiting_response
  pub small : c.seqno < 2 ^ 32

-- A record whose message is being put together holds the block for it.
abbrev pub IsSound : CRecord → Type 0
IsSound c = c.state ≡ st_fack_sent → c.resp ≢ none

-- A record has a service, and a name that can be looked up.
abbrev pub IsServing : CRecord → Type 0
IsServing c = (svc : Name) × (i : ℕ) × (c.svc ≡ some svc) × (hash svc ≡ some i)

-- QACK, which only a server sends, and SEQNO, which sets the number, are left out.
abbrev pub IsOrdinary : ℕ → Type 0
IsOrdinary cmd = (cmd ≢ cmd_qack) × (cmd ≢ cmd_seqno)

-- What happens to the record that the sender's key finds.
pub record Next (cmd : ℕ) (c c' : CRecord) : Type 0 where
  pub self : c'.self ≡ c.self
  pub ep : c'.ep ≡ c.ep
  pub sound : IsSound c → IsSound c'
  pub serving : IsServing c → IsServing c'
  pub goes : IsOrdinary cmd → IsCalm c → IsCalm c' × (rank c ≤ rank c')

-- The record that a CONNECT of an unknown key makes.
pub record Opened (cmd : ℕ) (a : Arrival) (s : Srpc) (c' : CRecord) : Type 0 where
  pub connect : cmd ≡ cmd_connect
  pub ep : c'.ep ≡ a.ep
  pub self : c'.self ≡ s.brk
  pub seqno : c'.seqno ≡ a.seqno
  pub state : c'.state ≡ st_idle
  pub serving : IsServing c'

pub data Effect (cmd : ℕ) (a : Arrival) (s : Srpc) : Option CRecord → Result → Type 0 where
  faults : {cr : Option CRecord} → Effect cmd a s cr fault
  nothing : {cr : Option CRecord} {out : List Message} → Effect cmd a s cr (ok s out)
  moves :
      {c c' : CRecord} {out : List Message}
      → Next cmd c c'
      → Effect cmd a s (some c) (ok (record s { ctable = store c' s.ctable }) out)
  accepts :
      {c c' : CRecord} {st : Stable Queue} {out : List Message}
      → Next cmd c c'
      → IsOrdinary cmd
      → (IsCalm c → (rank c ≤ 2 * a.seqno) × (rank c' ≡ 2 * a.seqno + 1))
      → Effect cmd a s (some c) (ok (record s { ctable = store c' s.ctable; stable = st }) out)
  opens :
      (c' : CRecord) {out : List Message}
      → Opened cmd a s c'
      → Effect cmd a s none
          (ok (record s { ctable = ctable_insert c' s.ctable; brk = s.brk + 1 }) out)

module _ (cmd : ℕ) (a : Arrival) (s : Srpc) where
  pub Effect-if :
      (b : Bool) {cr : Option CRecord} {x y : Result}
      → (b ≡ true → Effect cmd a s cr x)
      → (b ≡ false → Effect cmd a s cr y)
      → Effect cmd a s cr (if b then x else y)
  Effect-if true h k = h refl
  Effect-if false h k = k refl

-- A record in another state needs no block.
pub sound_in : (st : ℕ) (r : Option DataPayload) → st ≢ st_fack_sent → st ≡ st_fack_sent → r ≢ none
sound_in st r whole e = absurd (whole e)

-- The state goes to one that puts no message together.
pub to_state :
    (cmd : ℕ) (c c' : CRecord)
    → c'.self ≡ c.self
    → c'.ep ≡ c.ep
    → c'.seqno ≡ c.seqno
    → (IsServing c → IsServing c')
    → c'.state ≢ st_fack_sent
    → (IsOrdinary cmd → (c'.state ≢ st_query_sent) × (c'.state ≢ st_awaiting_response))
    → Next cmd c c'
to_state cmd c c' self ep seqno serving whole calm = record {
  serving = serving;
  self = self;
  ep = ep;
  sound = λ _. sound_in c'.state c'.resp whole;
  goes = λ o v. (
    record {
      not_sent = (calm o).0;
      not_awaiting = (calm o).1;
      small = omega (arith, v.small, seqno);
    },
    ground arith,
  );
}

-- State and number stay.
pub same_state :
    (cmd : ℕ) (c c' : CRecord)
    → c'.self ≡ c.self
    → c'.ep ≡ c.ep
    → c'.seqno ≡ c.seqno
    → (IsServing c → IsServing c')
    → c'.state ≡ c.state
    → c'.resp ≡ c.resp
    → Next cmd c c'
same_state cmd c c' self ep seqno serving state resp = record {
  serving = serving;
  self = self;
  ep = ep;
  sound = λ h e r. h (sym state ∙ e) (sym resp ∙ r);
  goes = λ o v. (
    record {
      not_sent = λ e. v.not_sent (cc);
      not_awaiting = λ e. v.not_awaiting (cc);
      small = omega (arith, v.small, seqno);
    },
    ground arith,
  );
}

module _ ⦃net : ByteOrder⦄ (cmd : ℕ) (a : Arrival) (c : CRecord) (s : Srpc) where
  -- The record `c` of the table becomes `c'`.
  pub update-Effect :
      (c' : CRecord) (out : List Message)
      → Next cmd c c'
      → Effect cmd a s (some c) (update c' s out)
  unfolding update
  update-Effect c' out n = moves n

  pub reply-Effect :
      (c' : CRecord) (p : Packet) (st : ℕ)
      → Next cmd c (crecord_set_state (crecord_set_payload c' p cp_size attempts ticks) st)
      → Effect cmd a s (some c) (reply c' p st s)
  unfolding reply update
  reply-Effect c' p st n = moves n

  -- A change of the state alone.
  pub enters :
      (st : ℕ) (out : List Message)
      → st ≢ st_fack_sent
      → (IsOrdinary cmd → (st ≢ st_query_sent) × (st ≢ st_awaiting_response))
      → Effect cmd a s (some c) (update (crecord_set_state c st) s out)
  unfolding crecord_set_state
  enters st out whole calm =
      update-Effect _ out (to_state cmd c _ refl refl refl (λ v. v) whole calm)

  pub stays :
      (out : List Message) → Effect cmd a s (some c) (update (crecord_set_state c c.state) s out)
  unfolding crecord_set_state
  stays out = update-Effect _ out (same_state cmd c _ refl refl refl (λ v. v) refl refl)

  pub on_ack-Effect :
      (st : ℕ)
      → st ≢ st_fack_sent
      → (IsOrdinary cmd → (st ≢ st_query_sent) × (st ≢ st_awaiting_response))
      → Effect cmd a s (some c) (on_ack st a (some c) s)
  unfolding on_ack
  on_ack-Effect st whole calm =
      Effect-if cmd a s (a.seqno == c.seqno) (λ e. enters st [] whole calm) (λ e. nothing)

  pub on_disconnect-Effect : Effect cmd a s (some c) (on_disconnect a (some c) s)
  unfolding on_disconnect
  on_disconnect-Effect = enters st_timedout _ (omega arith) (λ o. (omega arith, omega arith))

  pub on_fack-Effect : Effect cmd a s (some c) (on_fack a (some c) s)
  unfolding on_fack
  on_fack-Effect =
      Effect-if cmd a s
        (a.seqno == c.seqno && (c.state == st_fragment_sent && a.fnum == c.last_frag))
        (λ e. enters st_fack_received [] (omega arith) (λ o. (omega arith, omega arith)))
        (λ e. nothing)

  pub on_sack-Effect : Effect cmd a s (some c) (on_sack a (some c) s)
  unfolding on_sack
  on_sack-Effect =
      Effect-if cmd a s (c.state == st_seqno_sent)
        (λ e. enters st_idle [] (omega arith) (λ o. (omega arith, omega arith))) (λ e. nothing)

  pub on_pack-Effect : Effect cmd a s (some c) (on_pack a (some c) s)
  unfolding on_pack
  on_pack-Effect = stays []

  pub on_seqno-Effect : cmd ≡ cmd_seqno → Effect cmd a s (some c) (on_seqno a (some c) s)
  unfolding on_seqno crecord_set_state crecord_set_payload
  on_seqno-Effect is =
      Effect-if cmd a s (c.state == st_idle || c.state == st_response_sent)
        (λ e. reply-Effect _ _ _ (record {
          self = refl;
          ep = refl;
          serving = λ v. v;
          sound = λ _. sound_in _ _ (omega arith);
          goes = λ o v. absurd (o.1 is);
        }))
        (λ e. nothing)

  pub connect_old-Effect :
      (svc : Name) (i : ℕ) → hash svc ≡ some i → Effect cmd a s (some c) (connect_old c svc s)
  unfolding connect_old crecord_set_service crecord_set_state
  connect_old-Effect svc i known =
      Effect-if cmd a s (c.state == st_idle)
        (λ e. update-Effect _ _ (
          to_state cmd c _ refl refl refl (λ _. (svc, i, refl, known)) (omega arith)
            (λ o. (omega arith, omega arith))))
        (λ e. nothing)
