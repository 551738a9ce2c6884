-- ===== src/Srpc/Timer.antt =====
-- srpc.c, `timer`: one tick of the timer thread.
pub mod Keeps
pub mod Passes
pub mod Ticks
pub mod Silence
use hwdb_opendpi.Prelude.{ℕ, Bool, some, List, [], ◌∷◌, ◌++◌, ◌%◌, ◌+◌, if◌then◌else◌, ◌^◌}
use hwdb_opendpi.Endpoint.{ByteOrder}
use hwdb_opendpi.Payload.{control, cp_complete, cp_size, cmd_ping}
use hwdb_opendpi.Crecord.{CRecord, crecord_set_state, st_timedout}
use hwdb_opendpi.Ctable.{Table, ctable_scan, ctable_remove, store, is_sending}
use hwdb_opendpi.Srpc.{Srpc, Message, resend}

-- The four loops. The records on a list stay what the scan left until their loop reaches them.
unfoldable pub purge_all : List CRecord → Table → Table
purge_all [] t = t
purge_all (cr ∷ rest) t = purge_all rest (ctable_remove cr t)

unfoldable pub time_out_all : List CRecord → Table → Table
time_out_all [] t = t
time_out_all (cr ∷ rest) t = time_out_all rest (store (crecord_set_state cr st_timedout) t)

module _ ⦃net : ByteOrder⦄ where
  unfoldable pub ping_all : List CRecord → List Message
  ping_all [] = []
  ping_all (cr ∷ rest) =
      record {
        to = cr.ep;
        packet = some (control (cp_complete cr.ep.subport cmd_ping cr.seqno 1 1));
        size = cp_size;
      }
      ∷ ping_all rest

  unfoldable pub retry_all : List CRecord → List Message
  retry_all [] = []
  retry_all (cr ∷ rest) = if is_sending cr.state then resend cr ∷ retry_all rest else retry_all rest

  unfoldable pub timer : Srpc → Srpc × List Message
  unfolding purge_all time_out_all ping_all retry_all
  timer s =
      let (t, found) = ctable_scan s.ctable in
      (
        record s { ctable = time_out_all found.timeds (purge_all found.purges t) },
        ping_all found.pings ++ retry_all found.retries,
      )
