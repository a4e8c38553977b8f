-- ===== src/Connection/Once.antt =====
-- How often the user hears of the end of a connection, over all calls of StreamConnection.cpp and
-- StreamBuffer.cpp.
use ibrdtn.Base.{ℕ, ◌≡◌, refl, Bool, false, Option, List, if◌then◌else◌}
use ibrdtn.Eid.{Eid}
use ibrdtn.Connection.{Connection, ShutdownCase, overflow, new_connection}
use ibrdtn.Connection.Receive.{underflow, reject_bundle}
use ibrdtn.Connection.Shutdown.{keepalive, shutdown, sync, timeout, handshake, is_notset}
use ibrdtn.Connection.Quiet.{downs, IsCounted, overflow-Leaves, Leaves-IsCounted}
use ibrdtn.Connection.Down.{
  keepalive-Leaves, timeout-Leaves, shutdown-IsCounted, sync-IsCounted, handshake-IsCounted,
}
use ibrdtn.Connection.Unheard.{same, underflow-Leaves}

-- The calls of a connection and of its buffer, by its user, its peer's data and its timers. No code
-- shuts a connection down for the reason NOTSET.
pub data Call : Connection → Connection → Type 0 where
  overflows : {c : Connection} (ch : Option ℕ) → Call c (overflow c ch).0
  syncs : {c : Connection} (flushes : Bool) → Call c (sync flushes c).0
  underflows : {c : Connection} → Call c (underflow c).0
  rejects : {c : Connection} → Call c (reject_bundle c)
  keeps_alive : {c : Connection} (free : Bool) → Call c (keepalive free c)
  times_out : {c : Connection} → Call c (timeout c).0
  shakes : {c : Connection} (eid : Eid) (alive flags : ℕ) → Call c (handshake c eid alive flags).0
  shuts_down :
      {c : Connection} (csc : ShutdownCase) → is_notset csc ≡ false → Call c (shutdown c csc)

pub data Calls (first : Connection) : Connection → Type 0 where
  starts : Calls first first
  goes_on : {c d : Connection} → Calls first c → Call c d → Calls first d

call-IsCounted : {c d : Connection} → Call c d → IsCounted c → IsCounted d
unfolding reject_bundle
call-IsCounted (overflows ch) i = Leaves-IsCounted (overflow-Leaves _ ch) i
call-IsCounted (syncs flushes) i = sync-IsCounted flushes _ i
call-IsCounted underflows i = Leaves-IsCounted (underflow-Leaves _) i
call-IsCounted rejects i = Leaves-IsCounted (same refl refl) i
call-IsCounted (keeps_alive free) i = Leaves-IsCounted (keepalive-Leaves free _) i
call-IsCounted times_out i = Leaves-IsCounted (timeout-Leaves _) i
call-IsCounted (shakes eid alive flags) i = handshake-IsCounted _ eid alive flags i
call-IsCounted (shuts_down csc h) i = shutdown-IsCounted _ csc h i

Calls-IsCounted :
    (size : ℕ) (incoming : List ℕ) {c : Connection}
    → Calls (new_connection size incoming) c
    → IsCounted c
unfolding new_connection
Calls-IsCounted size incoming starts = record { down = refl }
Calls-IsCounted size incoming (goes_on run call) =
    call-IsCounted call (Calls-IsCounted size incoming run)

-- A new connection, over any stream, after any calls of its operations, without a shutdown for the
-- reason NOTSET: its user has heard once that it went down if it has a reason for a shutdown, and
-- has not heard so if it has none.
pub down_once :
    (size : ℕ) (incoming : List ℕ) (c : Connection)
    → Calls (new_connection size incoming) c
    → downs c.events ≡ (if is_notset c.shutdown_reason then 0 else 1)
down_once size incoming c calls = (Calls-IsCounted size incoming calls).down
