-- ===== src/Connection/Down.antt =====
-- What a shutdown of StreamConnection.cpp, and the calls that lead to one, tell the user.
use ibrdtn.Base.{
  ℕ, ◌+◌, ◌≡◌, inl, inr, refl, sym, ap, ◌∙◌, Bool, true, false, not, ◌&&◌, none, List, [], ◌∷◌,
  ◌++◌, if◌then◌else◌, Result, ok, err, subst, Bool-cases,
}
use ibrdtn.Eid.{Eid}
use ibrdtn.ContactHeader.{ContactHeader, write_header, read_header}
use ibrdtn.Connection.{
  Connection, ShutdownCase, notset, idle, error, simple_shutdown, node_timeout, peer_shutdown,
  event_error, event_connection_up, event_connection_down, Outcome, returned, stream_error,
  stream_shutdown, io_failure, exhausted, thrown, and_then, notify, overflow, is_short,
}
use ibrdtn.Connection.Shutdown.{
  send_shutdown, keepalive, shutdown, sync, timeout, handshake, shutdown_case, shutdown_caught,
  is_notset, close, failed_unless_returned, not_completed, agree, meet, greet,
}
use ibrdtn.Connection.Quiet.{
  downs, downs-append, IsCounted, Leaves, leaves, stays, and_then-Leaves, notify-Leaves, if-Leaves,
  write_out-Leaves, Leaves-IsCounted, choose-Leaves, overflow-Leaves,
}

failed_unless_returned-Leaves :
    (c : Connection) (r : Connection × Outcome) (o : Outcome)
    → Leaves c r.0
    → Leaves c (failed_unless_returned r o).0
unfolding failed_unless_returned
failed_unless_returned-Leaves c (d, returned) o l = l
failed_unless_returned-Leaves c (d, stream_error) o l =
    leaves l (record { reason = refl; down = refl })
failed_unless_returned-Leaves c (d, stream_shutdown) o l =
    leaves l (record { reason = refl; down = refl })
failed_unless_returned-Leaves c (d, io_failure) o l =
    leaves l (record { reason = refl; down = refl })
failed_unless_returned-Leaves c (d, exhausted) o l =
    leaves l (record { reason = refl; down = refl })
failed_unless_returned-Leaves c (d, thrown e) o l = leaves l (record { reason = refl; down = refl })

send_shutdown-Leaves : (c : Connection) (reason : ℕ) → Leaves c (send_shutdown c reason).0
unfolding send_shutdown
send_shutdown-Leaves c reason =
    failed_unless_returned-Leaves c _ stream_error (write_out-Leaves c _ [])

shutdown_caught-Leaves :
    (c : Connection) (r : Connection × Outcome) → Leaves c r.0 → Leaves c (shutdown_caught r)
unfolding shutdown_caught
shutdown_caught-Leaves c (d, returned) l = l
shutdown_caught-Leaves c (d, stream_error) l = leaves l (notify-Leaves d event_error refl)
shutdown_caught-Leaves c (d, stream_shutdown) l = l
shutdown_caught-Leaves c (d, io_failure) l = l
shutdown_caught-Leaves c (d, exhausted) l = l
shutdown_caught-Leaves c (d, thrown e) l = l

shutdown_case-Leaves : (csc : ShutdownCase) (c : Connection) → Leaves c (shutdown_case csc c).0
unfolding shutdown_case
shutdown_case-Leaves idle c =
    and_then-Leaves c _ _ (send_shutdown-Leaves c _) (λ d. notify-Leaves d _ refl)
shutdown_case-Leaves error c = notify-Leaves c _ refl
shutdown_case-Leaves simple_shutdown c =
    and_then-Leaves c _ _ (send_shutdown-Leaves c _) (λ d. notify-Leaves d _ refl)
shutdown_case-Leaves node_timeout c = notify-Leaves c _ refl
shutdown_case-Leaves peer_shutdown c =
    and_then-Leaves c _ _ (send_shutdown-Leaves c _) (λ d. notify-Leaves d _ refl)
shutdown_case-Leaves notset c = notify-Leaves c _ refl

-- A shutdown for a reason.
pub shutdown-IsCounted :
    (c : Connection) (csc : ShutdownCase)
    → is_notset csc ≡ false
    → IsCounted c
    → IsCounted (shutdown c csc)
unfolding shutdown close notify
shutdown-IsCounted c csc h i = elim (Bool-cases (is_notset c.shutdown_reason)) [
  | inl y ↦
      let begun : Connection = record c { shutdown_reason = csc } in
      let d : Connection = shutdown_caught (shutdown_case csc begun) in
      let l =
        shutdown_caught-Leaves begun (shutdown_case csc begun) (shutdown_case-Leaves csc begun) in
      let none_before : downs c.events ≡ 0 = i.down ∙ rw y refl in
      subst IsCounted (sym (opened y)) (record {
        down =
            downs-append d.events (event_connection_down ∷ [])
            ∙ (ap (λ n. n + 1) (l.down ∙ none_before)
                ∙ sym (ap (λ b. if b then 0 else 1) (ap is_notset l.reason ∙ h)));
      })
  | inr n ↦ rw n i
]
  where
    opened :
        is_notset c.shutdown_reason ≡ true
        → shutdown c csc
          ≡ notify
              (close (shutdown_caught (shutdown_case csc (record c { shutdown_reason = csc }))))
              event_connection_down
    opened y = simp y

pub keepalive-Leaves : (free : Bool) (c : Connection) → Leaves c (keepalive free c)
unfolding keepalive
keepalive-Leaves free c =
    choose-Leaves free c _ _ (failed_unless_returned-Leaves c _ returned (write_out-Leaves c _ []))
      stays

pub timeout-Leaves : (c : Connection) → Leaves c (timeout c).0
unfolding timeout
timeout-Leaves c = if-Leaves _ c _ _ (send_shutdown-Leaves c _) stays

and_then-IsCounted :
    (r : Connection × Outcome) (next : Connection → Connection × Outcome)
    → IsCounted r.0
    → ((d : Connection) → IsCounted d → IsCounted (next d).0)
    → IsCounted (and_then r next).0
and_then-IsCounted (d, returned) next f s = s d f
and_then-IsCounted (d, stream_error) next f s = f
and_then-IsCounted (d, stream_shutdown) next f s = f
and_then-IsCounted (d, io_failure) next f s = f
and_then-IsCounted (d, exhausted) next f s = f
and_then-IsCounted (d, thrown e) next f s = f

error_shutdown-IsCounted : (c : Connection) → IsCounted c → IsCounted (shutdown c error)
error_shutdown-IsCounted c i = shutdown-IsCounted c error refl i

if-IsCounted :
    (b : Bool) (x y : Connection × Outcome)
    → IsCounted x.0
    → IsCounted y.0
    → IsCounted (if b then x else y).0
if-IsCounted true x y i j = i
if-IsCounted false x y i j = j

pub sync-IsCounted : (flushes : Bool) (c : Connection) → IsCounted c → IsCounted (sync flushes c).0
unfolding sync
sync-IsCounted flushes c i =
    and_then-IsCounted (overflow c none) _ (Leaves-IsCounted (overflow-Leaves c none) i) flushed
  where
    flushed :
        (d : Connection)
        → IsCounted d
        → IsCounted
            (if◌then◌else◌ {A = Connection × Outcome}
              (d.good && flushes)
              (d, returned)
              (shutdown (record d { bad = true }) error, returned)).0
    flushed d j =
        if-IsCounted (d.good && flushes) (d, returned)
          (shutdown (record d { bad = true }) error, returned) j
          (error_shutdown-IsCounted (record d { bad = true })
            (Leaves-IsCounted (record { reason = refl; down = refl }) j))

not_completed-IsCounted : (c : Connection) → IsCounted c → IsCounted (not_completed c).0
unfolding not_completed
not_completed-IsCounted c i =
    and_then-IsCounted (send_shutdown (record c { failed = true }) _) _
      (Leaves-IsCounted
        (leaves (record { reason = refl; down = refl })
          (send_shutdown-Leaves (record c { failed = true }) _))
        i)
      (λ d j. error_shutdown-IsCounted d j)

meet-IsCounted :
    (c : Connection) (r : Result (ContactHeader × List ℕ)) → IsCounted c → IsCounted (meet c r).0
unfolding meet agree
meet-IsCounted c (err e) i =
    not_completed-IsCounted (record c { good = c.good && not (is_short e) })
      (Leaves-IsCounted (record { reason = refl; down = refl }) i)
meet-IsCounted c (ok (peer, rest)) i =
    Leaves-IsCounted
      (leaves (record { reason = refl; down = refl })
        (notify-Leaves (agree (record c { incoming = rest }) peer) (event_connection_up peer) refl))
      i

greet-IsCounted : (c : Connection) (r : Result (List ℕ)) → IsCounted c → IsCounted (greet c r).0
unfolding greet
greet-IsCounted c (err e) i = not_completed-IsCounted c i
greet-IsCounted c (ok bytes) i =
    meet-IsCounted (record c { outgoing = c.outgoing ++ bytes }) (read_header c.incoming)
      (Leaves-IsCounted (record { reason = refl; down = refl }) i)

pub handshake-IsCounted :
    (c : Connection) (eid : Eid) (keepalive flags : ℕ)
    → IsCounted c
    → IsCounted (handshake c eid keepalive flags).0
unfolding handshake
handshake-IsCounted c eid keepalive flags i =
    if-IsCounted c.good
      (greet c (write_header (record { localeid = eid; keepalive = keepalive; flags = flags })))
      (not_completed c)
      (greet-IsCounted c
        (write_header (record { localeid = eid; keepalive = keepalive; flags = flags })) i)
      (not_completed-IsCounted c i)
