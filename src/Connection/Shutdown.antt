-- ===== src/Connection/Shutdown.antt =====
-- ibrdtn/ibrdtn/streams/StreamBuffer.cpp and StreamConnection.cpp: how a connection is made, kept
-- up and shut down. The queue's `wait` and `abort` stop and wake other threads, and change nothing
-- here.
use ibrdtn.Base.{
  ℕ, Bool, true, false, not, ◌&&◌, ◌||◌, none, List, [], ◌++◌, ltb, if◌then◌else◌, Result, ok, err,
}
use ibrdtn.Eid.{Eid}
use ibrdtn.Flags.{has_flag}
use ibrdtn.ContactHeader.{ContactHeader, header_of_eid, write_header, read_header}
use ibrdtn.Segment.{
  msg_keepalive, plain_segment, shutdown_segment, msg_shutdown_none, msg_shutdown_idle_timeout,
}
use ibrdtn.Connection.{
  Connection, ShutdownCase, notset, idle, error, simple_shutdown, node_timeout, peer_shutdown,
  event_shutdown, event_timeout, event_error, event_connection_up, event_connection_down, Outcome,
  returned, stream_error, stream_shutdown, io_failure, exhausted, thrown, and_then, notify,
  write_out, overflow, is_short,
}

abbrev pub msg_shutdown_version_missmatch : ℕ
msg_shutdown_version_missmatch = 1

abbrev request_acknowledgments : ℕ
request_acknowledgments = 1

abbrev request_negative_acknowledgments : ℕ
request_negative_acknowledgments = 4

-- Any exception sets the bit.
unfoldable pub failed_unless_returned : Connection × Outcome → Outcome → Connection × Outcome
failed_unless_returned (c, returned) other = (c, returned)
failed_unless_returned (c, stream_error) other = (record c { failed = true }, other)
failed_unless_returned (c, stream_shutdown) other = (record c { failed = true }, other)
failed_unless_returned (c, io_failure) other = (record c { failed = true }, other)
failed_unless_returned (c, exhausted) other = (record c { failed = true }, other)
failed_unless_returned (c, thrown e) other = (record c { failed = true }, other)

-- `StreamBuffer::shutdown`
unfoldable pub send_shutdown : Connection → ℕ → Connection × Outcome
unfolding failed_unless_returned write_out
send_shutdown c reason =
    failed_unless_returned (write_out c (shutdown_segment reason 0) []) stream_error

-- `StreamBuffer::keepalive`; `free` says whether it gets the lock.
unfoldable pub keepalive : Bool → Connection → Connection
unfolding failed_unless_returned write_out plain_segment
keepalive free c =
    if free
    then (failed_unless_returned (write_out c (plain_segment msg_keepalive) []) returned).0
    else c

-- `StreamBuffer::close`
unfoldable pub close : Connection → Connection
close c = record c { closing = true }

-- The switch of `StreamConnection::shutdown`.
unfoldable pub shutdown_case : ShutdownCase → Connection → Connection × Outcome
unfolding send_shutdown notify
shutdown_case idle c =
    and_then (send_shutdown c msg_shutdown_idle_timeout) (λ c. (notify c event_timeout, returned))
shutdown_case error c = (notify c event_error, returned)
shutdown_case simple_shutdown c =
    and_then (send_shutdown c msg_shutdown_none)
      (λ c. (notify c (event_shutdown simple_shutdown), returned))
shutdown_case node_timeout c = (notify c event_timeout, returned)
shutdown_case peer_shutdown c =
    and_then (send_shutdown c msg_shutdown_none)
      (λ c. (notify c (event_shutdown peer_shutdown), returned))
shutdown_case notset c = (notify c (event_shutdown notset), returned)

unfoldable pub shutdown_caught : Connection × Outcome → Connection
unfolding notify
shutdown_caught (c, returned) = c
shutdown_caught (c, stream_error) = notify c event_error
shutdown_caught (c, stream_shutdown) = c
shutdown_caught (c, io_failure) = c
shutdown_caught (c, exhausted) = c
shutdown_caught (c, thrown e) = c

abbrev pub is_notset : ShutdownCase → Bool
is_notset notset = true
is_notset idle = false
is_notset error = false
is_notset simple_shutdown = false
is_notset node_timeout = false
is_notset peer_shutdown = false

-- `StreamConnection::shutdown`, after the wait for the last answers.
unfoldable pub shutdown : Connection → ShutdownCase → Connection
unfolding close shutdown_case shutdown_caught notify
shutdown c csc =
    if is_notset c.shutdown_reason
    then notify (close (shutdown_caught (shutdown_case csc (record c { shutdown_reason = csc }))))
        event_connection_down
    else c

-- `sync`; `flushes` says whether the stream below can be flushed.
unfoldable pub sync : Bool → Connection → Connection × Outcome
unfolding overflow shutdown
sync flushes c = and_then (overflow c none) (λ c.
    if c.good && flushes
    then (c, returned)
    else (shutdown (record c { bad = true }) error, returned))

-- `timeout`, which the idle timer calls.
unfoldable pub timeout : Connection → Connection × Outcome
unfolding send_shutdown
timeout c =
    if not (c.failed || c.bad || c.closing)
    then send_shutdown c msg_shutdown_idle_timeout
    else (c, returned)

-- What `StreamBuffer::handshake` does with the header of the peer.
unfoldable pub agree : Connection → ContactHeader → Connection
unfolding has_flag
agree c peer = record c {
  ack_support = c.ack_support || has_flag peer.flags request_acknowledgments;
  nack_support = c.nack_support || has_flag peer.flags request_negative_acknowledgments;
  timer_support = c.timer_support || ltb 0 peer.keepalive;
  completed = true;
}

unfoldable pub not_completed : Connection → Connection × Outcome
unfolding send_shutdown shutdown
not_completed c =
    and_then (send_shutdown (record c { failed = true }) msg_shutdown_version_missmatch)
      (λ c. (shutdown c error, stream_error))

-- The header of the peer, or the exception that its reading ends by.
unfoldable pub meet : Connection → Result (ContactHeader × List ℕ) → Connection × Outcome
unfolding agree not_completed notify
meet c (err e) = not_completed (record c { good = c.good && not (is_short e) })
meet c (ok (peer, rest)) =
    (notify (agree (record c { incoming = rest }) peer) (event_connection_up peer), returned)

-- The bytes of the own header, sent before.
unfoldable pub greet : Connection → Result (List ℕ) → Connection × Outcome
unfolding meet not_completed
greet c (err e) = not_completed c
greet c (ok bytes) = meet (record c { outgoing = c.outgoing ++ bytes }) (read_header c.incoming)

-- `StreamConnection::handshake`, and that of the buffer inside.
unfoldable pub handshake : Connection → Eid → ℕ → ℕ → Connection × Outcome
unfolding greet not_completed header_of_eid
handshake c eid timeout flags =
    if c.good
    then greet c (write_header (record (header_of_eid eid) { keepalive = timeout; flags = flags }))
    else not_completed c
