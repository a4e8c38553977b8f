-- ===== src/Connection.antt =====
-- ibrdtn/ibrdtn/streams/StreamConnection.h and StreamBuffer.cpp: one side of a connection of the
-- TCP convergence layer, and what it sends. A connection and its buffer are one record. Each bit of
-- `_statebits` is a Boolean of its own. The stream below, which throws once it is bad, is the list
-- of the bytes that can be read, the list of the bytes written, and whether it is good. The calls
-- of the callback are kept in their order.
pub mod Receive
pub mod Shutdown
pub mod Ledger
pub mod Expected
pub mod Refusals
pub mod Acknowledged
pub mod Answers
pub mod Outcomes
pub mod Kept
pub mod Wire
pub mod Written
pub mod Replies
pub mod Transmitted
pub mod Underway
pub mod Arrivals
pub mod Peers
pub mod Quiet
pub mod Down
pub mod Unheard
pub mod Once
pub mod Sending
pub mod Bounded
pub mod Ends
use ibrdtn.Base.{
  ℕ, zero, suc, ◌+◌, ◌-◌, ◌*◌, ◌/◌, ◌%◌, ◌^◌, ◌≤◌, ◌<◌, ◌≡◌, ◌≢◌, ◌⊎◌, inl, inr, refl, sym, ap, ◌∙◌,
  Bool, true, false, not, ◌&&◌, ◌||◌, Option, none, some, List, [], ◌∷◌, ◌++◌, arith, length, ltb,
  leb, ◌==◌, if◌then◌else◌, Result, ok, err, invalid_data, invalid_protocol, rejected, wrong_eid,
  aborted, unsent, short_read, overrun, get_byte, read_bytes, read_bytes-append, ◌>>=◌, >>=-eq-ok,
  length-append, All, All-append, subst, Bool-cases, Trichotomy, below, level, above, trichotomy,
  Option-cases, map, ltb→lt,
}
use ibrdtn.Base.{Error}
use ibrdtn.Eid.{is_empty}
use ibrdtn.Flags.{has_flag, set_flag}
use ibrdtn.ContactHeader.{ContactHeader}
use ibrdtn.Segment.{
  StreamDataSegment, msg_data_segment, msg_ack_segment, msg_refuse_bundle, sized_segment,
  plain_segment, write_segment,
}

-- `ConnectionShutdownCases`
pub data ShutdownCase : Type 0 where
  notset idle error simple_shutdown node_timeout peer_shutdown : ShutdownCase

-- The calls of `StreamConnection::Callback`.
pub data Event : Type 0 where
  event_shutdown : ShutdownCase → Event
  event_timeout event_error event_bundle_refused event_bundle_forwarded : Event
  event_bundle_ack : ℕ → Event
  event_connection_up : ContactHeader → Event
  event_connection_down : Event

-- How a call ends. `stream_error` and `stream_shutdown` are the exceptions of the connection,
-- `io_failure` is std::ios_base::failure, `thrown` an exception of the code that reads and writes
-- segments. No call of the sources ends by `exhausted`: it is a loop that is cut off.
pub data Outcome : Type 0 where
  returned stream_error stream_shutdown io_failure exhausted : Outcome
  thrown : Error → Outcome

-- `transferring` says whether `_underflow_state` is DATA_TRANSFER, and not IDLE. `out_buf` is what
-- stands before `pptr`, `in_buf` what stands between `gptr` and `egptr`.
pub record Connection : Type 0 where
  pub buffer_size : ℕ
  pub failed : Bool
  pub bad : Bool
  pub completed : Bool
  pub closing : Bool
  pub reject : Bool
  pub skip : Bool
  pub ack_support : Bool
  pub nack_support : Bool
  pub sob : Bool
  pub timer_support : Bool
  pub in_buf : List ℕ
  pub out_buf : List ℕ
  pub segments : List StreamDataSegment
  pub rejected_segments : List StreamDataSegment
  pub recv_size : ℕ
  pub data_remain : ℕ
  pub transferring : Bool
  pub shutdown_reason : ShutdownCase
  pub good : Bool
  pub incoming : List ℕ
  pub outgoing : List ℕ
  pub events : List Event

-- The constructors, over a stream from which `incoming` can be read.
unfoldable pub new_connection : ℕ → List ℕ → Connection
new_connection buffer_size incoming = record {
  buffer_size = buffer_size;
  failed = false;
  bad = false;
  completed = false;
  closing = false;
  reject = false;
  skip = false;
  ack_support = false;
  nack_support = false;
  sob = true;
  timer_support = false;
  in_buf = [];
  out_buf = [];
  segments = [];
  rejected_segments = [];
  recv_size = 0;
  data_remain = 0;
  transferring = false;
  shutdown_reason = notset;
  good = true;
  incoming = incoming;
  outgoing = [];
  events = [];
}

abbrev pub mark_begin : ℕ
mark_begin = 2

abbrev pub mark_end : ℕ
mark_end = 1

-- The stream below has ended, which makes it bad.
abbrev pub is_short : Error → Bool
is_short short_read = true
is_short invalid_data = false
is_short invalid_protocol = false
is_short rejected = false
is_short wrong_eid = false
is_short aborted = false
is_short unsent = false
is_short overrun = false

-- What follows a call that returned.
abbrev pub and_then :
    Connection × Outcome → (Connection → Connection × Outcome) → Connection × Outcome
and_then (c, returned) next = next c
and_then (c, stream_error) next = (c, stream_error)
and_then (c, stream_shutdown) next = (c, stream_shutdown)
and_then (c, io_failure) next = (c, io_failure)
and_then (c, exhausted) next = (c, exhausted)
and_then (c, thrown e) next = (c, thrown e)

-- A call of the callback.
unfoldable pub notify : Connection → Event → Connection
notify c e = record c { events = c.events ++ (e ∷ []) }

-- `_stream << seg`, and `_stream.write` of the bytes behind it.
unfoldable pub write_out : Connection → StreamDataSegment → List ℕ → Connection × Outcome
write_out c seg bytes =
    if c.good
    then elim (write_segment seg) [
      | err e ↦ (c, thrown e)
      | ok header ↦ (record c { outgoing = c.outgoing ++ (header ++ bytes) }, returned)
    ]
    else (c, io_failure)

-- The same where the code looks at the stream first.
unfoldable pub send : Connection → StreamDataSegment → List ℕ → Connection × Outcome
unfolding write_out
send c seg bytes = if c.good then write_out c seg bytes else (c, stream_error)

-- The marks of the segment that `overflow` makes, where `none` is the end of the file.
unfoldable pub data_flags : Bool → Option ℕ → ℕ
unfolding set_flag
data_flags sob ch =
    let flags = if sob then set_flag 0 mark_begin else 0 in
    elim ch [ none ↦ set_flag flags mark_end | some b ↦ flags ]

unfoldable pub data_segment : Bool → Option ℕ → List ℕ → StreamDataSegment
unfolding data_flags sized_segment
data_segment sob ch bytes = record (sized_segment msg_data_segment (length bytes)) {
  flags = data_flags sob ch;
}

-- The state bits after the marks are set.
unfoldable pub mark : Connection → Option ℕ → Connection
mark c ch =
    let c = if c.sob then record c { skip = false; sob = false } else c in
    elim ch [ none ↦ record c { sob = true } | some b ↦ c ]

-- With acknowledgements the segment waits for its own; without them the last segment of a bundle
-- counts as its delivery.
unfoldable pub enqueue : Connection → StreamDataSegment → Connection
unfolding has_flag notify
enqueue c seg =
    if c.ack_support
    then record c { segments = c.segments ++ (seg ∷ []) }
    else if has_flag seg.flags mark_end
    then notify c event_bundle_forwarded
    else c

-- The handlers of `overflow`: they set a bit and throw again.
unfoldable pub overflow_caught : Connection × Outcome → Connection × Outcome
overflow_caught (c, returned) = (c, returned)
overflow_caught (c, stream_error) = (record c { failed = true }, stream_error)
overflow_caught (c, stream_shutdown) = (c, stream_shutdown)
overflow_caught (c, io_failure) = (record c { failed = true }, io_failure)
overflow_caught (c, exhausted) = (c, exhausted)
overflow_caught (c, thrown e) = (c, thrown e)

pub overflow : Connection → Option ℕ → Connection × Outcome
unfolding mark data_segment enqueue send overflow_caught
overflow c ch =
    let bytes = c.out_buf ++ elim ch [ none ↦ [] | some b ↦ b ∷ [] ] in
    let seg = data_segment c.sob ch bytes in
    let marked = mark (record c { out_buf = [] }) ch in
    if is_empty bytes
    then (record c { out_buf = [] }, returned)
    else if marked.skip
    then (marked, returned)
    else overflow_caught (send (enqueue marked seg) seg bytes)

-- `sputc` of the standard library: the put area has one byte less than the buffer.
pub put_char : Connection → ℕ → Connection × Outcome
unfolding overflow
put_char c b =
    if ltb (length c.out_buf) (c.buffer_size - 1)
    then (record c { out_buf = c.out_buf ++ (b ∷ []) }, returned)
    else overflow c (some b)

pub write_chars : Connection → List ℕ → Connection × Outcome
unfolding put_char
write_chars c [] = (c, returned)
write_chars c (b ∷ bs) = and_then (put_char c b) (λ c. write_chars c bs)
