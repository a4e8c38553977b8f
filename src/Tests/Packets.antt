-- ===== src/Tests/Packets.antt =====
-- The theorems on datagrams.
use ibrdtn.Base.{
  ℕ, ◌≤◌, ◌≡◌, ◌≢◌, inl, refl, Bool, true, false, ◌&&◌, none, some, List, [], ◌∷◌, ◌++◌, arith,
  if◌then◌else◌, ok,
}
use ibrdtn.Flags.{has_flag}
use ibrdtn.Datagram.{
  Stream, Datagram, new_stream, queue, accepted, dropped, send_message, queue_all, segment_first,
}
use ibrdtn.Datagram.Segments.{AtStart, next_datagram}
use ibrdtn.Datagram.Transfer.{transfer, unmarked_end}
use ibrdtn.Datagram.Delivery.{
  Receiver, arrives, Run, starts, goes_on, new_receiver, waiting_bytes, delivered_in_order,
}
use ibrdtn.Datagram.Waking.{
  Turn, queues, queue_runs, underflows, underflow_runs, take_turns, new_threads, sleeps,
  overslept_queue, overslept_underflow,
}
use ibrdtn.Datagram.Wakeful.{nobody_oversleeps}
use ibrdtn.Datagram.Acknowledge.{new_acks, stream_send, acked_in, stream_send_lem}
use ibrdtn.Datagram.Repeat.{queue_and_ack, repeated_aborts}

abbrev always : Datagram → Bool
always d = true

-- Datagrams of four bytes, and sixteen numbers.
abbrev small_stream : Stream
small_stream = new_stream 4 16

small_stream-AtStart : AtStart small_stream small_stream
unfolding new_stream
small_stream-AtStart = record {
  in_step = record {
    seqno = refl;
    state = refl;
    first_or_middle = inl refl;
    modulus = refl;
    sender_up = refl;
    receiver_up = refl;
  };
  first = refl;
  empty = refl;
  size = omega arith;
}

abbrev six_bytes : List ℕ
six_bytes = 1 ∷ 2 ∷ 3 ∷ 4 ∷ 5 ∷ 6 ∷ []

abbrev eight_bytes : List ℕ
eight_bytes = 1 ∷ 2 ∷ 3 ∷ 4 ∷ 5 ∷ 6 ∷ 7 ∷ 8 ∷ []

transfer_example :
    (s r : Stream) × (sent : List Datagram) × (send_message always small_stream six_bytes
      ≡ ok (s, sent))
    × (queue_all small_stream sent ≡ some (r, six_bytes))
    × AtStart s r
unfolding new_stream
transfer_example =
    transfer always (λ d. refl) small_stream small_stream six_bytes small_stream-AtStart
      (omega arith)

unmarked_end_example :
    (s r : Stream) × (sent : List Datagram) × (send_message always small_stream eight_bytes
      ≡ ok (s, sent))
    × (queue_all small_stream sent ≡ some (r, eight_bytes))
    × (s.out_state ≡ segment_first)
    × ((bytes : List ℕ)
        → queue r (next_datagram s s.out_state bytes) ≡ (record r { abort = true }, dropped))
unfolding new_stream
unmarked_end_example =
    unmarked_end always (λ d. refl) small_stream small_stream eight_bytes small_stream-AtStart refl
      refl

abbrev only_datagram : Datagram
only_datagram = record { flags = 3; seqno = 0; bytes = six_bytes }

abbrev took_one : Receiver
took_one = record {
  stream = (queue small_stream only_datagram).0;
  waiting = some six_bytes;
  delivered = [];
}

first-Run : Run (new_receiver 4 16) six_bytes took_one
unfolding new_receiver queue has_flag new_stream
first-Run =
    goes_on [] six_bytes six_bytes (new_receiver 4 16) took_one starts
      (arrives only_datagram refl refl refl refl) refl

delivered_in_order_example :
    six_bytes ≡ took_one.delivered ++ (took_one.stream.queue_buf ++ waiting_bytes took_one.waiting)
delivered_in_order_example = delivered_in_order 4 16 six_bytes took_one first-Run

-- The reader sleeps, a datagram comes and wakes it, and the next one waits for the buffer.
abbrev some_turns : List Turn
some_turns =
    underflows
    ∷ underflow_runs
    ∷ queues (record { flags = 2; seqno = 0; bytes = six_bytes })
    ∷ queue_runs
    ∷ queues (record { flags = 1; seqno = 1; bytes = six_bytes })
    ∷ queue_runs
    ∷ underflow_runs
    ∷ []

nobody_oversleeps_example :
    let t = take_turns (new_threads 4 16) some_turns in
    (overslept_queue t ≡ false)
    × (overslept_underflow t ≡ false)
    × ((sleeps t.writer && sleeps t.reader) ≡ false)
nobody_oversleeps_example = nobody_oversleeps 4 16 some_turns

-- Number 7 is acknowledged in the third round.
abbrev some_windows : List (List ℕ)
some_windows = [] ∷ (6 ∷ []) ∷ (7 ∷ []) ∷ []

stream_send_lem_example :
    ((stream_send true some_windows new_acks 7).returns ≡ acked_in 7 5 some_windows)
    × ((stream_send true some_windows new_acks 7).sends ≤ 5)
    × ((stream_send true some_windows new_acks 7).returns ≡ false
        → (stream_send true some_windows new_acks 7).sends ≡ 5)
unfolding new_acks
stream_send_lem_example = stream_send_lem some_windows new_acks 7 (omega arith)

repeated_aborts_example :
    let again = queue_and_ack true (queue small_stream only_datagram).0 only_datagram in
    (again.stream.abort ≡ true)
    × (again.verdict ≢ accepted)
    × (again.acknowledges ≡ (if has_flag 3 segment_first then none else some 0))
unfolding new_stream queue has_flag
repeated_aborts_example = repeated_aborts small_stream only_datagram (omega arith) refl
