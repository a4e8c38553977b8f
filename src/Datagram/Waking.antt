-- ===== src/Datagram/Waking.antt =====
-- The condition variable of a stream of DatagramConnection.cpp: how `queue` and `underflow` wait for
-- each other, and the signals that wake them.
use ibrdtn.Base.{ℕ, Bool, true, false, not, ◌&&◌, ◌||◌, List, [], ◌∷◌, if◌then◌else◌}
use ibrdtn.Eid.{is_empty}
use ibrdtn.Datagram.{Stream, Datagram, Verdict, accepted, dropped, thrown, queue, new_stream}

-- A thread is not in its call, it runs in it or is about to, or it waits for the condition variable
-- and sleeps.
pub data Thread : Type 0 where
  away awake asleep : Thread

-- The thread that calls `queue`, with the bytes of an accepted datagram that it has not stored yet,
-- and the one that calls `underflow`. Nobody else waits, as long as nobody calls `close`.
pub record Threads : Type 0 where
  pub stream : Stream
  pub writer : Thread
  pub held : List ℕ
  pub reader : Thread

-- `signal` wakes a thread that sleeps. Of the two only the other one can.
unfoldable pub wake : Thread → Thread
wake away = away
wake awake = awake
wake asleep = awake

-- `queue`, up to the loop that waits for a free buffer. An abort is signalled.
unfoldable pub judged : Threads → Datagram → Stream → Verdict → Threads
unfolding wake
judged t d s accepted = record t { stream = s; writer = awake; held = d.bytes }
judged t d s dropped = record t { stream = s; reader = wake t.reader }
judged t d s thrown = record t { stream = s; reader = wake t.reader }

unfoldable pub queue_call : Threads → Datagram → Threads
unfolding judged
queue_call t d = if t.stream.abort then t else judged t d (queue t.stream d).0 (queue t.stream d).1

-- The loop of `queue`, and what follows it.
unfoldable pub queue_wait : Threads → Threads
unfolding wake
queue_wait t =
    if is_empty t.stream.queue_buf
    then record t {
      stream = record t.stream { queue_buf = t.held };
      writer = away;
      held = [];
      reader = wake t.reader;
    }
    else record t { writer = asleep }

-- The loop of `underflow`, and what follows it. An aborted stream makes it throw.
unfoldable pub underflow_wait : Threads → Threads
unfolding wake
underflow_wait t =
    if is_empty t.stream.queue_buf
    then (if t.stream.abort then record t { reader = away } else record t { reader = asleep })
    else record t {
      stream = record t.stream { queue_buf = [] };
      reader = away;
      writer = wake t.writer;
    }

-- What can come next. A wait may also end without a signal.
pub data Turn : Type 0 where
  queues : Datagram → Turn
  queue_runs underflows underflow_runs wakes_writer wakes_reader : Turn

-- A thread only does what it is about to do; otherwise nothing happens.
unfoldable pub turn : Threads → Thread → Thread → Turn → Threads
unfolding queue_call queue_wait underflow_wait wake
turn t away r (queues d) = queue_call t d
turn t awake r (queues d) = t
turn t asleep r (queues d) = t
turn t away r queue_runs = t
turn t awake r queue_runs = queue_wait t
turn t asleep r queue_runs = t
turn t w away underflows = record t { reader = awake }
turn t w awake underflows = t
turn t w asleep underflows = t
turn t w away underflow_runs = t
turn t w awake underflow_runs = underflow_wait t
turn t w asleep underflow_runs = t
turn t w r wakes_writer = record t { writer = wake t.writer }
turn t w r wakes_reader = record t { reader = wake t.reader }

unfoldable pub take_turns : Threads → List Turn → Threads
unfolding turn
take_turns t [] = t
take_turns t (n ∷ ns) = take_turns (turn t t.writer t.reader n) ns

unfoldable pub new_threads : ℕ → ℕ → Threads
new_threads size maxseqno = record {
  stream = new_stream size maxseqno;
  writer = away;
  held = [];
  reader = away;
}

abbrev pub sleeps : Thread → Bool
sleeps away = false
sleeps awake = false
sleeps asleep = true

-- A thread sleeps although its loop would end.
abbrev pub overslept_queue : Threads → Bool
overslept_queue t = sleeps t.writer && is_empty t.stream.queue_buf

abbrev pub overslept_underflow : Threads → Bool
overslept_underflow t = sleeps t.reader && (not (is_empty t.stream.queue_buf) || t.stream.abort)
