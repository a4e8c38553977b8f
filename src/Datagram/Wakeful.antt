-- ===== src/Datagram/Wakeful.antt =====
-- No wake-up is lost between `queue` and `underflow` of a stream of DatagramConnection.cpp.
use ibrdtn.Base.{
  ℕ, ◌≡◌, inl, inr, refl, sym, ap, subst, Bool, true, false, not, ◌&&◌, ◌||◌, List, [], ◌∷◌, arith,
  Bool-cases,
}
use ibrdtn.Eid.{is_empty}
use ibrdtn.Datagram.{Stream, Datagram, Verdict, accepted, dropped, thrown, queue}
use ibrdtn.Datagram.Waking.{
  Thread, away, awake, asleep, Threads, wake, judged, queue_call, queue_wait, underflow_wait, Turn,
  queues, queue_runs, underflows, underflow_runs, wakes_writer, wakes_reader, turn, take_turns,
  new_threads, sleeps, overslept_queue, overslept_underflow,
}

-- Nobody sleeps who could go on.
abbrev IsWakeful : Threads → Type 0
IsWakeful t = (overslept_queue t ≡ false) × (overslept_underflow t ≡ false)

wake-sleeps : (a : Thread) → sleeps (wake a) ≡ false
unfolding wake
wake-sleeps away = refl
wake-sleeps awake = refl
wake-sleeps asleep = refl

and_false : (a b : Bool) → a ≡ false → (a && b) ≡ false
and_false a b e = rw e refl

queue-buffers :
    (s : Stream) (d : Datagram)
    → ((queue s d).0.queue_buf ≡ s.queue_buf)
      × ((queue s d).1 ≡ accepted → (queue s d).0.abort ≡ s.abort)
unfolding queue
queue-buffers s d = (ground arith, ground arith)

judged-IsWakeful :
    (t : Threads) (d : Datagram) (s : Stream) (v : Verdict)
    → s.queue_buf ≡ t.stream.queue_buf
    → (v ≡ accepted → s.abort ≡ t.stream.abort)
    → t.writer ≡ away
    → IsWakeful t
    → IsWakeful (judged t d s v)
unfolding judged
judged-IsWakeful t d s accepted b a w h = (refl, simp (b, a refl) h.1)
judged-IsWakeful t d s dropped b a w h = (
  and_false (sleeps t.writer) (is_empty s.queue_buf) (ap sleeps w),
  and_false (sleeps (wake t.reader)) (not (is_empty s.queue_buf) || s.abort) (wake-sleeps t.reader),
)
judged-IsWakeful t d s thrown b a w h = (
  and_false (sleeps t.writer) (is_empty s.queue_buf) (ap sleeps w),
  and_false (sleeps (wake t.reader)) (not (is_empty s.queue_buf) || s.abort) (wake-sleeps t.reader),
)

queue_call-IsWakeful :
    (t : Threads) (d : Datagram) → t.writer ≡ away → IsWakeful t → IsWakeful (queue_call t d)
unfolding queue_call
queue_call-IsWakeful t d w h = elim (Bool-cases t.stream.abort) [
  | inl y ↦ let opened : queue_call t d ≡ t = simp y in subst IsWakeful (sym opened) h
  | inr n ↦
      let (b, a) = queue-buffers t.stream d in
      let done = judged-IsWakeful t d (queue t.stream d).0 (queue t.stream d).1 b a w h in
      let opened : queue_call t d ≡ judged t d (queue t.stream d).0 (queue t.stream d).1 = simp n in
      subst IsWakeful (sym opened) done
]

queue_wait-IsWakeful : (t : Threads) → IsWakeful t → IsWakeful (queue_wait t)
unfolding queue_wait
queue_wait-IsWakeful t h = elim (Bool-cases (is_empty t.stream.queue_buf)) [
  | inl y ↦
      let after : Threads = record t {
        stream = record t.stream { queue_buf = t.held };
        writer = away;
        held = [];
        reader = wake t.reader;
      } in
      let opened : queue_wait t ≡ after = simp y in
      subst IsWakeful (sym opened) (
        refl,
        and_false (sleeps (wake t.reader)) (not (is_empty t.held) || t.stream.abort)
            (wake-sleeps t.reader),
      )
  | inr n ↦
      let opened : queue_wait t ≡ record t { writer = asleep } = simp n in
      subst IsWakeful (sym opened) (n, h.1)
]

underflow_wait-IsWakeful : (t : Threads) → IsWakeful t → IsWakeful (underflow_wait t)
unfolding underflow_wait
underflow_wait-IsWakeful t h = elim (Bool-cases (is_empty t.stream.queue_buf)) [
  | inl y ↦ elim (Bool-cases t.stream.abort) [
    | inl a ↦
        let opened : underflow_wait t ≡ record t { reader = away } = simp (y, a) in
        subst IsWakeful (sym opened) (h.0, refl)
    | inr a ↦
        let opened : underflow_wait t ≡ record t { reader = asleep } = simp (y, a) in
        subst IsWakeful (sym opened)
          (h.0, none_left (is_empty t.stream.queue_buf) t.stream.abort y a)
  ]
  | inr n ↦
      let after : Threads = record t {
        stream = record t.stream { queue_buf = [] };
        reader = away;
        writer = wake t.writer;
      } in
      let opened : underflow_wait t ≡ after = simp n in
      subst IsWakeful (sym opened)
        (and_false (sleeps (wake t.writer)) true (wake-sleeps t.writer), refl)
]
  where
    none_left : (e a : Bool) → e ≡ true → a ≡ false → (not e || a) ≡ false
    none_left e a y n = ground arith

turn-IsWakeful :
    (t : Threads) (w r : Thread) (n : Turn) → t.writer ≡ w → IsWakeful t → IsWakeful (turn t w r n)
unfolding turn
turn-IsWakeful t away r (queues d) e h = queue_call-IsWakeful t d e h
turn-IsWakeful t awake r (queues d) e h = h
turn-IsWakeful t asleep r (queues d) e h = h
turn-IsWakeful t away r queue_runs e h = h
turn-IsWakeful t awake r queue_runs e h = queue_wait-IsWakeful t h
turn-IsWakeful t asleep r queue_runs e h = h
turn-IsWakeful t w away underflows e h = (h.0, refl)
turn-IsWakeful t w awake underflows e h = h
turn-IsWakeful t w asleep underflows e h = h
turn-IsWakeful t w away underflow_runs e h = h
turn-IsWakeful t w awake underflow_runs e h = underflow_wait-IsWakeful t h
turn-IsWakeful t w asleep underflow_runs e h = h
turn-IsWakeful t w r wakes_writer e h =
    (and_false (sleeps (wake t.writer)) (is_empty t.stream.queue_buf) (wake-sleeps t.writer), h.1)
turn-IsWakeful t w r wakes_reader e h = (
  h.0,
  and_false (sleeps (wake t.reader)) (not (is_empty t.stream.queue_buf) || t.stream.abort)
      (wake-sleeps t.reader),
)

take_turns-IsWakeful : (t : Threads) (ns : List Turn) → IsWakeful t → IsWakeful (take_turns t ns)
unfolding take_turns
take_turns-IsWakeful t [] h = h
take_turns-IsWakeful t (n ∷ ns) h =
    take_turns-IsWakeful (turn t t.writer t.reader n) ns
      (turn-IsWakeful t t.writer t.reader n refl h)

-- However `queue` and `underflow` take turns on a new stream, with datagrams of any kind and waits
-- that may also end by themselves, as long as nobody calls `close`: no wake-up is lost. A call of
-- `queue` never sleeps while the buffer is free, a call of `underflow` never sleeps while there are
-- bytes in the buffer or the stream is aborted, and the two never sleep at the same time.
pub nobody_oversleeps :
    (size maxseqno : ℕ) (ns : List Turn)
    → let t = take_turns (new_threads size maxseqno) ns in
      (overslept_queue t ≡ false)
      × (overslept_underflow t ≡ false)
      × ((sleeps t.writer && sleeps t.reader) ≡ false)
unfolding new_threads
nobody_oversleeps size maxseqno ns =
    let t = take_turns (new_threads size maxseqno) ns in
    let (q, u) = take_turns-IsWakeful (new_threads size maxseqno) ns (refl, refl) in
    (
      q,
      u,
      not_both (sleeps t.writer) (sleeps t.reader) (is_empty t.stream.queue_buf) t.stream.abort q u,
    )
  where
    not_both : (w r e a : Bool) → (w && e) ≡ false → (r && (not e || a)) ≡ false → (w && r) ≡ false
    not_both w r e a q u = ground arith
