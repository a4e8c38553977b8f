-- ===== src/Datagram/Repeat.antt =====
-- A datagram that comes twice: `queue` of DatagramConnection.cpp.
use ibrdtn.Base.{
  ℕ, ◌+◌, ◌%◌, ◌<◌, ◌≡◌, ◌≢◌, refl, ap, ◌∙◌, Bool, true, false, Option, none, some, arith, ◌==◌,
  if◌then◌else◌, below, level, above, trichotomy,
}
use native.Mathlib.Nat.{mod-eq_of_lt, mod_self, mod-lt}
use ibrdtn.Flags.{has_flag}
use ibrdtn.Datagram.{Stream, Datagram, Verdict, accepted, dropped, thrown, queue, segment_first}

-- The number that `DatagramConnection::queue` acknowledges behind `Stream::queue`, unless this
-- throws.
acknowledged : Verdict → ℕ → Option ℕ
acknowledged accepted seqno = some seqno
acknowledged dropped seqno = some seqno
acknowledged thrown seqno = none

pub record Answer : Type 0 where
  pub stream : Stream
  pub verdict : Verdict
  pub acknowledges : Option ℕ

-- `DatagramConnection::queue`
pub queue_and_ack : Bool → Stream → Datagram → Answer
unfolding queue acknowledged
queue_and_ack stopnwait s d =
    let (s', v) = queue s d in
    record {
      stream = s';
      verdict = v;
      acknowledges = if stopnwait then acknowledged v d.seqno else none;
    }

next_differs : (n m : ℕ) → 1 < m → ((n + 1) % m == n) ≡ false
next_differs n m h = elim (trichotomy (n + 1) m) [
  | below l ↦ ground (arith, mod-eq_of_lt l)
  | level e ↦ ground (arith, ap (λ k. k % m) e, mod_self m)
  | above g ↦
      let small : (n + 1) % m < m = mod-lt (n + 1) (omega (arith, h)) in ground (arith, small)
]

expects_next :
    (s : Stream) (d : Datagram)
    → (queue s d).1 ≡ accepted
    → ((queue s d).0.abort ≡ false) × ((queue s d).0.in_seq_num ≡ (d.seqno + 1) % s.maxseqno)
unfolding queue
expects_next s d e = (ground arith, ground arith)

refuses_other :
    (s : Stream) (d : Datagram)
    → s.abort ≡ false
    → (s.in_seq_num == d.seqno) ≡ false
    → queue s d
      ≡ (record s { abort = true }, if has_flag d.flags segment_first then thrown else dropped)
unfolding queue
refuses_other s d up other = rw (up, other) refl

-- A datagram that the sender repeats, as it does when its acknowledgement is lost, is refused and
-- aborts the stream, if there are at least two numbers. With stop and wait the refused datagram is
-- acknowledged all the same, unless it is the first of a message.
pub repeated_aborts :
    (s : Stream) (d : Datagram)
    → 1 < s.maxseqno
    → (queue s d).1 ≡ accepted
    → let again = queue_and_ack true (queue s d).0 d in
      (again.stream.abort ≡ true)
      × (again.verdict ≢ accepted)
      × (again.acknowledges ≡ (if has_flag d.flags segment_first then none else some d.seqno))
unfolding queue_and_ack queue acknowledged
repeated_aborts s d h e =
    let (up, next) = expects_next s d e in
    rw
      (refuses_other (queue s d).0 d up
        (ap (λ n. n == d.seqno) next ∙ next_differs d.seqno s.maxseqno h))
      (
        refl,
        not_accepted (has_flag d.flags segment_first),
        answers (has_flag d.flags segment_first),
      )
  where
    not_accepted : (b : Bool) → (if b then thrown else dropped) ≢ accepted
    not_accepted true = λ e. cc
    not_accepted false = λ e. cc

    answers :
        (b : Bool)
        → acknowledged (if b then thrown else dropped) d.seqno ≡ (if b then none else some d.seqno)
    answers true = refl
    answers false = refl
