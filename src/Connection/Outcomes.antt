-- ===== src/Connection/Outcomes.antt =====
-- What follows from a call of StreamBuffer.cpp that returns.
use ibrdtn.Base.{
  ℕ, ◌≡◌, ◌≢◌, inl, inr, refl, sym, ap, ◌∙◌, Bool, true, false, List, [], ◌++◌, if◌then◌else◌, ok,
  err, read_bytes, subst, Bool-cases, Result-cases,
}
use ibrdtn.Base.{Error}
use ibrdtn.Segment.{StreamDataSegment, write_segment}
use ibrdtn.Connection.{
  Connection, Outcome, returned, stream_error, stream_shutdown, io_failure, exhausted, thrown,
  and_then, send, write_out,
}
use ibrdtn.Connection.Receive.{read_stream}

-- Where two calls in a row return, the first has returned what the second went on with.
pub and_then-returned :
    (r : Connection × Outcome) (next : Connection → Connection × Outcome) {c : Connection}
    → and_then r next ≡ (c, returned)
    → (d : Connection) × (r ≡ (d, returned)) × (next d ≡ (c, returned))
and_then-returned (d, returned) next e = (d, refl, e)
and_then-returned (d, stream_error) next e = absurd (other (ap (λ r. r.1) e))
  where
    other : stream_error ≢ returned
    other e = cc
and_then-returned (d, stream_shutdown) next e = cc
and_then-returned (d, io_failure) next e = cc
and_then-returned (d, exhausted) next e = cc
and_then-returned (d, thrown x) next e = cc

pub record SameState (c d : Connection) : Type 0 where
  pub reject : d.reject ≡ c.reject
  pub transferring : d.transferring ≡ c.transferring
  pub acks : d.ack_support ≡ c.ack_support
  pub nacks : d.nack_support ≡ c.nack_support
  pub size : d.recv_size ≡ c.recv_size

pub same_state : {c d e : Connection} → SameState c d → SameState d e → SameState c e
same_state s t = record {
  reject = t.reject ∙ s.reject;
  transferring = t.transferring ∙ s.transferring;
  acks = t.acks ∙ s.acks;
  nacks = t.nacks ∙ s.nacks;
  size = t.size ∙ s.size;
}

-- A segment that is sent stands behind what the stream had got before, and nothing else changes.
pub send-written :
    (c d : Connection) (seg : StreamDataSegment) (bytes : List ℕ)
    → send c seg bytes ≡ (d, returned)
    → (bs : List ℕ) × (write_segment seg ≡ ok bs)
      × (record c { outgoing = c.outgoing ++ (bs ++ bytes) } ≡ d)
unfolding send write_out
send-written c d seg bytes e = elim (Bool-cases c.good) [
  | inl g ↦ elim (Result-cases (write_segment seg)) [
    | inl (reason, w) ↦ absurd (other (ap (λ r. r.1) (sym (failing g w) ∙ e)))
    | inr (bs, w) ↦ (bs, w, ap (λ r. r.0) (sym (writing g w) ∙ e))
  ]
  | inr g ↦ absurd (bad (ap (λ r. r.1) (sym (going g) ∙ e)))
]
  where
    failing :
        {reason : Error}
        → c.good ≡ true
        → write_segment seg ≡ err reason
        → send c seg bytes ≡ (c, thrown reason)
    failing g w = simp (g, w)

    writing :
        {bs : List ℕ}
        → c.good ≡ true
        → write_segment seg ≡ ok bs
        → send c seg bytes ≡ (record c { outgoing = c.outgoing ++ (bs ++ bytes) }, returned)
    writing g w = simp (g, w)

    going : c.good ≡ false → send c seg bytes ≡ (c, stream_error)
    going g = simp g

    other : {reason : Error} → thrown reason ≢ returned
    other e = cc

    bad : stream_error ≢ returned
    bad e = cc

pub send-SameState :
    (c d : Connection) (seg : StreamDataSegment) (bytes : List ℕ)
    → send c seg bytes ≡ (d, returned)
    → SameState c d
send-SameState c d seg bytes e =
    let (bs, w, same) = send-written c d seg bytes e in
    subst (SameState c) same
      (record { reject = refl; transferring = refl; acks = refl; nacks = refl; size = refl })

pub read_stream-returned :
    (c d : Connection) (n : ℕ) (filled : List ℕ → Connection → Connection × Outcome)
    → read_stream c n filled ≡ (d, returned)
    → (bytes rest : List ℕ) × (filled bytes (record c { incoming = rest }) ≡ (d, returned))
unfolding read_stream
read_stream-returned c d n filled e = elim (Result-cases (read_bytes n c.incoming)) [
  | inl (reason, r) ↦ absurd (bad (ap (λ r. r.1) (sym (short r) ∙ e)))
  | inr (v, r) ↦ (v.0, v.1, sym (long r) ∙ e)
]
  where
    short :
        {reason : Error}
        → read_bytes n c.incoming ≡ err reason
        → read_stream c n filled
          ≡ (record c { good = false; incoming = []; transferring = false }, stream_error)
    short r = rw (read_stream, r) refl

    long :
        {v : List ℕ × List ℕ}
        → read_bytes n c.incoming ≡ ok v
        → read_stream c n filled ≡ filled v.0 (record c { incoming = v.1 })
    long r = rw (read_stream, r) refl

    bad : stream_error ≢ returned
    bad e = cc

pub send_if-SameState :
    (b : Bool) (c d : Connection) (seg : StreamDataSegment)
    → (if b then send c seg [] else (c, returned)) ≡ (d, returned)
    → SameState c d
send_if-SameState true c d seg e = send-SameState c d seg [] e
send_if-SameState false c d seg e =
    subst (SameState c) (ap (λ r. r.0) e)
      (record { reject = refl; transferring = refl; acks = refl; nacks = refl; size = refl })
