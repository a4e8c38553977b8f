-- ===== src/Datagram/Segments.antt =====
-- The datagrams of a sender, and what a receiver that is in step makes of them:
-- DatagramConnection.cpp.
use ibrdtn.Base.{
  ℕ, ◌+◌, ◌%◌, ◌<◌, ◌≡◌, ◌≢◌, ◌⊎◌, inl, inr, refl, sym, ap, true, false, Option, none, some, List,
  [], ◌∷◌, ◌++◌, arith, length,
}
use mathlib.Core.List.{append_assoc, append-nil}
use ibrdtn.Eid.{is_empty}
use ibrdtn.Flags.{has_flag, set_flag}
use ibrdtn.Datagram.{
  Stream, Datagram, segment_first, segment_middle, segment_last, queue, queue_all, joined, Verdict,
  accepted, dropped, thrown,
}

-- A sender and a receiver that have seen the same datagrams.
pub record InStep (s r : Stream) : Type 0 where
  pub seqno : r.in_seq_num ≡ s.out_seq_num
  pub state : r.in_state ≡ s.out_state
  pub first_or_middle : (s.out_state ≡ segment_first) ⊎ (s.out_state ≡ segment_middle)
  pub modulus : r.maxseqno ≡ s.maxseqno
  pub sender_up : s.abort ≡ false
  pub receiver_up : r.abort ≡ false

-- Between two messages.
pub record AtStart (s r : Stream) : Type 0 where
  pub in_step : InStep s r
  pub first : s.out_state ≡ segment_first
  pub empty : s.out_buf ≡ []
  pub size : 0 < s.buf_size

joined-eq_some :
    (v : Verdict) (b bs : List ℕ) (rest : Option (Stream × List ℕ)) (r : Stream)
    → joined v b rest ≡ some (r, bs)
    → (bs' : List ℕ) × (v ≡ accepted) × (rest ≡ some (r, bs')) × (bs ≡ b ++ bs')
unfolding joined
joined-eq_some accepted b bs none r h = cc
joined-eq_some accepted b bs (some (s, more)) r h = (more, refl, cc, cc)
joined-eq_some dropped b bs rest r h = cc
joined-eq_some thrown b bs rest r h = cc

pub queue_all-append :
    (r r' r'' : Stream) (xs ys : List Datagram) (bs cs : List ℕ)
    → queue_all r xs ≡ some (r', bs)
    → queue_all r' ys ≡ some (r'', cs)
    → queue_all r (xs ++ ys) ≡ some (r'', bs ++ cs)
unfolding queue_all
queue_all-append r r' r'' [] ys bs cs h k = cc
queue_all-append r r' r'' (x ∷ xs) ys bs cs h k =
    let (bs', v, rest, e) =
      joined-eq_some (queue r x).1 x.bytes bs (queue_all (queue r x).0 xs) r' h in
    rw (v, queue_all-append (queue r x).0 r' r'' xs ys bs' cs rest k)
      (unfold joined in rw e (ap (λ b. some (r'', b)) (sym (append_assoc x.bytes bs' cs))))

-- The receiver takes in a datagram with the state and the number of the sender.
pub queue-InStep :
    (s r : Stream) (d : Datagram)
    → InStep s r
    → d.seqno ≡ s.out_seq_num
    → d.flags ≡ s.out_state
    → queue r d ≡ (
      record r { in_state = segment_middle; in_seq_num = (r.in_seq_num + 1) % r.maxseqno },
      accepted,
    )
unfolding queue has_flag
queue-InStep s r d h n f = elim h.first_or_middle [ inl e ↦ ground arith | inr e ↦ ground arith ]

-- Also where it is marked as the last one.
pub queue_last-InStep :
    (s r : Stream) (d : Datagram)
    → InStep s r
    → d.seqno ≡ s.out_seq_num
    → d.flags ≡ set_flag s.out_state segment_last
    → queue r d ≡ (
      record r { in_state = segment_first; in_seq_num = (r.in_seq_num + 1) % r.maxseqno },
      accepted,
    )
unfolding queue has_flag set_flag
queue_last-InStep s r d h n f = elim h.first_or_middle [
  | inl e ↦ ground arith
  | inr e ↦ ground arith
]

-- The datagram that the sender makes next.
abbrev pub next_datagram : Stream → ℕ → List ℕ → Datagram
next_datagram s flags bytes = record { flags = flags; seqno = s.out_seq_num; bytes = bytes }

pub queue_one :
    (r : Stream) (d : Datagram) (r' : Stream)
    → queue r d ≡ (r', accepted)
    → queue_all r (d ∷ []) ≡ some (r', d.bytes)
unfolding queue_all
queue_one r d r' e = rw (queue_all, e) (ap (λ b. some (r', b)) (append-nil d.bytes))

pub filled_some : (xs : List ℕ) → length xs ≢ 0 → is_empty xs ≡ false
filled_some [] h = absurd (h refl)
filled_some (x ∷ xs) h = refl

pub refused :
    (s r : Stream)
    → InStep s r
    → s.out_state ≡ segment_middle
    → (bytes : List ℕ)
    → queue r (next_datagram s segment_first bytes) ≡ (record r { abort = true }, dropped)
unfolding queue has_flag
refused s r h e bytes = ground arith
