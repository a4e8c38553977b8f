-- ===== src/Connection/Kept.antt =====
-- What the calls of a receiver of StreamBuffer.cpp leave as it was.
use ibrdtn.Base.{
  ℕ, zero, suc, ◌-◌, ◌≡◌, ◌≢◌, inl, inr, refl, sym, ap, ◌∙◌, true, false, not, ◌&&◌, ◌||◌, List, [],
  arith, ltb, ◌==◌, if◌then◌else◌, subst, Bool-cases,
}
use ibrdtn.Segment.{
  StreamDataSegment, msg_ack_segment, msg_refuse_bundle, sized_segment, plain_segment,
}
use ibrdtn.Connection.{Connection, Outcome, returned, stream_error, and_then, send}
use ibrdtn.Connection.Receive.{
  read_stream, read_size, skip_loop, skip_data, refuse, answer, announce, on_data, fill,
}
use ibrdtn.Connection.Ledger.{begins}
use ibrdtn.Connection.Outcomes.{
  and_then-returned, SameState, same_state, read_stream-returned, send_if-SameState,
}

skip_loop-SameState : (n : ℕ) (c d : Connection) → skip_loop n c ≡ (d, returned) → SameState c d
unfolding skip_loop
skip_loop-SameState zero c d e = cc
skip_loop-SameState (suc n) c d e = elim (Bool-cases (ltb 0 c.data_remain && c.good)) [
  | inl y ↦
      let next : List ℕ → Connection → Connection × Outcome =
        λ bytes c. skip_loop n (record c { data_remain = c.data_remain - read_size c }) in
      let opened : skip_loop (suc n) c ≡ read_stream c (read_size c) next = rw y refl in
      let (bytes, rest, f) = read_stream-returned c d (read_size c) next (sym opened ∙ e) in
      let later =
        skip_loop-SameState n
          (record c { incoming = rest; data_remain = c.data_remain - read_size c }) d f in
      record {
        reject = later.reject;
        transferring = later.transferring;
        acks = later.acks;
        nacks = later.nacks;
        size = later.size;
      }
  | inr m ↦
      let opened : skip_loop (suc n) c ≡ (c, returned) = rw m refl in
      subst (SameState c) (ap (λ r. r.0) (sym opened ∙ e))
        (record { reject = refl; transferring = refl; acks = refl; nacks = refl; size = refl })
]

refuse-SameState : (c d : Connection) → refuse c ≡ (d, returned) → SameState c d
unfolding refuse
refuse-SameState c d e = send_if-SameState c.nack_support c d (plain_segment msg_refuse_bundle) e

refuse_and_skip-SameState :
    (c d : Connection) → and_then (refuse c) skip_data ≡ (d, returned) → SameState c d
unfolding skip_data
refuse_and_skip-SameState c d e =
    let (m, first, second) = and_then-returned (refuse c) skip_data e in
    same_state (refuse-SameState c m first) (skip_loop-SameState (suc m.data_remain) m d second)

-- What becomes of a data segment: it is rejected and answered, or its bytes can be read.
pub record Taken (c d : Connection) (seg : StreamDataSegment) : Type 0 where
  pub reject : d.reject ≡ (not (begins seg) && c.reject)
  pub transferring : d.transferring ≡ (not d.reject || c.transferring)
  pub acks : d.ack_support ≡ c.ack_support
  pub nacks : d.nack_support ≡ c.nack_support
  pub announced : d.reject ≡ (announce c seg).reject
  pub size : d.recv_size ≡ (announce c seg).recv_size

announce-Announced :
    (c : Connection) (seg : StreamDataSegment)
    → ((announce c seg).reject ≡ (not (begins seg) && c.reject))
      × ((announce c seg).transferring ≡ c.transferring)
      × ((announce c seg).ack_support ≡ c.ack_support)
      × ((announce c seg).nack_support ≡ c.nack_support)
unfolding announce
announce-Announced c seg = elim (Bool-cases (begins seg)) [
  | inl y ↦ rw y (refl, refl, refl, refl)
  | inr n ↦ rw n (refl, refl, refl, refl)
]

pub on_data-Taken :
    (c d : Connection) (seg : StreamDataSegment) → on_data c seg ≡ (d, returned) → Taken c d seg
unfolding on_data
on_data-Taken c d seg e =
    let a = announce-Announced c seg in
    elim (Bool-cases (announce c seg).reject) [
      | inl y ↦
          let opened : on_data c seg ≡ and_then (refuse (announce c seg)) skip_data = simp y in
          let s = refuse_and_skip-SameState (announce c seg) d (sym opened ∙ e) in
          record {
            reject = s.reject ∙ a.0;
            transferring = rw (s.reject, y) (s.transferring ∙ a.1);
            acks = s.acks ∙ a.2;
            nacks = s.nacks ∙ a.3;
            announced = s.reject;
            size = s.size;
          }
      | inr n ↦
          let opened : on_data c seg ≡ (record (announce c seg) { transferring = true }, returned) =
            simp n in
          subst (λ d. Taken c d seg) (ap (λ r. r.0) (sym opened ∙ e))
            (record {
              reject = a.0;
              transferring = rw n refl;
              acks = a.2;
              nacks = a.3;
              announced = refl;
              size = refl;
            })
    ]

-- The answer to a segment is a refusal, or the segment is read to its end.
pub record Answered (c d : Connection) : Type 0 where
  pub reject : d.reject ≡ c.reject
  pub acks : d.ack_support ≡ c.ack_support
  pub nacks : d.nack_support ≡ c.nack_support
  pub complete : c.reject ≡ false → c.data_remain ≡ 0

pub answer-Answered :
    (c d : Connection)
    → c.transferring ≡ true
    → answer c ≡ (d, returned)
    → d.transferring ≡ false
    → Answered c d
unfolding answer
answer-Answered c d t e f = elim (Bool-cases c.reject) [
  | inl y ↦
      let opened : answer c
          ≡ and_then (and_then (refuse c) skip_data)
              (λ c. (record c { transferring = false }, returned)) =
        simp (t, y) in
      let (m, first, second) =
        and_then-returned (and_then (refuse c) skip_data)
          (λ c. (record c { transferring = false }, returned)) (sym opened ∙ e) in
      let s = refuse_and_skip-SameState c m first in
      subst (Answered c) (ap (λ r. r.0) second)
        (record { reject = s.reject; acks = s.acks; nacks = s.nacks; complete = λ r. cc })
  | inr n ↦ elim (Bool-cases (c.data_remain == 0)) [
    | inl z ↦
        let ack : Connection × Outcome =
          if c.ack_support
          then send c (sized_segment msg_ack_segment c.recv_size) []
          else (c, returned) in
        let opened : answer c ≡ and_then ack (λ c. (record c { transferring = false }, returned)) =
          simp (t, n, z) in
        let (m, first, second) =
          and_then-returned ack (λ c. (record c { transferring = false }, returned))
            (sym opened ∙ e) in
        let s =
          send_if-SameState c.ack_support c m (sized_segment msg_ack_segment c.recv_size) first in
        subst (Answered c) (ap (λ r. r.0) second) (record {
          reject = s.reject;
          acks = s.acks;
          nacks = s.nacks;
          complete = λ r. zero_of c.data_remain z;
        })
    | inr m ↦
        let opened : answer c ≡ (c, returned) = simp (t, n, m) in
        absurd (on (sym t ∙ (ap (λ r. r.0.transferring) (sym opened ∙ e) ∙ f)))
  ]
]
  where
    on : true ≢ false
    on e = cc

    zero_of : (n : ℕ) → (n == 0) ≡ true → n ≡ 0
    zero_of n e = ground arith

pub fill-SameState : (c d : Connection) → fill c ≡ (d, returned) → SameState c d
unfolding fill
fill-SameState c d e = elim (Bool-cases c.good) [
  | inl g ↦
      let filled : List ℕ → Connection → Connection × Outcome = λ bytes c.
        (record c { data_remain = c.data_remain - read_size c; in_buf = bytes }, returned) in
      let opened : fill c ≡ read_stream c (read_size c) filled = simp g in
      let (bytes, rest, f) = read_stream-returned c d (read_size c) filled (sym opened ∙ e) in
      subst (SameState c) (ap (λ r. r.0) f)
        (record { reject = refl; transferring = refl; acks = refl; nacks = refl; size = refl })
  | inr b ↦
      let opened : fill c ≡ (c, stream_error) = simp b in
      absurd (bad (ap (λ r. r.1) (sym opened ∙ e)))
]
  where
    bad : stream_error ≢ returned
    bad e = cc
