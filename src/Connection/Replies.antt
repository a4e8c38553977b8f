-- ===== src/Connection/Replies.antt =====
-- The answers of a receiver of StreamBuffer.cpp, as they are read from the bytes that it writes.
use ibrdtn.Base.{
  ℕ, zero, suc, ◌≤◌, ◌<◌, ◌≡◌, inl, inr, refl, sym, ap, ◌∙◌, true, false, List, [], ◌∷◌, ◌++◌,
  arith, length, ok, map, Result-cases,
}
use mathlib.Core.List.{append-nil}
use ibrdtn.Sdnv.{IsU64}
use ibrdtn.Segment.{
  StreamDataSegment, msg_ack_segment, msg_refuse_bundle, msg_keepalive, sized_segment,
  plain_segment, read_segment,
}
use ibrdtn.Segment.RoundTrip.{IsNamed, received, read-write_segment, read_segment-shorter}
use ibrdtn.Connection.{Connection, returned}
use ibrdtn.Connection.Receive.{answer, announce, on_data}
use ibrdtn.Connection.Expected.{acks, refuses}
use ibrdtn.Connection.Wire.{behind, appended, answer_as, read_answers, reply}
use ibrdtn.Connection.Written.{Writes, on_data-Writes, on_data-silent, answer-refuses, answer-acks}

pub behind-append : (bs more : List ℕ) → behind (length bs) (bs ++ more) ≡ more
unfolding behind
behind-append [] more = refl
behind-append (b ∷ bs) more = behind-append bs more

read_answers-nil : (n : ℕ) → read_answers n [] ≡ []
unfolding read_answers
read_answers-nil zero = refl
read_answers-nil (suc n) = elim (Result-cases (read_segment (plain_segment msg_keepalive) [])) [
  | inl (reason, e) ↦ rw (read_answers, e) refl
  | inr (v, e) ↦
      absurd (omega (arith, read_segment-shorter (plain_segment msg_keepalive) v.0 [] v.1 e))
]

-- Bytes that are one segment.
read_answers-one :
    (n : ℕ) (bs : List ℕ) (r : StreamDataSegment)
    → read_segment (plain_segment msg_keepalive) bs ≡ ok (r, [])
    → length bs ≤ n
    → read_answers n bs ≡ answer_as r.type r.value
unfolding read_answers
read_answers-one zero bs r e h =
    absurd (omega (arith, read_segment-shorter (plain_segment msg_keepalive) r bs [] e))
read_answers-one (suc n) bs r e h =
    rw (read_answers, e) (rw (read_answers-nil n) (append-nil (answer_as r.type r.value)))

-- A call that writes one segment answers with what the sender makes of that segment.
reply-Writes :
    (c d : Connection) (seg w : StreamDataSegment)
    → IsNamed w.type
    → w.flags < 16
    → IsU64 w.value
    → w.reason < 128
    → Writes c d w
    → reply c d seg
      ≡ map
          (λ a. (seg, a))
          (answer_as
            (received (plain_segment msg_keepalive) w w.type).type
            (received (plain_segment msg_keepalive) w w.type).value)
unfolding reply appended
reply-Writes c d seg w n f v r k =
    let old = plain_segment msg_keepalive in
    let (bs, written, back) = read-write_segment old w [] n f v r in
    let same : bs ≡ k.bytes = cc (written, k.written) in
    let out : behind (length c.outgoing) d.outgoing ≡ k.bytes =
      ap (behind (length c.outgoing)) k.outgoing ∙ behind-append c.outgoing k.bytes in
    let read : read_segment old k.bytes ≡ ok (received old w w.type, []) =
      ap (read_segment old) (sym (append-nil bs ∙ same)) ∙ back in
    rw out (
      ap (map (λ a. (seg, a)))
        (read_answers-one (length k.bytes) k.bytes (received old w w.type) read (omega arith)))

reply-refusal :
    (c d : Connection) (seg : StreamDataSegment)
    → Writes c d (plain_segment msg_refuse_bundle)
    → reply c d seg ≡ (seg, refuses) ∷ []
unfolding plain_segment received answer_as
reply-refusal c d seg k =
    reply-Writes c d seg (plain_segment msg_refuse_bundle) tt (omega arith) (omega arith)
      (omega arith) k

reply-ack :
    (c d : Connection) (seg : StreamDataSegment) (size : ℕ)
    → IsU64 size
    → Writes c d (sized_segment msg_ack_segment size)
    → reply c d seg ≡ (seg, acks size) ∷ []
unfolding sized_segment received answer_as
reply-ack c d seg size v k =
    reply-Writes c d seg (sized_segment msg_ack_segment size) tt (omega arith) v (omega arith) k

-- What the sender reads when a segment has arrived: a refusal, or nothing.
pub on_data-refusal :
    (c d : Connection) (seg : StreamDataSegment)
    → c.nack_support ≡ true
    → (announce c seg).reject ≡ true
    → on_data c seg ≡ (d, returned)
    → reply c d seg ≡ (seg, refuses) ∷ []
on_data-refusal c d seg n y e = reply-refusal c d seg (on_data-Writes c d seg n y e)

pub on_data-no_reply :
    (c d : Connection) (seg : StreamDataSegment)
    → (announce c seg).reject ≡ false
    → on_data c seg ≡ (d, returned)
    → reply c d seg ≡ []
unfolding reply appended
on_data-no_reply c d seg n e =
    let nothing : behind (length c.outgoing) d.outgoing ≡ [] =
      ap (behind (length c.outgoing)) (on_data-silent c d seg n e ∙ sym (append-nil c.outgoing))
      ∙ behind-append c.outgoing [] in
    rw nothing refl

-- What it reads when the receiver has come to the end of a segment, or has rejected it.
pub answer-refusal :
    (c d : Connection) (seg : StreamDataSegment)
    → c.transferring ≡ true
    → c.reject ≡ true
    → c.nack_support ≡ true
    → answer c ≡ (d, returned)
    → reply c d seg ≡ (seg, refuses) ∷ []
answer-refusal c d seg t y n e = reply-refusal c d seg (answer-refuses c d t y n e)

pub answer-ack :
    (c d : Connection) (seg : StreamDataSegment)
    → c.transferring ≡ true
    → c.reject ≡ false
    → c.ack_support ≡ true
    → c.data_remain ≡ 0
    → IsU64 c.recv_size
    → answer c ≡ (d, returned)
    → reply c d seg ≡ (seg, acks c.recv_size) ∷ []
answer-ack c d seg t n k z v e = reply-ack c d seg c.recv_size v (answer-acks c d t n k z e)
