-- ===== src/Connection/Written.antt =====
-- What a receiver of StreamBuffer.cpp writes into the stream for a data segment.
use ibrdtn.Base.{
  ℕ, zero, suc, ◌-◌, ◌≡◌, inl, inr, refl, sym, ap, ◌∙◌, true, false, ◌&&◌, List, [], ◌++◌, arith,
  ltb, ◌==◌, ok, subst, Bool-cases,
}
use mathlib.Core.List.{append-nil}
use ibrdtn.Sdnv.{IsU64}
use ibrdtn.Segment.{
  StreamDataSegment, msg_ack_segment, msg_refuse_bundle, sized_segment, plain_segment,
  write_segment,
}
use ibrdtn.Connection.{Connection, Outcome, returned, and_then, send}
use ibrdtn.Connection.Receive.{
  read_stream, read_size, skip_loop, skip_data, refuse, answer, announce, on_data,
}
use ibrdtn.Connection.Ledger.{begins}
use ibrdtn.Connection.Outcomes.{and_then-returned, read_stream-returned, send-written}

-- Of two states of a connection, the second has written just one segment more.
pub record Writes (c d : Connection) (seg : StreamDataSegment) : Type 0 where
  pub bytes : List ℕ
  pub written : write_segment seg ≡ ok bytes
  pub outgoing : d.outgoing ≡ c.outgoing ++ bytes

send-Writes :
    (c d : Connection) (seg : StreamDataSegment) → send c seg [] ≡ (d, returned) → Writes c d seg
send-Writes c d seg e =
    let (bs, w, same) = send-written c d seg [] e in
    subst (λ d. Writes c d seg) same
      (record { bytes = bs; written = w; outgoing = ap (λ b. c.outgoing ++ b) (append-nil bs) })

skip_loop-outgoing :
    (n : ℕ) (c d : Connection) → skip_loop n c ≡ (d, returned) → d.outgoing ≡ c.outgoing
unfolding skip_loop
skip_loop-outgoing zero c d e = cc
skip_loop-outgoing (suc n) c d e = elim (Bool-cases (ltb 0 c.data_remain && c.good)) [
  | inl y ↦
      let next : List ℕ → Connection → Connection × Outcome =
        λ bytes c. skip_loop n (record c { data_remain = c.data_remain - read_size c }) in
      let opened : skip_loop (suc n) c ≡ read_stream c (read_size c) next = rw y refl in
      let (bytes, rest, f) = read_stream-returned c d (read_size c) next (sym opened ∙ e) in
      skip_loop-outgoing n (record c { incoming = rest; data_remain = c.data_remain - read_size c })
        d f
  | inr m ↦
      let opened : skip_loop (suc n) c ≡ (c, returned) = rw m refl in
      ap (λ r. r.0.outgoing) (sym e ∙ opened)
]

refuse_and_skip-Writes :
    (c d : Connection)
    → c.nack_support ≡ true
    → and_then (refuse c) skip_data ≡ (d, returned)
    → Writes c d (plain_segment msg_refuse_bundle)
unfolding refuse skip_data
refuse_and_skip-Writes c d n e =
    let (m, first, second) = and_then-returned (refuse c) skip_data e in
    let opened : refuse c ≡ send c (plain_segment msg_refuse_bundle) [] = simp n in
    let w = send-Writes c m (plain_segment msg_refuse_bundle) (sym opened ∙ first) in
    record {
      bytes = w.bytes;
      written = w.written;
      outgoing = skip_loop-outgoing (suc m.data_remain) m d second ∙ w.outgoing;
    }

announce-outgoing :
    (c : Connection) (seg : StreamDataSegment)
    → ((announce c seg).outgoing ≡ c.outgoing) × ((announce c seg).nack_support ≡ c.nack_support)
unfolding announce
announce-outgoing c seg = elim (Bool-cases (begins seg)) [
  | inl y ↦ rw y (refl, refl)
  | inr n ↦ rw n (refl, refl)
]

-- A segment that is rejected when it arrives is refused in the stream, if refusals are in use.
pub on_data-Writes :
    (c d : Connection) (seg : StreamDataSegment)
    → c.nack_support ≡ true
    → (announce c seg).reject ≡ true
    → on_data c seg ≡ (d, returned)
    → Writes c d (plain_segment msg_refuse_bundle)
unfolding on_data
on_data-Writes c d seg n y e =
    let a = announce-outgoing c seg in
    let opened : on_data c seg ≡ and_then (refuse (announce c seg)) skip_data = simp y in
    let w = refuse_and_skip-Writes (announce c seg) d (a.1 ∙ n) (sym opened ∙ e) in
    record {
      bytes = w.bytes;
      written = w.written;
      outgoing = w.outgoing ∙ ap (λ o. o ++ w.bytes) a.0;
    }

-- One that is not rejected is read first, and nothing is written for it.
pub on_data-silent :
    (c d : Connection) (seg : StreamDataSegment)
    → (announce c seg).reject ≡ false
    → on_data c seg ≡ (d, returned)
    → d.outgoing ≡ c.outgoing
unfolding on_data
on_data-silent c d seg n e =
    let opened : on_data c seg ≡ (record (announce c seg) { transferring = true }, returned) =
      simp n in
    ap (λ r. r.0.outgoing) (sym e ∙ opened) ∙ (announce-outgoing c seg).0

-- `underflow` writes a refusal for the segment that it reads, if the user rejects the bundle.
pub answer-refuses :
    (c d : Connection)
    → c.transferring ≡ true
    → c.reject ≡ true
    → c.nack_support ≡ true
    → answer c ≡ (d, returned)
    → Writes c d (plain_segment msg_refuse_bundle)
unfolding answer
answer-refuses c d t y n e =
    let idle : Connection → Connection × Outcome =
      λ c. (record c { transferring = false }, returned) in
    let opened : answer c ≡ and_then (and_then (refuse c) skip_data) idle = simp (t, y) in
    let (m, first, second) =
      and_then-returned (and_then (refuse c) skip_data) idle (sym opened ∙ e) in
    let w = refuse_and_skip-Writes c m n first in
    record {
      bytes = w.bytes;
      written = w.written;
      outgoing = ap (λ r. r.0.outgoing) (sym second) ∙ w.outgoing;
    }

-- It writes an acknowledgement of all bytes of the transfer so far, where it has read the segment.
pub answer-acks :
    (c d : Connection)
    → c.transferring ≡ true
    → c.reject ≡ false
    → c.ack_support ≡ true
    → c.data_remain ≡ 0
    → answer c ≡ (d, returned)
    → Writes c d (sized_segment msg_ack_segment c.recv_size)
unfolding answer
answer-acks c d t n k z e =
    let idle : Connection → Connection × Outcome =
      λ c. (record c { transferring = false }, returned) in
    let ack = send c (sized_segment msg_ack_segment c.recv_size) [] in
    let zero_left : (c.data_remain == 0) ≡ true = rw z refl in
    let opened : answer c ≡ and_then ack idle = simp (t, n, zero_left, k) in
    let (m, first, second) = and_then-returned ack idle (sym opened ∙ e) in
    let w = send-Writes c m (sized_segment msg_ack_segment c.recv_size) first in
    record {
      bytes = w.bytes;
      written = w.written;
      outgoing = ap (λ r. r.0.outgoing) (sym second) ∙ w.outgoing;
    }

-- The size of a transfer is a 64-bit number from its first segment on.
pub announce-IsU64 :
    (c : Connection) (seg : StreamDataSegment) → IsU64 seg.value → IsU64 (announce c seg).recv_size
unfolding announce
announce-IsU64 c seg v = elim (Bool-cases (begins seg)) [
  | inl y ↦ rw y v
  | inr n ↦ rw n (omega arith)
]
