-- ===== src/Connection/Transmitted.antt =====
-- The segments of a sender of StreamBuffer.cpp, as they are read from the bytes that it writes.
use ibrdtn.Base.{
  ℕ, zero, suc, ◌≤◌, ◌≡◌, inl, inr, refl, sym, ap, ◌∙◌, Option, none, some, List, [], ◌∷◌, ◌++◌,
  arith, length, ok, Result-cases, Bool-cases,
}
use mathlib.Core.List.{append-nil}
use ibrdtn.Eid.{is_empty}
use ibrdtn.Sdnv.{IsU64}
use ibrdtn.Segment.{
  StreamDataSegment, msg_data_segment, msg_keepalive, sized_segment, plain_segment, read_segment,
}
use ibrdtn.Segment.RoundTrip.{received, read-write_segment, read_segment-shorter}
use ibrdtn.Connection.{
  Connection, Outcome, returned, stream_error, stream_shutdown, io_failure, exhausted, thrown, send,
  mark, notify, data_segment, enqueue, overflow, overflow_caught,
}
use ibrdtn.Connection.Ledger.{cut}
use ibrdtn.Connection.Outcomes.{send-written}
use ibrdtn.Connection.Sending.{flags_small}
use ibrdtn.Connection.Replies.{behind-append}
use ibrdtn.Connection.Wire.{behind, appended, is_data, read_data, transmitted, buffered}

read_data-nil : (n : ℕ) → read_data n [] ≡ []
unfolding read_data
read_data-nil zero = refl
read_data-nil (suc n) = elim (Result-cases (read_segment (plain_segment msg_keepalive) [])) [
  | inl (reason, e) ↦ rw (read_data, e) refl
  | inr (v, e) ↦
      absurd (omega (arith, read_segment-shorter (plain_segment msg_keepalive) v.0 [] v.1 e))
]

-- Bytes that are one segment and its data.
read_data-one :
    (n : ℕ) (bs bytes : List ℕ) (r : StreamDataSegment)
    → read_segment (plain_segment msg_keepalive) bs ≡ ok (r, bytes)
    → r.type ≡ msg_data_segment
    → r.value ≡ length bytes
    → length bs ≤ n
    → read_data n bs ≡ r ∷ []
unfolding read_data is_data
read_data-one zero bs bytes r e t v h =
    absurd (omega (arith, read_segment-shorter (plain_segment msg_keepalive) r bs bytes e))
read_data-one (suc n) bs bytes r e t v h =
    let all : behind (length bytes) bytes ≡ [] =
      ap (behind (length bytes)) (sym (append-nil bytes)) ∙ behind-append bytes [] in
    rw (read_data, e) (simp (t, v, all, read_data-nil n))

silent : (c d : Connection) → d.outgoing ≡ c.outgoing → transmitted c d ≡ []
unfolding transmitted appended
silent c d e =
    let nothing : behind (length c.outgoing) d.outgoing ≡ [] =
      ap (behind (length c.outgoing)) (e ∙ sym (append-nil c.outgoing))
      ∙ behind-append c.outgoing [] in
    rw nothing refl

caught_returned :
    (r : Connection × Outcome) (d : Connection)
    → overflow_caught r ≡ (d, returned)
    → r ≡ (d, returned)
unfolding overflow_caught
caught_returned (c, returned) d e = e
caught_returned (c, stream_error) d e = cc
caught_returned (c, stream_shutdown) d e = cc
caught_returned (c, io_failure) d e = cc
caught_returned (c, exhausted) d e = cc
caught_returned (c, thrown x) d e = cc

mark-outgoing : (c : Connection) (ch : Option ℕ) → (mark c ch).outgoing ≡ c.outgoing
unfolding mark
mark-outgoing c ch = ground arith

enqueue-outgoing :
    (c : Connection) (seg : StreamDataSegment) → (enqueue c seg).outgoing ≡ c.outgoing
unfolding enqueue notify
enqueue-outgoing c seg = ground arith

-- A data segment that is sent with its data is the one that the peer reads.
sent_segment :
    (c e d : Connection) (ch : Option ℕ) (bytes : List ℕ)
    → IsU64 (length bytes)
    → e.outgoing ≡ c.outgoing
    → send e (data_segment c.sob ch bytes) bytes ≡ (d, returned)
    → transmitted c d ≡ data_segment c.sob ch bytes ∷ []
unfolding transmitted appended data_segment sized_segment received plain_segment
sent_segment c e d ch bytes v o s =
    let seg = data_segment c.sob ch bytes in
    let old = plain_segment msg_keepalive in
    let (bs, written, same) = send-written e d seg bytes s in
    let (bs', written', back) =
      read-write_segment old seg bytes tt (flags_small c.sob ch) v (omega arith) in
    let one : bs' ≡ bs = cc (written, written') in
    let read : read_segment old (bs ++ bytes) ≡ ok (seg, bytes) =
      ap (λ b. read_segment old (b ++ bytes)) (sym one) ∙ back in
    let out : behind (length c.outgoing) d.outgoing ≡ bs ++ bytes =
      ap (behind (length c.outgoing))
        (ap (λ d. d.outgoing) (sym same) ∙ ap (λ x. x ++ (bs ++ bytes)) o)
      ∙ behind-append c.outgoing (bs ++ bytes) in
    rw out
      (read_data-one (length (bs ++ bytes)) (bs ++ bytes) bytes seg read refl refl (omega arith))

-- What `overflow` writes is what it puts into the queue.
pub overflow-transmitted :
    (c d : Connection) (ch : Option ℕ)
    → IsU64 (buffered c ch)
    → overflow c ch ≡ (d, returned)
    → transmitted c d ≡ cut c ch
unfolding overflow cut
overflow-transmitted c d ch v e =
    let bytes = c.out_buf ++ elim ch [ none ↦ [] | some b ↦ b ∷ [] ] in
    let empty : Connection = record c { out_buf = [] } in
    elim (Bool-cases (is_empty bytes)) [
      | inl em ↦
          let run : overflow c ch ≡ (empty, returned) = rw em refl in
          rw em (silent c d (ap (λ r. r.0.outgoing) (sym e ∙ run)))
      | inr ne ↦ elim (Bool-cases (mark empty ch).skip) [
        | inl sk ↦
            let run : overflow c ch ≡ (mark empty ch, returned) = rw (ne, sk) refl in
            rw (ne, sk) (silent c d (ap (λ r. r.0.outgoing) (sym e ∙ run) ∙ mark-outgoing empty ch))
        | inr go ↦
            let seg = data_segment c.sob ch bytes in
            let marked = enqueue (mark empty ch) seg in
            let run : overflow c ch ≡ overflow_caught (send marked seg bytes) = rw (ne, go) refl in
            rw (ne, go)
              (sent_segment c marked d ch bytes v
                (enqueue-outgoing (mark empty ch) seg ∙ mark-outgoing empty ch)
                (caught_returned (send marked seg bytes) d (sym run ∙ e)))
      ]
    ]
