-- ===== src/Connection/Sending.antt =====
-- What a connection of StreamBuffer.cpp sends over a stream that is good.
use ibrdtn.Base.{
  ℕ, ◌<◌, ◌≡◌, inl, inr, refl, ap, ◌∙◌, Bool, true, false, Option, none, some, List, [], ◌∷◌, ◌++◌,
  arith, length, ◌==◌, Bool-cases,
}
use ibrdtn.Eid.{is_empty}
use ibrdtn.Flags.{has_flag, set_flag}
use ibrdtn.Sdnv.{IsU64}
use ibrdtn.Segment.{StreamDataSegment, msg_ack_segment, sized_segment}
use ibrdtn.Segment.RoundTrip.{IsNamed, read-write_segment}
use ibrdtn.Connection.{
  Connection, Outcome, returned, and_then, notify, send, write_out, mark, data_segment, data_flags,
  enqueue, overflow, overflow_caught,
}
use ibrdtn.Connection.Receive.{answer}

pub send-returned :
    (c : Connection) (seg : StreamDataSegment) (bytes : List ℕ)
    → c.good ≡ true
    → IsNamed seg.type
    → seg.flags < 16
    → IsU64 seg.value
    → seg.reason < 128
    → (out : List ℕ) × (send c seg bytes ≡ (record c { outgoing = out }, returned))
unfolding send write_out
send-returned c seg bytes g n f v r =
    let (bs, w, back) = read-write_segment seg seg [] n f v r in
    (c.outgoing ++ (bs ++ bytes), simp (g, w))

good_kept :
    (c : Connection) (ch : Option ℕ) (seg : StreamDataSegment)
    → (enqueue (mark c ch) seg).good ≡ c.good
unfolding enqueue mark notify
good_kept c ch seg = ground arith

pub flags_small : (sob : Bool) (ch : Option ℕ) → data_flags sob ch < 16
unfolding data_flags set_flag has_flag
flags_small true none = omega arith
flags_small true (some b) = omega arith
flags_small false none = omega arith
flags_small false (some b) = omega arith

pub overflow_returns :
    (c : Connection) (ch : Option ℕ)
    → c.good ≡ true
    → IsU64 (length (c.out_buf ++ elim ch [ none ↦ [] | some b ↦ b ∷ [] ]))
    → (overflow c ch).1 ≡ returned
unfolding overflow overflow_caught data_segment sized_segment
overflow_returns c ch g v =
    let bytes = c.out_buf ++ elim ch [ none ↦ [] | some b ↦ b ∷ [] ] in
    let empty : Connection = record c { out_buf = [] } in
    elim (Bool-cases (is_empty bytes)) [
      | inl y ↦ rw y refl
      | inr n ↦ elim (Bool-cases (mark empty ch).skip) [
        | inl s ↦ rw (n, s) refl
        | inr go ↦
            let seg = data_segment c.sob ch bytes in
            let (out, w) =
              send-returned (enqueue (mark empty ch) seg) seg bytes (good_kept empty ch seg ∙ g) tt
                (flags_small c.sob ch) v (omega arith) in
            let opened : overflow c ch
                ≡ overflow_caught (send (enqueue (mark empty ch) seg) seg bytes) =
              rw (n, go) refl in
            ap (λ r. r.1) (opened ∙ ap overflow_caught w)
      ]
    ]

pub answer_returns :
    (c : Connection)
    → c.good ≡ true
    → c.transferring ≡ true
    → c.reject ≡ false
    → c.data_remain ≡ 0
    → IsU64 c.recv_size
    → ((answer c).1 ≡ returned) × ((answer c).0.transferring ≡ false)
unfolding answer sized_segment
answer_returns c g t r z v =
    let (out, w) =
      send-returned c (sized_segment msg_ack_segment c.recv_size) [] g tt (omega arith) v
        (omega arith) in
    let idle : Connection × Outcome → Connection × Outcome =
      λ r. and_then r (λ c. (record c { transferring = false }, returned)) in
    let zero_left : (c.data_remain == 0) ≡ true = rw z refl in
    elim (Bool-cases c.ack_support) [
      | inl y ↦
          let opened : answer c ≡ idle (send c (sized_segment msg_ack_segment c.recv_size) []) =
            simp (t, r, zero_left, y) in
          let done = opened ∙ ap idle w in (ap (λ r. r.1) done, ap (λ r. r.0.transferring) done)
      | inr n ↦
          let opened : answer c ≡ idle (c, returned) = simp (t, r, zero_left, n) in
          (ap (λ r. r.1) opened, ap (λ r. r.0.transferring) opened)
    ]
