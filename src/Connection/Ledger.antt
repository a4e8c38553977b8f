-- ===== src/Connection/Ledger.antt =====
-- The two queues of a sender of StreamBuffer.cpp: which answers its segments wait for.
use ibrdtn.Base.{
  ℕ, ◌≡◌, ◌≢◌, ◌⊎◌, inl, inr, refl, sym, ap, ◌∙◌, Bool, true, false, ◌||◌, Option, none, some, List,
  [], ◌∷◌, ◌++◌, arith, if◌then◌else◌, subst, Bool-cases, Result-cases,
}
use mathlib.Core.List.{append-nil}
use ibrdtn.Eid.{is_empty}
use ibrdtn.Flags.{has_flag, set_flag}
use ibrdtn.Segment.{StreamDataSegment, write_segment}
use ibrdtn.Connection.{
  Connection, returned, send, write_out, mark_begin, mark_end, mark, data_segment, data_flags,
  enqueue, overflow, overflow_caught,
}

abbrev pub begins : StreamDataSegment → Bool
begins seg = has_flag seg.flags mark_begin

abbrev pub ends : StreamDataSegment → Bool
ends seg = has_flag seg.flags mark_end

-- The segments that a call of `overflow` sends.
unfoldable pub cut : Connection → Option ℕ → List StreamDataSegment
cut c ch =
    let bytes = c.out_buf ++ elim ch [ none ↦ [] | some b ↦ b ∷ [] ] in
    if is_empty bytes
    then []
    else if (mark (record c { out_buf = [] }) ch).skip
    then []
    else data_segment c.sob ch bytes ∷ []

-- The next segment that is sent starts a transfer, or the first one that waits does.
unfoldable pub starts_new : Connection → Bool
starts_new c = elim c.segments [ [] ↦ c.sob || c.skip | seg ∷ segs ↦ begins seg ]

pub record Grows (c c' : Connection) (more : List StreamDataSegment) : Type 0 where
  pub segments : c'.segments ≡ c.segments ++ more
  pub others : c'.rejected_segments ≡ c.rejected_segments
  pub events : c'.events ≡ c.events
  pub acks : c'.ack_support ≡ c.ack_support
  pub nacks : c'.nack_support ≡ c.nack_support
  pub starts : starts_new c ≡ true → starts_new c' ≡ true

written :
    (c : Connection) (seg : StreamDataSegment) (bytes : List ℕ)
    → ((out : List ℕ) × (overflow_caught (send c seg bytes)
          ≡ (record c { outgoing = out }, returned)))
      ⊎ ((overflow_caught (send c seg bytes)).1 ≢ returned)
unfolding overflow_caught send write_out
written c seg bytes = elim (Bool-cases c.good) [
  | inl g ↦ elim (Result-cases (write_segment seg)) [
    | inl (reason, w) ↦ inr (rw (g, w) (λ e. cc))
    | inr (bs, w) ↦ inl (c.outgoing ++ (bs ++ bytes), simp (g, w))
  ]
  | inr g ↦ inr (rw g (λ e. cc))
]

sent_lem :
    (c c' : Connection) (seg : StreamDataSegment) (bytes : List ℕ)
    → overflow_caught (send c seg bytes) ≡ (c', returned)
    → (out : List ℕ) × (c' ≡ record c { outgoing = out })
sent_lem c c' seg bytes e = elim (written c seg bytes) [
  | inl (out, w) ↦ (out, ap (λ r. r.0) (sym e ∙ w))
  | inr n ↦ absurd (n (ap (λ r. r.1) e))
]

marked_starts :
    (c : Connection) (ch : Option ℕ) (bytes : List ℕ)
    → (mark c ch).skip ≡ false
    → starts_new c ≡ true
    → starts_new (record (mark c ch) {
      segments = (mark c ch).segments ++ (data_segment c.sob ch bytes ∷ []);
    })
      ≡ true
unfolding mark starts_new data_segment data_flags set_flag has_flag
marked_starts c ch bytes s n = ground arith

skipped_starts :
    (c : Connection) (ch : Option ℕ)
    → (mark c ch).skip ≡ true
    → starts_new c ≡ true
    → starts_new (mark c ch) ≡ true
unfolding mark starts_new
skipped_starts c ch s n = ground arith

record SameQueues (c d : Connection) : Type 0 where
  segments : d.segments ≡ c.segments
  others : d.rejected_segments ≡ c.rejected_segments
  events : d.events ≡ c.events
  acks : d.ack_support ≡ c.ack_support
  nacks : d.nack_support ≡ c.nack_support

mark-SameQueues : (c : Connection) (ch : Option ℕ) → SameQueues c (mark c ch)
unfolding mark
mark-SameQueues c ch = record {
  segments = ground arith;
  others = ground arith;
  events = ground arith;
  acks = ground arith;
  nacks = ground arith;
}

enqueue-eq :
    (c : Connection) (seg : StreamDataSegment)
    → c.ack_support ≡ true
    → enqueue c seg ≡ record c { segments = c.segments ++ (seg ∷ []) }
unfolding enqueue
enqueue-eq c seg acks = simp acks

pub overflow-Grows :
    (c c' : Connection) (ch : Option ℕ)
    → c.ack_support ≡ true
    → overflow c ch ≡ (c', returned)
    → Grows c c' (cut c ch)
unfolding overflow cut starts_new
overflow-Grows c c' ch acks e =
    let bytes = c.out_buf ++ elim ch [ none ↦ [] | some b ↦ b ∷ [] ] in
    let empty : Connection = record c { out_buf = [] } in
    let m = mark-SameQueues empty ch in
    elim (Bool-cases (is_empty bytes)) [
      | inl em ↦
          let run : overflow c ch ≡ (empty, returned) = rw em refl in
          rw em (
            subst (λ d. Grows c d []) (ap (λ r. r.0) (sym run ∙ e))
              (record {
                segments = sym (append-nil c.segments);
                others = refl;
                events = refl;
                acks = refl;
                nacks = refl;
                starts = λ h. h;
              }))
      | inr ne ↦ elim (Bool-cases (mark empty ch).skip) [
        | inl sk ↦
            let run : overflow c ch ≡ (mark empty ch, returned) = rw (ne, sk) refl in
            rw (ne, sk)
              (subst (λ d. Grows c d []) (ap (λ r. r.0) (sym run ∙ e))
                (record {
                  segments = m.segments ∙ sym (append-nil c.segments);
                  others = m.others;
                  events = m.events;
                  acks = m.acks;
                  nacks = m.nacks;
                  starts = skipped_starts empty ch sk;
                }))
        | inr go ↦
            let seg = data_segment c.sob ch bytes in
            let run : overflow c ch
                ≡ overflow_caught (send (enqueue (mark empty ch) seg) seg bytes) =
              rw (ne, go) refl in
            let (out, c'-eq) = sent_lem (enqueue (mark empty ch) seg) c' seg bytes (sym run ∙ e) in
            let d-eq =
              c'-eq
              ∙ ap {A = Connection} (λ d. record d { outgoing = out })
                  (enqueue-eq (mark empty ch) seg (m.acks ∙ acks)) in
            rw (ne, go)
              (subst (λ d. Grows c d (seg ∷ [])) (sym d-eq)
                (record {
                  segments = ap (λ s. s ++ (seg ∷ [])) m.segments;
                  others = m.others;
                  events = m.events;
                  acks = m.acks;
                  nacks = m.nacks;
                  starts = marked_starts empty ch bytes go;
                }))
      ]
    ]
