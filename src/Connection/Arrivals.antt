-- ===== src/Connection/Arrivals.antt =====
-- What holds between the two sides of a connection of StreamBuffer.cpp, where segments are sent and
-- arrive.
use ibrdtn.Base.{
  ℕ, ◌≡◌, inl, inr, refl, sym, ap, ◌∙◌, Bool, true, false, not, ◌&&◌, ◌||◌, Option, none, some,
  List, [], ◌∷◌, ◌++◌, arith, subst, Bool-cases,
}
use mathlib.Core.List.{append_assoc, append-nil}
use ibrdtn.Sdnv.{IsU64}
use ibrdtn.Segment.{StreamDataSegment}
use ibrdtn.Connection.{Connection, returned, overflow}
use ibrdtn.Connection.Receive.{on_data}
use ibrdtn.Connection.Ledger.{begins, cut}
use ibrdtn.Connection.Expected.{
  Answer, acks, refuses, may_answer, refusing_after, verdict, Ledger, after_answer, IsKept, IsFresh,
  new_ledger,
}
use ibrdtn.Connection.Answers.{step-IsKept}
use ibrdtn.Connection.Expected
use ibrdtn.Connection.Expected
use ibrdtn.Connection.Kept.{on_data-Taken}
use ibrdtn.Connection.Written.{announce-IsU64}
use ibrdtn.Connection.Replies.{on_data-refusal, on_data-no_reply}
use ibrdtn.Connection.Transmitted.{overflow-transmitted}
use ibrdtn.Connection.Wire.{
  Peers, buffered, reply, sent, arrived, in_hand, answered_segments, answers_of,
}
use ibrdtn.Connection.Underway.{
  is_open, begun, Obeys, refusing_last, Obeys-append, answered_segments-append, answers_of-append,
}

pub record IsAgreed (p : Peers) : Type 0 where
  pub kept : IsKept p.ledger
  pub acks : p.receiver.ack_support ≡ true
  pub nacks : p.receiver.nack_support ≡ true
  pub fifo : p.ledger.outstanding ≡ answered_segments p.back ++ (in_hand p.current ++ p.forth)
  pub due : answers_of p.back ≡ p.due
  pub reading : p.receiver.transferring ≡ is_open p.current
  pub size : p.receiver.transferring ≡ true → IsU64 p.receiver.recv_size
  pub obeys : Obeys p.ledger.refusing p.back
  pub later :
      refusing_last p.ledger.refusing p.back ≡ true → (p.receiver.reject || begun p.current) ≡ true

pub sent-IsAgreed :
    (p : Peers) (ch : Option ℕ) (c : Connection)
    → IsU64 (buffered p.ledger.connection ch)
    → overflow p.ledger.connection ch ≡ (c, returned)
    → IsAgreed p
    → IsAgreed (sent p ch c)
unfolding sent
sent-IsAgreed p ch c v e i = record {
  kept = step-IsKept (Expected.sends ch c e) i.kept;
  acks = i.acks;
  nacks = i.nacks;
  fifo =
      ap (λ s. s ++ cut p.ledger.connection ch) i.fifo
      ∙ append_assoc (answered_segments p.back) (in_hand p.current ++ p.forth)
          (cut p.ledger.connection ch)
      ∙ ap (λ s. answered_segments p.back ++ s)
          (append_assoc (in_hand p.current) p.forth (cut p.ledger.connection ch)
            ∙ ap (λ s. in_hand p.current ++ (p.forth ++ s))
                (sym (overflow-transmitted p.ledger.connection c ch v e)));
  due = i.due;
  reading = i.reading;
  size = i.size;
  obeys = i.obeys;
  later = i.later;
}

-- A segment that arrives is answered at once, or is the one whose bytes are read.
pub arrived-IsAgreed :
    (p : Peers) (seg : StreamDataSegment) (rest : List StreamDataSegment) (r : Connection)
    → p.forth ≡ seg ∷ rest
    → p.receiver.transferring ≡ false
    → IsU64 seg.value
    → on_data p.receiver seg ≡ (r, returned)
    → IsAgreed p
    → IsAgreed (arrived p seg rest r)
unfolding arrived
arrived-IsAgreed p seg rest r f t v e i =
    let k = on_data-Taken p.receiver r seg e in
    let none_open : p.current ≡ none = not_open p.current (sym i.reading ∙ t) in
    let fifo : p.ledger.outstanding ≡ answered_segments p.back ++ (seg ∷ rest) =
      subst (λ c. p.ledger.outstanding ≡ answered_segments p.back ++ (in_hand c ++ (seg ∷ rest)))
        none_open
        (subst (λ s. p.ledger.outstanding ≡ answered_segments p.back ++ (in_hand p.current ++ s)) f
          i.fifo) in
    let size = subst IsU64 (sym k.size) (announce-IsU64 p.receiver seg v) in
    elim (Bool-cases r.reject) [
      | inl y ↦
          let closed : r.transferring ≡ false = k.transferring ∙ rw (y, t) refl in
          let answers : reply p.receiver r seg ≡ (seg, refuses) ∷ [] =
            on_data-refusal p.receiver r seg i.nacks (sym k.announced ∙ y) e in
          record {
            kept = i.kept;
            acks = k.acks ∙ i.acks;
            nacks = k.nacks ∙ i.nacks;
            fifo =
                simp (closed, answers)
                  (fifo ∙ sym (answered_segments-append p.back seg refuses rest));
            due =
                simp (answers, y)
                  (answers_of-append p.back seg refuses ∙ ap (λ d. d ++ (refuses ∷ [])) i.due);
            reading = rw closed refl;
            size = λ h. size;
            obeys = rw answers (Obeys-append p.ledger.refusing p.back seg refuses i.obeys refl);
            later = λ h. rw y refl;
          }
      | inr n ↦
          let reading : r.transferring ≡ true = k.transferring ∙ rw n refl in
          let silent : reply p.receiver r seg ≡ [] =
            on_data-no_reply p.receiver r seg (sym k.announced ∙ n) e in
          record {
            kept = i.kept;
            acks = k.acks ∙ i.acks;
            nacks = k.nacks ∙ i.nacks;
            fifo =
                simp (reading, silent)
                  (subst (λ b. p.ledger.outstanding ≡ answered_segments b ++ (seg ∷ rest))
                    (sym (append-nil p.back)) fifo);
            due = simp (silent, n) (ap answers_of (append-nil p.back) ∙ i.due);
            reading = rw reading refl;
            size = λ h. size;
            obeys = rw silent (subst (Obeys p.ledger.refusing) (sym (append-nil p.back)) i.obeys);
            later =
                simp (reading, silent)
                  (λ h.
                    begins_now p.receiver.reject r.reject (begins seg)
                      (subst (λ c. (p.receiver.reject || begun c) ≡ true) none_open
                        (i.later (
                          subst (λ b. refusing_last p.ledger.refusing b ≡ true) (append-nil p.back)
                            h)))
                      k.reject);
          }
    ]
  where
    not_open : (c : Option StreamDataSegment) → is_open c ≡ false → c ≡ none
    not_open none e = refl
    not_open (some s) e = cc

    begins_now :
        (before after b : Bool)
        → (before || false) ≡ true
        → after ≡ (not b && before)
        → (after || b) ≡ true
    begins_now before after b h e = ground arith
