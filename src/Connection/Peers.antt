-- ===== src/Connection/Peers.antt =====
-- What holds between the two sides of a connection of StreamBuffer.cpp.
use ibrdtn.Base.{
  ℕ, ◌≡◌, ◌≢◌, inl, inr, refl, sym, ap, ◌∙◌, Bool, true, false, ◌||◌, some, List, [], ◌∷◌, ◌++◌,
  if◌then◌else◌, All, subst, Bool-cases,
}
use ibrdtn.Sdnv.{IsU64}
use ibrdtn.Segment.{StreamDataSegment}
use ibrdtn.Connection.{Connection, returned}
use ibrdtn.Connection.Receive.{answer, fill, reject_bundle}
use ibrdtn.Connection.Ledger.{begins}
use ibrdtn.Connection.Expected.{
  Answer, acks, refuses, may_answer, refusing_after, verdict, Ledger, after_answer, IsKept, IsFresh,
  new_ledger,
}
use ibrdtn.Connection.Answers.{step-IsKept}
use ibrdtn.Connection.Expected
use ibrdtn.Connection.Answers
use ibrdtn.Connection.Replies.{answer-refusal, answer-ack}
use ibrdtn.Connection.Kept.{answer-Answered, fill-SameState}
use ibrdtn.Connection.Wire.{
  Peers, reply, answer_of, behind_due, answers_of, behind_first, answered, handled, Step, Run,
  in_hand, answered_segments, new_peers,
}
use ibrdtn.Connection.Underway.{
  begun, Obeys, refusing_last, Obeys-append, refusing_last-append, answered_segments-append,
  answers_of-append, IsAck, acked_before,
}
use ibrdtn.Connection.Wire.{sends, arrives, reads, rejects, answers, handles, starts, goes_on}
use ibrdtn.Connection.Arrivals.{IsAgreed, sent-IsAgreed, arrived-IsAgreed}

answered-IsAgreed :
    (p : Peers) (seg : StreamDataSegment) (r : Connection)
    → p.current ≡ some seg
    → answer p.receiver ≡ (r, returned)
    → r.transferring ≡ false
    → IsAgreed p
    → IsAgreed (answered p seg r)
unfolding answered
answered-IsAgreed p seg r c e t i =
    let k = answer-Answered p.receiver r (i.reading ∙ rw c refl) e t in
    let busy : p.receiver.transferring ≡ true = i.reading ∙ rw c refl in
    let a = answer_of p.receiver in
    let answers : reply p.receiver r seg ≡ (seg, a) ∷ [] = elim (Bool-cases p.receiver.reject) [
      | inl y ↦ simp y (answer-refusal p.receiver r seg busy y i.nacks e)
      | inr n ↦ simp n (answer-ack p.receiver r seg busy n i.acks (k.complete n) (i.size busy) e)
    ] in
    record {
      kept = i.kept;
      acks = k.acks ∙ i.acks;
      nacks = k.nacks ∙ i.nacks;
      fifo =
          subst (λ b. p.ledger.outstanding ≡ answered_segments (p.back ++ b) ++ p.forth)
            (sym answers)
            (subst (λ o. p.ledger.outstanding ≡ answered_segments p.back ++ (in_hand o ++ p.forth))
                c i.fifo
              ∙ sym (answered_segments-append p.back seg a p.forth));
      due =
          subst (λ b. answers_of (p.back ++ b) ≡ p.due ++ (a ∷ [])) (sym answers)
            (answers_of-append p.back seg a ∙ ap (λ d. d ++ (a ∷ [])) i.due);
      reading = t;
      size = λ h. absurd (both (sym t ∙ h));
      obeys =
          subst (λ b. Obeys p.ledger.refusing (p.back ++ b)) (sym answers)
            (Obeys-append p.ledger.refusing p.back seg a i.obeys (
              may p.receiver.reject p.receiver.recv_size (refusing_last p.ledger.refusing p.back)
                seg (λ h. subst (λ o. (p.receiver.reject || begun o) ≡ true) c (i.later h))));
      later = λ h. refused_before p.receiver.reject p.receiver.recv_size r.reject k.reject (
          sym (refusing_last-append p.ledger.refusing p.back seg a)
          ∙ subst (λ b. refusing_last p.ledger.refusing (p.back ++ b) ≡ true) answers h);
    }
  where
    both : false ≢ true
    both e = cc

    may :
        (reject : Bool) (size : ℕ) (refusing : Bool) (seg : StreamDataSegment)
        → (refusing ≡ true → (reject || begins seg) ≡ true)
        → may_answer refusing seg (if reject then refuses else acks size) ≡ true
    may true size refusing seg h = refl
    may false size true seg h = h refl
    may false size false seg h = refl

    refused_before :
        (reject : Bool) (size : ℕ) (after : Bool)
        → after ≡ reject
        → refusing_after (if reject then refuses else acks size) ≡ true
        → (after || false) ≡ true
    refused_before true size after e h = rw e refl
    refused_before false size after e h = cc

handled-IsAgreed :
    (p : Peers) (seg : StreamDataSegment) (a : Answer) (rest : List (StreamDataSegment × Answer))
    → p.back ≡ (seg, a) ∷ rest
    → IsAgreed p
    → IsAgreed (handled p seg a rest)
unfolding handled after_answer
handled-IsAgreed p seg a rest b i =
    let left = answered_segments rest ++ (in_hand p.current ++ p.forth) in
    let front : p.ledger.outstanding ≡ seg ∷ left =
      i.fifo ∙ ap (λ b. answered_segments b ++ (in_hand p.current ++ p.forth)) b in
    let below : behind_first p.ledger.outstanding ≡ left = ap behind_first front in
    let obeys = subst (Obeys p.ledger.refusing) b i.obeys in
    let first_due : a ∷ answers_of rest ≡ p.due = ap answers_of (sym b) ∙ i.due in
    record {
      kept =
          step-IsKept
            (Expected.answers a seg (behind_first p.ledger.outstanding)
              (front ∙ ap (λ s. seg ∷ s) (sym below)) obeys.0)
            i.kept;
      acks = i.acks;
      nacks = i.nacks;
      fifo = below;
      due = ap behind_due first_due;
      reading = i.reading;
      size = i.size;
      obeys = obeys.1;
      later = λ h. i.later (subst (λ bs. refusing_last p.ledger.refusing bs ≡ true) (sym b) h);
    }

reads-IsAgreed :
    (p : Peers) (r : Connection)
    → fill p.receiver ≡ (r, returned)
    → IsAgreed p
    → IsAgreed (record p { receiver = r })
reads-IsAgreed p r e i =
    let s = fill-SameState p.receiver r e in
    record {
      kept = i.kept;
      acks = s.acks ∙ i.acks;
      nacks = s.nacks ∙ i.nacks;
      fifo = i.fifo;
      due = i.due;
      reading = s.transferring ∙ i.reading;
      size = λ h. subst IsU64 (sym s.size) (i.size (sym s.transferring ∙ h));
      obeys = i.obeys;
      later = λ h. rw s.reject (i.later h);
    }

rejects-IsAgreed :
    (p : Peers) → IsAgreed p → IsAgreed (record p { receiver = reject_bundle p.receiver })
unfolding reject_bundle
rejects-IsAgreed p i = record {
  kept = i.kept;
  acks = i.acks;
  nacks = i.nacks;
  fifo = i.fifo;
  due = i.due;
  reading = i.reading;
  size = i.size;
  obeys = i.obeys;
  later = λ h. refl;
}

step-IsAgreed : {p p' : Peers} → Step p p' → IsAgreed p → IsAgreed p'
step-IsAgreed (sends ch c v e) i = sent-IsAgreed _ ch c v e i
step-IsAgreed (arrives seg rest r f t v e) i = arrived-IsAgreed _ seg rest r f t v e i
step-IsAgreed (reads r t e) i = reads-IsAgreed _ r e i
step-IsAgreed rejects i = rejects-IsAgreed _ i
step-IsAgreed (answers seg r c e t) i = answered-IsAgreed _ seg r c e t i
step-IsAgreed (handles seg a rest b) i = handled-IsAgreed _ seg a rest b i

Run-IsAgreed :
    {s r : Connection} {p : Peers}
    → IsFresh s
    → IsFresh r
    → r.transferring ≡ false
    → Run (new_peers s r) p
    → IsAgreed p
unfolding new_peers new_ledger
Run-IsAgreed fs fr t starts = record {
  kept = Answers.Run-IsKept fs Expected.starts;
  acks = fr.acks;
  nacks = fr.nacks;
  fifo = refl;
  due = refl;
  reading = t;
  size = λ h. absurd (both (sym t ∙ h));
  obeys = tt;
  later = λ h. cc;
}
  where
    both : false ≢ true
    both e = cc
Run-IsAgreed fs fr t (goes_on run step) = step-IsAgreed step (Run-IsAgreed fs fr t run)

-- Two connections as for `peers_agree`, at any time, with the answers on their way as they are read
-- from the bytes that the receiver has written: where an acknowledgement is on its way for a
-- segment that does not begin a transfer, and the answers on their way before it are for segments
-- that do not begin one either, all of these are acknowledgements, and the last answer that the
-- sender got, if any, was no refusal.
pub acked_whole :
    (s r : Connection) (p : Peers) (bs rest : List (StreamDataSegment × Answer))
    (seg : StreamDataSegment) (size : ℕ)
    → IsFresh s
    → IsFresh r
    → r.transferring ≡ false
    → Run (new_peers s r) p
    → p.back ≡ bs ++ ((seg, acks size) ∷ rest)
    → All (λ b. begins b.0 ≡ false) bs
    → begins seg ≡ false
    → (p.ledger.refusing ≡ false) × All IsAck bs
acked_whole s r p bs rest seg size fs fr t run e w n =
    acked_before p.ledger.refusing bs seg size rest w n
      (subst (Obeys p.ledger.refusing) e (Run-IsAgreed fs fr t run).obeys)
