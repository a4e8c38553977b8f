-- ===== src/Connection/Answers.antt =====
-- What a sender of StreamBuffer.cpp makes of the answers of its peer.
use ibrdtn.Base.{
  ◌≡◌, ◌≢◌, inl, inr, refl, sym, ap, ◌∙◌, true, false, ◌||◌, List, [], ◌∷◌, ◌++◌, All, subst,
  Bool-cases,
}
use mathlib.Core.List.{append-nil}
use ibrdtn.Segment.{StreamDataSegment}
use ibrdtn.Connection.{Connection, event_bundle_refused}
use ibrdtn.Connection.Receive.{on_refuse, refused}
use ibrdtn.Connection.Ledger.{begins, starts_new}
use ibrdtn.Connection.Expected.{
  take_answer, verdict, Ledger, after_answer, Step, Run, IsKept, new_ledger, IsFresh,
}
use ibrdtn.Connection.Refusals.{List-cases, move_segments-Moved, refused-eq, left_starts}
use ibrdtn.Connection.Expected.{acks, refuses, sends, answers, starts, goes_on}
use ibrdtn.Connection.Acknowledged.{sends-IsKept, acks-IsKept}

-- Where the refusal is for the first segment that waits, its transfer starts there or is refused
-- now.
first_refusal :
    (l : Ledger) (seg : StreamDataSegment) (rest : List StreamDataSegment)
    → l.connection.segments ≡ seg ∷ rest
    → IsKept l
    → verdict l.refusing seg refuses ≡ event_bundle_refused ∷ []
unfolding starts_new
first_refusal l seg rest front k = elim (Bool-cases l.refusing) [
  | inl y ↦
      let b : begins seg ≡ true =
        subst
          (λ s. elim s [ [] ↦ l.connection.sob || l.connection.skip | x ∷ xs ↦ begins x ] ≡ true)
          front (k.starts y) in
      rw (y, b) refl
  | inr n ↦ rw n refl
]

refuses_first-IsKept :
    (l : Ledger) (seg : StreamDataSegment) (rest : List StreamDataSegment)
    → IsKept l
    → l.connection.segments ≡ seg ∷ rest
    → IsKept (record {
      connection = refused l.connection [] (seg ∷ rest);
      outstanding = rest;
      refusing = true;
      meaning = l.meaning ++ verdict l.refusing seg refuses;
    })
refuses_first-IsKept l seg rest k front =
    let m = move_segments-Moved rest [] in
    subst
      (λ c. IsKept (record {
        connection = c;
        outstanding = rest;
        refusing = true;
        meaning = l.meaning ++ verdict l.refusing seg refuses;
      }))
      (sym (refused-eq l.connection seg rest))
      (record {
        acks = k.acks;
        nacks = k.nacks;
        both = m.both;
        within = m.within tt;
        none_refused = λ h. cc;
        starts = λ h. left_starts _ m.next (λ e. rw e refl);
        events =
            rw (first_refusal l seg rest front k)
              (ap (λ es. es ++ (event_bundle_refused ∷ [])) k.events);
      })

refuses_next-IsKept :
    (l : Ledger) (seg : StreamDataSegment) (rest : List StreamDataSegment)
    (first : StreamDataSegment) (others : List StreamDataSegment)
    → IsKept l
    → l.connection.rejected_segments ≡ first ∷ others
    → first ∷ (others ++ l.connection.segments) ≡ seg ∷ rest
    → IsKept (record {
      connection = refused l.connection (first ∷ others) l.connection.segments;
      outstanding = rest;
      refusing = true;
      meaning = l.meaning ++ verdict l.refusing seg refuses;
    })
unfolding starts_new refused
refuses_next-IsKept l seg rest first others k some_left heads =
    let bounded : All (λ s. begins s ≡ false) (first ∷ others) =
      subst (All (λ s. begins s ≡ false)) some_left k.within in
    let was_refusing : l.refusing ≡ true = elim (Bool-cases l.refusing) [
      | inl y ↦ y
      | inr n ↦ absurd (nonempty (sym some_left ∙ k.none_refused n))
    ] in
    let middle : begins seg ≡ false = subst (λ s. begins s ≡ false) (same heads) bounded.0 in
    record {
      acks = k.acks;
      nacks = k.nacks;
      both = below heads;
      within = bounded.1;
      none_refused = λ h. cc;
      starts = λ h. k.starts was_refusing;
      events = rw (was_refusing, middle) (k.events ∙ sym (append-nil l.meaning));
    }
  where
    same : {x y : StreamDataSegment} {xs ys : List StreamDataSegment} → x ∷ xs ≡ y ∷ ys → x ≡ y
    same e = cc

    below : {x y : StreamDataSegment} {xs ys : List StreamDataSegment} → x ∷ xs ≡ y ∷ ys → xs ≡ ys
    below e = cc

    nonempty : {x : StreamDataSegment} {xs : List StreamDataSegment} → x ∷ xs ≢ []
    nonempty e = cc

refuses-IsKept :
    (l : Ledger) (seg : StreamDataSegment) (rest : List StreamDataSegment)
    → IsKept l
    → l.outstanding ≡ seg ∷ rest
    → IsKept (after_answer l refuses rest seg)
unfolding after_answer take_answer on_refuse
refuses-IsKept l seg rest k o =
    let opened : on_refuse l.connection
        ≡ refused l.connection l.connection.rejected_segments l.connection.segments =
      simp (k.acks, k.nacks) in
    elim (List-cases l.connection.rejected_segments) [
      | inl none_left ↦
          let front : l.connection.segments ≡ seg ∷ rest =
            sym (ap (λ s. s ++ l.connection.segments) none_left) ∙ (k.both ∙ o) in
          subst
            (λ c. IsKept (record {
              connection = c;
              outstanding = rest;
              refusing = true;
              meaning = l.meaning ++ verdict l.refusing seg refuses;
            }))
            (sym (
              opened
              ∙ (ap (λ r. refused l.connection r l.connection.segments) none_left
                  ∙ ap (refused l.connection []) front)))
            (refuses_first-IsKept l seg rest k front)
      | inr (first, others, some_left) ↦
          let heads : first ∷ (others ++ l.connection.segments) ≡ seg ∷ rest =
            sym (ap (λ s. s ++ l.connection.segments) some_left) ∙ (k.both ∙ o) in
          subst
            (λ c. IsKept (record {
              connection = c;
              outstanding = rest;
              refusing = true;
              meaning = l.meaning ++ verdict l.refusing seg refuses;
            }))
            (sym (opened ∙ ap (λ r. refused l.connection r l.connection.segments) some_left))
            (refuses_next-IsKept l seg rest first others k some_left heads)
    ]

pub step-IsKept : {l l' : Ledger} → Step l l' → IsKept l → IsKept l'
step-IsKept (sends ch c e) k = sends-IsKept _ ch c e k
step-IsKept (answers (acks size) seg rest o may) k = acks-IsKept _ size seg rest k o may
step-IsKept (answers refuses seg rest o may) k = refuses-IsKept _ seg rest k o

pub Run-IsKept : {c : Connection} {l : Ledger} → IsFresh c → Run (new_ledger c) l → IsKept l
unfolding new_ledger
Run-IsKept fresh starts = record {
  acks = fresh.acks;
  nacks = fresh.nacks;
  both = rw (fresh.segments, fresh.others) refl;
  within = rw fresh.others tt;
  none_refused = λ h. fresh.others;
  starts = λ h. cc;
  events = refl;
}
Run-IsKept fresh (goes_on run step) = step-IsKept step (Run-IsKept fresh run)

-- A connection that uses acknowledgements and refusals, and whose queues are empty, whatever it
-- sends from then on, as long as each answer it gets is for the oldest segment without one, and a
-- refusal is followed by refusals for the rest of its transfer: the calls of its callback from then
-- on are those that the answers mean, segment by segment, and its two queues together hold the
-- segments without an answer, in the order they were sent.
pub queues_match_answers :
    (c : Connection) (l : Ledger)
    → IsFresh c
    → Run (new_ledger c) l
    → (l.connection.events ≡ l.meaning)
      × (l.connection.rejected_segments ++ l.connection.segments ≡ l.outstanding)
queues_match_answers c l fresh run = let k = Run-IsKept fresh run in (k.events, k.both)
