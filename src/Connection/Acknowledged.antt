-- ===== src/Connection/Acknowledged.antt =====
-- What a sender of StreamBuffer.cpp makes of acknowledgements.
use ibrdtn.Base.{
  ℕ, ◌≡◌, inl, inr, refl, sym, ap, ◌∙◌, Bool, true, false, Option, List, [], ◌∷◌, ◌++◌, All, subst,
  Bool-cases,
}
use mathlib.Core.List.{append_assoc}
use ibrdtn.Segment.{StreamDataSegment}
use ibrdtn.Connection.{
  Connection, Event, event_bundle_ack, event_bundle_forwarded, returned, notify, overflow,
}
use ibrdtn.Connection.Receive.{on_ack, acknowledged}
use ibrdtn.Connection.Ledger.{begins, ends, cut, overflow-Grows}
use ibrdtn.Connection.Expected.{take_answer, may_answer, verdict, Ledger, after_answer, IsKept}
use ibrdtn.Connection.Expected.{acks}

pub sends-IsKept :
    (l : Ledger) (ch : Option ℕ) (c : Connection)
    → overflow l.connection ch ≡ (c, returned)
    → IsKept l
    → IsKept (record l { connection = c; outstanding = l.outstanding ++ cut l.connection ch })
sends-IsKept l ch c e k =
    let g = overflow-Grows l.connection c ch k.acks e in
    record {
      acks = g.acks ∙ k.acks;
      nacks = g.nacks ∙ k.nacks;
      both =
          rw (g.segments, g.others)
            (sym (
                append_assoc l.connection.rejected_segments l.connection.segments
                  (cut l.connection ch))
              ∙ ap (λ s. s ++ cut l.connection ch) k.both);
      within = rw g.others k.within;
      none_refused = λ h. g.others ∙ k.none_refused h;
      starts = λ h. g.starts (k.starts h);
      events = g.events ∙ k.events;
    }

-- An acknowledgement that the peer may send finds no refused segment.
pub no_rejected :
    (l : Ledger) (size : ℕ) (seg : StreamDataSegment) (rest : List StreamDataSegment)
    → IsKept l
    → l.outstanding ≡ seg ∷ rest
    → may_answer l.refusing seg (acks size) ≡ true
    → l.connection.rejected_segments ≡ []
no_rejected l size seg rest k o may = elim (Bool-cases l.refusing) [
  | inr n ↦ k.none_refused n
  | inl y ↦ no_head l.connection.rejected_segments k.within k.both (rw y at may)
]
  where
    no_head :
        (others : List StreamDataSegment)
        → All (λ s. begins s ≡ false) others
        → others ++ l.connection.segments ≡ l.outstanding
        → begins seg ≡ true
        → others ≡ []
    no_head [] w e b = refl
    no_head (x ∷ xs) w e b = cc

pub acknowledged-eq :
    (c : Connection) (size : ℕ) (refusing : Bool) (seg : StreamDataSegment)
    (rest : List StreamDataSegment)
    → acknowledged c size (seg ∷ rest)
      ≡ record c { segments = rest; events = c.events ++ verdict refusing seg (acks size) }
unfolding acknowledged notify
acknowledged-eq c size refusing seg rest = elim (Bool-cases (ends seg)) [
  | inl y ↦ rw y (
      ap {A = List Event} (λ es. record c { segments = rest; events = es })
        (append_assoc c.events (event_bundle_forwarded ∷ []) (event_bundle_ack size ∷ [])))
  | inr n ↦ rw n refl
]

pub acks-IsKept :
    (l : Ledger) (size : ℕ) (seg : StreamDataSegment) (rest : List StreamDataSegment)
    → IsKept l
    → l.outstanding ≡ seg ∷ rest
    → may_answer l.refusing seg (acks size) ≡ true
    → IsKept (after_answer l (acks size) rest seg)
unfolding after_answer take_answer on_ack
acks-IsKept l size seg rest k o may =
    let none_left = no_rejected l size seg rest k o may in
    let front : l.connection.segments ≡ seg ∷ rest =
      sym (ap (λ s. s ++ l.connection.segments) none_left) ∙ (k.both ∙ o) in
    let opened : on_ack l.connection size ≡ acknowledged l.connection size l.connection.segments =
      simp k.acks in
    let done : on_ack l.connection size ≡ record l.connection {
      segments = rest;
      events = l.connection.events ++ verdict l.refusing seg (acks size);
    } =
      opened
      ∙ (ap (acknowledged l.connection size) front
          ∙ acknowledged-eq l.connection size l.refusing seg rest) in
    subst
      (λ c. IsKept (record {
        connection = c;
        outstanding = rest;
        refusing = false;
        meaning = l.meaning ++ verdict l.refusing seg (acks size);
      }))
      (sym done)
      (record {
        acks = k.acks;
        nacks = k.nacks;
        both = rw none_left refl;
        within = k.within;
        none_refused = λ h. none_left;
        starts = λ h. cc;
        events = ap (λ es. es ++ verdict l.refusing seg (acks size)) k.events;
      })
