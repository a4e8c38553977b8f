-- ===== src/Connection/Underway.antt =====
-- The answers of a receiver on their way to the sender, one behind the other: StreamBuffer.cpp.
use ibrdtn.Base.{
  ℕ, ◌≡◌, ◌≢◌, refl, sym, ap, ◌∙◌, Bool, true, false, Option, none, some, List, [], ◌∷◌, ◌++◌, All,
}
use ibrdtn.Segment.{StreamDataSegment}
use ibrdtn.Connection.Ledger.{begins}
use ibrdtn.Connection.Expected.{Answer, acks, refuses, may_answer, refusing_after}
use ibrdtn.Connection.Wire.{answered_segments, answers_of}

abbrev pub is_open : Option StreamDataSegment → Bool
is_open none = false
is_open (some seg) = true

abbrev pub begun : Option StreamDataSegment → Bool
begun none = false
begun (some seg) = begins seg

-- The answers under way are ones that the sender may get, one behind the other.
abbrev pub Obeys : Bool → List (StreamDataSegment × Answer) → Type 0
Obeys refusing [] = Unit {0}
Obeys refusing (b ∷ bs) = (may_answer refusing b.0 b.1 ≡ true) × Obeys (refusing_after b.1) bs

abbrev pub refusing_last : Bool → List (StreamDataSegment × Answer) → Bool
refusing_last refusing [] = refusing
refusing_last refusing (b ∷ bs) = refusing_last (refusing_after b.1) bs

pub Obeys-append :
    (refusing : Bool) (bs : List (StreamDataSegment × Answer)) (seg : StreamDataSegment)
    (a : Answer)
    → Obeys refusing bs
    → may_answer (refusing_last refusing bs) seg a ≡ true
    → Obeys refusing (bs ++ ((seg, a) ∷ []))
Obeys-append refusing [] seg a o m = (m, tt)
Obeys-append refusing (b ∷ bs) seg a o m = (o.0, Obeys-append (refusing_after b.1) bs seg a o.1 m)

pub refusing_last-append :
    (refusing : Bool) (bs : List (StreamDataSegment × Answer)) (seg : StreamDataSegment)
    (a : Answer)
    → refusing_last refusing (bs ++ ((seg, a) ∷ [])) ≡ refusing_after a
refusing_last-append refusing [] seg a = refl
refusing_last-append refusing (b ∷ bs) seg a = refusing_last-append (refusing_after b.1) bs seg a

pub answered_segments-append :
    (bs : List (StreamDataSegment × Answer)) (seg : StreamDataSegment) (a : Answer)
    (rest : List StreamDataSegment)
    → answered_segments (bs ++ ((seg, a) ∷ [])) ++ rest ≡ answered_segments bs ++ (seg ∷ rest)
answered_segments-append [] seg a rest = refl
answered_segments-append (b ∷ bs) seg a rest =
    ap (λ s. b.0 ∷ s) (answered_segments-append bs seg a rest)

pub answers_of-append :
    (bs : List (StreamDataSegment × Answer)) (seg : StreamDataSegment) (a : Answer)
    → answers_of (bs ++ ((seg, a) ∷ [])) ≡ answers_of bs ++ (a ∷ [])
answers_of-append [] seg a = refl
answers_of-append (b ∷ bs) seg a = ap (λ s. b.1 ∷ s) (answers_of-append bs seg a)

abbrev pub IsAck : StreamDataSegment × Answer → Type 0
IsAck (seg, acks size) = Unit {0}
IsAck (seg, refuses) = ⊥

-- An acknowledgement inside a transfer has only acknowledgements of that transfer before it.
pub acked_before :
    (refusing : Bool) (bs : List (StreamDataSegment × Answer)) (seg : StreamDataSegment) (size : ℕ)
    (rest : List (StreamDataSegment × Answer))
    → All (λ b. begins b.0 ≡ false) bs
    → begins seg ≡ false
    → Obeys refusing (bs ++ ((seg, acks size) ∷ rest))
    → (refusing ≡ false) × All IsAck bs
acked_before false [] seg size rest w n o = (refl, tt)
acked_before true [] seg size rest w n o = absurd (both (sym n ∙ o.0))
  where
    both : false ≢ true
    both e = cc
acked_before refusing ((s, refuses) ∷ bs) seg size rest w n o =
    absurd (both (acked_before true bs seg size rest w.1 n o.1).0)
  where
    both : true ≢ false
    both e = cc
acked_before true ((s, acks k) ∷ bs) seg size rest w n o = absurd (both (sym w.0 ∙ o.0))
  where
    both : false ≢ true
    both e = cc
acked_before false ((s, acks k) ∷ bs) seg size rest w n o =
    (refl, (tt, (acked_before false bs seg size rest w.1 n o.1).1))
