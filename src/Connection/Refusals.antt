-- ===== src/Connection/Refusals.antt =====
-- What a refusal moves between the two queues of StreamBuffer.cpp.
use ibrdtn.Base.{
  ◌≡◌, ◌⊎◌, inl, inr, refl, ◌∙◌, Bool, true, false, ◌||◌, List, [], ◌∷◌, ◌++◌, arith, All,
  All-append, subst, Bool-cases,
}
use ibrdtn.Eid.{is_empty}
use mathlib.Core.List.{append_assoc}
use ibrdtn.Segment.{StreamDataSegment}
use ibrdtn.Connection.{Connection, event_bundle_refused, notify}
use ibrdtn.Connection.Receive.{refused, move_segments}
use ibrdtn.Connection.Ledger.{begins, starts_new}

pub List-cases {ℓ} :
    {A : Type ℓ} (xs : List A) → (xs ≡ []) ⊎ ((y : A) × (ys : List A) × (xs ≡ y ∷ ys))
List-cases [] = inl refl
List-cases (y ∷ ys) = inr (y, ys, refl)

-- Where the rest of a transfer ends: nothing is left, or the next transfer.
abbrev pub first_begins : List StreamDataSegment → Bool
first_begins [] = true
first_begins (seg ∷ segs) = begins seg

pub record Moved (segs moved : List StreamDataSegment) : Type 0 where
  pub both : (move_segments segs moved).1 ++ (move_segments segs moved).0 ≡ moved ++ segs
  pub within :
      All (λ seg. begins seg ≡ false) moved
      → All (λ seg. begins seg ≡ false) (move_segments segs moved).1
  pub next : first_begins (move_segments segs moved).0 ≡ true

pub move_segments-Moved : (segs moved : List StreamDataSegment) → Moved segs moved
unfolding move_segments
move_segments-Moved [] moved = record { both = refl; within = λ h. h; next = refl }
move_segments-Moved (seg ∷ segs) moved = elim (Bool-cases (begins seg)) [
  | inl b ↦ record { both = rw b refl; within = λ h. rw b h; next = rw (b) b }
  | inr n ↦
      let rest = move_segments-Moved segs (moved ++ (seg ∷ [])) in
      record {
        both = rw n (rest.both ∙ append_assoc moved (seg ∷ []) segs);
        within =
            λ h. rw n (rest.within (All-append (λ s. begins s ≡ false) moved (seg ∷ []) h (n, tt)));
        next = rw n rest.next;
      }
]

pub refused-eq :
    (c : Connection) (seg : StreamDataSegment) (rest : List StreamDataSegment)
    → refused c [] (seg ∷ rest) ≡ record c {
      segments = (move_segments rest []).0;
      rejected_segments = (move_segments rest []).1;
      events = c.events ++ (event_bundle_refused ∷ []);
      skip = is_empty (move_segments rest []).0 || c.skip;
    }
unfolding refused notify
refused-eq c seg rest = elim (Bool-cases (is_empty (move_segments rest []).0)) [
  | inl y ↦ rw y refl
  | inr n ↦ rw n refl
]

pub left_starts :
    (d : Connection)
    → first_begins d.segments ≡ true
    → (is_empty d.segments ≡ true → d.skip ≡ true)
    → starts_new d ≡ true
unfolding starts_new
left_starts d f e = elim (List-cases d.segments) [
  | inl none_left ↦ rw (none_left, e (rw none_left refl)) (ground arith)
  | inr (x, xs, some_left) ↦ rw some_left (subst (λ s. first_begins s ≡ true) some_left f)
]
