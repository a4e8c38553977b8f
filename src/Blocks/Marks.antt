-- ===== src/Blocks/Marks.antt =====
-- The flag LAST_BLOCK of a bundle's blocks: Bundle.cpp.
use ibrdtn.Base.{
  ℕ, ◌+◌, ◌<◌, ◌≡◌, ◌≢◌, inl, inr, refl, sym, ◌∙◌, true, false, some, List, [], ◌∷◌, ◌++◌, arith,
  All, All-append, subst, Bool-cases,
}
use ibrdtn.Flags.{has_flag}
use ibrdtn.Blocks.{
  Block, Heap, last_block, create, set_last, set_last_of, back, push_front, push_back,
  insert_before, holds, erase_first, remove, Call, to_front, to_back, ahead_of, takes_out, clears,
  step, run,
}
use ibrdtn.Blocks.Places.{
  UnmarkedBefore, Distinct, back-append, back_cons, unmarked_map, back_unmarked, unmarked_append,
  some_inj, back_in, Distinct-append, All_weaken, insert_before-back, insert_before-All,
  insert_before-Distinct, insert_before_unmarked, erase_first-All, erase_first-Distinct,
  erase_first_unmarked, mark_back,
}
use ibrdtn.Blocks.Flagged.{
  is_last, is_last-set_last, set_last_of-next, marked_of, is_last-set_last_of, equal_self, equal_no,
  marked_here, marked_false, marked_elsewhere, equal_here,
}

pub record IsMarked (h : Heap) (l : List ℕ) : Type 0 where
  pub below : All (λ p. p < h.next) l
  pub distinct : Distinct l
  pub others : UnmarkedBefore (is_last h) l
  pub end : (p : ℕ) → back l ≡ some p → is_last h p ≡ true

-- An address that a new block has got.
pub record IsNew (h : Heap) (l : List ℕ) (p : ℕ) : Type 0 where
  allocated : p < h.next
  above : All (λ q. q < p) l
  unmarked : is_last h p ≡ false

is_last-create :
    (h : Heap) (b : Block) (q : ℕ) → q < h.next → is_last (create h b).0 q ≡ is_last h q
unfolding create
is_last-create h b q k = rw (equal_no q h.next (omega (arith, k))) refl

pub create-IsMarked :
    (h : Heap) (l : List ℕ) (b : Block)
    → has_flag b.procflags last_block ≡ false
    → IsMarked h l
    → IsMarked (create h b).0 l × IsNew (create h b).0 l (create h b).1
unfolding create
create-IsMarked h l b u m = (
  record {
    below = All_weaken (λ p. p < h.next) (λ p. p < h.next + 1) (λ p k. omega (arith, k)) l m.below;
    distinct = m.distinct;
    others =
        unmarked_map (is_last h) (is_last (create h b).0) l
          (All_weaken (λ p. p < h.next) _ (λ p k e. is_last-create h b p k ∙ e) l m.below) m.others;
    end = λ p e. is_last-create h b p (back_in (λ q. q < h.next) l p m.below e) ∙ m.end p e;
  },
  record { allocated = omega arith; above = m.below; unmarked = rw (equal_self h.next) u },
)

push_front-IsMarked :
    (h : Heap) (l : List ℕ) (p : ℕ)
    → IsMarked h l
    → IsNew h l p
    → IsMarked (push_front h l p).0 (push_front h l p).1
unfolding push_front
push_front-IsMarked h [] p m n = record {
  below = (unfold set_last in n.allocated, tt);
  distinct = (tt, tt);
  others = (λ e. cc, tt);
  end =
      λ q e. is_last-set_last h p q true ∙ rw (equal_here {p = p} {q = q} (unfold back in e)) refl;
}
push_front-IsMarked h (q ∷ qs) p m n = record {
  below = (n.allocated, m.below);
  distinct =
      (All_weaken (λ r. r < p) (λ r. p ≢ r) (λ r k. omega (arith, k)) (q ∷ qs) n.above, m.distinct);
  others = (λ e. n.unmarked, m.others);
  end = λ r e. m.end r (sym (back_cons p q qs) ∙ e);
}

push_back-is_last :
    (h : Heap) (l : List ℕ) (p q : ℕ)
    → is_last (push_back h l p).0 q ≡ marked_of (back l) false (is_last (set_last h p true)) q
unfolding push_back
push_back-is_last h l p = is_last-set_last_of (set_last h p true) (back l) false

-- After `push_back` no block that was in the list is marked.
pub push_back_unmarks :
    (h : Heap) (l : List ℕ) (p : ℕ)
    → IsMarked h l
    → IsNew h l p
    → All (λ q. is_last (push_back h l p).0 q ≡ false) l
push_back_unmarks h l p m n =
    back_unmarked (is_last h) (is_last (push_back h l p).0) l cleared kept m.others
  where
    cleared : (q : ℕ) → back l ≡ some q → is_last (push_back h l p).0 q ≡ false
    cleared q e = push_back-is_last h l p q ∙ rw e (marked_here q false _)

    kept : All (λ q. is_last h q ≡ false → is_last (push_back h l p).0 q ≡ false) l
    kept =
        All_weaken (λ q. q < p) _
          (λ q k e.
            push_back-is_last h l p q
            ∙ marked_false (back l) _ q
                (is_last-set_last h p q true ∙ rw (equal_no q p (omega (arith, k))) e))
          l n.above

pub push_back_marks :
    (h : Heap) (l : List ℕ) (p : ℕ) → IsNew h l p → is_last (push_back h l p).0 p ≡ true
push_back_marks h l p n =
    push_back-is_last h l p p
    ∙ marked_elsewhere (back l) false _ p (λ r e. above_back r (back_in (λ q. q < p) l r n.above e))
    ∙ is_last-set_last h p p true
    ∙ rw (equal_self p) refl
  where
    above_back : (r : ℕ) → r < p → p ≢ r
    above_back r k = omega (arith, k)

push_back-next : (h : Heap) (l : List ℕ) (p : ℕ) → (push_back h l p).0.next ≡ h.next
unfolding push_back set_last
push_back-next h l p = set_last_of-next (set_last h p true) (back l) false

pub push_back-IsMarked :
    (h : Heap) (l : List ℕ) (p : ℕ)
    → IsMarked h l
    → IsNew h l p
    → IsMarked (push_back h l p).0 (l ++ (p ∷ []))
push_back-IsMarked h l p m n = record {
  below =
      All-append _ l (p ∷ []) (subst (λ k. All (λ q. q < k) l) (sym (push_back-next h l p)) m.below)
        (rw (push_back-next h l p) n.allocated, tt);
  distinct = Distinct-append l p n.above m.distinct;
  others = unmarked_append (is_last (push_back h l p).0) l p (push_back_unmarks h l p m n);
  end = λ q e.
      subst (λ r. is_last (push_back h l p).0 r ≡ true) (some_inj (sym (back-append l p) ∙ e))
        (push_back_marks h l p n);
}

insert_before-IsMarked :
    (h : Heap) (l : List ℕ) (p b : ℕ)
    → IsMarked h l
    → IsNew h l p
    → IsMarked h (insert_before l p b)
insert_before-IsMarked h l p b m n = record {
  below = insert_before-All (λ q. q < h.next) l p b n.allocated m.below;
  distinct = insert_before-Distinct l p b n.above m.distinct;
  others = insert_before_unmarked (is_last h) l p b n.unmarked m.others;
  end = λ q e. m.end q (sym (insert_before-back l p b) ∙ e);
}

remove-IsMarked :
    (h : Heap) (l : List ℕ) (p : ℕ) → IsMarked h l → IsMarked (remove h l p).0 (remove h l p).1
unfolding remove
remove-IsMarked h l p m = elim (Bool-cases (holds l p)) [ inl e ↦ rw e found | inr e ↦ rw e m ]
  where
    rest : List ℕ
    rest = erase_first l p

    h' : Heap
    h' = set_last_of h (back rest) true

    marks : (q : ℕ) → is_last h' q ≡ marked_of (back rest) true (is_last h) q
    marks = is_last-set_last_of h (back rest) true

    distinct : Distinct rest
    distinct = erase_first-Distinct l p m.distinct

    found : IsMarked h' rest
    found = record {
      below =
          subst (λ k. All (λ q. q < k) rest) (sym (set_last_of-next h (back rest) true))
            (erase_first-All (λ q. q < h.next) l p m.below);
      distinct = distinct;
      others =
          mark_back (is_last h) (is_last h') rest
            (λ q k. marks q ∙ marked_elsewhere (back rest) true (is_last h) q k) distinct
            (erase_first_unmarked (is_last h) l p m.others);
      end = λ q e. marks q ∙ rw e (marked_here q true (is_last h));
    }

-- What a class's constructor makes is not marked.
abbrev pub IsUnmarked : Call → Type 0
IsUnmarked (to_front b) = has_flag b.procflags last_block ≡ false
IsUnmarked (to_back b) = has_flag b.procflags last_block ≡ false
IsUnmarked (ahead_of b before) = has_flag b.procflags last_block ≡ false
IsUnmarked (takes_out p) = Unit {0}
IsUnmarked clears = Unit {0}

step-IsMarked :
    (h : Heap) (l : List ℕ) (c : Call)
    → IsUnmarked c
    → IsMarked h l
    → IsMarked (step (h, l) c).0 (step (h, l) c).1
unfolding step
step-IsMarked h l (to_front b) u m =
    let (m', n) = create-IsMarked h l b u m in
    push_front-IsMarked (create h b).0 l (create h b).1 m' n
step-IsMarked h l (to_back b) u m =
    let (m', n) = create-IsMarked h l b u m in
    unfold push_back in push_back-IsMarked (create h b).0 l (create h b).1 m' n
step-IsMarked h l (ahead_of b before) u m =
    let (m', n) = create-IsMarked h l b u m in
    insert_before-IsMarked (create h b).0 l (create h b).1 before m' n
step-IsMarked h l (takes_out p) u m = remove-IsMarked h l p m
step-IsMarked h l clears u m = record {
  below = tt;
  distinct = tt;
  others = tt;
  end = λ p e. absurd (unfold back in cc);
}

-- A bundle that is well marked, so that its blocks are distinct, its last block is marked as the
-- last one, and no other block of it is marked, stays well marked through any calls that add and
-- take out blocks one behind the other, if every new block comes without the mark.
pub run-IsMarked :
    (cs : List Call) (h : Heap) (l : List ℕ)
    → All IsUnmarked cs
    → IsMarked h l
    → IsMarked (run (h, l) cs).0 (run (h, l) cs).1
unfolding run
run-IsMarked [] h l u m = m
run-IsMarked (c ∷ cs) h l u m =
    run-IsMarked cs (step (h, l) c).0 (step (h, l) c).1 u.1 (step-IsMarked h l c u.0 m)
