-- ===== src/Blocks/Places.antt =====
-- Lists of addresses, and what calls on them do to their last entry: Bundle.cpp.
use ibrdtn.Base.{
  ℕ, ◌<◌, ◌≡◌, ◌≢◌, inl, inr, refl, sym, ◌∙◌, Bool, false, some, List, [], ◌∷◌, ◌++◌, arith, ◌==◌,
  All, All-append, subst, Bool-cases, Option-cases,
}
use ibrdtn.Eid.{is_empty}
use ibrdtn.Blocks.{back, insert_before, erase_first}

-- No block but the last one is marked.
abbrev pub UnmarkedBefore : (ℕ → Bool) → List ℕ → Type 0
UnmarkedBefore f [] = Unit {0}
UnmarkedBefore f (p ∷ ps) = (is_empty ps ≡ false → f p ≡ false) × UnmarkedBefore f ps

abbrev pub Distinct : List ℕ → Type 0
Distinct [] = Unit {0}
Distinct (p ∷ ps) = All (λ q. p ≢ q) ps × Distinct ps

pub back-append : (l : List ℕ) (p : ℕ) → back (l ++ (p ∷ [])) ≡ some p
unfolding back
back-append [] p = refl
back-append (q ∷ qs) p = rw (back-append qs p) refl

pub back_cons : (p q : ℕ) (qs : List ℕ) → back (p ∷ q ∷ qs) ≡ back (q ∷ qs)
unfolding back
back_cons p q qs = elim (Option-cases (back qs)) [ inl e ↦ rw e refl | inr w ↦ rw w.1 refl ]

-- Other marks on the same blocks.
pub unmarked_map :
    (f g : ℕ → Bool) (l : List ℕ)
    → All (λ p. f p ≡ false → g p ≡ false) l
    → UnmarkedBefore f l
    → UnmarkedBefore g l
unmarked_map f g [] h k = tt
unmarked_map f g (p ∷ ps) h k = (λ e. h.0 (k.0 e), unmarked_map f g ps h.1 k.1)

-- Without its mark the last block is as the others.
pub back_unmarked :
    (f : ℕ → Bool) (g : ℕ → Bool) (l : List ℕ)
    → ((q : ℕ) → back l ≡ some q → g q ≡ false)
    → All (λ q. f q ≡ false → g q ≡ false) l
    → UnmarkedBefore f l
    → All (λ q. g q ≡ false) l
back_unmarked f g [] b h u = tt
back_unmarked f g (p ∷ []) b h u = (b p (unfold back in refl), tt)
back_unmarked f g (p ∷ q ∷ qs) b h u =
    (h.0 (u.0 refl), back_unmarked f g (q ∷ qs) (λ r e. b r (back_cons p q qs ∙ e)) h.1 u.1)

pub unmarked_append :
    (g : ℕ → Bool) (l : List ℕ) (p : ℕ)
    → All (λ q. g q ≡ false) l
    → UnmarkedBefore g (l ++ (p ∷ []))
unmarked_append g [] p h = (λ e. cc, tt)
unmarked_append g (q ∷ qs) p h = (λ e. h.0, unmarked_append g qs p h.1)

pub some_inj : {x y : ℕ} → some x ≡ some y → x ≡ y
some_inj e = cc

pub back_in : (P : ℕ → Type 0) (l : List ℕ) (p : ℕ) → All P l → back l ≡ some p → P p
back_in P [] p h e = absurd (unfold back in cc)
back_in P (q ∷ []) p h e = single (unfold back in e)
  where
    single : some q ≡ some p → P p
    single e = subst P (some_inj e) h.0
back_in P (q ∷ r ∷ rs) p h e = back_in P (r ∷ rs) p h.1 (sym (back_cons q r rs) ∙ e)

pub Distinct-append :
    (l : List ℕ) (p : ℕ) → All (λ q. q < p) l → Distinct l → Distinct (l ++ (p ∷ []))
Distinct-append [] p h d = (tt, tt)
Distinct-append (q ∷ qs) p h d =
    (All-append (λ r. q ≢ r) qs (p ∷ []) d.0 (omega (arith, h.0), tt), Distinct-append qs p h.1 d.1)

pub All_weaken : (P Q : ℕ → Type 0) → ((p : ℕ) → P p → Q p) → (l : List ℕ) → All P l → All Q l
All_weaken P Q f [] h = tt
All_weaken P Q f (p ∷ ps) h = (f p h.0, All_weaken P Q f ps h.1)

pub insert_before-empty : (l : List ℕ) (p b : ℕ) → is_empty (insert_before l p b) ≡ is_empty l
unfolding insert_before
insert_before-empty [] p b = refl
insert_before-empty (q ∷ qs) p b = elim (Bool-cases (q == b)) [
  | inl e ↦ rw e refl
  | inr e ↦ rw e refl
]

pub same_back : (q : ℕ) (xs ys : List ℕ) → back xs ≡ back ys → back (q ∷ xs) ≡ back (q ∷ ys)
unfolding back
same_back q xs ys e = rw e refl

pub insert_before-back : (l : List ℕ) (p b : ℕ) → back (insert_before l p b) ≡ back l
unfolding insert_before
insert_before-back [] p b = refl
insert_before-back (q ∷ qs) p b = elim (Bool-cases (q == b)) [
  | inl e ↦ rw e (back_cons p q qs)
  | inr e ↦ rw e (same_back q (insert_before qs p b) qs (insert_before-back qs p b))
]

pub insert_before-All :
    (P : ℕ → Type 0) (l : List ℕ) (p b : ℕ) → P p → All P l → All P (insert_before l p b)
unfolding insert_before
insert_before-All P [] p b k h = tt
insert_before-All P (q ∷ qs) p b k h = elim (Bool-cases (q == b)) [
  | inl e ↦ rw e (k, h)
  | inr e ↦ rw e (h.0, insert_before-All P qs p b k h.1)
]

pub insert_before-Distinct :
    (l : List ℕ) (p b : ℕ) → All (λ q. q < p) l → Distinct l → Distinct (insert_before l p b)
unfolding insert_before
insert_before-Distinct [] p b k h = tt
insert_before-Distinct (q ∷ qs) p b k h = elim (Bool-cases (q == b)) [
  | inl e ↦ rw e (All_weaken (λ r. r < p) (λ r. p ≢ r) (λ r k. omega (arith, k)) (q ∷ qs) k, h)
  | inr e ↦ rw e (
    insert_before-All (λ r. q ≢ r) qs p b (omega (arith, k.0)) h.0,
    insert_before-Distinct qs p b k.1 h.1,
  )
]

pub insert_before_unmarked :
    (f : ℕ → Bool) (l : List ℕ) (p b : ℕ)
    → f p ≡ false
    → UnmarkedBefore f l
    → UnmarkedBefore f (insert_before l p b)
unfolding insert_before
insert_before_unmarked f [] p b k h = tt
insert_before_unmarked f (q ∷ qs) p b k h = elim (Bool-cases (q == b)) [
  | inl e ↦ rw e (λ n. k, h)
  | inr e ↦
      rw e (λ n. h.0 (sym (insert_before-empty qs p b) ∙ n), insert_before_unmarked f qs p b k h.1)
]

pub erase_first-All : (P : ℕ → Type 0) (l : List ℕ) (p : ℕ) → All P l → All P (erase_first l p)
unfolding erase_first
erase_first-All P [] p h = tt
erase_first-All P (q ∷ qs) p h = elim (Bool-cases (q == p)) [
  | inl e ↦ rw e h.1
  | inr e ↦ rw e (h.0, erase_first-All P qs p h.1)
]

pub erase_first-Distinct : (l : List ℕ) (p : ℕ) → Distinct l → Distinct (erase_first l p)
unfolding erase_first
erase_first-Distinct [] p h = tt
erase_first-Distinct (q ∷ qs) p h = elim (Bool-cases (q == p)) [
  | inl e ↦ rw e h.1
  | inr e ↦ rw e (erase_first-All (λ r. q ≢ r) qs p h.0, erase_first-Distinct qs p h.1)
]

pub erase_first-empty :
    (l : List ℕ) (p : ℕ) → is_empty (erase_first l p) ≡ false → is_empty l ≡ false
unfolding erase_first
erase_first-empty [] p h = h
erase_first-empty (q ∷ qs) p h = refl

pub erase_first_unmarked :
    (f : ℕ → Bool) (l : List ℕ) (p : ℕ) → UnmarkedBefore f l → UnmarkedBefore f (erase_first l p)
unfolding erase_first
erase_first_unmarked f [] p h = tt
erase_first_unmarked f (q ∷ qs) p h = elim (Bool-cases (q == p)) [
  | inl e ↦ rw e h.1
  | inr e ↦ rw e (λ n. h.0 (erase_first-empty qs p n), erase_first_unmarked f qs p h.1)
]

-- Marks that differ at the last block only.
pub mark_back :
    (f g : ℕ → Bool) (l : List ℕ)
    → ((q : ℕ) → ((b : ℕ) → back l ≡ some b → q ≢ b) → g q ≡ f q)
    → Distinct l
    → UnmarkedBefore f l
    → UnmarkedBefore g l
mark_back f g [] h d u = tt
mark_back f g (p ∷ []) h d u = (λ e. cc, tt)
mark_back f g (p ∷ q ∷ qs) h d u = (
  λ e. h p (λ b k. back_in (λ r. p ≢ r) (q ∷ qs) b d.0 (sym (back_cons p q qs) ∙ k)) ∙ u.0 e,
  mark_back f g (q ∷ qs) (λ x k. h x (λ b e. k b (sym (back_cons p q qs) ∙ e))) d.1 u.1,
)
