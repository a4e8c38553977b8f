-- ===== src/Base/Sets.antt =====
-- std::set over a comparison: a list in ascending order. Two elements of which neither is less are
-- the same to the set, whatever `operator==` says of them.
use mathlib.Core.Path.{◌≡◌}
use mathlib.Core.Logic.{inl, inr}
use mathlib.Core.Bool.{Bool, true, false, not, ◌&&◌, ◌||◌}
use mathlib.Core.List.{List, [], ◌∷◌}
use mathlib.Core.Option.{Option, none, some}
use ibrdtn.Base.Tests.{if◌then◌else◌, Bool-cases}
use ibrdtn.Base.Lists.{All}

module _ {ℓ} {A : Type ℓ} (lt : A → A → Bool) where
  -- Neither is less.
  abbrev pub equivalent : A → A → Bool
  equivalent a b = not (lt a b) && not (lt b a)

  unfoldable pub insert : A → List A → List A
  insert x [] = x ∷ []
  insert x (y ∷ ys) =
      let rest = insert x ys in if lt x y then x ∷ y ∷ ys else if lt y x then y ∷ rest else y ∷ ys

  -- The element of the set that is equivalent to `x`.
  unfoldable pub find : A → List A → Option A
  find x [] = none
  find x (y ∷ ys) = let rest = find x ys in if equivalent y x then some y else rest

  unfoldable pub contains : A → List A → Bool
  contains x [] = false
  contains x (y ∷ ys) = equivalent y x || contains x ys

  unfoldable pub erase : A → List A → List A
  erase x [] = []
  erase x (y ∷ ys) = let rest = erase x ys in if equivalent y x then rest else y ∷ rest

  -- Each element is less than all behind it.
  abbrev pub Ascending : List A → Type 0
  Ascending [] = Unit {0}
  Ascending (x ∷ xs) = All (λ y. lt x y ≡ true) xs × Ascending xs

  pub All-insert {κ} : (P : A → Type κ) (x : A) (xs : List A) → P x → All P xs → All P (insert x xs)
  unfolding insert
  All-insert P x [] p h = (p, tt)
  All-insert P x (y ∷ ys) p h = elim (Bool-cases (lt x y)) [
    | inl a ↦ rw a (p, h)
    | inr b ↦ elim (Bool-cases (lt y x)) [
      | inl c ↦ rw (b, c) (h.0, All-insert P x ys p h.1)
      | inr d ↦ rw (b, d) (h.0, h.1)
    ]
  ]

  pub All-erase {κ} : (P : A → Type κ) (x : A) (xs : List A) → All P xs → All P (erase x xs)
  unfolding erase
  All-erase P x [] h = tt
  All-erase P x (y ∷ ys) h = elim (Bool-cases (equivalent y x)) [
    | inl a ↦ rw a (All-erase P x ys h.1)
    | inr b ↦ rw b (h.0, All-erase P x ys h.1)
  ]

  module _ (trans : (a b c : A) → lt a b ≡ true → lt b c ≡ true → lt a c ≡ true) where
    All-above :
        (x y : A) (ys : List A)
        → lt x y ≡ true
        → All (λ z. lt y z ≡ true) ys
        → All (λ z. lt x z ≡ true) ys
    All-above x y [] h k = tt
    All-above x y (z ∷ ys) h k = (trans x y z h k.0, All-above x y ys h k.1)

    pub insert-Ascending : (x : A) (xs : List A) → Ascending xs → Ascending (insert x xs)
    unfolding insert
    insert-Ascending x [] h = (tt, tt)
    insert-Ascending x (y ∷ ys) h = elim (Bool-cases (lt x y)) [
      | inl a ↦ rw a ((a, All-above x y ys a h.0), h)
      | inr b ↦ elim (Bool-cases (lt y x)) [
        | inl c ↦ rw (b, c) (All-insert (λ z. lt y z ≡ true) x ys c h.0, insert-Ascending x ys h.1)
        | inr d ↦ rw (b, d) h
      ]
    ]

  pub erase-Ascending : (x : A) (xs : List A) → Ascending xs → Ascending (erase x xs)
  unfolding erase
  erase-Ascending x [] h = tt
  erase-Ascending x (y ∷ ys) h = elim (Bool-cases (equivalent y x)) [
    | inl a ↦ rw a (erase-Ascending x ys h.1)
    | inr b ↦ rw b (All-erase (λ z. lt y z ≡ true) x ys h.0, erase-Ascending x ys h.1)
  ]
