-- ===== src/Blocks/Flagged.antt =====
-- Which blocks are marked after a call of `set`: Block.cpp.
use ibrdtn.Base.{
  ℕ, ◌≡◌, ◌≢◌, inl, inr, refl, Bool, true, false, Option, none, some, arith, ◌==◌, if◌then◌else◌,
  Bool-cases,
}
use ibrdtn.Flags.{has_flag, has_flag-put_flag}
use ibrdtn.Blocks.{Heap, last_block, set_last, set_last_of}
use ibrdtn.Blocks.Places.{some_inj}

-- Whether the block at an address is marked as the last one.
abbrev pub is_last : Heap → ℕ → Bool
is_last h p = has_flag (h.at p).procflags last_block

pub is_last-set_last :
    (h : Heap) (p q : ℕ) (value : Bool)
    → is_last (set_last h p value) q ≡ (if q == p then value else is_last h q)
unfolding set_last
is_last-set_last h p q value = elim (Bool-cases (q == p)) [
  | inl e ↦ rw e (has_flag-put_flag (h.at p).procflags last_block value (omega arith))
  | inr e ↦ rw e refl
]

pub set_last_of-next :
    (h : Heap) (o : Option ℕ) (value : Bool) → (set_last_of h o value).next ≡ h.next
unfolding set_last_of set_last
set_last_of-next h none value = refl
set_last_of-next h (some p) value = refl

pub marked_of : Option ℕ → Bool → (ℕ → Bool) → ℕ → Bool
marked_of none value f q = f q
marked_of (some p) value f q = if q == p then value else f q

pub is_last-set_last_of :
    (h : Heap) (o : Option ℕ) (value : Bool) (q : ℕ)
    → is_last (set_last_of h o value) q ≡ marked_of o value (is_last h) q
unfolding set_last_of marked_of
is_last-set_last_of h none value q = refl
is_last-set_last_of h (some p) value q = is_last-set_last h p q value

pub equal_self : (n : ℕ) → (n == n) ≡ true
equal_self n = ground arith

pub equal_no : (q n : ℕ) → q ≢ n → (q == n) ≡ false
equal_no q n k = ground arith

pub marked_here : (q : ℕ) (value : Bool) (f : ℕ → Bool) → marked_of (some q) value f q ≡ value
unfolding marked_of
marked_here q value f = rw (equal_self q) refl

pub marked_false :
    (o : Option ℕ) (f : ℕ → Bool) (q : ℕ) → f q ≡ false → marked_of o false f q ≡ false
unfolding marked_of
marked_false none f q e = e
marked_false (some p) f q e = elim (Bool-cases (q == p)) [ inl c ↦ rw c refl | inr c ↦ rw c e ]

pub marked_elsewhere :
    (o : Option ℕ) (value : Bool) (f : ℕ → Bool) (q : ℕ)
    → ((p : ℕ) → o ≡ some p → q ≢ p)
    → marked_of o value f q ≡ f q
unfolding marked_of
marked_elsewhere none value f q h = refl
marked_elsewhere (some p) value f q h = rw (equal_no q p (h p refl)) refl

pub equal_here : {p q : ℕ} → some p ≡ some q → (q == p) ≡ true
equal_here {p = p} {q = q} e = same p q (some_inj e)
  where
    same : (p q : ℕ) → p ≡ q → (q == p) ≡ true
    same p q e = ground arith
