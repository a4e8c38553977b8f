-- ===== src/Eid/Order.antt =====
-- The orders of texts and of EIDs.
use ibrdtn.Base.{
  ℕ, ◌≡◌, inl, inr, refl, ap, Bool, true, false, List, [], ◌∷◌, arith, Bool-cases, Trichotomy,
  below, level, above, trichotomy,
}
use ibrdtn.Eid.{Eid, text_eq, text_lt, eid_eq, eid_lt, get_string, colon, cut_at}
use ibrdtn.Eid.Parts.{Without, cut_at-Without}

-- How two values compare under a test `lt` and an equality test `eq`: exactly one of three ways.
pub data Compares {ℓ} {A : Type ℓ} (lt eq : A → A → Bool) (a b : A) : Type ℓ where
  less : lt a b ≡ true → eq a b ≡ false → lt b a ≡ false → eq b a ≡ false → Compares lt eq a b
  same :
      a ≡ b → lt a b ≡ false → eq a b ≡ true → lt b a ≡ false → eq b a ≡ true → Compares lt eq a b
  greater : lt a b ≡ false → eq a b ≡ false → lt b a ≡ true → eq b a ≡ false → Compares lt eq a b

text_Compares-cons :
    (x y : ℕ) (xs ys : List ℕ)
    → Compares text_lt text_eq xs ys
    → Trichotomy x y
    → Compares text_lt text_eq (x ∷ xs) (y ∷ ys)
unfolding text_lt text_eq
text_Compares-cons x y xs ys c (below h) =
    less (ground arith) (ground arith) (ground arith) (ground arith)
text_Compares-cons x y xs ys c (above h) =
    greater (ground arith) (ground arith) (ground arith) (ground arith)
text_Compares-cons x y xs ys (less p q r s) (level h) =
    less (ground arith) (ground arith) (ground arith) (ground arith)
text_Compares-cons x y xs ys (same e p q r s) (level h) =
    same (ground arith) (ground arith) (ground arith) (ground arith) (ground arith)
text_Compares-cons x y xs ys (greater p q r s) (level h) =
    greater (ground arith) (ground arith) (ground arith) (ground arith)

pub text_Compares : (a b : List ℕ) → Compares text_lt text_eq a b
text_Compares [] [] = unfold text_lt text_eq in same refl refl refl refl refl
text_Compares [] (y ∷ ys) = unfold text_lt text_eq in less refl refl refl refl
text_Compares (x ∷ xs) [] = unfold text_lt text_eq in greater refl refl refl refl
text_Compares (x ∷ xs) (y ∷ ys) =
    text_Compares-cons x y xs ys (text_Compares xs ys) (trichotomy x y)

pub text_lt_trans : (a b c : List ℕ) → text_lt a b ≡ true → text_lt b c ≡ true → text_lt a c ≡ true
unfolding text_lt
text_lt_trans [] [] c p q = cc
text_lt_trans [] (y ∷ b) [] p q = cc
text_lt_trans [] (y ∷ b) (z ∷ c) p q = refl
text_lt_trans (x ∷ a) [] c p q = cc
text_lt_trans (x ∷ a) (y ∷ b) [] p q = cc
text_lt_trans (x ∷ a) (y ∷ b) (z ∷ c) p q = ground (arith, text_lt_trans a b c)

-- Two EIDs without a colon in their schemes have the same text only if they are the same.
get_string-injective :
    (a b : Eid)
    → Without colon a.scheme
    → Without colon b.scheme
    → get_string a ≡ get_string b
    → a ≡ b
unfolding get_string
get_string-injective a b ha hb e = ground (
  arith,
  cut_at-Without colon a.scheme a.ssp ha,
  cut_at-Without colon b.scheme b.ssp hb,
  ap (cut_at colon) e,
)

pub text_eq_refl : (a : List ℕ) → text_eq a a ≡ true
unfolding text_eq
text_eq_refl [] = refl
text_eq_refl (x ∷ a) = ground (arith, text_eq_refl a)

pub text_eq→eq : (a b : List ℕ) → text_eq a b ≡ true → a ≡ b
unfolding text_eq
text_eq→eq [] [] e = refl
text_eq→eq [] (y ∷ b) e = cc
text_eq→eq (x ∷ a) [] e = cc
text_eq→eq (x ∷ a) (y ∷ b) e = ground (arith, text_eq→eq a b)

text_lt_irrefl : (a : List ℕ) → text_lt a a ≡ false
unfolding text_lt
text_lt_irrefl [] = refl
text_lt_irrefl (x ∷ a) = ground (arith, text_lt_irrefl a)

pub eid_eq_refl : (a : Eid) → eid_eq a a ≡ true
unfolding eid_eq
eid_eq_refl a = ground (arith, text_eq_refl a.ssp, text_eq_refl a.scheme)

pub eid_eq→eq : (a b : Eid) → eid_eq a b ≡ true → a ≡ b
unfolding eid_eq
eid_eq→eq a b e = ground (arith, text_eq→eq a.ssp b.ssp, text_eq→eq a.scheme b.scheme)

pub eid_lt_irrefl : (a : Eid) → eid_lt a a ≡ false
unfolding eid_lt
eid_lt_irrefl a = text_lt_irrefl (get_string a)

lt→ne : (a b : Eid) → eid_lt a b ≡ true → eid_eq a b ≡ false
lt→ne a b h = elim (Bool-cases (eid_eq a b)) [
  | inr n ↦ n
  | inl e ↦ cc (eid_lt_irrefl b, eid_eq→eq a b e)
]

lt→ne_sym : (a b : Eid) → eid_lt a b ≡ true → eid_eq b a ≡ false
lt→ne_sym a b h = elim (Bool-cases (eid_eq b a)) [
  | inr n ↦ n
  | inl e ↦ cc (eid_lt_irrefl b, eid_eq→eq b a e)
]

-- Of two EIDs without a colon in their schemes exactly one of less, equal and greater holds by
-- `operator<` and `operator==`, and `==` holds of equal ones only.
pub eid_Compares :
    (a b : Eid) → Without colon a.scheme → Without colon b.scheme → Compares eid_lt eid_eq a b
unfolding eid_lt
eid_Compares a b ha hb = elim (text_Compares (get_string a) (get_string b)) [
  | less p q r s ↦ less p (lt→ne a b p) r (lt→ne_sym a b p)
  | greater p q r s ↦ greater p (lt→ne_sym b a r) r (lt→ne b a r)
  | same e p q r s ↦
      let w : a ≡ b = get_string-injective a b ha hb e in
      same w p (cc (w, eid_eq_refl a)) r (cc (w, eid_eq_refl a))
]

pub eid_lt_trans : (a b c : Eid) → eid_lt a b ≡ true → eid_lt b c ≡ true → eid_lt a c ≡ true
unfolding eid_lt
eid_lt_trans a b c = text_lt_trans (get_string a) (get_string b) (get_string c)
