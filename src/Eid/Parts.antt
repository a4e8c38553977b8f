-- ===== src/Eid/Parts.antt =====
-- The host and the application part of an EID.
use ibrdtn.Base.{
  ℕ, ◌≡◌, ◌≢◌, ◌⊎◌, inl, inr, refl, sym, ap, ◌∙◌, Bool, true, false, ◌&&◌, Option, none, some, List,
  [], ◌∷◌, ◌++◌, arith, ◌==◌, if◌then◌else◌, All, subst, Bool-cases, Option-cases,
}
use mathlib.Core.List.{append_assoc, append-nil}
use ibrdtn.Eid.{
  Eid, cut_at, leading, slash, dot, is_empty, ssp_parts, get_host, get_application, has_application,
  is_cbhe,
}

cut_at-append : (c : ℕ) (s a b : List ℕ) → cut_at c s ≡ some (a, b) → s ≡ a ++ (c ∷ b)
unfolding cut_at
cut_at-append c [] a b e = cc
cut_at-append c (x ∷ s) a b e = elim (Option-cases (cut_at c s)) [
  | inl q ↦ ground arith
  | inr ((a', b'), q) ↦ ground (arith, cut_at-append c s a' b' q)
]

-- A text without the character is not cut.
abbrev pub Without : ℕ → List ℕ → Type 0
Without c = All (λ x. x ≢ c)

pub cut_at-eq_none : (c : ℕ) (s : List ℕ) → Without c s → cut_at c s ≡ none
unfolding cut_at
cut_at-eq_none c [] h = refl
cut_at-eq_none c (x ∷ s) h = ground (arith, cut_at-eq_none c s h.1)

pub cut_at-Without : (c : ℕ) (a b : List ℕ) → Without c a → cut_at c (a ++ (c ∷ b)) ≡ some (a, b)
unfolding cut_at
cut_at-Without c [] b h = ground arith
cut_at-Without c (x ∷ a) b h = ground (arith, cut_at-Without c a b h.1)

pub Without-cut_at : (c : ℕ) (s a b : List ℕ) → cut_at c s ≡ some (a, b) → Without c a
unfolding cut_at
Without-cut_at c [] a b e = cc
Without-cut_at c (x ∷ s) a b e = elim (Option-cases (cut_at c s)) [
  | inl q ↦ let shape : a ≡ [] = ground arith in subst (Without c) (sym shape) tt
  | inr ((a', b'), q) ↦ elim (Bool-cases (x == c)) [
    | inl hit ↦ let shape : a ≡ [] = ground arith in subst (Without c) (sym shape) tt
    | inr miss ↦
        let shape : x ∷ a' ≡ a = ground arith in
        subst (Without c) shape ((λ w. absurd (ground arith)), Without-cut_at c s a' b' q)
  ]
]

leading-append : (c : ℕ) (s : List ℕ) → (leading c s).0 ++ (leading c s).1 ≡ s
unfolding leading
leading-append c [] = refl
leading-append c (x ∷ s) = ground (arith, leading-append c s)

-- What the two texts of `ssp_parts` are of the SSP.
Splits : Eid → Option (List ℕ × Option (List ℕ)) → Type 0
Splits e none = Unit {0}
Splits e (some (host, none)) = e.ssp ≡ host
Splits e (some (host, some app)) = e.ssp ≡ host ++ ((if is_cbhe e then dot else slash) ∷ app)

cbhe_Splits : (e : Eid) → is_cbhe e ≡ true → Splits e (ssp_parts e)
unfolding ssp_parts Splits
cbhe_Splits e ipn = elim (Option-cases (cut_at dot e.ssp)) [
  | inl q ↦ rw (ipn, q) refl
  | inr ((a, b), q) ↦ rw (ipn, q) (rw ipn (cut_at-append dot e.ssp a b q))
]

slash_Splits : (e : Eid) → is_cbhe e ≡ false → Splits e (ssp_parts e)
unfolding ssp_parts Splits
slash_Splits e other = elim (Bool-cases (is_empty (leading slash e.ssp).1)) [
  | inl bare ↦ rw (other, bare) tt
  | inr solid ↦ elim (Option-cases (cut_at slash (leading slash e.ssp).1)) [
    | inl q ↦ rw (other, solid, q) refl
    | inr ((a, b), q) ↦
        rw (other, solid, q)
          (rw other (
            sym (leading-append slash e.ssp)
            ∙ ap (λ r. (leading slash e.ssp).0 ++ r) (cut_at-append slash _ a b q)
            ∙ sym (append_assoc (leading slash e.ssp).0 a (slash ∷ b))))
  ]
]

ssp_parts-Splits : (e : Eid) → Splits e (ssp_parts e)
ssp_parts-Splits e = elim (Bool-cases (is_cbhe e)) [
  | inl y ↦ cbhe_Splits e y
  | inr n ↦ slash_Splits e n
]

reassemble :
    (e : Eid) (r : Option (List ℕ × Option (List ℕ))) (host app : List ℕ) (has : Bool)
    → ssp_parts e ≡ r
    → Splits e r
    → get_host e ≡ some host
    → get_application e ≡ some app
    → has_application e ≡ some has
    → (e.ssp ≡ host ++ (if is_cbhe e && has then dot ∷ app else app)) × ((has ≡ true) ⊎ (app ≡ []))
unfolding Splits get_host get_application has_application
reassemble e none host app has q shape h a b = ground arith
reassemble e (some (host', none)) host app has q shape h a b = ground (arith, append-nil host)
reassemble e (some (host', some app')) host app has q shape h a b = ground arith

-- Where the three accessors return, the host and the application part make up the SSP: with the
-- dot between them in an "ipn" EID that has an application part, and with nothing between them
-- otherwise; and there is text in the application part only if the EID is said to have one.
host_application :
    (e : Eid) (host app : List ℕ) (has : Bool)
    → get_host e ≡ some host
    → get_application e ≡ some app
    → has_application e ≡ some has
    → (e.ssp ≡ host ++ (if is_cbhe e && has then dot ∷ app else app)) × ((has ≡ true) ⊎ (app ≡ []))
host_application e host app has = reassemble e (ssp_parts e) host app has refl (ssp_parts-Splits e)
