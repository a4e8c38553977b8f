-- ===== src/Eid/Parse.antt =====
-- EIDs and their texts.
use ibrdtn.Base.{ℕ, ◌≡◌, refl, Bool, true, false, not, List, [], ◌∷◌, ◌++◌, arith, if◌then◌else◌}
use ibrdtn.Eid.{
  Eid, trim, ltrim, rtrim, skip_blanks, drop_last_blanks, is_blank, is_empty, eid_of_text,
  eid_of_cut, get_string, colon,
}
use ibrdtn.Eid.Parts.{Without, cut_at-Without}

-- A text that neither begins nor ends with a blank.
abbrev pub starts_solid : List ℕ → Bool
starts_solid [] = true
starts_solid (c ∷ s) = not (is_blank c)

abbrev pub ends_solid : List ℕ → Bool
ends_solid [] = true
ends_solid (c ∷ s) = if is_empty s then not (is_blank c) else ends_solid s

drop_last_blanks-ends_solid : (s : List ℕ) → ends_solid s ≡ true → drop_last_blanks s ≡ s
unfolding drop_last_blanks
drop_last_blanks-ends_solid [] h = refl
drop_last_blanks-ends_solid (c ∷ []) h = ground arith
drop_last_blanks-ends_solid (c ∷ d ∷ s) h = rw (drop_last_blanks-ends_solid (d ∷ s) h)

pub trim-solid : (s : List ℕ) → starts_solid s ≡ true → ends_solid s ≡ true → trim s ≡ s
unfolding trim
trim-solid [] a z = unfold ltrim rtrim in refl
trim-solid (c ∷ s) a z = rw (front c s a) (back (c ∷ s) z)
  where
    front : (c : ℕ) (s : List ℕ) → starts_solid (c ∷ s) ≡ true → ltrim (c ∷ s) ≡ c ∷ s
    front c s a = unfold ltrim skip_blanks in ground arith

    back : (s : List ℕ) → ends_solid s ≡ true → rtrim s ≡ s
    back s z = unfold rtrim in rw (drop_last_blanks-ends_solid s z) (if-same (is_empty s) s)
      where
        if-same : (b : Bool) (s : List ℕ) → (if b then s else s) ≡ s
        if-same true s = refl
        if-same false s = refl

starts_solid-append :
    (a b : List ℕ) (c : ℕ)
    → starts_solid a ≡ true
    → is_blank c ≡ false
    → starts_solid (a ++ (c ∷ b)) ≡ true
starts_solid-append [] b c h k = ground arith
starts_solid-append (x ∷ a) b c h k = h

ends_solid-append :
    (a b : List ℕ) (c : ℕ) → ends_solid (c ∷ b) ≡ true → ends_solid (a ++ (c ∷ b)) ≡ true
ends_solid-append [] b c h = h
ends_solid-append (x ∷ []) b c h = h
ends_solid-append (x ∷ y ∷ a) b c h = ends_solid-append (y ∷ a) b c h

-- The parts of an EID that its text keeps: no colon in the scheme, and no blanks at the ends.
pub record IsPlain (e : Eid) : Type 0 where
  pub no_colon : Without colon e.scheme
  pub starts : starts_solid e.scheme ≡ true
  pub ends : ends_solid (colon ∷ e.ssp) ≡ true

-- A plain EID, which has no colon in its scheme and no blank at either end of its text, is the one
-- that its text stands for.
pub eid_of_text-get_string : (e : Eid) → IsPlain e → eid_of_text (get_string e) ≡ e
unfolding eid_of_text get_string eid_of_cut
eid_of_text-get_string e h = ground (
  arith,
  trim-solid (e.scheme ++ (colon ∷ e.ssp)) (starts_solid-append e.scheme e.ssp colon h.starts refl)
      (ends_solid-append e.scheme e.ssp colon h.ends),
  cut_at-Without colon e.scheme e.ssp h.no_colon,
)
