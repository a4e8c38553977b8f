-- ===== src/Dictionary/Entries.antt =====
-- A dictionary as a list of texts: where a text stands, and what is found there.
use ibrdtn.Base.{
  ℕ, zero, suc, ◌+◌, ◌<◌, ◌≡◌, inl, inr, refl, sym, ap, ◌∙◌, Bool, true, false, ◌||◌, some, List,
  [], ◌∷◌, ◌++◌, arith, length, if◌then◌else◌, length-append, All, All-append, Bool-cases,
}
use mathlib.Core.List.{append_assoc}
use ibrdtn.Eid.{text_eq, is_empty}
use ibrdtn.Eid.Parts.{Without}
use ibrdtn.Eid.Order.{text_eq→eq}
use ibrdtn.Dictionary.{Dictionary, c_string, behind, get_loop, exists_loop, exists, add_text, seek}

-- The bytes of a list of texts.
unfoldable pub flat : List (List ℕ) → List ℕ
flat [] = []
flat (t ∷ ts) = t ++ (0 ∷ flat ts)

unfoldable pub has : List (List ℕ) → List ℕ → Bool
has [] v = false
has (t ∷ ts) v = text_eq t v || has ts v

c_string-entry : (t s : List ℕ) → Without 0 t → c_string (t ++ (0 ∷ s)) ≡ t
unfolding c_string
c_string-entry [] s h = refl
c_string-entry (c ∷ t) s h = ground (arith, c_string-entry t s h.1)

behind-entry : (t s : List ℕ) → Without 0 t → behind (t ++ (0 ∷ s)) ≡ some s
unfolding behind
behind-entry [] s h = refl
behind-entry (c ∷ t) s h = ground (arith, behind-entry t s h.1)

entry_not_empty : (t s : List ℕ) → is_empty (t ++ (0 ∷ s)) ≡ false
entry_not_empty [] s = refl
entry_not_empty (c ∷ t) s = refl

seek-entry : (t s : List ℕ) (p : ℕ) → seek (length t + suc p) (t ++ (0 ∷ s)) ≡ seek p s
seek-entry [] s p = let e : 0 + suc p ≡ suc p = omega arith in rw e
seek-entry (c ∷ t) s p =
    let e : suc (length t) + suc p ≡ suc (length t + suc p) = omega arith in rw e (seek-entry t s p)

exists_loop-has :
    (fuel : ℕ) (ts : List (List ℕ)) (v : List ℕ)
    → length (flat ts) < fuel
    → All (Without 0) ts
    → exists_loop fuel (flat ts) v ≡ has ts v
unfolding exists_loop flat has
exists_loop-has zero ts v h k = absurd (omega arith)
exists_loop-has (suc fuel) [] v h k = refl
exists_loop-has (suc fuel) (t ∷ ts) v h k =
    rw (entry_not_empty t (flat ts), c_string-entry t (flat ts) k.0, behind-entry t (flat ts) k.0)
      (rw (exists_loop-has fuel ts v (omega (arith, length-append t (0 ∷ flat ts))) k.1)
        (split (text_eq t v) (has ts v)))
  where
    split : (a b : Bool) → (if a then true else b) ≡ (a || b)
    split a b = ground arith

get_loop-hit :
    (fuel : ℕ) (t s : List ℕ) (pos : ℕ) (v : List ℕ)
    → Without 0 t
    → text_eq t v ≡ true
    → get_loop (suc fuel) (t ++ (0 ∷ s)) pos v ≡ some pos
unfolding get_loop
get_loop-hit fuel t s pos v k hit = rw (c_string-entry t s k, hit)

get_loop-miss :
    (fuel : ℕ) (t s : List ℕ) (pos : ℕ) (v : List ℕ)
    → Without 0 t
    → text_eq t v ≡ false
    → get_loop (suc fuel) (t ++ (0 ∷ s)) pos v ≡ get_loop fuel s (pos + length t + 1) v
unfolding get_loop
get_loop-miss fuel t s pos v k miss = rw (behind-entry t s k) (rw (c_string-entry t s k) (rw miss))

-- The loop of `get` finds a text of the list at a position where it stands with its NUL.
pub get_loop-has :
    (fuel : ℕ) (ts : List (List ℕ)) (pos : ℕ) (v : List ℕ)
    → length (flat ts) < fuel
    → All (Without 0) ts
    → has ts v ≡ true
    → (p : ℕ) × (rest : List ℕ) × (get_loop fuel (flat ts) pos v ≡ some (pos + p))
      × (seek p (flat ts) ≡ some (v ++ (0 ∷ rest)))
unfolding flat has
get_loop-has zero ts pos v h k m = absurd (omega arith)
get_loop-has (suc fuel) [] pos v h k m = cc
get_loop-has (suc fuel) (t ∷ ts) pos v h k m = elim (Bool-cases (text_eq t v)) [
  | inl hit ↦ (
    0,
    flat ts,
    get_loop-hit fuel t (flat ts) pos v k.0 hit ∙ ap some (omega arith),
    ap (λ w. some (w ++ (0 ∷ flat ts))) (text_eq→eq t v hit),
  )
  | inr miss ↦
      let (p, rest, found, stands) =
        get_loop-has fuel ts (pos + length t + 1) v (omega (arith, length-append t (0 ∷ flat ts)))
          k.1 (rw miss at m) in
      (
        length t + suc p,
        rest,
        get_loop-miss fuel t (flat ts) pos v k.0 miss ∙ found ∙ ap some (omega arith),
        seek-entry t (flat ts) p ∙ stands,
      )
]

-- A dictionary that holds the texts `ts`, none with a NUL, and that can be read.
pub record Holds (d : Dictionary) (ts : List (List ℕ)) : Type 0 where
  pub bytes : d.bytes ≡ flat ts
  pub no_nul : All (Without 0) ts
  pub good : d.failed ≡ false

flat-append : (ts : List (List ℕ)) (v : List ℕ) → flat (ts ++ (v ∷ [])) ≡ flat ts ++ (v ++ (0 ∷ []))
unfolding flat
flat-append [] v = refl
flat-append (t ∷ ts) v = rw (flat-append ts v) (sym (append_assoc t (0 ∷ flat ts) (v ++ (0 ∷ []))))

has-append :
    (ts : List (List ℕ)) (v w : List ℕ) → has (ts ++ (v ∷ [])) w ≡ (has ts w || text_eq v w)
unfolding has
has-append [] v w = ground arith
has-append (t ∷ ts) v w = ground (arith, has-append ts v w)

-- The texts after `add`.
unfoldable pub with_text : List (List ℕ) → List ℕ → List (List ℕ)
with_text ts v = if has ts v then ts else ts ++ (v ∷ [])

pub has-with_text :
    (ts : List (List ℕ)) (v w : List ℕ) → has (with_text ts v) w ≡ (has ts w || text_eq v w)
unfolding with_text
has-with_text ts v w = elim (Bool-cases (has ts v)) [
  | inr new ↦ rw new (has-append ts v w)
  | inl old ↦ rw old (elim (Bool-cases (text_eq v w)) [
    | inr n ↦ ground arith
    | inl y ↦ let e = text_eq→eq v w y in let f : has ts w ≡ true = cc in ground arith
  ])
]

pub add_text-Holds :
    (d : Dictionary) (ts : List (List ℕ)) (v : List ℕ)
    → Holds d ts
    → Without 0 v
    → Holds (add_text d v) (with_text ts v)
unfolding add_text exists with_text
add_text-Holds d ts v h k =
    let same : exists_loop (length d.bytes + 1) d.bytes v ≡ has ts v =
      rw h.bytes (exists_loop-has (length (flat ts) + 1) ts v (omega arith) h.no_nul) in
    elim (Bool-cases (has ts v)) [
      | inl old ↦ rw (same, old) (record { bytes = h.bytes; no_nul = h.no_nul; good = h.good })
      | inr new ↦
          rw (same, new, h.good)
            (record {
              bytes = ap (λ b. b ++ (v ++ (0 ∷ []))) h.bytes ∙ sym (flat-append ts v);
              no_nul = All-append (Without 0) ts (v ∷ []) h.no_nul (k, tt);
              good = refl;
            })
    ]
