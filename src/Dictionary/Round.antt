-- ===== src/Dictionary/Round.antt =====
-- EIDs through a dictionary: `get` of what `getRef` returns.
use ibrdtn.Base.{
  ℕ, zero, suc, ◌+◌, ◌≤◌, ◌≡◌, refl, ap, ◌∙◌, true, false, some, List, [], ◌∷◌, ◌++◌, arith, length,
  All,
}
use mathlib.Core.Path.{ap₂}
use ibrdtn.Eid.{Eid, is_empty, eid_of_parts}
use ibrdtn.Eid.Parts.{Without}
use ibrdtn.Eid.Parse.{starts_solid, ends_solid, trim-solid}
use ibrdtn.Eid.Order.{text_eq_refl}
use ibrdtn.Dictionary.{
  Dictionary, empty_dictionary, find_text, add_text, add_eid, add_eids, seek, take_chars, read_at,
  get_eid, get_ref, or_npos,
}
use ibrdtn.Dictionary.Entries.{
  flat, has, Holds, with_text, has-with_text, add_text-Holds, get_loop-has,
}

-- A text as a dictionary can carry it: not empty, not longer than the buffer of `get`, without a
-- NUL, and with no blanks at its ends.
pub record IsEntry (t : List ℕ) : Type 0 where
  pub no_nul : Without 0 t
  pub some_char : is_empty t ≡ false
  pub short : length t ≤ 1023
  pub starts : starts_solid t ≡ true
  pub ends : ends_solid t ≡ true

pub record IsReferable (e : Eid) : Type 0 where
  pub scheme : IsEntry e.scheme
  pub ssp : IsEntry e.ssp

take_chars-entry :
    (room : ℕ) (t s : List ℕ) → Without 0 t → length t ≤ room → take_chars room (t ++ (0 ∷ s)) ≡ t
unfolding take_chars
take_chars-entry zero [] s k h = refl
take_chars-entry zero (c ∷ t) s k h = absurd (omega arith)
take_chars-entry (suc room) [] s k h = refl
take_chars-entry (suc room) (c ∷ t) s k h = ground (arith, take_chars-entry room t s k.1)

pub flat_some : (ts : List (List ℕ)) (v : List ℕ) → has ts v ≡ true → is_empty (flat ts) ≡ false
unfolding flat has
flat_some [] v h = cc
flat_some ([] ∷ ts) v h = refl
flat_some ((c ∷ t) ∷ ts) v h = refl

pub find_text-Holds :
    (d : Dictionary) (ts : List (List ℕ)) (v : List ℕ)
    → Holds d ts
    → has ts v ≡ true
    → (p : ℕ) × (rest : List ℕ) × (find_text d v ≡ some p)
      × (seek p d.bytes ≡ some (v ++ (0 ∷ rest)))
unfolding find_text
find_text-Holds d ts v h m =
    let (p, rest, found, stands) =
      get_loop-has (length (flat ts) + 1) ts 0 v (omega arith) h.no_nul m in
    (p, rest, rw (h.bytes, flat_some ts v m) (found ∙ ap some (omega arith)), rw h.bytes stands)

-- A read at a text of the dictionary returns it, and leaves the dictionary readable.
read_at-entry :
    (d : Dictionary) (p : ℕ) (v rest : List ℕ)
    → d.failed ≡ false
    → IsEntry v
    → seek p d.bytes ≡ some (v ++ (0 ∷ rest))
    → ((read_at d p).0 ≡ v) × ((read_at d p).1.failed ≡ false) × ((read_at d p).1.bytes ≡ d.bytes)
unfolding read_at
read_at-entry d p v rest good k stands = rw (good, stands) (take, rw take k.some_char, refl)
  where
    take : take_chars 1023 (v ++ (0 ∷ rest)) ≡ v
    take = take_chars-entry 1023 v rest k.no_nul k.short

plain_parts : (e : Eid) → IsReferable e → eid_of_parts e.scheme e.ssp ≡ e
unfolding eid_of_parts
plain_parts e k = ground (
  arith,
  trim-solid e.scheme k.scheme.starts k.scheme.ends,
  trim-solid e.ssp k.ssp.starts k.ssp.ends,
)

-- `get` at the positions of the two texts.
get_eid-at :
    (d : Dictionary) (ts : List (List ℕ)) (e : Eid) (p q : ℕ) (rest rest' : List ℕ)
    → Holds d ts
    → IsReferable e
    → seek p d.bytes ≡ some (e.scheme ++ (0 ∷ rest))
    → seek q d.bytes ≡ some (e.ssp ++ (0 ∷ rest'))
    → ((get_eid d p q).0 ≡ e) × Holds (get_eid d p q).1 ts
unfolding get_eid
get_eid-at d ts e p q rest rest' h k stands stands' =
    let (a, good, bytes) = read_at-entry d p e.scheme rest h.good k.scheme stands in
    let (b, good', bytes') =
      read_at-entry (read_at d p).1 q e.ssp rest' good k.ssp (rw bytes stands') in
    (
      ap₂ eid_of_parts a b ∙ plain_parts e k,
      record { bytes = bytes' ∙ bytes ∙ h.bytes; no_nul = h.no_nul; good = good' },
    )

-- An EID whose two texts are in a dictionary is found again by its references, and the dictionary
-- can be read on.
pub get_eid-get_ref :
    (d : Dictionary) (ts : List (List ℕ)) (e : Eid)
    → Holds d ts
    → IsReferable e
    → has ts e.scheme ≡ true
    → has ts e.ssp ≡ true
    → ((get_eid d (get_ref d e).0 (get_ref d e).1).0 ≡ e)
      × Holds (get_eid d (get_ref d e).0 (get_ref d e).1).1 ts
unfolding get_ref or_npos
get_eid-get_ref d ts e h k m n =
    let (p, rest, found, stands) = find_text-Holds d ts e.scheme h m in
    let (q, rest', found', stands') = find_text-Holds d ts e.ssp h n in
    rw (found, found') (get_eid-at d ts e p q rest rest' h k stands stands')

with_eid : List (List ℕ) → Eid → List (List ℕ)
with_eid ts e = with_text (with_text ts e.scheme) e.ssp

pub with_eids : List (List ℕ) → List Eid → List (List ℕ)
with_eids ts [] = ts
with_eids ts (e ∷ es) = with_eids (with_eid ts e) es

pub add_eids-Holds :
    (d : Dictionary) (ts : List (List ℕ)) (es : List Eid)
    → Holds d ts
    → All IsReferable es
    → Holds (add_eids d es) (with_eids ts es)
unfolding add_eids add_eid with_eids with_eid
add_eids-Holds d ts [] h k = h
add_eids-Holds d ts (e ∷ es) h k =
    add_eids-Holds (add_text (add_text d e.scheme) e.ssp) (with_eid ts e) es
      (add_text-Holds (add_text d e.scheme) (with_text ts e.scheme) e.ssp
        (add_text-Holds d ts e.scheme h k.0.scheme.no_nul) k.0.ssp.no_nul)
      k.1

has-with_eids :
    (ts : List (List ℕ)) (es : List Eid) (v : List ℕ)
    → has ts v ≡ true
    → has (with_eids ts es) v ≡ true
unfolding with_eids with_eid
has-with_eids ts [] v h = h
has-with_eids ts (e ∷ es) v h =
    has-with_eids (with_eid ts e) es v
      (ground (arith, has-with_text (with_text ts e.scheme) e.ssp v, has-with_text ts e.scheme v))

pub added_texts :
    (ts : List (List ℕ)) (front back : List Eid) (e : Eid)
    → (has (with_eids ts (front ++ (e ∷ back))) e.scheme ≡ true)
      × (has (with_eids ts (front ++ (e ∷ back))) e.ssp ≡ true)
unfolding with_eids with_eid
added_texts ts [] back e = (
  has-with_eids (with_eid ts e) back e.scheme (
      ground (
        arith,
        has-with_text (with_text ts e.scheme) e.ssp e.scheme,
        has-with_text ts e.scheme e.scheme,
        text_eq_refl e.scheme,
      )),
  has-with_eids (with_eid ts e) back e.ssp
      (ground (arith, has-with_text (with_text ts e.scheme) e.ssp e.ssp, text_eq_refl e.ssp)),
)
added_texts ts (f ∷ front) back e = added_texts (with_eid ts f) front back e

-- The dictionary that is built from a list of EIDs gives each of them back for the references that
-- it hands out for it, if every scheme and every SSP is a text of 1 to 1023 characters without a
-- NUL and without blanks at its ends.
pub dictionary_round :
    (front back : List Eid) (e : Eid)
    → All IsReferable (front ++ (e ∷ back))
    → let d = add_eids empty_dictionary (front ++ (e ∷ back)) in
      (get_eid d (get_ref d e).0 (get_ref d e).1).0 ≡ e
dictionary_round front back e k =
    let all = front ++ (e ∷ back) in
    let built =
      add_eids-Holds empty_dictionary [] all
        (unfold flat in record { bytes = refl; no_nul = tt; good = refl }) k in
    let (m, n) = added_texts [] front back e in
    (get_eid-get_ref (add_eids empty_dictionary all) (with_eids [] all) e built
      (middle front back e k) m n).0
  where
    middle :
        (front back : List Eid) (e : Eid) → All IsReferable (front ++ (e ∷ back)) → IsReferable e
    middle [] back e k = k.0
    middle (f ∷ front) back e k = middle front back e k.1
