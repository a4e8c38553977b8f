-- ===== src/Dictionary/References.antt =====
-- The references of one dictionary in another one with the same texts: Dictionary.cpp.
use ibrdtn.Base.{
  ℕ, zero, suc, ◌+◌, ◌≤◌, ◌≡◌, inl, inr, refl, sym, ap, ◌∙◌, true, false, ◌||◌, some, List, [], ◌∷◌,
  ◌++◌, arith, length, ok, length-append, All, subst, Bool-cases,
}
use mathlib.Core.List.{append_assoc}
use ibrdtn.Sdnv.{IsU64}
use ibrdtn.Eid.{Eid, is_empty}
use ibrdtn.Sdnv.Encode.{sdnv_bytes}
use ibrdtn.Sdnv.Stream.{write_sdnv-eq}
use ibrdtn.Dictionary.{
  Dictionary, exists, add_text, add_eid, add_eids, clear_dictionary, write_dictionary, unread,
  drained, find_text, get_eid, get_ref, or_npos, seek,
}
use ibrdtn.Dictionary.Entries.{flat, has, Holds}
use ibrdtn.Dictionary.Round.{
  IsReferable, with_eids, add_eids-Holds, added_texts, find_text-Holds, flat_some, get_eid-get_ref,
}

-- An EID whose texts a dictionary has.
pub record IsIn (ts : List (List ℕ)) (e : Eid) : Type 0 where
  pub referable : IsReferable e
  pub scheme : has ts e.scheme ≡ true
  pub ssp : has ts e.ssp ≡ true

seek_bound : (p : ℕ) (s t : List ℕ) → seek p s ≡ some t → p ≤ length s
seek_bound zero s t h = omega arith
seek_bound (suc p) [] t h = cc
seek_bound (suc p) (c ∷ s) t h = let rest = seek_bound p s t h in omega (arith, rest)

find_text_bound :
    (d : Dictionary) (ts : List (List ℕ)) (v : List ℕ)
    → Holds d ts
    → has ts v ≡ true
    → IsU64 (length d.bytes)
    → IsU64 (or_npos (find_text d v))
unfolding or_npos
find_text_bound d ts v h k fits =
    let (p, rest, found, stands) = find_text-Holds d ts v h k in
    rw found (omega (arith, seek_bound p d.bytes (v ++ (0 ∷ rest)) stands, fits))

pub get_ref-IsU64 :
    (d : Dictionary) (ts : List (List ℕ)) (e : Eid)
    → Holds d ts
    → IsIn ts e
    → IsU64 (length d.bytes)
    → IsU64 (get_ref d e).0 × IsU64 (get_ref d e).1
unfolding get_ref
get_ref-IsU64 d ts e h k fits =
    (find_text_bound d ts e.scheme h k.scheme fits, find_text_bound d ts e.ssp h k.ssp fits)

pub get_ref_same : (d d' : Dictionary) (e : Eid) → d.bytes ≡ d'.bytes → get_ref d e ≡ get_ref d' e
unfolding get_ref find_text
get_ref_same d d' e b = rw b refl

-- What one dictionary refers to, another one with the same texts gives back.
pub get_eid_there :
    (d d' : Dictionary) (ts : List (List ℕ)) (e : Eid)
    → Holds d ts
    → Holds d' ts
    → IsIn ts e
    → ((get_eid d' (get_ref d e).0 (get_ref d e).1).0 ≡ e)
      × Holds (get_eid d' (get_ref d e).0 (get_ref d e).1).1 ts
get_eid_there d d' ts e h h' k =
    rw (get_ref_same d d' e (h.bytes ∙ sym h'.bytes))
      (get_eid-get_ref d' ts e h' k.referable k.scheme k.ssp)

-- A dictionary that has a text has bytes.
pub has_bytes :
    (d : Dictionary) (ts : List (List ℕ)) (v : List ℕ)
    → Holds d ts
    → has ts v ≡ true
    → is_empty d.bytes ≡ false
has_bytes d ts v h k = ap is_empty h.bytes ∙ flat_some ts v k

pub write_dictionary-start :
    (d : Dictionary)
    → d.position ≡ 0
    → IsU64 (length d.bytes)
    → write_dictionary d ≡ ok (sdnv_bytes (length d.bytes) ++ d.bytes, drained d)
unfolding write_dictionary unread
write_dictionary-start d start fits = rw (write_sdnv-eq (length d.bytes) fits, start) refl

add_text-position : (d : Dictionary) (v : List ℕ) → (add_text d v).position ≡ d.position
unfolding add_text
add_text-position d v = elim (Bool-cases (exists d v || d.failed)) [
  | inl e ↦ rw e refl
  | inr e ↦ rw e refl
]

add_eids-position : (d : Dictionary) (es : List Eid) → (add_eids d es).position ≡ d.position
unfolding add_eids add_eid
add_eids-position d [] = refl
add_eids-position d (e ∷ es) =
    add_eids-position (add_text (add_text d e.scheme) e.ssp) es
    ∙ add_text-position (add_text d e.scheme) e.ssp
    ∙ add_text-position d e.scheme

all-IsIn : (front es : List Eid) → All IsReferable es → All (IsIn (with_eids [] (front ++ es))) es
all-IsIn front [] h = tt
all-IsIn front (e ∷ es) h =
    let (m, n) = added_texts [] front es e in
    (
      record { referable = h.0; scheme = m; ssp = n },
      subst (λ l. All (IsIn (with_eids [] l)) es) (append_assoc front (e ∷ []) es)
          (all-IsIn (front ++ (e ∷ [])) es h.1),
    )

-- The dictionary that is built anew from a list of EIDs has them all, and was not read yet.
pub record IsBuilt (d : Dictionary) (es : List Eid) : Type 0 where
  pub texts : List (List ℕ)
  pub holds : Holds d texts
  pub all : All (IsIn texts) es
  pub start : d.position ≡ 0

pub add_eids-IsBuilt :
    (d : Dictionary) (es : List Eid)
    → d.failed ≡ false
    → All IsReferable es
    → IsBuilt (add_eids (clear_dictionary d) es) es
unfolding clear_dictionary
add_eids-IsBuilt d es good h = record {
  texts = with_eids [] es;
  holds =
      add_eids-Holds (clear_dictionary d) [] es
        (unfold flat in record { bytes = refl; no_nul = tt; good = good }) h;
  all = all-IsIn [] es h;
  start = add_eids-position (clear_dictionary d) es;
}

pub drained-Holds : (d : Dictionary) (ts : List (List ℕ)) → Holds d ts → Holds (drained d) ts
unfolding drained
drained-Holds d ts h = record { bytes = h.bytes; no_nul = h.no_nul; good = h.good }

pub drained-bytes : (d : Dictionary) → (drained d).bytes ≡ d.bytes
unfolding drained
drained-bytes d = refl

-- No more bytes than all texts have, with a NUL behind each.
abbrev pub texts_length : List Eid → ℕ
texts_length [] = 0
texts_length (e ∷ es) = length e.scheme + length e.ssp + 2 + texts_length es

length-add_text :
    (d : Dictionary) (v : List ℕ) → length (add_text d v).bytes ≤ length d.bytes + length v + 1
unfolding add_text
length-add_text d v = elim (Bool-cases (exists d v || d.failed)) [
  | inl e ↦ rw e (omega arith)
  | inr e ↦ rw e (omega (arith, length-append d.bytes (v ++ (0 ∷ [])), length-append v (0 ∷ [])))
]

pub length-add_eids :
    (d : Dictionary) (es : List Eid)
    → length (add_eids d es).bytes ≤ length d.bytes + texts_length es
unfolding add_eids add_eid
length-add_eids d [] = omega arith
length-add_eids d (e ∷ es) = omega (
  arith,
  length-add_eids (add_text (add_text d e.scheme) e.ssp) es,
  length-add_text (add_text d e.scheme) e.ssp,
  length-add_text d e.scheme,
)

pub length-clear_dictionary : (d : Dictionary) → length (clear_dictionary d).bytes ≡ 0
unfolding clear_dictionary
length-clear_dictionary d = refl
