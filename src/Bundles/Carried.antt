-- ===== src/Bundles/Carried.antt =====
-- EIDs that a header's references carry, with a dictionary or without: Serializer.cpp.
use ibrdtn.Base.{
  ℕ, ◌^◌, ◌<◌, ◌≡◌, refl, ap, Bool, true, false, List, [], ◌∷◌, ◌++◌, arith, length, ltb, ok, All,
}
use mathlib.Core.List.{append_assoc}
use ibrdtn.Sdnv.{IsU64}
use ibrdtn.Sdnv.Encode.{sdnv_bytes}
use ibrdtn.Sdnv.Stream.{write_sdnv-eq, read_sdnv-sdnv_bytes}
use ibrdtn.Eid.{Eid}
use ibrdtn.Dictionary.{Dictionary, get_ref}
use ibrdtn.Dictionary.Entries.{Holds}
use ibrdtn.Dictionary.References.{IsIn, get_ref-IsU64, get_eid_there}
use ibrdtn.Primary.{reference}
use ibrdtn.Primary.Numbers.{numbers_bytes, write_numbers-eq, read_pair-sdnv_bytes}
use ibrdtn.Primary.Round.{IsNumbered, reference-IsNumbered}
use ibrdtn.Primary.Named.{reference_named}
use ibrdtn.Bundles.{eid_numbers, write_eids, eid_at, read_eids, rounds, read_counted}

-- The writer, with the dictionary `d`, has numbers for the EID, and a reader whose dictionary is
-- `Good` finds the EID for them and has a good dictionary still.
pub record IsCarried (c : Bool) (d : Dictionary) (Good : Dictionary → Type 0) (e : Eid)
    : Type 0 where
  pub numbers : ℕ × ℕ
  pub first_u64 : IsU64 numbers.0
  pub second_u64 : IsU64 numbers.1
  pub refers : reference c d e ≡ ok numbers
  pub found : (x : Dictionary) → Good x → ((eid_at c x numbers).0 ≡ e) × Good (eid_at c x numbers).1

-- Without a dictionary any reader will do.
abbrev pub AnyDictionary : Dictionary → Type 0
AnyDictionary x = Unit {0}

pub numbered-IsCarried :
    (d : Dictionary) (e : Eid) → IsNumbered e → IsCarried true d AnyDictionary e
unfolding eid_at
numbered-IsCarried d e k =
    let r = reference-IsNumbered d e k in
    record {
      numbers = (r.first, r.second);
      first_u64 = r.first_u64;
      second_u64 = r.second_u64;
      refers = r.refers;
      found = λ x g. (r.back, tt);
    }

pub named-IsCarried :
    (d : Dictionary) (ts : List (List ℕ)) (e : Eid)
    → Holds d ts
    → IsU64 (length d.bytes)
    → IsIn ts e
    → IsCarried false d (λ x. Holds x ts) e
unfolding eid_at
named-IsCarried d ts e h fits k =
    let u = get_ref-IsU64 d ts e h k fits in
    record {
      numbers = get_ref d e;
      first_u64 = u.0;
      second_u64 = u.1;
      refers = reference_named d e;
      found = λ x g. get_eid_there d x ts e h g k;
    }

module _ (c : Bool) (d : Dictionary) (Good : Dictionary → Type 0) where
  pub carried_numbers : (es : List Eid) → All (IsCarried c d Good) es → List ℕ
  carried_numbers [] h = []
  carried_numbers (e ∷ es) h = h.0.numbers.0 ∷ h.0.numbers.1 ∷ carried_numbers es h.1

  pub carried_numbers-IsU64 :
      (es : List Eid) (h : All (IsCarried c d Good) es) → All IsU64 (carried_numbers es h)
  unfolding carried_numbers
  carried_numbers-IsU64 [] h = tt
  carried_numbers-IsU64 (e ∷ es) h = (h.0.first_u64, (h.0.second_u64, carried_numbers-IsU64 es h.1))

  pub eid_numbers-eq :
      (es : List Eid) (h : All (IsCarried c d Good) es)
      → eid_numbers c d es ≡ ok (carried_numbers es h)
  unfolding carried_numbers eid_numbers
  eid_numbers-eq [] h = refl
  eid_numbers-eq (e ∷ es) h = rw (h.0.refers) (rw (eid_numbers-eq es h.1) refl)

  read_eids-eq :
      (es : List Eid) (h : All (IsCarried c d Good) es) (x : Dictionary) (s : List ℕ)
      → Good x
      → (y : Dictionary) × Good y
        × (read_eids (length es) c x (numbers_bytes (carried_numbers es h) ++ s) ≡ ok (es, y, s))
  unfolding carried_numbers read_eids numbers_bytes
  read_eids-eq [] h x s g = (x, g, refl)
  read_eids-eq (e ∷ es) h x s g =
      let n = h.0.numbers in
      let (found, good) = h.0.found x g in
      let (y, gy, rest) = read_eids-eq es h.1 (eid_at c x n).1 s good in
      (
        y,
        gy,
        simp append_assoc (
            rw (read_pair-sdnv_bytes n.0 n.1 _ h.0.first_u64 h.0.second_u64)
              (rw rest (ap (λ z. ok (z ∷ es, y, s)) found))),
      )

  -- What the EIDs of a block are in a stream, with their number.
  abbrev pub eids_bytes : (es : List Eid) → All (IsCarried c d Good) es → List ℕ
  eids_bytes es h = sdnv_bytes (length es) ++ numbers_bytes (carried_numbers es h)

  pub write_eids-eq :
      (es : List Eid) (h : All (IsCarried c d Good) es)
      → IsU64 (length es)
      → write_eids c d es ≡ ok (eids_bytes es h)
  unfolding write_eids
  write_eids-eq es h fits = rw (write_sdnv-eq (length es) fits) (
      rw (eid_numbers-eq es h)
        (rw (write_numbers-eq (carried_numbers es h) (carried_numbers-IsU64 es h)) refl))

  pub read_counted-eids_bytes :
      (es : List Eid) (h : All (IsCarried c d Good) es) (x : Dictionary) (s : List ℕ)
      → length es < 2 ^ 32
      → Good x
      → (y : Dictionary) × Good y × (read_counted c x (eids_bytes es h ++ s) ≡ ok (es, y, s))
  unfolding read_counted rounds
  read_counted-eids_bytes es h x s fits g =
      let (y, gy, rest) = read_eids-eq es h x s g in
      (
        y,
        gy,
        rw
            (
              append_assoc (sdnv_bytes (length es)) (numbers_bytes (carried_numbers es h)) s,
              read_sdnv-sdnv_bytes (length es) (numbers_bytes (carried_numbers es h) ++ s)
                  (omega (arith, fits)),
            )
            (rw (counted (length es) fits) rest),
      )
    where
      counted : (n : ℕ) → n < 2 ^ 32 → ltb n (2 ^ 32) ≡ true
      counted n f = ground arith
