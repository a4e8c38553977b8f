-- ===== src/BundleId/Laws.antt =====
-- The comparisons of bundle identities.
use ibrdtn.Base.{◌<◌, ◌≡◌, ◌≢◌, ◌⊎◌, inl, inr, Bool, true, false, arith, Bool-cases}
use ibrdtn.Eid.{colon}
use ibrdtn.Eid.Parts.{Without}
use ibrdtn.Eid.Order.{
  Compares, less, same, greater, eid_Compares, eid_lt_trans, eid_eq_refl, eid_eq→eq, eid_lt_irrefl,
}
use ibrdtn.BundleId.{BundleId, id_lt, id_eq, id_gt}

-- Identities as a node has them that sees no bundle both whole and in fragments.
pub record IsRegular (f : Bool) (a : BundleId) : Type 0 where
  pub kind : a.fragment ≡ f
  pub whole : (f ≡ true) ⊎ (a.offset ≡ 0)
  pub no_colon : Without colon a.source.scheme

-- `operator<` of any identities is transitive and never holds both ways.
pub id_lt_trans : (a b c : BundleId) → id_lt a b ≡ true → id_lt b c ≡ true → id_lt a c ≡ true
unfolding id_lt
id_lt_trans a b c p q = ground (
  arith,
  eid_lt_trans a.source b.source c.source,
  eid_eq→eq a.source b.source,
  eid_eq→eq b.source c.source,
  eid_eq_refl b.source,
  eid_eq_refl a.source,
)

pub id_lt_irrefl : (a : BundleId) → id_lt a a ≡ false
unfolding id_lt
id_lt_irrefl a = ground (arith, eid_lt_irrefl a.source)

pub id_eq_refl : (a : BundleId) → id_eq a a ≡ true
unfolding id_eq
id_eq_refl a = ground (arith, eid_eq_refl a.source)

-- `operator==` of identities of one kind is equality.
pub id_eq→eq :
    (f : Bool) (a b : BundleId) → IsRegular f a → IsRegular f b → id_eq a b ≡ true → a ≡ b
unfolding id_eq
id_eq→eq f a b ha hb e = ground (arith, eid_eq→eq b.source a.source)

same_source :
    (f : Bool) (a b : BundleId)
    → IsRegular f a
    → IsRegular f b
    → a.source ≡ b.source
    → id_lt a b ≡ false
    → id_lt b a ≡ false
    → id_eq a b ≡ true
unfolding id_lt id_eq
same_source f a b ha hb e p q = ground (arith, eid_eq_refl a.source, eid_lt_irrefl a.source)

-- Identities that are not ordered either way are equal.
id_connex :
    (f : Bool) (a b : BundleId)
    → IsRegular f a
    → IsRegular f b
    → id_lt a b ≡ false
    → id_lt b a ≡ false
    → id_eq a b ≡ true
id_connex f a b ha hb p q = elim (eid_Compares a.source b.source ha.no_colon hb.no_colon) [
  | less l n r m ↦ unfold id_lt in ground arith
  | greater l n r m ↦ unfold id_lt in ground arith
  | same e l n r m ↦ same_source f a b ha hb e p q
]

lt→ne :
    (f : Bool) (a b : BundleId)
    → IsRegular f a
    → IsRegular f b
    → id_lt a b ≡ true
    → (id_lt b a ≡ false) × (id_eq a b ≡ false) × (id_eq b a ≡ false)
lt→ne f a b ha hb h = (
  asym (Bool-cases (id_lt b a)),
  apart (Bool-cases (id_eq a b)),
  apart_sym (Bool-cases (id_eq b a)),
)
  where
    asym : (id_lt b a ≡ true) ⊎ (id_lt b a ≡ false) → id_lt b a ≡ false
    asym (inl e) = cc (id_lt_irrefl a, id_lt_trans a b a h e)
    asym (inr e) = e

    apart : (id_eq a b ≡ true) ⊎ (id_eq a b ≡ false) → id_eq a b ≡ false
    apart (inl e) = cc (id_lt_irrefl a, id_eq→eq f a b ha hb e)
    apart (inr e) = e

    apart_sym : (id_eq b a ≡ true) ⊎ (id_eq b a ≡ false) → id_eq b a ≡ false
    apart_sym (inl e) = cc (id_lt_irrefl a, id_eq→eq f b a hb ha e)
    apart_sym (inr e) = e

-- On identities of one kind, either fragments or whole with the offset 0, with no colon in the
-- scheme of the source, the two operators make a total order: exactly one of less, equal and
-- greater holds, and `==` holds of equal ones only.
pub id_Compares :
    (f : Bool) (a b : BundleId) → IsRegular f a → IsRegular f b → Compares id_lt id_eq a b
id_Compares f a b ha hb = elim (Bool-cases (id_lt a b)) [
  | inl l ↦ let (r, e, e') = lt→ne f a b ha hb l in less l e r e'
  | inr n ↦ elim (Bool-cases (id_lt b a)) [
    | inl g ↦ let (r, e, e') = lt→ne f b a hb ha g in greater r e' g e
    | inr m ↦
        let e = id_connex f a b ha hb n m in
        same (id_eq→eq f a b ha hb e) n e m (id_connex f b a hb ha m n)
  ]
]

-- A bundle that is whole, and a fragment of it at another offset: the bundle `==` the fragment and
-- the fragment does not `==` the bundle.
pub id_eq_asymmetric :
    (a b : BundleId)
    → a.fragment ≡ false
    → b.fragment ≡ true
    → b.source ≡ a.source
    → b.timestamp ≡ a.timestamp
    → b.sequencenumber ≡ a.sequencenumber
    → b.offset ≢ a.offset
    → (id_eq a b ≡ true) × (id_eq b a ≡ false)
unfolding id_eq
id_eq_asymmetric a b fa fb s t n o =
    (ground (arith, eid_eq_refl a.source), ground (arith, eid_eq_refl a.source))

pub whole_fragment_unordered :
    (a b : BundleId)
    → a.fragment ≡ false
    → a.offset ≡ 0
    → b.fragment ≡ true
    → b.source ≡ a.source
    → b.timestamp ≡ a.timestamp
    → b.sequencenumber ≡ a.sequencenumber
    → (id_lt a b ≡ false) × (id_lt b a ≡ false)
unfolding id_lt
whole_fragment_unordered a b fa oa fb s t n =
    (ground (arith, eid_lt_irrefl a.source), ground (arith, eid_lt_irrefl a.source))

-- A whole bundle with the offset 0 and two of its fragments at different offsets show that
-- `operator<` is no weak order, as std::set wants it: the bundle is ordered with neither fragment,
-- yet they are ordered.
id_lt_not_weak :
    (a b c : BundleId)
    → a.fragment ≡ false
    → a.offset ≡ 0
    → b.fragment ≡ true
    → c.fragment ≡ true
    → b.source ≡ a.source
    → c.source ≡ a.source
    → b.timestamp ≡ a.timestamp
    → c.timestamp ≡ a.timestamp
    → b.sequencenumber ≡ a.sequencenumber
    → c.sequencenumber ≡ a.sequencenumber
    → b.offset < c.offset
    → (id_lt a b ≡ false)
      × (id_lt b a ≡ false)
      × (id_lt a c ≡ false)
      × (id_lt c a ≡ false)
      × (id_lt b c ≡ true)
unfolding id_lt
id_lt_not_weak a b c fa oa fb fc sb sc tb tc nb nc o =
    let (p, q) = whole_fragment_unordered a b fa oa fb sb tb nb in
    let (r, s) = whole_fragment_unordered a c fa oa fc sc tc nc in
    (p, q, r, s, ground (arith, eid_lt_irrefl a.source, eid_eq_refl a.source))

pub id_gt_irrefl : (a : BundleId) → id_gt a a ≡ false
unfolding id_gt
id_gt_irrefl a = ground (arith, id_eq_refl a)
