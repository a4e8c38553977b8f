-- ===== src/BundleList/Contains.antt =====
-- Which identities a bundle list is said to contain.
use ibrdtn.Base.{
  ℕ, ◌≡◌, ◌≢◌, inl, inr, refl, ◌∙◌, Bool, true, false, not, ◌&&◌, ◌||◌, List, [], ◌∷◌, arith, All,
  Bool-cases,
}
use ibrdtn.Base.Sets.{insert, erase}
use ibrdtn.Eid.Order.{less, same, greater}
use ibrdtn.BundleId.{BundleId, id_eq}
use ibrdtn.BundleId.Laws.{
  IsRegular, id_Compares, id_eq→eq, id_eq_asymmetric, whole_fragment_unordered,
}
use ibrdtn.MetaBundle.{MetaBundle}
use ibrdtn.BundleList.{BundleList, meta_lt, add, remove, contains, any_eq}

-- All identities of the list are of one kind, whole bundles or fragments.
abbrev pub AllRegular : Bool → List MetaBundle → Type 0
AllRegular f = All (λ m. IsRegular f m.id)

any_eq-insert :
    (f : Bool) (m : MetaBundle) (ms : List MetaBundle) (x : BundleId)
    → IsRegular f m.id
    → AllRegular f ms
    → any_eq (insert meta_lt m ms) x ≡ (id_eq m.id x || any_eq ms x)
unfolding insert any_eq
any_eq-insert f m [] x r h = refl
any_eq-insert f m (y ∷ ys) x r h = elim (id_Compares f m.id y.id r h.0) [
  | less p q u v ↦ rw p refl
  | same e p q u v ↦ rw (p, u, e) (or-idem (id_eq y.id x) (any_eq ys x))
  | greater p q u v ↦
      rw (p, u, any_eq-insert f m ys x r h.1) (or-swap (id_eq y.id x) (id_eq m.id x) (any_eq ys x))
]
  where
    or-idem : (a b : Bool) → (a || b) ≡ (a || (a || b))
    or-idem a b = ground arith

    or-swap : (a b c : Bool) → (a || (b || c)) ≡ (b || (a || c))
    or-swap a b c = ground arith

-- Two identities that differ are not both equal to a third.
apart :
    (f : Bool) (a b x : BundleId)
    → IsRegular f a
    → IsRegular f b
    → IsRegular f x
    → id_eq a b ≡ false
    → (id_eq a x && id_eq b x) ≡ false
apart f a b x ha hb hx n = elim (Bool-cases (id_eq a x)) [
  | inr q ↦ ground arith
  | inl p ↦ elim (Bool-cases (id_eq b x)) [
    | inr q ↦ ground arith
    | inl q ↦ cc (id_eq→eq f b x hb hx q)
  ]
]

erase_kept : (p q r : Bool) → (p && q) ≡ false → (p || (not q && r)) ≡ (not q && (p || r))
erase_kept p q r h = ground arith

erase_gone : (p r : Bool) → (not p && r) ≡ (not p && (p || r))
erase_gone p r = ground arith

any_eq-erase :
    (f : Bool) (m : MetaBundle) (ms : List MetaBundle) (x : BundleId)
    → IsRegular f m.id
    → IsRegular f x
    → AllRegular f ms
    → any_eq (erase meta_lt m ms) x ≡ (not (id_eq m.id x) && any_eq ms x)
unfolding erase any_eq
any_eq-erase f m [] x r k h = ground arith
any_eq-erase f m (y ∷ ys) x r k h = elim (id_Compares f y.id m.id h.0 r) [
  | less p q u v ↦
      rw (p, any_eq-erase f m ys x r k h.1)
        (erase_kept (id_eq y.id x) (id_eq m.id x) (any_eq ys x) (apart f y.id m.id x h.0 r k q))
  | same e p q u v ↦
      rw (p, u, any_eq-erase f m ys x r k h.1, e) (erase_gone (id_eq m.id x) (any_eq ys x))
  | greater p q u v ↦
      rw (p, u, any_eq-erase f m ys x r k h.1)
        (erase_kept (id_eq y.id x) (id_eq m.id x) (any_eq ys x) (apart f y.id m.id x h.0 r k q))
]

-- Among bundles of one kind, either fragments or whole with the offset 0, and with no colon in the
-- schemes of their sources, `add` and `remove` are what they are for a set of identities: the
-- bundle is contained after `add` and not after `remove`, and no other identity changes.
pub contains_laws :
    (f : Bool) (l : BundleList) (m : MetaBundle) (x : BundleId)
    → AllRegular f l.items
    → IsRegular f m.id
    → IsRegular f x
    → (contains (add l m) x ≡ (id_eq m.id x || contains l x))
      × (contains (remove l m) x ≡ (not (id_eq m.id x) && contains l x))
unfolding contains add remove
contains_laws f l m x h r k = (any_eq-insert f m l.items x r h, any_eq-erase f m l.items x r k h)

-- A whole bundle with the offset 0 is lost in a list that holds just a fragment of it at another
-- offset: `add` leaves the set as it is, and `contains` does not find the bundle.
add_after_fragment :
    (v : ℕ) (m n : MetaBundle)
    → m.id.fragment ≡ false
    → n.id.fragment ≡ true
    → n.id.source ≡ m.id.source
    → n.id.timestamp ≡ m.id.timestamp
    → n.id.sequencenumber ≡ m.id.sequencenumber
    → m.id.offset ≡ 0
    → n.id.offset ≢ 0
    → let l : BundleList = record { bundles = []; items = n ∷ []; version = v } in
      ((add l m).items ≡ l.items) × (contains (add l m) m.id ≡ false)
unfolding contains add insert any_eq
add_after_fragment v m n fm fn s t q o o' =
    let (_, lost) = id_eq_asymmetric m.id n.id fm fn s t q (λ e. o' (e ∙ o)) in
    let (p, q') = whole_fragment_unordered m.id n.id fm o fn s t q in (rw (p, q'), rw (p, q', lost))
