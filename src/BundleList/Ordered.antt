-- ===== src/BundleList/Ordered.antt =====
-- The two sets of a bundle list stay sorted, whatever bundles come and go.
use ibrdtn.Base.{ℕ, ◌≡◌, inl, inr, Bool, true, false, List, [], ◌∷◌, arith, leb, Bool-cases}
use ibrdtn.Base.Sets.{erase, Ascending, insert-Ascending, erase-Ascending}
use ibrdtn.BundleId.Laws.{id_lt_trans}
use ibrdtn.MetaBundle.{MetaBundle}
use ibrdtn.BundleList.{
  BundleList, ExpiringBundle, expiring, expiring_lt, meta_lt, empty_list, add, remove, clear,
  expire, expire_loop,
}

pub meta_lt_trans :
    (a b c : MetaBundle) → meta_lt a b ≡ true → meta_lt b c ≡ true → meta_lt a c ≡ true
meta_lt_trans a b c = id_lt_trans a.id b.id c.id

pub expiring_lt_trans :
    (a b c : ExpiringBundle)
    → expiring_lt a b ≡ true
    → expiring_lt b c ≡ true
    → expiring_lt a c ≡ true
unfolding expiring_lt
expiring_lt_trans a b c p q = ground (arith, meta_lt_trans a.bundle b.bundle c.bundle)

pub record IsOrdered (l : BundleList) : Type 0 where
  pub bundles : Ascending expiring_lt l.bundles
  pub items : Ascending meta_lt l.items

-- The calls that change a bundle list.
pub data Call : Type 0 where
  adds removes : MetaBundle → Call
  clears : Call
  expires : Bool → ℕ → Call

pub step : BundleList → Call → BundleList
step l (adds m) = add l m
step l (removes m) = remove l m
step l clears = clear l
step l (expires known t) = (expire known t l).0

pub run : BundleList → List Call → BundleList
run l [] = l
run l (c ∷ cs) = run (step l c) cs

expire_loop-Ascending :
    (t : ℕ) (bs : List ExpiringBundle) (items : List MetaBundle)
    → Ascending expiring_lt bs
    → Ascending meta_lt items
    → Ascending expiring_lt (expire_loop t bs items).0
      × Ascending meta_lt (expire_loop t bs items).1
unfolding expire_loop
expire_loop-Ascending t [] items h k = (tt, k)
expire_loop-Ascending t (b ∷ bs) items h k = elim (Bool-cases (leb t b.expiretime)) [
  | inl stay ↦ rw stay (h, k)
  | inr gone ↦ rw gone (
      expire_loop-Ascending t bs (erase meta_lt b.bundle items) h.1
        (erase-Ascending meta_lt b.bundle items k))
]

step-IsOrdered : (l : BundleList) (c : Call) → IsOrdered l → IsOrdered (step l c)
unfolding step add remove clear expire
step-IsOrdered l (adds m) h = record {
  bundles = insert-Ascending expiring_lt expiring_lt_trans (expiring m) l.bundles h.bundles;
  items = insert-Ascending meta_lt meta_lt_trans m l.items h.items;
}
step-IsOrdered l (removes m) h = record {
  bundles = erase-Ascending expiring_lt (expiring m) l.bundles h.bundles;
  items = erase-Ascending meta_lt m l.items h.items;
}
step-IsOrdered l clears h = record { bundles = tt; items = tt }
step-IsOrdered l (expires false t) h = h
step-IsOrdered l (expires true t) h =
    let (a, b) = expire_loop-Ascending t l.bundles l.items h.bundles h.items in
    record { bundles = a; items = b }

pub run-IsOrdered : (l : BundleList) (cs : List Call) → IsOrdered l → IsOrdered (run l cs)
unfolding run
run-IsOrdered l [] h = h
run-IsOrdered l (c ∷ cs) h = run-IsOrdered (step l c) cs (step-IsOrdered l c h)

-- After any calls on a new list both sets are in strictly ascending order, by time of expiry first
-- and by identity.
pub run_empty-IsOrdered : (cs : List Call) → IsOrdered (run empty_list cs)
unfolding empty_list
run_empty-IsOrdered cs = run-IsOrdered _ cs (record { bundles = tt; items = tt })
