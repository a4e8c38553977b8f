-- ===== src/BundleList/Expire.antt =====
-- What `expire` takes out of a bundle list.
use ibrdtn.Base.{
  ℕ, ◌≤◌, ◌<◌, ◌≡◌, inl, inr, refl, ap, ◌∙◌, true, List, [], ◌∷◌, ◌++◌, arith, leb, if◌then◌else◌,
  All, Bool-cases, map,
}
use ibrdtn.Base.Sets.{erase, Ascending}
use ibrdtn.Eid.{is_empty}
use ibrdtn.MetaBundle.{MetaBundle}
use ibrdtn.BundleList.{
  BundleList, ExpiringBundle, expiring_lt, meta_lt, expire, expire_loop, committed, next_version,
}
use ibrdtn.BundleList.Ordered.{IsOrdered}

pub erase_all : List MetaBundle → List MetaBundle → List MetaBundle
erase_all [] items = items
erase_all (m ∷ ms) items = erase_all ms (erase meta_lt m items)

-- The order by time of expiry lets the loop stop at the first bundle that is still alive.
rest_alive :
    (t : ℕ) (b : ExpiringBundle) (bs : List ExpiringBundle)
    → t ≤ b.expiretime
    → All (λ c. expiring_lt b c ≡ true) bs
    → All (λ c. t ≤ c.expiretime) bs
unfolding expiring_lt
rest_alive t b [] h k = tt
rest_alive t b (c ∷ bs) h k = (ground (arith, k.0), rest_alive t b bs h k.1)

-- What the loop returns, for a sorted list.
record Expires (t : ℕ) (bs : List ExpiringBundle) (items : List MetaBundle)
    (r : List ExpiringBundle × List MetaBundle × List MetaBundle) : Type 0 where
  gone : List ExpiringBundle
  split : bs ≡ gone ++ r.0
  dead : All (λ b. b.expiretime < t) gone
  alive : All (λ b. t ≤ b.expiretime) r.0
  events : r.2 ≡ map (λ b. b.bundle) gone
  public : r.1 ≡ erase_all r.2 items

expire_loop-Expires :
    (t : ℕ) (bs : List ExpiringBundle) (items : List MetaBundle)
    → Ascending expiring_lt bs
    → Expires t bs items (expire_loop t bs items)
unfolding expire_loop erase_all
expire_loop-Expires t [] items h = record {
  gone = [];
  split = refl;
  dead = tt;
  alive = tt;
  events = refl;
  public = refl;
}
expire_loop-Expires t (b ∷ bs) items h = elim (Bool-cases (leb t b.expiretime)) [
  | inl stay ↦ rw stay (record {
    gone = [];
    split = refl;
    dead = tt;
    alive = (ground arith, rest_alive t b bs (ground arith) h.0);
    events = refl;
    public = refl;
  })
  | inr over ↦
      let r = expire_loop-Expires t bs (erase meta_lt b.bundle items) h.1 in
      rw over (record {
        gone = b ∷ r.gone;
        split = ap (λ l. b ∷ l) r.split;
        dead = (ground arith, r.dead);
        alive = r.alive;
        events = ap (λ l. b.bundle ∷ l) r.events;
        public = r.public;
      })
]

-- With a known time `expire` takes out of the private set just the bundles whose time of expiry is
-- before `t`, raises the event for each of them, in the order of their times, takes these out of
-- the public set, and counts the version up if there is one.
pub expire_exact :
    (l : BundleList) (t : ℕ)
    → IsOrdered l
    → (gone : List ExpiringBundle) × (l.bundles ≡ gone ++ (expire true t l).0.bundles)
      × All (λ b. b.expiretime < t) gone
      × All (λ b. t ≤ b.expiretime) (expire true t l).0.bundles
      × ((expire true t l).1 ≡ map (λ b. b.bundle) gone)
      × ((expire true t l).0.items ≡ erase_all (map (λ b. b.bundle) gone) l.items)
      × ((expire true t l).0.version
          ≡ (if is_empty gone then l.version else next_version l.version))
unfolding expire
expire_exact l t h =
    let r = expire_loop-Expires t l.bundles l.items h.bundles in
    (
      r.gone,
      r.split,
      r.dead,
      r.alive,
      r.events,
      r.public ∙ ap (λ e. erase_all e l.items) r.events,
      ap (committed l.version) r.events ∙ counted r.gone,
    )
  where
    counted :
        (gone : List ExpiringBundle)
        → committed l.version (map (λ b. b.bundle) gone)
          ≡ (if is_empty gone then l.version else next_version l.version)
    counted [] = unfold committed in refl
    counted (b ∷ bs) = unfold committed in refl
