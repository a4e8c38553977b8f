-- ===== src/Tests/Sets.antt =====
-- The theorems on bundle lists.
use ibrdtn.Base.{
  ◌≤◌, ◌<◌, ◌≡◌, true, false, not, ◌&&◌, ◌||◌, List, [], ◌∷◌, ◌++◌, if◌then◌else◌, All, map,
}
use ibrdtn.Eid.{is_empty}
use ibrdtn.BundleId.{id_eq}
use ibrdtn.BundleList.{
  BundleList, ExpiringBundle, expiring, empty_list, add, remove, contains, expire, next_version,
}
use ibrdtn.BundleList.Ordered.{Call, adds, removes, expires, run, IsOrdered, run_empty-IsOrdered}
use ibrdtn.BundleList.Expire.{erase_all, expire_exact}
use ibrdtn.BundleList.Contains.{contains_laws}
use ibrdtn.Tests.{whole_id, next_id, meta, whole_id-IsRegular, next_id-IsRegular}

abbrev some_calls : List Call
some_calls =
    adds (meta whole_id 40)
    ∷ adds (meta next_id 30)
    ∷ expires true 35
    ∷ removes (meta whole_id 40)
    ∷ []

run_empty-IsOrdered_example : IsOrdered (run empty_list some_calls)
run_empty-IsOrdered_example = run_empty-IsOrdered some_calls

-- A list with two bundles.
abbrev two_bundles : BundleList
two_bundles = run empty_list (adds (meta whole_id 40) ∷ adds (meta next_id 30) ∷ [])

expire_exact_example :
    (gone : List ExpiringBundle) × (two_bundles.bundles
      ≡ gone ++ (expire true 35 two_bundles).0.bundles)
    × All (λ b. b.expiretime < 35) gone
    × All (λ b. 35 ≤ b.expiretime) (expire true 35 two_bundles).0.bundles
    × ((expire true 35 two_bundles).1 ≡ map (λ b. b.bundle) gone)
    × ((expire true 35 two_bundles).0.items
        ≡ erase_all (map (λ b. b.bundle) gone) two_bundles.items)
    × ((expire true 35 two_bundles).0.version
        ≡ (if is_empty gone then two_bundles.version else next_version two_bundles.version))
expire_exact_example =
    expire_exact two_bundles 35
      (run_empty-IsOrdered (adds (meta whole_id 40) ∷ adds (meta next_id 30) ∷ []))

abbrev one_bundle : BundleList
one_bundle = record {
  bundles = expiring (meta whole_id 40) ∷ [];
  items = meta whole_id 40 ∷ [];
  version = 1;
}

contains_laws_example :
    (contains (add one_bundle (meta next_id 30)) next_id
      ≡ (id_eq next_id next_id || contains one_bundle next_id))
    × (contains (remove one_bundle (meta next_id 30)) next_id
        ≡ (not (id_eq next_id next_id) && contains one_bundle next_id))
contains_laws_example =
    contains_laws false one_bundle (meta next_id 30) next_id (whole_id-IsRegular, tt)
      next_id-IsRegular next_id-IsRegular
