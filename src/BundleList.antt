-- ===== src/BundleList.antt =====
-- ibrdtn/ibrdtn/data/BundleList.h and BundleList.cpp: bundles by identity and by time of expiry.
pub mod Ordered
pub mod Expire
pub mod Contains
use ibrdtn.Base.{
  ℕ, zero, suc, ◌+◌, ◌-◌, ◌*◌, ◌/◌, ◌%◌, ◌^◌, ◌≤◌, ◌<◌, ◌≡◌, ◌≢◌, ◌⊎◌, inl, inr, refl, sym, ap, ◌∙◌,
  Bool, true, false, not, ◌&&◌, ◌||◌, Option, none, some, List, [], ◌∷◌, ◌++◌, arith, length, ltb,
  leb, ◌==◌, if◌then◌else◌, Result, ok, err, invalid_data, invalid_protocol, short_read, overrun,
  get_byte, read_bytes, read_bytes-append, ◌>>=◌, >>=-eq-ok, length-append, All, All-append, subst,
  Bool-cases, Trichotomy, below, level, above, trichotomy, Option-cases, map,
}
use ibrdtn.Base.Sets.{insert, erase}
use ibrdtn.BundleId.{BundleId, id_lt, id_eq}
use ibrdtn.MetaBundle.{MetaBundle}

pub record ExpiringBundle : Type 0 where
  pub bundle : MetaBundle
  pub expiretime : ℕ

pub expiring : MetaBundle → ExpiringBundle
expiring m = record { bundle = m; expiretime = m.expiretime }

-- MetaBundles are compared as BundleIDs.
abbrev pub meta_lt : MetaBundle → MetaBundle → Bool
meta_lt a b = id_lt a.id b.id

-- `ExpiringBundle::operator<`
pub expiring_lt : ExpiringBundle → ExpiringBundle → Bool
expiring_lt a b =
    if ltb a.expiretime b.expiretime
    then true
    else if not (a.expiretime == b.expiretime)
    then false
    else if meta_lt a.bundle b.bundle
    then true
    else false

-- `bundles` is the private set `_bundles`, `items` the set that the class is itself.
pub record BundleList : Type 0 where
  pub bundles : List ExpiringBundle
  pub items : List MetaBundle
  pub version : ℕ

abbrev pub next_version : ℕ → ℕ
next_version v = (v + 1) % 2 ^ 64

pub empty_list : BundleList
empty_list = record { bundles = []; items = []; version = 0 }

pub add : BundleList → MetaBundle → BundleList
unfolding insert expiring expiring_lt
add l m = record {
  bundles = insert expiring_lt (expiring m) l.bundles;
  items = insert meta_lt m l.items;
  version = next_version l.version;
}

pub remove : BundleList → MetaBundle → BundleList
unfolding erase expiring expiring_lt
remove l m = record {
  bundles = erase expiring_lt (expiring m) l.bundles;
  items = erase meta_lt m l.items;
  version = next_version l.version;
}

pub clear : BundleList → BundleList
clear l = record { bundles = []; items = []; version = next_version l.version }

any_eq : List MetaBundle → BundleId → Bool
any_eq [] x = false
any_eq (m ∷ ms) x = id_eq m.id x || any_eq ms x

-- `::find` with `operator==`, from the front.
pub contains : BundleList → BundleId → Bool
unfolding any_eq
contains l x = any_eq l.items x

-- The loop of `expire`: what is left of the two sets, and the bundles for which
-- `eventBundleExpired` is called, in this order.
pub expire_loop :
    ℕ
    → List ExpiringBundle
    → List MetaBundle
    → List ExpiringBundle × List MetaBundle × List MetaBundle
expire_loop timestamp [] items = ([], items, [])
expire_loop timestamp (b ∷ bs) items =
    let rest = expire_loop timestamp bs (erase meta_lt b.bundle items) in
    if leb timestamp b.expiretime then (b ∷ bs, items, []) else (rest.0, rest.1, b.bundle ∷ rest.2)

committed : ℕ → List MetaBundle → ℕ
committed v [] = v
committed v (m ∷ ms) = next_version v

-- `known` is false while the quality of time is zero. The list and the expired bundles;
-- `eventCommitExpired` is called if there are any.
pub expire : Bool → ℕ → BundleList → BundleList × List MetaBundle
unfolding expire_loop committed
expire known timestamp l =
    if not known
    then (l, [])
    else let (bundles, items, expired) = expire_loop timestamp l.bundles l.items in
      (record { bundles = bundles; items = items; version = committed l.version expired }, expired)
