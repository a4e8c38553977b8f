-- ===== src/BundleId.antt =====
-- ibrdtn/ibrdtn/data/BundleID.h and BundleID.cpp: the identity of a bundle or of a fragment of it.
pub mod Laws
pub mod Stream
use ibrdtn.Base.{
  ℕ, zero, suc, ◌+◌, ◌-◌, ◌*◌, ◌/◌, ◌%◌, ◌^◌, ◌≤◌, ◌<◌, ◌≡◌, ◌≢◌, ◌⊎◌, inl, inr, refl, sym, ap, ◌∙◌,
  Bool, true, false, not, ◌&&◌, ◌||◌, Option, none, some, List, [], ◌∷◌, ◌++◌, arith, length, ltb,
  leb, ◌==◌, if◌then◌else◌, Result, ok, err, invalid_data, invalid_protocol, short_read, overrun,
  get_byte, ◌>>=◌, >>=-eq-ok, length-append, All, All-append, subst, Bool-cases, Trichotomy, below,
  level, above, trichotomy, Option-cases, map,
}
use ibrdtn.Eid.{Eid, eid_eq, eid_lt, get_string}

pub record BundleId : Type 0 where
  pub source : Eid
  pub timestamp : ℕ
  pub sequencenumber : ℕ
  pub fragment : Bool
  pub offset : ℕ

-- `operator<`. Only the left operand is asked whether it is a fragment.
pub id_lt : BundleId → BundleId → Bool
id_lt a b =
    if eid_lt a.source b.source
    then true
    else if not (eid_eq a.source b.source)
    then false
    else if ltb a.timestamp b.timestamp
    then true
    else if not (a.timestamp == b.timestamp)
    then false
    else if ltb a.sequencenumber b.sequencenumber
    then true
    else if not (a.sequencenumber == b.sequencenumber)
    then false
    else if a.fragment && ltb a.offset b.offset
    then true
    else false

-- `operator==`, where `a` is the left operand.
pub id_eq : BundleId → BundleId → Bool
id_eq a b =
    if not (b.timestamp == a.timestamp)
    then false
    else if not (b.sequencenumber == a.sequencenumber)
    then false
    else if not (eid_eq b.source a.source)
    then false
    else if a.fragment
    then (if not (b.offset == a.offset) then false else true)
    else true

pub id_gt : BundleId → BundleId → Bool
unfolding id_lt id_eq
id_gt a b = not (id_lt a b || id_eq a b)
