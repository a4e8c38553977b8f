-- ===== src/Storage.antt =====
-- daemon/src/core/MemoryBundleStorage.h and MemoryBundleStorage.cpp: bundles in memory.
pub mod Laws
use ibrdtn.Base.{
  ℕ, zero, suc, ◌+◌, ◌-◌, ◌*◌, ◌/◌, ◌%◌, ◌^◌, ◌≤◌, ◌<◌, ◌≡◌, ◌≢◌, ◌⊎◌, inl, inr, refl, sym, ap, ◌∙◌,
  Bool, true, false, not, ◌&&◌, ◌||◌, Option, none, some, List, [], ◌∷◌, ◌++◌, arith, length, ltb,
  leb, ◌==◌, if◌then◌else◌, Result, ok, err, invalid_data, invalid_protocol, rejected, wrong_eid,
  aborted, unsent, short_read, overrun, get_byte, read_bytes, read_bytes-append, ◌>>=◌, >>=-eq-ok,
  length-append, All, All-append, subst, Bool-cases, Trichotomy, below, level, above, trichotomy,
  Option-cases, map, ltb→lt,
}
use ibrdtn.Base.Sets.{insert, erase, find, contains, equivalent}
use ibrdtn.Eid.{Eid, eid_lt}
use ibrdtn.Dictionary.{empty_dictionary}
use ibrdtn.DtnTime.{DtnTime}
use ibrdtn.Clock.{Clock, bundle_expire_time}
use ibrdtn.PrimaryBlock.{PrimaryBlock, is_fragment, block_lt}
use ibrdtn.BundleId.{BundleId, id_lt, id_eq, id_gt}
use ibrdtn.MetaBundle.{MetaBundle, priority}
use ibrdtn.BundleList.{
  BundleList, empty_list, expire, add as list_add, remove as list_remove, clear as list_clear,
}
use ibrdtn.Sdnv.Stream.{write_sdnv}
use ibrdtn.Blocks.{Block}
use ibrdtn.Bundles.{Bundle}
use ibrdtn.Bundles.Lengths.{bundle_length}

-- What a call finds around it. The constructor of a MetaBundle reads the clock, the time, and from
-- the blocks of a bundle the seconds of its age block and its hop limit, where it has them.
-- `running` are the microseconds of an age block of a bundle: `getMicroseconds` at that time.
pub record Surroundings : Type 0 where
  pub clock : Clock
  pub now : DtnTime
  pub age : Bundle → Option ℕ
  pub hops : Bundle → Option ℕ
  pub running : Bundle → Block → ℕ

-- `AgeBlock::BLOCK_TYPE`
abbrev pub age_block : ℕ
age_block = 10

-- A block with the payload that it has at the time of a call: that of an age block is the SDNV of
-- its microseconds, which has its length by `AgeBlock::getLength`.
unfoldable pub block_now : Surroundings → Bundle → Block → Result Block
block_now w b block =
    if block.blocktype == age_block
    then (write_sdnv (w.running b block) >>= λ bytes. ok (record block { payload = bytes }))
    else ok block

unfoldable pub blocks_now : Surroundings → Bundle → List Block → Result (List Block)
unfolding block_now
blocks_now w b [] = ok []
blocks_now w b (block ∷ blocks) = do
  now ← block_now w b block
  others ← blocks_now w b blocks
  ok (now ∷ others)

-- `getLength` of a bundle, with a serializer that is new, at the time of a call.
unfoldable pub length_now : Surroundings → Bundle → Result ℕ
unfolding blocks_now
length_now w b = blocks_now w b b.blocks >>= λ blocks.
    bundle_length false empty_dictionary (record b { blocks = blocks })

-- `BundleID(bundle)` and `MetaBundle(bundle)`
pub id_of : Bundle → BundleId
id_of b = record {
  source = b.primary.source;
  timestamp = b.primary.timestamp;
  sequencenumber = b.primary.sequencenumber;
  fragment = is_fragment b.primary;
  offset = b.primary.fragmentoffset;
}

pub meta_of : Surroundings → Bundle → MetaBundle
unfolding id_of
meta_of w b = record {
  id = id_of b;
  received = w.now;
  lifetime = b.primary.lifetime;
  destination = b.primary.destination;
  reportto = b.primary.reportto;
  custodian = b.primary.custodian;
  appdatalength = b.primary.appdatalength;
  procflags = b.primary.procflags;
  expiretime = bundle_expire_time w.clock b.primary.timestamp b.primary.lifetime (w.age b);
  hopcount = elim (w.hops b) [ none ↦ 2 ^ 64 - 1 | some n ↦ n ];
}

-- Bundles are compared as their primary blocks.
abbrev pub bundle_lt : Bundle → Bundle → Bool
bundle_lt a b = block_lt a.primary b.primary

-- `CMP_BUNDLE_PRIORITY`
pub priority_lt : MetaBundle → MetaBundle → Bool
priority_lt a b =
    if priority a == priority b then id_gt b.id a.id else ltb (priority b) (priority a)

-- An entry of `_bundle_lengths`.
pub record Length : Type 0 where
  pub id : BundleId
  pub size : ℕ

abbrev pub length_lt : Length → Length → Bool
length_lt a b = id_lt a.id b.id

pub record Storage : Type 0 where
  pub bundles : List Bundle
  pub index : List MetaBundle
  pub list : BundleList
  pub lengths : List Length
  pub maxsize : ℕ
  pub currentsize : ℕ

unfoldable pub new_storage : ℕ → Storage
new_storage maxsize = record {
  bundles = [];
  index = [];
  list = empty_list;
  lengths = [];
  maxsize = maxsize;
  currentsize = 0;
}

set_length : Length → List Length → List Length
set_length n [] = []
set_length n (m ∷ ms) =
    let rest = set_length n ms in
    if equivalent length_lt m n then record m { size = n.size } ∷ ms else m ∷ rest

-- `_bundle_lengths[id] = size`
put_length : Length → List Length → List Length
unfolding set_length
put_length n ns = if contains length_lt n ns then set_length n ns else insert length_lt n ns

-- `_bundle_lengths[id]`, which is 0 for an id that is not there.
size_of : List Length → BundleId → ℕ
size_of ns id = elim (find length_lt (record { id = id; size = 0 }) ns) [
  | none ↦ 0
  | some n ↦ n.size
]

-- How `store` ends.
pub data Stored : Type 0 where
  stored duplicate too_big : Stored

-- The size of a bundle goes into the account.
pub count_size : Storage → Bundle → ℕ → Storage
unfolding put_length id_of
count_size st b size = record st {
  currentsize = (st.currentsize + size) % 2 ^ 64;
  lengths = put_length (record { id = id_of b; size = size }) st.lengths;
}

-- A bundle goes into the three sets.
pub put_bundle : Surroundings → Storage → Bundle → Storage
unfolding meta_of priority_lt
put_bundle w st b = record st {
  bundles = insert bundle_lt b st.bundles;
  index = insert priority_lt (meta_of w b) st.index;
  list = list_add st.list (meta_of w b);
}

pub store : Surroundings → Storage → Bundle → Result (Storage × Stored)
unfolding length_now count_size put_bundle
store w st b = length_now w b >>= λ size.
    if ltb 0 st.maxsize && ltb st.maxsize ((st.currentsize + size) % 2 ^ 64)
    then ok (st, too_big)
    else if contains bundle_lt b st.bundles
    then ok (count_size st b size, duplicate)
    else ok (put_bundle w (count_size st b size) b, stored)

-- The first bundle of the set with a property, and the set without it.
pub first : (Bundle → Bool) → List Bundle → Option Bundle
first p [] = none
first p (b ∷ bs) = let rest = first p bs in if p b then some b else rest

pub without_first : (Bundle → Bool) → List Bundle → List Bundle
without_first p [] = []
without_first p (b ∷ bs) = let rest = without_first p bs in if p b then bs else b ∷ rest

-- `id == bundle`
pub has_id : BundleId → Bundle → Bool
unfolding id_of
has_id id b = id_eq id (id_of b)

-- `get(id)`; `none` is the NoBundleFoundException.
pub get_bundle : Storage → BundleId → Option Bundle
unfolding first has_id
get_bundle st id = first (has_id id) st.bundles

-- `get(cb)`: the limit of the callback, where 0 is none, and `shouldAdd`.
get_loop : ℕ → ℕ → (MetaBundle → Bool) → List MetaBundle → List MetaBundle
get_loop limit size should [] = []
get_loop limit size should (m ∷ ms) =
    let taken = get_loop limit (size + 1) should ms in
    let passed = get_loop limit size should ms in
    if limit == 0 || ltb size limit then (if should m then m ∷ taken else passed) else []

pub get_filtered : Storage → ℕ → (MetaBundle → Bool) → List MetaBundle
unfolding get_loop
get_filtered st limit should = get_loop limit 0 should st.index

insert_destinations : List Bundle → List Eid → List Eid
insert_destinations [] set = set
insert_destinations (b ∷ bs) set = insert_destinations bs (insert eid_lt b.primary.destination set)

-- `getDistinctDestinations`
pub get_distinct_destinations : Storage → List Eid
unfolding insert_destinations
get_distinct_destinations st = insert_destinations st.bundles []

-- `remove(id)` with the bundle that is found. It computes the length anew, and leaves its entry.
pub take_bundle : Surroundings → Storage → (Bundle → Bool) → Bundle → ℕ → Storage
unfolding meta_of without_first priority_lt
take_bundle w st p b size = record st {
  bundles = without_first p st.bundles;
  index = erase priority_lt (meta_of w b) st.index;
  list = list_remove st.list (meta_of w b);
  currentsize = (st.currentsize + (2 ^ 64 - size % 2 ^ 64)) % 2 ^ 64;
}

pub remove_id : Surroundings → Storage → BundleId → Result (Option Storage)
unfolding length_now
remove_id w st id = elim (get_bundle st id) [
  | none ↦ ok none
  | some b ↦ length_now w b >>= λ size. ok (some (take_bundle w st (has_id id) b size))
]

-- What `remove(filter)` and `eventBundleExpired` do with the size, by the entry of the bundle.
pub release : Storage → Bundle → Storage
unfolding size_of
release st b = record st {
  lengths = erase length_lt (record { id = id_of b; size = 0 }) st.lengths;
  currentsize = (st.currentsize + (2 ^ 64 - size_of st.lengths (id_of b) % 2 ^ 64)) % 2 ^ 64;
}

-- `remove(filter)`: the storage and the bundle removed. `matches` asks the Bloom filter.
pub remove_match : Surroundings → (Bundle → Bool) → Storage → Option (Storage × MetaBundle)
unfolding release
remove_match w matches st = elim (first matches st.bundles) [
  | none ↦ none
  | some b ↦ some (
    record (release st b) {
      bundles = without_first matches st.bundles;
      index = erase priority_lt (meta_of w b) st.index;
      list = list_remove st.list (meta_of w b);
    },
    meta_of w b,
  )
]

-- `eventBundleExpired`; the two events that it raises hold the bundle.
pub bundle_expired : Surroundings → Storage → MetaBundle → Storage
unfolding release
bundle_expired w st m = elim (first (has_id m.id) st.bundles) [
  | none ↦ st
  | some b ↦ record (release st b) {
    bundles = without_first (has_id m.id) st.bundles;
    index = erase priority_lt (meta_of w b) st.index;
  }
]

all_expired : Surroundings → Storage → List MetaBundle → Storage
unfolding bundle_expired
all_expired w st [] = st
all_expired w st (m ∷ ms) = all_expired w (bundle_expired w st m) ms

-- The tick of a second: the storage, and the bundles for which events are raised. `known` is false
-- while the quality of time is zero.
pub on_tick : Surroundings → Bool → ℕ → Storage → Storage × List MetaBundle
unfolding all_expired
on_tick w known timestamp st =
    let (list, expired) = expire known timestamp st.list in
    (all_expired w (record st { list = list }) expired, expired)

pub clear_storage : Storage → Storage
clear_storage st = record st {
  bundles = [];
  index = [];
  list = list_clear st.list;
  lengths = [];
  currentsize = 0;
}
