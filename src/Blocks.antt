-- ===== src/Blocks.antt =====
-- ibrdtn/ibrdtn/data/Block.cpp and Bundle.cpp: the blocks of a bundle. Bundles share their blocks
-- by counted pointers, so that blocks stand on a heap and a bundle has a list of addresses.
pub mod Places
pub mod Flagged
pub mod Marks
pub mod Sharing
use ibrdtn.Base.{
  ℕ, zero, suc, ◌+◌, ◌-◌, ◌*◌, ◌/◌, ◌%◌, ◌^◌, ◌≤◌, ◌<◌, ◌≡◌, ◌≢◌, ◌⊎◌, inl, inr, refl, sym, ap, ◌∙◌,
  Bool, true, false, not, ◌&&◌, ◌||◌, Option, none, some, List, [], ◌∷◌, ◌++◌, arith, length, ltb,
  leb, ◌==◌, if◌then◌else◌, Result, ok, err, invalid_data, invalid_protocol, rejected, wrong_eid,
  aborted, unsent, short_read, overrun, get_byte, read_bytes, read_bytes-append, ◌>>=◌, >>=-eq-ok,
  length-append, All, All-append, subst, Bool-cases, Trichotomy, below, level, above, trichotomy,
  Option-cases, map, ltb→lt,
}
use ibrdtn.Flags.{has_flag, put_flag, set_flag}
use ibrdtn.Eid.{Eid, eid_lt, is_empty}
use ibrdtn.Base.Sets.{insert}

abbrev pub last_block : ℕ
last_block = 2 ^ 3

abbrev pub discard_if_not_processed : ℕ
discard_if_not_processed = 2 ^ 4

abbrev pub block_contains_eids : ℕ
block_contains_eids = 2 ^ 6

-- A block with what `serialize` writes of its class.
pub record Block : Type 0 where
  pub blocktype : ℕ
  pub procflags : ℕ
  pub eids : List Eid
  pub payload : List ℕ

-- `Block::Block`
unfoldable pub plain_block : ℕ → Block
plain_block blocktype = record { blocktype = blocktype; procflags = 0; eids = []; payload = [] }

-- `addEID`
pub attach_eid : Block → Eid → Block
unfolding set_flag
attach_eid b e = record b {
  eids = b.eids ++ (e ∷ []);
  procflags = set_flag b.procflags block_contains_eids;
}

pub record Heap : Type 0 where
  pub at : ℕ → Block
  pub next : ℕ

-- `new`
pub create : Heap → Block → Heap × ℕ
create h b = (record { at = λ q. if q == h.next then b else h.at q; next = h.next + 1 }, h.next)

-- `set(LAST_BLOCK, value)` of the block at an address.
pub set_last : Heap → ℕ → Bool → Heap
unfolding put_flag
set_last h p value = record h {
  at = λ q.
      if q == p
      then record (h.at p) { procflags = put_flag (h.at p).procflags last_block value }
      else h.at q;
}

unfoldable pub back : List ℕ → Option ℕ
back [] = none
back (p ∷ ps) = elim (back ps) [ none ↦ some p | some q ↦ some q ]

pub set_last_of : Heap → Option ℕ → Bool → Heap
unfolding set_last
set_last_of h none value = h
set_last_of h (some p) value = set_last h p value

-- `BlockList::push_front`
pub push_front : Heap → List ℕ → ℕ → Heap × List ℕ
unfolding set_last
push_front h l p = (if is_empty l then set_last h p true else h, p ∷ l)

-- `BlockList::push_back`
pub push_back : Heap → List ℕ → ℕ → Heap × List ℕ
unfolding set_last set_last_of back
push_back h l p = (set_last_of (set_last h p true) (back l) false, l ++ (p ∷ []))

-- `BlockList::insert`
pub insert_before : List ℕ → ℕ → ℕ → List ℕ
insert_before [] p before = []
insert_before (q ∷ qs) p before =
    let rest = insert_before qs p before in if q == before then p ∷ q ∷ qs else q ∷ rest

pub holds : List ℕ → ℕ → Bool
holds [] p = false
holds (q ∷ qs) p = q == p || holds qs p

pub erase_first : List ℕ → ℕ → List ℕ
erase_first [] p = []
erase_first (q ∷ qs) p = let rest = erase_first qs p in if q == p then qs else q ∷ rest

-- `BlockList::remove`
pub remove : Heap → List ℕ → ℕ → Heap × List ℕ
unfolding holds erase_first set_last_of back
remove h l p =
    let rest = erase_first l p in
    if holds l p then (set_last_of h (back rest) true, rest) else (h, l)

-- `BlockList::operator=`, and the copy of a bundle.
pub copy_list : List ℕ → List ℕ
copy_list l = l

-- `BlockList::get(int)`, with the index as a number of either sign cut off by the test of the
-- source.
pub get_index : List ℕ → ℕ → Option ℕ
get_index [] i = none
get_index (p ∷ ps) zero = some p
get_index (p ∷ ps) (suc i) = get_index ps i

-- The search of `BlockList::get<T>`, which then casts what it has found.
pub find_type : Heap → List ℕ → ℕ → Option ℕ
find_type h [] t = none
find_type h (p ∷ ps) t =
    let rest = find_type h ps t in if (h.at p).blocktype == t then some p else rest

insert_all : List Eid → List Eid → List Eid
unfolding insert
insert_all [] set = set
insert_all (e ∷ es) set = insert_all es (insert eid_lt e set)

collect_eids : Heap → List ℕ → List Eid → List Eid
unfolding insert_all
collect_eids h [] set = set
collect_eids h (p ∷ ps) set = collect_eids h ps (insert_all (h.at p).eids set)

-- `BlockList::getEIDs`
pub get_eids : Heap → List ℕ → List Eid
unfolding collect_eids
get_eids h l = collect_eids h l []

-- A bundle's calls, and the calls one behind the other. A new block comes with its class's
-- constructor.
pub data Call : Type 0 where
  to_front to_back : Block → Call
  ahead_of : Block → ℕ → Call
  takes_out : ℕ → Call
  clears : Call

pub step : Heap × List ℕ → Call → Heap × List ℕ
unfolding create push_front push_back insert_before remove
step (h, l) (to_front b) = let (h', p) = create h b in push_front h' l p
step (h, l) (to_back b) = let (h', p) = create h b in push_back h' l p
step (h, l) (ahead_of b before) = let (h', p) = create h b in (h', insert_before l p before)
step (h, l) (takes_out p) = remove h l p
step (h, l) clears = (h, [])

pub run : Heap × List ℕ → List Call → Heap × List ℕ
unfolding step
run s [] = s
run s (c ∷ cs) = run (step s c) cs
