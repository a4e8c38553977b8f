-- ===== src/Bundles.antt =====
-- Bundles and their secondary blocks in a stream: ibrdtn/ibrdtn/data/Serializer.cpp.
pub mod Carried
pub mod Reader
pub mod Reading
pub mod Addressed
pub mod Round
pub mod Lengths
pub mod Returning
pub mod Endless
use ibrdtn.Base.{
  ℕ, zero, suc, ◌+◌, ◌-◌, ◌*◌, ◌/◌, ◌%◌, ◌^◌, ◌≤◌, ◌<◌, ◌≡◌, ◌≢◌, ◌⊎◌, inl, inr, refl, sym, ap, ◌∙◌,
  Bool, true, false, not, ◌&&◌, ◌||◌, Option, none, some, List, [], ◌∷◌, ◌++◌, arith, length, ltb,
  leb, ◌==◌, if◌then◌else◌, Result, ok, err, invalid_data, invalid_protocol, rejected, wrong_eid,
  aborted, unsent, short_read, overrun, get_byte, read_bytes, read_bytes-append, ◌>>=◌, >>=-eq-ok,
  length-append, All, All-append, subst, Bool-cases, Trichotomy, below, level, above, trichotomy,
  Option-cases, map, ltb→lt,
}
use ibrdtn.Flags.{has_flag, clear_flag, put_flag}
use ibrdtn.Sdnv.Stream.{write_sdnv, read_sdnv}
use ibrdtn.Eid.{Eid, is_empty, is_compressable}
use ibrdtn.Eid.Cbhe.{eid_of_numbers}
use ibrdtn.Dictionary.{
  Dictionary, empty_dictionary, get_eid, add_eids, clear_dictionary, copy_dictionary,
}
use ibrdtn.PrimaryBlock.{PrimaryBlock}
use ibrdtn.Primary.{Names, reference, write_numbers, write_primary, read_pair, read_primary}
use ibrdtn.Blocks.{Block, plain_block, last_block, discard_if_not_processed, block_contains_eids}

-- A bundle with its blocks by value: a reader and a writer are the only ones that use them.
pub record Bundle : Type 0 where
  pub primary : PrimaryBlock
  pub blocks : List Block

-- The two numbers of each EID of a block.
pub eid_numbers : Bool → Dictionary → List Eid → Result (List ℕ)
eid_numbers c d [] = ok []
eid_numbers c d (e ∷ es) = do r ← reference c d e; rs ← eid_numbers c d es; ok (r.0 ∷ r.1 ∷ rs)

pub write_eids : Bool → Dictionary → List Eid → Result (List ℕ)
unfolding eid_numbers
write_eids c d es = do
  n ← write_sdnv (length es)
  numbers ← eid_numbers c d es
  bs ← write_numbers numbers
  ok (n ++ bs)

-- `operator<<` of a block, with `_compressable` and `_dictionary`.
pub write_block : Bool → Dictionary → Block → Result (List ℕ)
unfolding write_eids
write_block c d b = do
  flags ← write_sdnv b.procflags
  eids ← (if has_flag b.procflags block_contains_eids then write_eids c d b.eids else ok [])
  len ← write_sdnv (length b.payload)
  ok (b.blocktype ∷ (flags ++ (eids ++ (len ++ b.payload))))

pub write_blocks : Bool → Dictionary → List Block → Result (List ℕ)
unfolding write_block
write_blocks c d [] = ok []
write_blocks c d (b ∷ bs) = do x ← write_block c d b; xs ← write_blocks c d bs; ok (x ++ xs)

unfoldable pub all_eids : List Block → List Eid
all_eids [] = []
all_eids (b ∷ bs) = b.eids ++ all_eids bs

-- `rebuildDictionary`
unfoldable pub rebuild_dictionary : Dictionary → Bundle → Dictionary
unfolding all_eids
rebuild_dictionary d b = add_eids (clear_dictionary d) (
    b.primary.destination
    ∷ b.primary.source
    ∷ b.primary.reportto
    ∷ b.primary.custodian
    ∷ all_eids b.blocks)

pub all_compressable : List Eid → Bool
all_compressable [] = true
all_compressable (e ∷ es) = is_compressable e && all_compressable es

-- `isCompressable`
pub is_compressable_bundle : Bundle → Bool
unfolding all_compressable all_eids
is_compressable_bundle b = all_compressable (
    b.primary.source
    ∷ b.primary.destination
    ∷ b.primary.reportto
    ∷ b.primary.custodian
    ∷ all_eids b.blocks)

-- `operator<<` of a bundle: the bytes, and the dictionary afterwards.
pub write_bundle : Dictionary → Bundle → Result (List ℕ × Dictionary)
unfolding rebuild_dictionary is_compressable_bundle write_blocks
write_bundle d b = do
  let c = is_compressable_bundle b
  (head, d) ← write_primary c (rebuild_dictionary d b) b.primary
  body ← write_blocks c d b.blocks
  ok (head ++ body, d)

-- The EID for two numbers.
unfoldable pub eid_at : Bool → Dictionary → ℕ × ℕ → Eid × Dictionary
eid_at true d r = (eid_of_numbers r.0 r.1, d)
eid_at false d r = get_eid d r.0 r.1

-- The loop over the EIDs of a block, for a number of rounds.
pub read_eids : ℕ → Bool → Dictionary → List ℕ → Result (List Eid × Dictionary × List ℕ)
unfolding eid_at
read_eids zero c d s = ok ([], d, s)
read_eids (suc n) c d s = do
  (r, s) ← read_pair s
  let (e, d) = eid_at c d r
  (es, d, s) ← read_eids n c d s
  ok (e ∷ es, d, s)

-- How often the loop goes round over the bytes of a stream. Its counter has 32 bits: below 2 ^ 32
-- EIDs it counts them; from there on it never reaches the number, and the loop goes on until the
-- stream has no more bytes, which is no later than in the round behind the last byte.
pub rounds : ℕ → List ℕ → ℕ
rounds n s = if ltb n (2 ^ 32) then n else suc (length s)

pub read_counted : Bool → Dictionary → List ℕ → Result (List Eid × Dictionary × List ℕ)
unfolding read_eids rounds
read_counted c d s = read_sdnv s >>= λ n. read_eids (rounds n.0 n.1) c d n.1

-- `value & (~LAST_BLOCK | flags)`
pub kept_last : ℕ → ℕ → ℕ
unfolding clear_flag
kept_last flags value = if has_flag flags last_block then value else clear_flag value last_block

-- `deserialize` of a class: it reads a payload of some length into a block, and leaves the rest of
-- the stream.
abbrev pub Deserialize : Type 0
Deserialize = Block → ℕ → List ℕ → Result (Block × List ℕ)

-- `operator>>` of a block into one that exists.
pub read_block :
    (Block → ℕ → Bool)
    → Deserialize
    → Bool
    → Dictionary
    → Block
    → List ℕ
    → Result (Block × Dictionary × List ℕ)
unfolding read_counted kept_last
read_block valid deserialize c d old s = do
  (blocktype, s) ← get_byte s
  (value, s) ← read_sdnv s
  let procflags = kept_last old.procflags value
  (eids, d, s) ←
      (if has_flag procflags block_contains_eids then read_counted c d s else ok ([], d, s))
  (size, s) ← read_sdnv s
  let b : Block = record old {
    blocktype = blocktype;
    procflags = procflags;
    eids = old.eids ++ eids;
  }
  (if valid b size then (deserialize b size s >>= λ r. ok (r.0, d, r.1)) else err rejected)
