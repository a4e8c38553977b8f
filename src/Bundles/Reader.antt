-- ===== src/Bundles/Reader.antt =====
-- Reading a bundle: `operator>>` of ibrdtn/ibrdtn/data/Serializer.cpp, with `deserialize` of
-- PayloadBlock.cpp and ExtensionBlock.cpp.
pub mod Loop
use ibrdtn.Base.{
  ℕ, zero, suc, ◌+◌, ◌-◌, ◌*◌, ◌/◌, ◌%◌, ◌^◌, ◌≤◌, ◌<◌, ◌≡◌, ◌≢◌, ◌⊎◌, inl, inr, refl, sym, ap, ◌∙◌,
  Bool, true, false, not, ◌&&◌, ◌||◌, Option, none, some, List, [], ◌∷◌, ◌++◌, arith, length, ltb,
  leb, ◌==◌, if◌then◌else◌, Result, ok, err, invalid_data, invalid_protocol, rejected, wrong_eid,
  aborted, unsent, short_read, overrun, get_byte, read_bytes, read_bytes-append, ◌>>=◌, >>=-eq-ok,
  length-append, All, All-append, subst, Bool-cases, Trichotomy, below, level, above, trichotomy,
  Option-cases, map, ltb→lt,
}
use ibrdtn.Flags.{has_flag, clear_flag, set_flag, put_flag}
use ibrdtn.Dictionary.{Dictionary, copy_dictionary}
use ibrdtn.PrimaryBlock.{PrimaryBlock, flag_admrecord}
use ibrdtn.Primary.{Names, read_primary}
use ibrdtn.Blocks.{Block, plain_block, last_block, discard_if_not_processed}
use ibrdtn.Bundles.{Bundle, Deserialize, write_block, read_block}

abbrev pub forwarded_without_processed : ℕ
forwarded_without_processed = 2 ^ 5

-- What the reader is given: the copy of bytes of a stream into a BLOB, which block types have a
-- factory, what `deserialize` of the class is that it makes, and of the two administrative records,
-- and the validator.
pub record Parts : Type 0 where
  pub copy : ℕ → List ℕ → Result (List ℕ × List ℕ)
  pub known : ℕ → Bool
  pub made : ℕ → Deserialize
  pub report : Deserialize
  pub custody : Deserialize
  pub valid_primary : PrimaryBlock → Bool
  pub valid_block : Block → ℕ → Bool
  pub valid_bundle : Bundle → Bool

-- `PayloadBlock::deserialize`
unfoldable pub read_payload : (ℕ → List ℕ → Result (List ℕ × List ℕ)) → Deserialize
read_payload copy b size s = do
  (p, s) ← copy size s
  ok (record b { payload = p; procflags = clear_flag b.procflags forwarded_without_processed }, s)

-- `ExtensionBlock::deserialize`
unfoldable pub read_extension : (ℕ → List ℕ → Result (List ℕ × List ℕ)) → Deserialize
read_extension copy b size s = do
  (p, s) ← copy size s
  ok (record b { payload = p; procflags = set_flag b.procflags forwarded_without_processed }, s)

-- `set(LAST_BLOCK, value)` of the last block of a list.
pub mark_end : Bool → List Block → List Block
mark_end value [] = []
mark_end value (b ∷ []) = record b { procflags = put_flag b.procflags last_block value } ∷ []
mark_end value (b ∷ c ∷ cs) = b ∷ mark_end value (c ∷ cs)

-- A new block behind the others. (Of the flags and the type of a new block only LAST_BLOCK is not
-- overwritten by the reader.)
pub new_last : Block
new_last = record (plain_block 0) { procflags = last_block }

pub add_last : List Block → Block → List Block
unfolding mark_end
add_last done b = mark_end false done ++ (b ∷ [])

-- One round of the loop: the blocks, whether the last one was read, the dictionary and the stream.
pub record Round : Type 0 where
  pub blocks : List Block
  pub lastblock : Bool
  pub dictionary : Dictionary
  pub stream : List ℕ

added : List Block → Block × Dictionary × List ℕ → Round
unfolding add_last
added done r = record {
  blocks = add_last done r.0;
  lastblock = has_flag r.0.procflags last_block;
  dictionary = r.1;
  stream = r.2;
}

-- An extension block that is not known goes again if it says so; `remove` marks the block before
-- it.
added_unknown : List Block → Block × Dictionary × List ℕ → Round
unfolding added mark_end
added_unknown done r =
    if has_flag r.0.procflags discard_if_not_processed
    then record {
      blocks = mark_end true (mark_end false done);
      lastblock = has_flag r.0.procflags last_block;
      dictionary = r.1;
      stream = r.2;
    }
    else added done r

-- A record is read as an extension block first, written with a copy of the dictionary, and read
-- again with another one, of a class that the upper half of its first byte tells. One of no known
-- kind goes again, and the loop goes on.
read_record : Parts → Bool → List Block → Dictionary → List ℕ → Result Round
unfolding added mark_end
read_record parts c done d s = do
  (b, d, s) ← read_block parts.valid_block (read_extension parts.copy) c d new_last s
  (admfield, payload) ← get_byte b.payload
  let (d1, d) = copy_dictionary d
  let (d2, d) = copy_dictionary d
  bs ← write_block false d1 b
  (if admfield / 16 == 1
      then (read_block (λ b n. true) parts.report false d2 new_last bs >>= λ r.
          ok (added done (r.0, d, s)))
      else if admfield / 16 == 2
      then (read_block (λ b n. true) parts.custody false d2 new_last bs >>= λ r.
          ok (added done (r.0, d, s)))
      else ok (record {
        blocks = mark_end true (mark_end false done);
        lastblock = false;
        dictionary = d;
        stream = s;
      }))

-- The `switch` over the block type. (The source goes on after an exception while a block with a
-- factory is read, and takes what is left of it for an extension block; here it ends the reading.)
pub read_one : Parts → Bool → Bool → List Block → Dictionary → List ℕ → Result Round
unfolding added added_unknown read_record
read_one parts admrecord c done d s = get_byte s >>= λ r.
    if r.0 == 0
    then err invalid_data
    else if r.0 == 1
    then (if admrecord
        then read_record parts c done d s
        else (read_block parts.valid_block (read_payload parts.copy) c d new_last s >>= λ b.
            ok (added done b)))
    else if parts.known r.0
    then (read_block parts.valid_block (parts.made r.0) c d new_last s >>= λ b. ok (added done b))
    else (read_block parts.valid_block (read_extension parts.copy) c d new_last s >>= λ b.
        ok (added_unknown done b))

-- The loop. Each round takes a byte at least, so as many rounds as there are bytes are enough.
pub read_blocks : ℕ → Parts → Bool → Bool → List Block → Dictionary → List ℕ → Result Round
read_blocks zero parts admrecord c done d s = err short_read
read_blocks (suc fuel) parts admrecord c done d s = read_one parts admrecord c done d s >>= λ r.
    if r.lastblock then ok r else read_blocks fuel parts admrecord c r.blocks r.dictionary r.stream

-- `operator>>` of a bundle, with the dictionary of the reader and the primary block of the object.
unfoldable pub read_bundle :
    Parts → Dictionary → PrimaryBlock → List ℕ → Result (Bundle × Dictionary × List ℕ)
read_bundle parts d old s = do
  (primary, names, s) ← read_primary parts.valid_primary d old s
  r ←
      read_blocks (length s) parts (has_flag primary.procflags flag_admrecord) names.compressed []
        names.dictionary s
  let b : Bundle = record { primary = primary; blocks = r.blocks }
  (if parts.valid_bundle b then ok (b, r.dictionary, r.stream) else err rejected)
