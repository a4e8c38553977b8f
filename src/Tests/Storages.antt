-- ===== src/Tests/Storages.antt =====
-- The theorems on storages and on the lengths of blocks.
use ibrdtn.Base.{
  ℕ, ◌+◌, ◌%◌, ◌^◌, ◌<◌, ◌≡◌, refl, false, none, some, List, [], ◌∷◌, arith, length, ok, read_bytes,
  read_bytes-append,
}
use ibrdtn.Flags.{has_flag, clear_flag}
use ibrdtn.Sdnv.{IsU64}
use ibrdtn.Sdnv.Encode.{sdnv_bytes, group_count_bounds, length-sdnv_bytes}
use ibrdtn.Sdnv.Stream.{write_sdnv-eq}
use ibrdtn.Dictionary.{empty_dictionary}
use ibrdtn.Dictionary.Entries.{flat}
use ibrdtn.Blocks.{Block}
use ibrdtn.Base.Sets.{contains}
use ibrdtn.Bundles.{Bundle, write_block, all_eids}
use ibrdtn.Bundles.Reading.{IsWritable}
use ibrdtn.Bundles.Reader.{read_payload}
use ibrdtn.Bundles.Lengths.{bundle_length, block_length, block_length_short}
use ibrdtn.Bundles.Returning.{Returns, bundle_length-Returns}
use ibrdtn.Storage.{
  Surroundings, Storage, block_now, blocks_now, length_now, new_storage, store, stored, duplicate,
  get_bundle, remove_id, id_of,
}
use ibrdtn.Storage.Laws.{CanTake, store-remove_id, store_twice}
use ibrdtn.Tests.{some_block, good_clock, some_time}
use ibrdtn.Tests.Bundles.{node_eid-IsReferable, cbhe_eid-IsReferable}

abbrev one_payload : Block
one_payload = record { blocktype = 1; procflags = 8; eids = []; payload = 1 ∷ 2 ∷ 3 ∷ [] }

one_payload-IsWritable : IsWritable (read_payload read_bytes) one_payload
unfolding read_payload has_flag clear_flag
one_payload-IsWritable = record {
  procflags = omega arith;
  count = omega arith;
  size = omega arith;
  plain = λ e. refl;
  reads = λ p s. rw (read_bytes-append (1 ∷ 2 ∷ 3 ∷ []) s) refl;
}

block_length_short_example :
    (bytes : List ℕ) × (n : ℕ) × (write_block false empty_dictionary one_payload ≡ ok bytes)
    × (block_length empty_dictionary one_payload ≡ ok (n % 2 ^ 64))
    × (n + length (sdnv_bytes 3) ≡ length bytes)
unfolding flat
block_length_short_example =
    block_length_short empty_dictionary [] one_payload (read_payload read_bytes)
      (record { bytes = refl; no_nul = tt; good = refl }) (omega arith) tt one_payload-IsWritable

-- An age block as it is written at `n` microseconds.
abbrev aged_block : ℕ → Block
aged_block n = record { blocktype = 10; procflags = 0; eids = []; payload = sdnv_bytes n }

abbrev stored_bundle : Bundle
stored_bundle = record { primary = some_block 0; blocks = aged_block 0 ∷ one_payload ∷ [] }

-- With age blocks that count from zero.
abbrev surroundings : Surroundings
surroundings = record {
  clock = good_clock;
  now = some_time;
  age = λ b. none;
  hops = λ b. none;
  running = λ b block. 0;
}

-- After two seconds, by when the SDNV of an age block has grown.
abbrev later_on : Surroundings
later_on = record surroundings { running = λ b block. 2000000 }

aged_block-IsWritable : (n : ℕ) → IsU64 n → IsWritable (read_payload read_bytes) (aged_block n)
unfolding read_payload has_flag clear_flag
aged_block-IsWritable n h = record {
  procflags = omega arith;
  count = omega arith;
  size = omega (arith, length-sdnv_bytes n h, group_count_bounds n h);
  plain = λ e. refl;
  reads = λ p s. rw (read_bytes-append (sdnv_bytes n) s) refl;
}

aged_length :
    (n : ℕ)
    → IsU64 n
    → Returns (
        bundle_length false empty_dictionary
          (record stored_bundle { blocks = aged_block n ∷ one_payload ∷ [] }))
unfolding all_eids
aged_length n h =
    bundle_length-Returns empty_dictionary (λ b. read_payload read_bytes)
      (record stored_bundle { blocks = aged_block n ∷ one_payload ∷ [] }) refl
      (record {
        procflags = omega arith;
        timestamp = omega arith;
        sequencenumber = omega arith;
        lifetime = omega arith;
        span = record { offset = omega arith; size = omega arith };
      })
      (
        cbhe_eid-IsReferable,
        (node_eid-IsReferable, (node_eid-IsReferable, (node_eid-IsReferable, tt))),
      )
      (omega arith) (aged_block-IsWritable n h, (one_payload-IsWritable, tt))

length_at :
    (n : ℕ) (h : IsU64 n)
    → length_now (record surroundings { running = λ b block. n }) stored_bundle
      ≡ ok (aged_length n h).0
unfolding length_now blocks_now block_now
length_at n h = rw (write_sdnv-eq n h) (aged_length n h).1

abbrev at_first : ℕ
at_first = (aged_length 0 (omega arith)).0

abbrev at_last : ℕ
at_last = (aged_length 2000000 (omega arith)).0

can_take : CanTake surroundings (new_storage 0) stored_bundle
unfolding new_storage contains
can_take = record {
  size = at_first;
  length = length_at 0 (omega arith);
  current = omega arith;
  room = refl;
  new_id = tt;
  new_bundle = refl;
  new_meta = refl;
}

store-remove_id_example :
    let st = new_storage 0 in
    (st' st'' : Storage) × (store surroundings st stored_bundle ≡ ok (st', stored))
    × (get_bundle st' (id_of stored_bundle) ≡ some stored_bundle)
    × (remove_id later_on st' (id_of stored_bundle) ≡ ok (some st''))
    × (st''.bundles ≡ st.bundles)
    × (st''.index ≡ st.index)
    × (st''.currentsize < 2 ^ 64)
    × ((st''.currentsize + at_last) % 2 ^ 64 ≡ (st.currentsize + at_first) % 2 ^ 64)
unfolding aged_length can_take
store-remove_id_example =
    store-remove_id surroundings later_on (new_storage 0) stored_bundle at_last can_take
      (length_at 2000000 (omega arith))

store_twice_example :
    (st st' st'' : Storage) × (store surroundings (new_storage 0) stored_bundle ≡ ok (st, stored))
    × (store surroundings st stored_bundle ≡ ok (st', duplicate))
    × (remove_id surroundings st' (id_of stored_bundle) ≡ ok (some st''))
    × (st''.bundles ≡ [])
    × (st''.currentsize ≡ at_first)
store_twice_example =
    store_twice surroundings surroundings surroundings stored_bundle at_first
      (length_at 0 (omega arith)) (length_at 0 (omega arith)) (length_at 0 (omega arith))
      (aged_length 0 (omega arith)).2
