-- ===== src/Tests/Primary.antt =====
-- The theorem on the primary block in a stream.
use ibrdtn.Base.{
  ℕ, ◌%◌, ◌^◌, ◌<◌, ◌≡◌, refl, Bool, true, false, List, [], ◌∷◌, ◌++◌, arith, length, ok,
  read_bytes, read_bytes-append,
}
use ibrdtn.Sdnv.Encode.{sdnv_bytes}
use ibrdtn.Eid.Cbhe.{eid_of_numbers}
use ibrdtn.Flags.{has_flag, set_flag, clear_flag}
use ibrdtn.Dictionary.{Dictionary, empty_dictionary}
use ibrdtn.Blocks.{Block}
use ibrdtn.Bundles.{Bundle, write_bundle}
use ibrdtn.Bundles.Reading.{IsWritable}
use ibrdtn.Bundles.Reader.{Parts, read_payload, read_extension, read_bundle}
use ibrdtn.Bundles.Reader.Loop.{as_payload, as_unknown}
use ibrdtn.Bundles.Round.{IsAddressed, by_numbers, IsAccepted, read-write_bundle}
use ibrdtn.PrimaryBlock.{PrimaryBlock}
use ibrdtn.Primary.{bundle_version, write_primary, read_primary}
use ibrdtn.Primary.Header.{kept_span, names_in}
use ibrdtn.Primary.Round.{IsNumbered, IsCompressable, read-write_primary}
use ibrdtn.Tests.{some_block}

-- A fragment from ipn:4.2 to ipn:9.1, with the reports to nobody.
abbrev cbhe_block : PrimaryBlock
cbhe_block = record {
  procflags = 1;
  timestamp = 500;
  sequencenumber = 1;
  lifetime = 3600;
  fragmentoffset = 20;
  appdatalength = 300;
  source = eid_of_numbers 4 2;
  destination = eid_of_numbers 9 1;
  reportto = eid_of_numbers 0 0;
  custodian = eid_of_numbers 4 0;
}

made_of : (node app : ℕ) → node < 2 ^ 64 → app < 2 ^ 64 → IsNumbered (eid_of_numbers node app)
made_of node app h k = record { node = node; app = app; node_u64 = h; app_u64 = k; made = refl }

cbhe_block-IsCompressable : IsCompressable cbhe_block
cbhe_block-IsCompressable = record {
  numbers = record {
    procflags = omega arith;
    timestamp = omega arith;
    sequencenumber = omega arith;
    lifetime = omega arith;
    span = record { offset = omega arith; size = omega arith };
  };
  destination = made_of 9 1 (omega arith) (omega arith);
  source = made_of 4 2 (omega arith) (omega arith);
  reportto = made_of 0 0 (omega arith) (omega arith);
  custodian = made_of 4 0 (omega arith) (omega arith);
}

abbrev accept : PrimaryBlock → Bool
accept b = true

read-write_primary_example :
    (rest : List ℕ) × (write_primary true empty_dictionary cbhe_block
      ≡ ok (
        bundle_version ∷ (sdnv_bytes 1 ++ (sdnv_bytes (length rest % 2 ^ 64) ++ rest)),
        empty_dictionary,
      ))
    × (read_primary accept empty_dictionary (some_block 0) (
          (bundle_version ∷ (sdnv_bytes 1 ++ (sdnv_bytes (length rest % 2 ^ 64) ++ rest)))
          ++ (7 ∷ []))
        ≡ ok (
          kept_span (some_block 0) cbhe_block,
          names_in true empty_dictionary cbhe_block,
          7 ∷ [],
        ))
read-write_primary_example =
    read-write_primary accept empty_dictionary empty_dictionary (some_block 0) cbhe_block (7 ∷ [])
      cbhe_block-IsCompressable refl

-- An extension block that refers to ipn:9.1, and a payload of three bytes behind it.
abbrev some_extension : Block
some_extension = record {
  blocktype = 7;
  procflags = 96;
  eids = eid_of_numbers 9 1 ∷ [];
  payload = 5 ∷ 6 ∷ [];
}

abbrev some_payload : Block
some_payload = record { blocktype = 1; procflags = 8; eids = []; payload = 1 ∷ 2 ∷ 3 ∷ [] }

abbrev some_bundle : Bundle
some_bundle = record { primary = cbhe_block; blocks = some_extension ∷ some_payload ∷ [] }

-- A reader that copies bytes, knows no type of block, and accepts everything.
abbrev plain_parts : Parts
plain_parts = record {
  copy = read_bytes;
  known = λ t. false;
  made = λ t. read_extension read_bytes;
  report = read_payload read_bytes;
  custody = read_payload read_bytes;
  valid_primary = accept;
  valid_block = λ b n. true;
  valid_bundle = λ b. true;
}

some_extension-IsWritable : IsWritable (read_extension read_bytes) some_extension
unfolding read_extension has_flag set_flag
some_extension-IsWritable = record {
  procflags = omega arith;
  count = omega arith;
  size = omega arith;
  plain = λ e. cc;
  reads = λ p s. rw (read_bytes-append (5 ∷ 6 ∷ []) s) refl;
}

some_payload-IsWritable : IsWritable (read_payload read_bytes) some_payload
unfolding read_payload has_flag clear_flag
some_payload-IsWritable = record {
  procflags = omega arith;
  count = omega arith;
  size = omega arith;
  plain = λ e. refl;
  reads = λ p s. rw (read_bytes-append (1 ∷ 2 ∷ 3 ∷ []) s) refl;
}

some_bundle-IsAddressed : IsAddressed empty_dictionary some_bundle
some_bundle-IsAddressed =
    by_numbers cbhe_block-IsCompressable ((made_of 9 1 (omega arith) (omega arith), tt), (tt, tt))

some_bundle-IsAccepted : IsAccepted plain_parts (some_block 0) some_bundle
unfolding has_flag
some_bundle-IsAccepted = record {
  some_block = refl;
  ends = (refl, (refl, tt));
  readable = (
    record {
      few = omega arith;
      reader = as_unknown (omega arith) (omega arith) refl refl some_extension-IsWritable;
      valid = refl;
    },
    (
      record {
        few = omega arith;
        reader = as_payload refl refl some_payload-IsWritable;
        valid = refl;
      },
      tt,
    ),
  );
  valid_primary = refl;
  valid_bundle = refl;
}

read-write_bundle_example :
    (bytes : List ℕ) × (e : Dictionary) × (y : Dictionary) × (write_bundle empty_dictionary
        some_bundle
      ≡ ok (bytes, e))
    × (read_bundle plain_parts empty_dictionary (some_block 0) (bytes ++ (7 ∷ []))
        ≡ ok (record some_bundle { primary = kept_span (some_block 0) cbhe_block }, y, 7 ∷ []))
read-write_bundle_example =
    read-write_bundle plain_parts empty_dictionary empty_dictionary (some_block 0) some_bundle
      (7 ∷ []) refl refl some_bundle-IsAddressed some_bundle-IsAccepted
