-- ===== src/Bundles/Lengths.antt =====
-- The lengths that the serializer predicts: `getLength` of ibrdtn/ibrdtn/data/Serializer.cpp.
use ibrdtn.Base.{
  ℕ, ◌+◌, ◌%◌, ◌^◌, ◌≡◌, inl, inr, refl, sym, ap, Bool, false, List, [], ◌∷◌, ◌++◌, arith, length,
  if◌then◌else◌, Result, ok, ◌>>=◌, length-append, All, Bool-cases,
}
use ibrdtn.Flags.{has_flag}
use ibrdtn.Sdnv.{IsU64, encoding_len}
use ibrdtn.Sdnv.Encode.{sdnv_bytes, encoding_len-eq, length-sdnv_bytes}
use ibrdtn.Eid.{Eid}
use ibrdtn.Dictionary.{Dictionary}
use ibrdtn.Dictionary.Entries.{Holds}
use ibrdtn.Dictionary.References.{IsIn}
use ibrdtn.PrimaryBlock.{PrimaryBlock, is_fragment}
use ibrdtn.Fields.{length_if, span_length}
use ibrdtn.Primary.{numbers_length, header_numbers, written_size, span_of}
use ibrdtn.Primary.Numbers.{numbers_bytes, numbers_length-eq}
use ibrdtn.Blocks.{Block, block_contains_eids}
use ibrdtn.Bundles.{Bundle, Deserialize, eid_numbers, write_block, rebuild_dictionary}
use ibrdtn.Bundles.Carried.{
  IsCarried, named-IsCarried, carried_numbers, carried_numbers-IsU64, eid_numbers-eq, eids_bytes,
}
use ibrdtn.Bundles.Reading.{IsWritable, bytes_of, flagged_bytes, write_block-eq}
use ibrdtn.Bundles.Addressed.{all-IsCarried}

-- `getLength` of a primary block.
unfoldable pub primary_length : Bool → Dictionary → PrimaryBlock → Result ℕ
primary_length c d b = do
  flags ← encoding_len b.procflags
  numbers ← header_numbers c d b
  n ← numbers_length (numbers ++ (written_size c d ∷ []))
  f ← length_if (is_fragment b) (span_length (span_of b))
  let len = (1 + flags + n + written_size c d + f) % 2 ^ 64
  l ← encoding_len len
  ok ((len + l) % 2 ^ 64)

pub eids_length : Dictionary → List Eid → Result ℕ
eids_length d es = do
  n ← encoding_len (length es)
  numbers ← eid_numbers false d es
  m ← numbers_length numbers
  ok (n + m)

-- `getLength` of a block, which always asks the dictionary.
pub block_length : Dictionary → Block → Result ℕ
unfolding eids_length
block_length d b = do
  flags ← encoding_len b.procflags
  eids ← (if has_flag b.procflags block_contains_eids then eids_length d b.eids else ok 0)
  ok ((1 + flags + eids + length b.payload) % 2 ^ 64)

unfoldable pub blocks_length : Dictionary → List Block → Result ℕ
unfolding block_length
blocks_length d [] = ok 0
blocks_length d (b ∷ bs) = do n ← block_length d b; m ← blocks_length d bs; ok ((n + m) % 2 ^ 64)

-- `getLength` of a bundle. `c` is `_compressable` as the last bundle has left it.
unfoldable pub bundle_length : Bool → Dictionary → Bundle → Result ℕ
unfolding primary_length blocks_length
bundle_length c d b = do
  n ← primary_length c (rebuild_dictionary d b) b.primary
  m ← blocks_length (rebuild_dictionary d b) b.blocks
  ok ((n + m) % 2 ^ 64)

module _ (d : Dictionary) (Good : Dictionary → Type 0) (b : Block)
    (h : All (IsCarried false d Good) b.eids) (deserialize : Deserialize)
    (k : IsWritable deserialize b) where
  eids_length-eq : eids_length d b.eids ≡ ok (length (eids_bytes false d Good b.eids h))
  unfolding eids_length
  eids_length-eq = rw (encoding_len-eq (length b.eids) k.count) (
      rw (eid_numbers-eq false d Good b.eids h) (
        rw
          (numbers_length-eq (carried_numbers false d Good b.eids h)
            (carried_numbers-IsU64 false d Good b.eids h))
          (ap ok (
            omega (
              arith,
              length-append (sdnv_bytes (length b.eids))
                  (numbers_bytes (carried_numbers false d Good b.eids h)),
              length-sdnv_bytes (length b.eids) k.count,
            )))))

  flagged_length :
      (if has_flag b.procflags block_contains_eids then eids_length d b.eids else ok 0)
      ≡ ok (length (flagged_bytes false d Good b h))
  flagged_length = elim (Bool-cases (has_flag b.procflags block_contains_eids)) [
    | inl e ↦ rw e eids_length-eq
    | inr e ↦ rw e refl
  ]

  length-bytes_of :
      1
        + length (sdnv_bytes b.procflags)
        + length (flagged_bytes false d Good b h)
        + length b.payload
        + length (sdnv_bytes (length b.payload))
      ≡ length (bytes_of false d Good b h)
  length-bytes_of =
      let flagged = flagged_bytes false d Good b h in
      let tail = sdnv_bytes (length b.payload) ++ b.payload in
      omega (
        arith,
        length-append (sdnv_bytes b.procflags) (flagged ++ tail),
        length-append flagged tail,
        length-append (sdnv_bytes (length b.payload)) b.payload,
      )

  block_length-eq :
      block_length d b
      ≡ ok (
          (1
            + length (sdnv_bytes b.procflags)
            + length (flagged_bytes false d Good b h)
            + length b.payload)
          % 2 ^ 64)
  unfolding block_length
  block_length-eq = rw (encoding_len-eq b.procflags k.procflags) (
      rw flagged_length (
        ap (λ n. ok ((1 + n + length (flagged_bytes false d Good b h) + length b.payload) % 2 ^ 64))
          (sym (length-sdnv_bytes b.procflags k.procflags))))

-- The predicted length of a block that is written with a dictionary, whose numbers fit 64 bits and
-- that has EIDs only with the flag for them, is too short by the bytes of the number that says how
-- long its payload is (up to the wrap-around of a size_t). The dictionary has the EIDs and less
-- than 2 ^ 64 bytes.
pub block_length_short :
    (d : Dictionary) (ts : List (List ℕ)) (b : Block) (deserialize : Deserialize)
    → Holds d ts
    → IsU64 (length d.bytes)
    → All (IsIn ts) b.eids
    → IsWritable deserialize b
    → (bytes : List ℕ) × (n : ℕ) × (write_block false d b ≡ ok bytes)
      × (block_length d b ≡ ok (n % 2 ^ 64))
      × (n + length (sdnv_bytes (length b.payload)) ≡ length bytes)
block_length_short d ts b deserialize holds fits eids k =
    let Good : Dictionary → Type 0 = λ x. Holds x ts in
    let h =
      all-IsCarried false d Good (IsIn ts) (λ e i. named-IsCarried d ts e holds fits i) b.eids
        eids in
    (
      bytes_of false d Good b h,
      _,
      write_block-eq false d Good b h deserialize k,
      block_length-eq d Good b h deserialize k,
      length-bytes_of d Good b h deserialize k,
    )
