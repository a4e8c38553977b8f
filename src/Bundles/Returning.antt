-- ===== src/Bundles/Returning.antt =====
-- Where `getLength` throws nothing: Serializer.cpp.
use ibrdtn.Base.{
  ℕ, ◌+◌, ◌%◌, ◌^◌, ◌<◌, ◌≡◌, refl, false, List, [], ◌∷◌, arith, length, Result, ok, All,
}
use ibrdtn.Sdnv.{IsU64}
use ibrdtn.Sdnv.Encode.{encoding_len-eq}
use ibrdtn.Dictionary.{Dictionary}
use ibrdtn.Dictionary.Entries.{Holds}
use ibrdtn.Dictionary.References.{
  IsIn, get_ref-IsU64, texts_length, length-add_eids, length-clear_dictionary,
}
use ibrdtn.Dictionary.Round.{IsReferable}
use ibrdtn.Primary.Header.{HasNumbers}
use ibrdtn.Primary.Named.{IsNamed}
use ibrdtn.Bundles.Round.{eids_of, rebuild_dictionary-IsBuilt}
use ibrdtn.Fields.{length_if-eq, span_length-eq, bytes_if, span_bytes}
use ibrdtn.Sdnv.Encode.{group_count}
use ibrdtn.Primary.{reference}
use ibrdtn.Dictionary.{get_ref, dictionary_size, clear_dictionary}
use ibrdtn.PrimaryBlock.{PrimaryBlock, is_fragment}
use ibrdtn.Primary.{header_numbers, written_size, span_of}
use ibrdtn.Primary.Numbers.{numbers_bytes, numbers_length-eq}
use ibrdtn.Blocks.{Block}
use ibrdtn.Bundles.{Bundle, Deserialize, rebuild_dictionary}
use ibrdtn.Bundles.Reading.{IsWritable}
use ibrdtn.Bundles.Addressed.{by_block}
use ibrdtn.Bundles.Lengths.{primary_length, blocks_length, bundle_length, block_length_short}

-- A length that is returned, and fits a size_t.
abbrev pub Returns : Result ℕ → Type 0
Returns r = (n : ℕ) × (r ≡ ok n) × (n < 2 ^ 64)

module _ (d : Dictionary) (ts : List (List ℕ)) (b : PrimaryBlock) (k : IsNamed ts b)
    (h : Holds d ts) (fits : IsU64 (length d.bytes)) where
  named_numbers : List ℕ
  named_numbers =
      let to = get_ref d b.destination in
      let from = get_ref d b.source in
      let report = get_ref d b.reportto in
      let keeper = get_ref d b.custodian in
      to.0
      ∷ to.1
      ∷ from.0
      ∷ from.1
      ∷ report.0
      ∷ report.1
      ∷ keeper.0
      ∷ keeper.1
      ∷ b.timestamp
      ∷ b.sequencenumber
      ∷ b.lifetime
      ∷ dictionary_size d
      ∷ []

  named_numbers-IsU64 : All IsU64 named_numbers
  unfolding named_numbers dictionary_size
  named_numbers-IsU64 =
      let (to, to') = get_ref-IsU64 d ts b.destination h k.destination fits in
      let (from, from') = get_ref-IsU64 d ts b.source h k.source fits in
      let (report, report') = get_ref-IsU64 d ts b.reportto h k.reportto fits in
      let (keeper, keeper') = get_ref-IsU64 d ts b.custodian h k.custodian fits in
      (
        to,
        (
          to',
          (
            from,
            (
              from',
              (
                report,
                (
                  report',
                  (
                    keeper,
                    (
                      keeper',
                      (
                        k.numbers.timestamp,
                        (k.numbers.sequencenumber, (k.numbers.lifetime, (fits, tt))),
                      ),
                    ),
                  ),
                ),
              ),
            ),
          ),
        ),
      )

  primary_length-Returns : Returns (primary_length false d b)
  unfolding primary_length written_size header_numbers reference named_numbers
  primary_length-Returns =
      let total =
        (1
          + group_count b.procflags
          + length (numbers_bytes named_numbers)
          + dictionary_size d
          + length (bytes_if (is_fragment b) (span_bytes (span_of b))))
        % 2 ^ 64 in
      (
        (total + group_count total) % 2 ^ 64,
        rw (encoding_len-eq b.procflags k.numbers.procflags) (
            rw (numbers_length-eq named_numbers named_numbers-IsU64) (
              rw (length_if-eq (is_fragment b) _ _ (span_length-eq (span_of b) k.numbers.span))
                (rw (encoding_len-eq total (omega arith)) refl))),
        omega arith,
      )

blocks_length-Returns :
    (d : Dictionary) (ts : List (List ℕ)) (deserialize : Block → Deserialize) (bs : List Block)
    → Holds d ts
    → IsU64 (length d.bytes)
    → All (λ b. All (IsIn ts) b.eids) bs
    → All (λ b. IsWritable (deserialize b) b) bs
    → Returns (blocks_length d bs)
unfolding blocks_length
blocks_length-Returns d ts deserialize [] h fits e k = (0, refl, omega arith)
blocks_length-Returns d ts deserialize (b ∷ bs) h fits e k =
    let (bytes, n, written, length, rest) =
      block_length_short d ts b (deserialize b) h fits e.0 k.0 in
    let (m, lengths, small) = blocks_length-Returns d ts deserialize bs h fits e.1 k.1 in
    ((n % 2 ^ 64 + m) % 2 ^ 64, rw length (rw lengths refl), omega arith)

-- `getLength` of a bundle throws nothing, if its EIDs fit a dictionary of less than 2 ^ 64 bytes
-- and its numbers fit 64 bits.
pub bundle_length-Returns :
    (d : Dictionary) (deserialize : Block → Deserialize) (b : Bundle)
    → d.failed ≡ false
    → HasNumbers b.primary
    → All IsReferable (eids_of b)
    → texts_length (eids_of b) < 2 ^ 64
    → All (λ x. IsWritable (deserialize x) x) b.blocks
    → Returns (bundle_length false d b)
unfolding bundle_length
bundle_length-Returns d deserialize b good p r fits k =
    let d0 = rebuild_dictionary d b in
    let t = rebuild_dictionary-IsBuilt d b good r in
    let small : IsU64 (length d0.bytes) =
      unfold rebuild_dictionary in
      omega (arith, length-add_eids (clear_dictionary d) (eids_of b), length-clear_dictionary d) in
    let named : IsNamed t.texts b.primary = record {
      numbers = p;
      destination = t.all.0;
      source = t.all.1.0;
      reportto = t.all.1.1.0;
      custodian = t.all.1.1.1.0;
    } in
    let (n, first, _) = primary_length-Returns d0 t.texts b.primary named t.holds small in
    let (m, rest, _) =
      blocks_length-Returns d0 t.texts deserialize b.blocks t.holds small
        (by_block (IsIn t.texts) b.blocks t.all.1.1.1.1) k in
    ((n + m) % 2 ^ 64, rw first (rw rest refl), omega arith)
