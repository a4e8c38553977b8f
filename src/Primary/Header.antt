-- ===== src/Primary/Header.antt =====
-- The header of a primary block, from the references of its EIDs: Serializer.cpp.
use ibrdtn.Base.{
  ℕ, ◌+◌, ◌%◌, ◌^◌, ◌≡◌, refl, Bool, true, Option, List, [], ◌∷◌, ◌++◌, arith, length,
  if◌then◌else◌, ok, All, All-append,
}
use mathlib.Core.List.{append_assoc}
use ibrdtn.Sdnv.{IsU64}
use ibrdtn.Sdnv.Encode.{sdnv_bytes}
use ibrdtn.Sdnv.Stream.{write_sdnv-eq, read_sdnv-sdnv_bytes}
use ibrdtn.Dictionary.{Dictionary}
use ibrdtn.Fields.{
  IsSpan, span_bytes, write_span-eq, span_length-eq, read_span-span_bytes, bytes_if, write_if-eq,
  length_if-eq, read_if-bytes_if, read_span,
}
use ibrdtn.Flags.{has_flag}
use ibrdtn.PrimaryBlock.{PrimaryBlock, is_fragment}
use ibrdtn.Primary.{
  bundle_version, header_numbers, span_of, written_size, write_names, write_primary, read_names,
  Names, names_of, read_behind_version, read_primary,
}
use ibrdtn.Primary.Numbers.{
  numbers_bytes, write_numbers-eq, numbers_length-eq, read_pair-sdnv_bytes, predicted_length,
}

-- The references of the four EIDs.
pub record References : Type 0 where
  pub to : ℕ × ℕ
  pub from : ℕ × ℕ
  pub report : ℕ × ℕ
  pub keeper : ℕ × ℕ

abbrev pub ArePairs : References → Type 0
ArePairs r =
    (IsU64 r.to.0 × IsU64 r.to.1)
    × (IsU64 r.from.0 × IsU64 r.from.1)
    × (IsU64 r.report.0 × IsU64 r.report.1)
    × (IsU64 r.keeper.0 × IsU64 r.keeper.1)

-- The numbers of a block fit 64 bits.
pub record HasNumbers (b : PrimaryBlock) : Type 0 where
  pub procflags : IsU64 b.procflags
  pub timestamp : IsU64 b.timestamp
  pub sequencenumber : IsU64 b.sequencenumber
  pub lifetime : IsU64 b.lifetime
  pub span : IsSpan (span_of b)

-- What a reader makes of a block: the offset and the length of a fragment only if it is one.
unfoldable pub kept_span : PrimaryBlock → PrimaryBlock → PrimaryBlock
kept_span old b = record b {
  fragmentoffset = (if is_fragment b then span_of b else span_of old).offset;
  appdatalength = (if is_fragment b then span_of b else span_of old).size;
}

abbrev pub names_in : Bool → Dictionary → PrimaryBlock → Names
names_in c d b = record {
  destination = b.destination;
  source = b.source;
  reportto = b.reportto;
  custodian = b.custodian;
  compressed = c;
  dictionary = d;
}

-- `names` are the bytes of the dictionary behind its size.
module _ (b : PrimaryBlock) (h : HasNumbers b) (r : References) (pairs : ArePairs r)
    (names : List ℕ) where
  abbrev pub numbers : List ℕ
  numbers =
      r.to.0 ∷ r.to.1 ∷ r.from.0 ∷ r.from.1 ∷ r.report.0 ∷ r.report.1 ∷ r.keeper.0 ∷ r.keeper.1
      ∷ b.timestamp ∷ b.sequencenumber ∷ b.lifetime ∷ []

  abbrev pub block_body : List ℕ
  block_body = numbers_bytes numbers ++ (names ++ bytes_if (is_fragment b) (span_bytes (span_of b)))

  abbrev pub block_bytes : List ℕ
  block_bytes =
      bundle_version
      ∷ (sdnv_bytes b.procflags ++ (sdnv_bytes (length block_body % 2 ^ 64) ++ block_body))

  numbers-IsU64 : All IsU64 numbers
  numbers-IsU64 =
      let (to, from, report, keeper) = pairs in
      (
        to.0,
        (
          to.1,
          (
            from.0,
            (
              from.1,
              (
                report.0,
                (
                  report.1,
                  (keeper.0, (keeper.1, (h.timestamp, (h.sequencenumber, (h.lifetime, tt))))),
                ),
              ),
            ),
          ),
        ),
      )

  pub write_primary_from :
      (c : Bool) (d d' : Dictionary)
      → header_numbers c d b ≡ ok numbers
      → IsU64 (written_size c d)
      → length names ≡ length (sdnv_bytes (written_size c d)) + written_size c d
      → write_names c d ≡ ok (names, d')
      → write_primary c d b ≡ ok (block_bytes, d')
  unfolding write_primary
  write_primary_from c d d' refers fits sized named = rw (write_sdnv-eq b.procflags h.procflags) (
      rw refers (
        rw
          (numbers_length-eq (numbers ++ (written_size c d ∷ []))
            (All-append IsU64 numbers (written_size c d ∷ []) numbers-IsU64 (fits, tt)))
          (rw (length_if-eq (is_fragment b) _ _ (span_length-eq (span_of b) h.span)) (
            rw
              (predicted_length numbers names (bytes_if (is_fragment b) (span_bytes (span_of b)))
                (written_size c d) sized)
              (rw (write_sdnv-eq (length block_body % 2 ^ 64) (omega arith)) (
                rw (write_numbers-eq numbers numbers-IsU64) (
                  rw named (
                    rw (write_if-eq (is_fragment b) _ _ (write_span-eq (span_of b) h.span))
                      refl))))))))

  -- The reader does not use the length.
  pub read_primary_from :
      (valid : PrimaryBlock → Bool) (c : Bool) (d d' : Dictionary) (old : PrimaryBlock)
      (o : Option Dictionary) (len : ℕ) (s : List ℕ)
      → IsU64 len
      → ((t : List ℕ) → read_names d (names ++ t) ≡ ok (o, t))
      → names_of d o r.to r.from r.report r.keeper ≡ names_in c d' b
      → valid (kept_span old b) ≡ true
      → read_primary valid d old
          ((bundle_version ∷ (sdnv_bytes b.procflags ++ (sdnv_bytes len ++ block_body))) ++ s)
        ≡ ok (kept_span old b, names_in c d' b, s)
  unfolding read_primary read_behind_version numbers_bytes kept_span has_flag is_fragment
  read_primary_from valid c d d' old o len s fits reads named ok_valid =
      let (to, from, report, keeper) = pairs in
      simp append_assoc (
        rw (read_sdnv-sdnv_bytes b.procflags _ h.procflags) (
          rw (read_sdnv-sdnv_bytes len _ fits) (
            rw (read_pair-sdnv_bytes r.to.0 r.to.1 _ to.0 to.1) (
              rw (read_pair-sdnv_bytes r.from.0 r.from.1 _ from.0 from.1) (
                rw (read_pair-sdnv_bytes r.report.0 r.report.1 _ report.0 report.1) (
                  rw (read_pair-sdnv_bytes r.keeper.0 r.keeper.1 _ keeper.0 keeper.1) (
                    rw (read_sdnv-sdnv_bytes b.timestamp _ h.timestamp) (
                      rw (read_sdnv-sdnv_bytes b.sequencenumber _ h.sequencenumber) (
                        rw (read_sdnv-sdnv_bytes b.lifetime _ h.lifetime) (
                          rw (reads _) (
                            rw
                              (read_if-bytes_if (is_fragment b) (span_of old) (span_of b) read_span
                                (span_bytes (span_of b)) s
                                (read_span-span_bytes (span_of b) s h.span))
                              (rw named (rw ok_valid refl)))))))))))))
