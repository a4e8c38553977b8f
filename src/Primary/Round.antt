-- ===== src/Primary/Round.antt =====
-- A primary block with a compressed header, there and back: Serializer.cpp.
use ibrdtn.Base.{
  ℕ, ◌+◌, ◌%◌, ◌^◌, ◌≡◌, inl, inr, refl, sym, ap, ◌∙◌, Bool, true, none, some, List, ◌∷◌, ◌++◌,
  arith, length, ◌==◌, if◌then◌else◌, ok, Bool-cases,
}
use ibrdtn.Sdnv.{IsU64}
use ibrdtn.Sdnv.Encode.{sdnv_bytes}
use ibrdtn.Sdnv.Stream.{write_sdnv-eq}
use ibrdtn.Eid.{Eid}
use ibrdtn.Eid.Cbhe.{eid_of_numbers, get_compressed, get_compressed-eid_of_numbers}
use ibrdtn.Dictionary.{Dictionary}
use ibrdtn.PrimaryBlock.{PrimaryBlock}
use ibrdtn.Primary.{
  bundle_version, reference, header_numbers, written_size, write_names, write_primary, read_names,
  names_of, read_primary,
}
use ibrdtn.Primary.Header.{
  References, ArePairs, HasNumbers, kept_span, names_in, block_body, write_primary_from,
  read_primary_from,
}
use ibrdtn.Primary.Numbers.{read_size-sdnv_bytes}

-- An EID that a compressed header can carry.
pub record IsNumbered (e : Eid) : Type 0 where
  pub node : ℕ
  pub app : ℕ
  pub node_u64 : IsU64 node
  pub app_u64 : IsU64 app
  pub made : e ≡ eid_of_numbers node app

pub record Referenced (d : Dictionary) (e : Eid) : Type 0 where
  pub first : ℕ
  pub second : ℕ
  pub first_u64 : IsU64 first
  pub second_u64 : IsU64 second
  pub refers : reference true d e ≡ ok (first, second)
  pub back : eid_of_numbers first second ≡ e

reference-eq :
    (d : Dictionary) (e : Eid) (r : ℕ × ℕ) → get_compressed e ≡ some r → reference true d e ≡ ok r
unfolding reference
reference-eq d e r h = rw (reference, h) refl

made_reference :
    (d : Dictionary) (e : Eid) (h : IsNumbered e)
    → reference true d e ≡ ok (h.node, if h.node == 0 then 0 else h.app)
made_reference d e h =
    reference-eq d e (h.node, if h.node == 0 then 0 else h.app)
      (ap get_compressed h.made ∙ get_compressed-eid_of_numbers h.node h.app h.node_u64 h.app_u64)

same_zero : (node app : ℕ) → (node == 0) ≡ true → eid_of_numbers node 0 ≡ eid_of_numbers node app
unfolding eid_of_numbers
same_zero node app z = rw z refl

pub reference-IsNumbered : (d : Dictionary) (e : Eid) → IsNumbered e → Referenced d e
reference-IsNumbered d e h = elim (Bool-cases (h.node == 0)) [
  | inl z ↦ record {
    first = h.node;
    second = 0;
    first_u64 = h.node_u64;
    second_u64 = omega arith;
    refers = made_reference d e h ∙ rw z refl;
    back = same_zero h.node h.app z ∙ sym h.made;
  }
  | inr z ↦ record {
    first = h.node;
    second = h.app;
    first_u64 = h.node_u64;
    second_u64 = h.app_u64;
    refers = made_reference d e h ∙ rw z refl;
    back = sym h.made;
  }
]

-- A primary block that a compressed header can carry.
pub record IsCompressable (b : PrimaryBlock) : Type 0 where
  pub numbers : HasNumbers b
  pub destination : IsNumbered b.destination
  pub source : IsNumbered b.source
  pub reportto : IsNumbered b.reportto
  pub custodian : IsNumbered b.custodian

read_names-zero : (d : Dictionary) (s : List ℕ) → read_names d (sdnv_bytes 0 ++ s) ≡ ok (none, s)
unfolding read_names
read_names-zero d s = rw (read_size-sdnv_bytes 0 s (omega arith)) refl

-- A primary block whose EIDs are made of two numbers, and whose numbers fit 64 bits, is written
-- with a compressed header: the version, the flags, a length that is that of what follows it, and
-- the rest; the dictionary stays. Such a header is read back as long as the validator accepts it,
-- and recognised as compressed; a block that is no fragment leaves the reader its own offset and
-- length.
pub read-write_primary :
    (valid : PrimaryBlock → Bool) (d d' : Dictionary) (old b : PrimaryBlock) (s : List ℕ)
    → IsCompressable b
    → valid (kept_span old b) ≡ true
    → (rest : List ℕ) × (write_primary true d b
        ≡ ok (
          bundle_version ∷ (sdnv_bytes b.procflags ++ (sdnv_bytes (length rest % 2 ^ 64) ++ rest)),
          d,
        ))
      × (read_primary valid d' old (
            (bundle_version
              ∷ (sdnv_bytes b.procflags ++ (sdnv_bytes (length rest % 2 ^ 64) ++ rest)))
            ++ s)
          ≡ ok (kept_span old b, names_in true d' b, s))
read-write_primary valid d d' old b s h v =
    let to = reference-IsNumbered d b.destination h.destination in
    let from = reference-IsNumbered d b.source h.source in
    let report = reference-IsNumbered d b.reportto h.reportto in
    let keeper = reference-IsNumbered d b.custodian h.custodian in
    let r : References = record {
      to = (to.first, to.second);
      from = (from.first, from.second);
      report = (report.first, report.second);
      keeper = (keeper.first, keeper.second);
    } in
    let pairs : ArePairs r = (
      (to.first_u64, to.second_u64),
      (from.first_u64, from.second_u64),
      (report.first_u64, report.second_u64),
      (keeper.first_u64, keeper.second_u64),
    ) in
    let zero_size : length (sdnv_bytes 0) ≡ length (sdnv_bytes 0) + 0 = omega arith in
    (
      block_body b h.numbers r pairs (sdnv_bytes 0),
      write_primary_from b h.numbers r pairs (sdnv_bytes 0) true d d
          (unfold header_numbers in
            rw (to.refers) (rw (from.refers) (rw (report.refers) (rw (keeper.refers) refl))))
          (unfold written_size in omega arith) (unfold written_size in zero_size)
          (unfold write_names in rw (write_sdnv-eq 0 (omega arith)) refl),
      read_primary_from b h.numbers r pairs (sdnv_bytes 0) valid true d' d' old none _ s
          (omega arith) (read_names-zero d')
          (unfold names_of in rw (to.back, from.back, report.back, keeper.back) refl) v,
    )
