-- ===== src/Primary/Named.antt =====
-- A primary block with a dictionary, there and back: Serializer.cpp.
use ibrdtn.Base.{
  ℕ, ◌%◌, ◌^◌, ◌≡◌, ◌≢◌, refl, Bool, true, false, some, List, [], ◌∷◌, ◌++◌, arith, length, ◌==◌,
  ok, read_bytes-append, length-append,
}
use mathlib.Core.List.{append_assoc}
use ibrdtn.Sdnv.{IsU64}
use ibrdtn.Sdnv.Encode.{sdnv_bytes}
use ibrdtn.Eid.{Eid, is_empty}
use ibrdtn.Dictionary.{Dictionary, get_ref, get_eid, dictionary_size, drained}
use ibrdtn.Dictionary.Entries.{Holds}
use ibrdtn.Dictionary.References.{
  IsIn, get_ref-IsU64, get_eid_there, has_bytes, write_dictionary-start,
}
use ibrdtn.PrimaryBlock.{PrimaryBlock}
use ibrdtn.Primary.{
  bundle_version, reference, header_numbers, written_size, write_names, write_primary, read_names,
  names_of, read_primary,
}
use ibrdtn.Primary.Header.{
  References, ArePairs, HasNumbers, kept_span, names_in, block_body, write_primary_from,
  read_primary_from,
}
use ibrdtn.Primary.Numbers.{read_size-sdnv_bytes}

-- The EIDs of a block are in the dictionary, and its numbers fit 64 bits.
pub record IsNamed (ts : List (List ℕ)) (b : PrimaryBlock) : Type 0 where
  pub numbers : HasNumbers b
  pub destination : IsIn ts b.destination
  pub source : IsIn ts b.source
  pub reportto : IsIn ts b.reportto
  pub custodian : IsIn ts b.custodian

zero_or : (n : ℕ) → n ≢ 0 → (n == 0) ≡ false
zero_or n h = ground arith

length_full : (xs : List ℕ) → is_empty xs ≡ false → length xs ≢ 0
length_full [] h = λ e. cc
length_full (x ∷ xs) h = omega arith

read_names-dictionary :
    (d : Dictionary) (bytes s : List ℕ)
    → d.failed ≡ false
    → is_empty bytes ≡ false
    → IsU64 (length bytes)
    → read_names d ((sdnv_bytes (length bytes) ++ bytes) ++ s)
      ≡ ok (some (record { bytes = bytes; position = 0; failed = false }), s)
unfolding read_names
read_names-dictionary d bytes s good full fits =
    rw
      (
        append_assoc (sdnv_bytes (length bytes)) bytes s,
        read_size-sdnv_bytes (length bytes) (bytes ++ s) fits,
      )
      (rw (zero_or (length bytes) (length_full bytes full))
        (rw (read_bytes-append bytes s) (rw good refl)))

-- The EIDs that a reader finds with the references of the writer.
names_of-get_ref :
    (d d' old : Dictionary) (ts : List (List ℕ)) (b : PrimaryBlock)
    → IsNamed ts b
    → Holds d ts
    → Holds d' ts
    → (e : Dictionary) × (names_of old
          (some d')
          (get_ref d b.destination)
          (get_ref d b.source)
          (get_ref d b.reportto)
          (get_ref d b.custodian)
        ≡ names_in false e b)
      × Holds e ts
unfolding names_of
names_of-get_ref d d' old ts b k h h' =
    let (e0, h0) = get_eid_there d d' ts b.destination h h' k.destination in
    let d0 = (get_eid d' (get_ref d b.destination).0 (get_ref d b.destination).1).1 in
    let (e1, h1) = get_eid_there d d0 ts b.source h h0 k.source in
    let d1 = (get_eid d0 (get_ref d b.source).0 (get_ref d b.source).1).1 in
    let (e2, h2) = get_eid_there d d1 ts b.reportto h h1 k.reportto in
    let d2 = (get_eid d1 (get_ref d b.reportto).0 (get_ref d b.reportto).1).1 in
    let (e3, h3) = get_eid_there d d2 ts b.custodian h h2 k.custodian in
    (
      (get_eid d2 (get_ref d b.custodian).0 (get_ref d b.custodian).1).1,
      rw (e0, e1, e2, e3) refl,
      h3,
    )

-- A primary block whose numbers fit 64 bits is written with a dictionary that has its EIDs, less
-- than 2 ^ 64 bytes and was not read before, as the version, the flags, a length that is that of
-- what follows it, and the rest. It is read back as long as the validator accepts it, by a reader
-- whose own dictionary has not failed, and the reader's dictionary has the same texts then; a block
-- that is no fragment leaves the reader its own offset and length.
pub read-write_named :
    (valid : PrimaryBlock → Bool) (d d' : Dictionary) (ts : List (List ℕ)) (old b : PrimaryBlock)
    (s : List ℕ)
    → IsNamed ts b
    → Holds d ts
    → d.position ≡ 0
    → IsU64 (length d.bytes)
    → d'.failed ≡ false
    → valid (kept_span old b) ≡ true
    → (rest : List ℕ) × (e : Dictionary) × (write_primary false d b
        ≡ ok (
          bundle_version ∷ (sdnv_bytes b.procflags ++ (sdnv_bytes (length rest % 2 ^ 64) ++ rest)),
          drained d,
        ))
      × (read_primary valid d' old (
            (bundle_version
              ∷ (sdnv_bytes b.procflags ++ (sdnv_bytes (length rest % 2 ^ 64) ++ rest)))
            ++ s)
          ≡ ok (kept_span old b, names_in false e b, s))
      × Holds e ts
read-write_named valid d d' ts old b s k h start fits good v =
    let r : References = record {
      to = get_ref d b.destination;
      from = get_ref d b.source;
      report = get_ref d b.reportto;
      keeper = get_ref d b.custodian;
    } in
    let pairs : ArePairs r = (
      get_ref-IsU64 d ts b.destination h k.destination fits,
      get_ref-IsU64 d ts b.source h k.source fits,
      get_ref-IsU64 d ts b.reportto h k.reportto fits,
      get_ref-IsU64 d ts b.custodian h k.custodian fits,
    ) in
    let names = sdnv_bytes (length d.bytes) ++ d.bytes in
    let copy : Dictionary = record { bytes = d.bytes; position = 0; failed = false } in
    let (e, found, holds) =
      names_of-get_ref d copy d' ts b k h
        (record { bytes = h.bytes; no_nul = h.no_nul; good = refl }) in
    (
      block_body b k.numbers r pairs names,
      e,
      write_primary_from b k.numbers r pairs names false d (drained d)
          (unfold header_numbers reference in refl) (unfold written_size dictionary_size in fits)
          (unfold written_size dictionary_size in
            length-append (sdnv_bytes (length d.bytes)) d.bytes)
          (unfold write_names in write_dictionary-start d start fits),
      read_primary_from b k.numbers r pairs names valid false d' e old (some copy) _ s (omega arith)
          (λ t.
            read_names-dictionary d' d.bytes t good
              (has_bytes d ts b.source.scheme h k.source.scheme) fits)
          found v,
      holds,
    )

pub reference_named : (d : Dictionary) (e : Eid) → reference false d e ≡ ok (get_ref d e)
unfolding reference
reference_named d e = refl
