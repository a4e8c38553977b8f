-- ===== src/Bundles/Round.antt =====
-- A bundle in a stream, there and back: Serializer.cpp.
use ibrdtn.Base.{
  ℕ, ◌%◌, ◌^◌, ◌<◌, ◌≡◌, refl, sym, Bool, true, false, List, [], ◌∷◌, ◌++◌, arith, length, ok,
  length-append, All, subst,
}
use mathlib.Core.List.{append_assoc}
use ibrdtn.Flags.{has_flag}
use ibrdtn.Sdnv.{IsU64}
use ibrdtn.Sdnv.Encode.{sdnv_bytes}
use ibrdtn.Eid.{Eid, is_empty}
use ibrdtn.Dictionary.{Dictionary, drained}
use ibrdtn.Dictionary.Round.{IsReferable}
use ibrdtn.Dictionary.References.{IsIn, IsBuilt, add_eids-IsBuilt, drained-Holds, drained-bytes}
use ibrdtn.Dictionary.Entries.{Holds}
use ibrdtn.PrimaryBlock.{PrimaryBlock, flag_admrecord}
use ibrdtn.Primary.{bundle_version, write_primary, read_primary}
use ibrdtn.Primary.Header.{HasNumbers, kept_span, names_in}
use ibrdtn.Primary.Round.{IsNumbered, IsCompressable, read-write_primary}
use ibrdtn.Primary.Named.{IsNamed, read-write_named}
use ibrdtn.Blocks.{Block}
use ibrdtn.Bundles.{Bundle, write_bundle, rebuild_dictionary, is_compressable_bundle, all_eids}
use ibrdtn.Bundles.Carried.{AnyDictionary, numbered-IsCarried, named-IsCarried}
use ibrdtn.Bundles.Reader.{Parts, read_bundle, read_blocks}
use ibrdtn.Bundles.Reader.Loop.{
  IsReadable, EndsMarked, CarriesAll, blocks_bytes, write_blocks-eq, length-blocks_bytes,
  read_blocks-blocks_bytes,
}
use ibrdtn.Bundles.Addressed.{
  all_blocks-IsCarried, by_block, all_compressable-append, all_eids_compressable,
}

-- The EIDs of a bundle, in the order of its dictionary.
abbrev pub eids_of : Bundle → List Eid
eids_of b =
    b.primary.destination
    ∷ b.primary.source
    ∷ b.primary.reportto
    ∷ b.primary.custodian
    ∷ all_eids b.blocks

-- How the EIDs of a bundle are written: as the numbers that they are made of, or with a dictionary
-- of less than 2 ^ 64 bytes.
pub data IsAddressed (d : Dictionary) (b : Bundle) : Type 0 where
  by_numbers :
      IsCompressable b.primary → All (λ x. All IsNumbered x.eids) b.blocks → IsAddressed d b
  by_names :
      is_compressable_bundle b ≡ false
      → HasNumbers b.primary
      → All IsReferable (eids_of b)
      → IsU64 (length (rebuild_dictionary d b).bytes)
      → IsAddressed d b

-- A bundle whose last block is marked as such, and no other, and that the reader's validators take.
pub record IsAccepted (parts : Parts) (old : PrimaryBlock) (b : Bundle) : Type 0 where
  pub some_block : is_empty b.blocks ≡ false
  pub ends : EndsMarked b.blocks
  pub readable : All (IsReadable parts (has_flag b.primary.procflags flag_admrecord)) b.blocks
  pub valid_primary : parts.valid_primary (kept_span old b.primary) ≡ true
  pub valid_bundle : parts.valid_bundle (record b { primary = kept_span old b.primary }) ≡ true

abbrev admrecord : Bundle → Bool
admrecord b = has_flag b.primary.procflags flag_admrecord

-- The blocks behind a header that is read back.
module _ (parts : Parts) (d d' : Dictionary) (old : PrimaryBlock) (b : Bundle)
    (k : IsAccepted parts old b) (c : Bool) (c_is : is_compressable_bundle b ≡ c) (d1 : Dictionary)
    (Good : Dictionary → Type 0) (h : All (CarriesAll parts (admrecord b) c d1 Good) b.blocks) where
  abbrev body : List ℕ
  body = blocks_bytes parts (admrecord b) c d1 Good b.blocks h

  write_bundle_from :
      (head : List ℕ)
      → write_primary c (rebuild_dictionary d b) b.primary ≡ ok (head, d1)
      → write_bundle d b ≡ ok (head ++ body, d1)
  unfolding write_bundle
  write_bundle_from head e =
      rw c_is (rw e (rw (write_blocks-eq parts (admrecord b) c d1 Good b.blocks h k.readable) refl))

  read_body :
      (bs : List Block) (g : All (CarriesAll parts (admrecord b) c d1 Good) bs) (x : Dictionary)
      (s : List ℕ)
      → Good x
      → is_empty bs ≡ false
      → EndsMarked bs
      → All (IsReadable parts (admrecord b)) bs
      → (y : Dictionary) × (read_blocks
            (length (blocks_bytes parts (admrecord b) c d1 Good bs g ++ s))
            parts
            (admrecord b)
            c
            []
            x
            (blocks_bytes parts (admrecord b) c d1 Good bs g ++ s)
          ≡ ok (record { blocks = bs; lastblock = true; dictionary = y; stream = s }))
  read_body [] g x s good full m r = cc
  read_body (a ∷ bs) g x s good full m r =
      let (y, gy, e) =
        read_blocks-blocks_bytes parts (admrecord b) c d1 Good _ a bs [] g x s (enough a bs g s)
          good tt m r in
      (y, e)
    where
      enough :
          (a : Block) (bs : List Block)
          (g : All (CarriesAll parts (admrecord b) c d1 Good) (a ∷ bs)) (s : List ℕ)
          → length bs < length (blocks_bytes parts (admrecord b) c d1 Good (a ∷ bs) g ++ s)
      enough a bs g s =
          let room = length-blocks_bytes parts (admrecord b) c d1 Good (a ∷ bs) g in
          omega
            (arith, room, length-append (blocks_bytes parts (admrecord b) c d1 Good (a ∷ bs) g) s)

  read_bundle_from :
      (head s : List ℕ) (e : Dictionary)
      → Good e
      → read_primary parts.valid_primary d' old (head ++ (body ++ s))
        ≡ ok (kept_span old b.primary, names_in c e b.primary, body ++ s)
      → (y : Dictionary) × (read_bundle parts d' old ((head ++ body) ++ s)
          ≡ ok (record b { primary = kept_span old b.primary }, y, s))
  unfolding read_bundle kept_span
  read_bundle_from head s e good reads =
      let (y, found) = read_body b.blocks h e s good k.some_block k.ends k.readable in
      (y, rw (append_assoc head body s) (rw reads (rw found (rw (k.valid_bundle) refl))))

abbrev header_of : PrimaryBlock → List ℕ → List ℕ
header_of b rest =
    bundle_version ∷ (sdnv_bytes b.procflags ++ (sdnv_bytes (length rest % 2 ^ 64) ++ rest))

-- A bundle whose EIDs are all made of numbers gets a compressed header.
compressable_numbered :
    (b : Bundle)
    → IsCompressable b.primary
    → All (λ x. All IsNumbered x.eids) b.blocks
    → is_compressable_bundle b ≡ true
unfolding is_compressable_bundle
compressable_numbered b p n =
    let q = b.primary in
    all_compressable-append (q.source ∷ q.destination ∷ q.reportto ∷ q.custodian ∷ [])
      (all_eids b.blocks) (p.source, (p.destination, (p.reportto, (p.custodian, tt))))
      (all_eids_compressable b.blocks n)

pub rebuild_dictionary-IsBuilt :
    (d : Dictionary) (b : Bundle)
    → d.failed ≡ false
    → All IsReferable (eids_of b)
    → IsBuilt (rebuild_dictionary d b) (eids_of b)
unfolding rebuild_dictionary
rebuild_dictionary-IsBuilt d b good h = add_eids-IsBuilt d (eids_of b) good h

-- A bundle with at least one block, whose EIDs are all made of numbers or all fit a dictionary of
-- less than 2 ^ 64 bytes, whose numbers fit 64 bits, whose last block and no other is marked as the
-- last one, whose payloads are read back by their classes and which the validators accept, is
-- written, and is read back with all of its blocks, up to the bytes behind it. A block has less than
-- 2 ^ 32 EIDs, which is what the reader's counter can count. The dictionaries of
-- the writer and of the reader have not failed; a block has EIDs only with the flag for them and a
-- type other than 0; a payload is no administrative record, and blocks of unknown types are not to
-- be discarded. A bundle that is no fragment leaves the reader its own offset and length.
pub read-write_bundle :
    (parts : Parts) (d d' : Dictionary) (old : PrimaryBlock) (b : Bundle) (s : List ℕ)
    → d.failed ≡ false
    → d'.failed ≡ false
    → IsAddressed d b
    → IsAccepted parts old b
    → (bytes : List ℕ) × (e : Dictionary) × (y : Dictionary) × (write_bundle d b ≡ ok (bytes, e))
      × (read_bundle parts d' old (bytes ++ s)
          ≡ ok (record b { primary = kept_span old b.primary }, y, s))
read-write_bundle parts d d' old b s good good' (by_numbers p n) k =
    let c = compressable_numbered b p n in
    let d0 = rebuild_dictionary d b in
    let h =
      all_blocks-IsCarried true d0 AnyDictionary IsNumbered (numbered-IsCarried d0) b.blocks n in
    let (rest, writes, reads) =
      read-write_primary parts.valid_primary d0 d' old b.primary
        (body parts d d' old b k true c d0 AnyDictionary h ++ s) p k.valid_primary in
    let (y, found) =
      read_bundle_from parts d d' old b k true c d0 AnyDictionary h (header_of b.primary rest) s d'
        tt reads in
    (
      _,
      d0,
      y,
      write_bundle_from parts d d' old b k true c d0 AnyDictionary h (header_of b.primary rest)
          writes,
      found,
    )
read-write_bundle parts d d' old b s good good' (by_names c p n fits) k =
    let d0 = rebuild_dictionary d b in
    let t = rebuild_dictionary-IsBuilt d b good n in
    let named : IsNamed t.texts b.primary = record {
      numbers = p;
      destination = t.all.0;
      source = t.all.1.0;
      reportto = t.all.1.1.0;
      custodian = t.all.1.1.1.0;
    } in
    let Good : Dictionary → Type 0 = λ x. Holds x t.texts in
    let fits' = subst (λ bs. IsU64 (length bs)) (sym (drained-bytes d0)) fits in
    let h =
      all_blocks-IsCarried false (drained d0) Good (IsIn t.texts)
        (λ e i. named-IsCarried (drained d0) t.texts e (drained-Holds d0 t.texts t.holds) fits' i)
        b.blocks (by_block (IsIn t.texts) b.blocks t.all.1.1.1.1) in
    let (rest, e, writes, reads, holds) =
      read-write_named parts.valid_primary d0 d' t.texts old b.primary
        (body parts d d' old b k false c (drained d0) Good h ++ s) named t.holds t.start fits good'
        k.valid_primary in
    let (y, found) =
      read_bundle_from parts d d' old b k false c (drained d0) Good h (header_of b.primary rest) s e
        holds reads in
    (
      _,
      drained d0,
      y,
      write_bundle_from parts d d' old b k false c (drained d0) Good h (header_of b.primary rest)
          writes,
      found,
    )
