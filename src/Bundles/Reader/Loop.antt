-- ===== src/Bundles/Reader/Loop.antt =====
-- The blocks of a bundle in a stream, there and back: Serializer.cpp.
use ibrdtn.Base.{
  ℕ, zero, suc, ◌^◌, ◌≤◌, ◌<◌, ◌≡◌, ◌≢◌, refl, ap, ◌∙◌, Bool, true, false, List, [], ◌∷◌, ◌++◌,
  arith, length, ◌==◌, ok, length-append, All, All-append,
}
use mathlib.Core.List.{append_assoc, append-nil}
use ibrdtn.Flags.{has_flag, clear_flag, put_flag}
use ibrdtn.Eid.{is_empty}
use ibrdtn.Dictionary.{Dictionary}
use ibrdtn.Blocks.{Block, last_block, discard_if_not_processed, plain_block}
use ibrdtn.Bundles.{write_block, write_blocks}
use ibrdtn.Bundles.Carried.{IsCarried}
use ibrdtn.Bundles.Reading.{IsWritable, IsFresh, bytes_of, write_block-eq, read_block-bytes_of}
use ibrdtn.Bundles.Reader.{
  Parts, read_payload, read_extension, mark_end, new_last, add_last, Round, added, added_unknown,
  read_one, read_blocks,
}

-- Which branch of the reader takes a block.
pub data HasReader (parts : Parts) (admrecord : Bool) (b : Block) : Type 0 where
  as_payload :
      b.blocktype ≡ 1
      → admrecord ≡ false
      → IsWritable (read_payload parts.copy) b
      → HasReader parts admrecord b
  as_known :
      b.blocktype ≢ 0
      → b.blocktype ≢ 1
      → parts.known b.blocktype ≡ true
      → IsWritable (parts.made b.blocktype) b
      → HasReader parts admrecord b
  as_unknown :
      b.blocktype ≢ 0
      → b.blocktype ≢ 1
      → parts.known b.blocktype ≡ false
      → has_flag b.procflags discard_if_not_processed ≡ false
      → IsWritable (read_extension parts.copy) b
      → HasReader parts admrecord b

-- A block that a reader takes in and keeps. Its loop over the EIDs has a counter of 32 bits.
pub record IsReadable (parts : Parts) (admrecord : Bool) (b : Block) : Type 0 where
  pub few : length b.eids < 2 ^ 32
  pub reader : HasReader parts admrecord b
  pub valid : parts.valid_block (record b { payload = [] }) (length b.payload) ≡ true

-- The last block is marked as such, and no other.
abbrev pub EndsMarked : List Block → Type 0
EndsMarked [] = Unit {0}
EndsMarked (b ∷ bs) = (has_flag b.procflags last_block ≡ is_empty bs) × EndsMarked bs

abbrev Unmarked : Block → Type 0
Unmarked b = has_flag b.procflags last_block ≡ false

mark_end_same : (bs : List Block) → All Unmarked bs → mark_end false bs ≡ bs
unfolding mark_end put_flag clear_flag
mark_end_same [] h = refl
mark_end_same (b ∷ []) h = rw (h.0) refl
mark_end_same (b ∷ c ∷ cs) h = ap (λ z. b ∷ z) (mark_end_same (c ∷ cs) h.1)

new_last-IsFresh : IsFresh new_last
unfolding new_last plain_block has_flag
new_last-IsFresh = record { last = refl; eids = refl }

no_number : (a b : ℕ) → a ≢ b → (a == b) ≡ false
no_number a b h = ground arith

not_zero_one : (n : ℕ) → n ≡ 1 → (n == 0) ≡ false
not_zero_one n h = ground arith

is_one : (n : ℕ) → n ≡ 1 → (n == 1) ≡ true
is_one n h = ground arith

module _ (parts : Parts) (admrecord c : Bool) (d : Dictionary) (Good : Dictionary → Type 0) where
  abbrev pub CarriesAll : Block → Type 0
  CarriesAll b = All (IsCarried c d Good) b.eids

  pub write_readable :
      (b : Block) (h : CarriesAll b)
      → HasReader parts admrecord b
      → write_block c d b ≡ ok (bytes_of c d Good b h)
  write_readable b h (as_payload t a k) = write_block-eq c d Good b h (read_payload parts.copy) k
  write_readable b h (as_known z o n k) = write_block-eq c d Good b h (parts.made b.blocktype) k
  write_readable b h (as_unknown z o n f k) =
      write_block-eq c d Good b h (read_extension parts.copy) k

  abbrev round_of : List Block → Block → Dictionary → List ℕ → Round
  round_of done b y s = record {
    blocks = add_last done b;
    lastblock = has_flag b.procflags last_block;
    dictionary = y;
    stream = s;
  }

  read_one-bytes_of :
      (b : Block) (h : CarriesAll b) (done : List Block) (x : Dictionary) (s : List ℕ)
      → IsReadable parts admrecord b
      → Good x
      → (y : Dictionary) × Good y
        × (read_one parts admrecord c done x (bytes_of c d Good b h ++ s)
            ≡ ok (round_of done b y s))
  unfolding read_one added added_unknown new_last plain_block
  read_one-bytes_of b h done x s k g = elim k.reader [
    | as_payload t a w ↦
        let (y, gy, e) =
          read_block-bytes_of c d Good b h (read_payload parts.copy) w parts.valid_block new_last x
            s new_last-IsFresh k.few g k.valid in
        (y, gy, rw (not_zero_one b.blocktype t, is_one b.blocktype t, a) (rw e refl))
    | as_known z o n w ↦
        let (y, gy, e) =
          read_block-bytes_of c d Good b h (parts.made b.blocktype) w parts.valid_block new_last x s
            new_last-IsFresh k.few g k.valid in
        (y, gy, rw (no_number b.blocktype 0 z, no_number b.blocktype 1 o, n) (rw e refl))
    | as_unknown z o n f w ↦
        let (y, gy, e) =
          read_block-bytes_of c d Good b h (read_extension parts.copy) w parts.valid_block new_last
            x s new_last-IsFresh k.few g k.valid in
        (y, gy, rw (no_number b.blocktype 0 z, no_number b.blocktype 1 o, n) (rw e (rw f refl)))
  ]

  -- The bytes of all blocks.
  pub blocks_bytes : (bs : List Block) → All CarriesAll bs → List ℕ
  blocks_bytes [] h = []
  blocks_bytes (b ∷ bs) h = bytes_of c d Good b h.0 ++ blocks_bytes bs h.1

  pub write_blocks-eq :
      (bs : List Block) (h : All CarriesAll bs)
      → All (IsReadable parts admrecord) bs
      → write_blocks c d bs ≡ ok (blocks_bytes bs h)
  unfolding write_blocks blocks_bytes
  write_blocks-eq [] h k = refl
  write_blocks-eq (b ∷ bs) h k =
      rw (write_readable b h.0 k.0.reader) (rw (write_blocks-eq bs h.1 k.1) refl)

  pub length-blocks_bytes :
      (bs : List Block) (h : All CarriesAll bs) → length bs ≤ length (blocks_bytes bs h)
  unfolding blocks_bytes
  length-blocks_bytes [] h = omega arith
  length-blocks_bytes (b ∷ bs) h = omega (
    arith,
    length-blocks_bytes bs h.1,
    length-append (bytes_of c d Good b h.0) (blocks_bytes bs h.1),
  )

  -- What the loop makes of the blocks, behind those that it has read already.
  pub read_blocks-blocks_bytes :
      (fuel : ℕ) (b : Block) (bs done : List Block) (h : All CarriesAll (b ∷ bs)) (x : Dictionary)
      (s : List ℕ)
      → length bs < fuel
      → Good x
      → All Unmarked done
      → EndsMarked (b ∷ bs)
      → All (IsReadable parts admrecord) (b ∷ bs)
      → (y : Dictionary) × Good y
        × (read_blocks fuel parts admrecord c done x (blocks_bytes (b ∷ bs) h ++ s)
            ≡ ok (record {
              blocks = done ++ (b ∷ bs);
              lastblock = true;
              dictionary = y;
              stream = s;
            }))
  unfolding read_blocks blocks_bytes add_last
  read_blocks-blocks_bytes zero b bs done h x s f g u m k = absurd (omega (arith, f))
  read_blocks-blocks_bytes (suc fuel) b [] done h x s f g u m k =
      let (y, gy, e) = read_one-bytes_of b h.0 done x s k.0 g in
      (
        y,
        gy,
        ap (λ l. read_blocks (suc fuel) parts admrecord c done x (l ++ s))
              (append-nil (bytes_of c d Good b h.0))
            ∙ rw e (rw (m.0, mark_end_same done u) refl),
      )
  read_blocks-blocks_bytes (suc fuel) b (b' ∷ bs) done h x s f g u m k =
      let (y, gy, e) = read_one-bytes_of b h.0 done x (blocks_bytes (b' ∷ bs) h.1 ++ s) k.0 g in
      let (z, gz, e') =
        read_blocks-blocks_bytes fuel b' bs (done ++ (b ∷ [])) h.1 y s (omega (arith, f)) gy
          (All-append Unmarked done (b ∷ []) u (m.0, tt)) m.1 k.1 in
      (
        z,
        gz,
        ap (λ l. read_blocks (suc fuel) parts admrecord c done x l)
              (append_assoc (bytes_of c d Good b h.0) (blocks_bytes (b' ∷ bs) h.1) s)
            ∙ (rw e (
                rw (m.0, mark_end_same done u)
                  (e'
                    ∙ ap
                        (λ l.
                          ok (record { blocks = l; lastblock = true; dictionary = z; stream = s }))
                        (append_assoc done (b ∷ []) (b' ∷ bs))))),
      )
