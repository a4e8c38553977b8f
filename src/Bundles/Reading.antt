-- ===== src/Bundles/Reading.antt =====
-- A block in a stream, there and back: Serializer.cpp.
use ibrdtn.Base.{
  ℕ, ◌^◌, ◌<◌, ◌≡◌, inl, inr, refl, sym, ap, Bool, true, false, List, [], ◌∷◌, ◌++◌, length,
  if◌then◌else◌, ok, All, Bool-cases,
}
use mathlib.Core.List.{append_assoc}
use ibrdtn.Flags.{has_flag}
use ibrdtn.Sdnv.{IsU64}
use ibrdtn.Sdnv.Encode.{sdnv_bytes}
use ibrdtn.Sdnv.Stream.{write_sdnv-eq, read_sdnv-sdnv_bytes}
use ibrdtn.Dictionary.{Dictionary}
use ibrdtn.Blocks.{Block, last_block, block_contains_eids}
use ibrdtn.Bundles.{Deserialize, write_block, read_block, kept_last, read_counted, write_eids}
use ibrdtn.Bundles.Carried.{IsCarried, eids_bytes, write_eids-eq, read_counted-eids_bytes}

-- A block whose numbers fit 64 bits, that has EIDs only with the flag for them, and whose payload
-- its class reads back.
pub record IsWritable (deserialize : Deserialize) (b : Block) : Type 0 where
  pub procflags : IsU64 b.procflags
  pub count : IsU64 (length b.eids)
  pub size : IsU64 (length b.payload)
  pub plain : has_flag b.procflags block_contains_eids ≡ false → b.eids ≡ []
  pub reads :
      (p s : List ℕ)
      → deserialize (record b { payload = p }) (length b.payload) (b.payload ++ s) ≡ ok (b, s)

-- A block as `push_back` leaves it.
pub record IsFresh (old : Block) : Type 0 where
  pub last : has_flag old.procflags last_block ≡ true
  pub eids : old.eids ≡ []

module _ (c : Bool) (d : Dictionary) (Good : Dictionary → Type 0) (b : Block)
    (h : All (IsCarried c d Good) b.eids) where
  abbrev pub flagged_bytes : List ℕ
  flagged_bytes =
      if has_flag b.procflags block_contains_eids then eids_bytes c d Good b.eids h else []

  abbrev pub bytes_of : List ℕ
  bytes_of =
      b.blocktype
      ∷ (sdnv_bytes b.procflags ++ (flagged_bytes ++ (sdnv_bytes (length b.payload) ++ b.payload)))

  module _ (deserialize : Deserialize) (k : IsWritable deserialize b) where
    flagged_writes :
        (if has_flag b.procflags block_contains_eids then write_eids c d b.eids else ok [])
        ≡ ok flagged_bytes
    flagged_writes = elim (Bool-cases (has_flag b.procflags block_contains_eids)) [
      | inl e ↦ rw e (write_eids-eq c d Good b.eids h k.count)
      | inr e ↦ rw e refl
    ]

    pub write_block-eq : write_block c d b ≡ ok bytes_of
    unfolding write_block
    write_block-eq =
        rw (write_sdnv-eq b.procflags k.procflags)
          (rw flagged_writes (rw (write_sdnv-eq (length b.payload) k.size) refl))

    flagged_reads :
        (x : Dictionary) (s : List ℕ)
        → length b.eids < 2 ^ 32
        → Good x
        → (y : Dictionary) × Good y
          × ((if has_flag b.procflags block_contains_eids
                then read_counted c x (flagged_bytes ++ s)
                else ok ([], x, flagged_bytes ++ s))
              ≡ ok (b.eids, y, s))
    flagged_reads x s few g = elim (Bool-cases (has_flag b.procflags block_contains_eids)) [
      | inl e ↦ rw e (read_counted-eids_bytes c d Good b.eids h x s few g)
      | inr e ↦ (x, g, rw e (ap (λ es. ok (es, x, s)) (sym (k.plain e))))
    ]

    pub read_block-bytes_of :
        (valid : Block → ℕ → Bool) (old : Block) (x : Dictionary) (s : List ℕ)
        → IsFresh old
        → length b.eids < 2 ^ 32
        → Good x
        → valid (record b { payload = old.payload }) (length b.payload) ≡ true
        → (y : Dictionary) × Good y
          × (read_block valid deserialize c x old (bytes_of ++ s) ≡ ok (b, y, s))
    unfolding read_block kept_last
    read_block-bytes_of valid old x s f few g v =
        let (y, gy, e) =
          flagged_reads x (sdnv_bytes (length b.payload) ++ (b.payload ++ s)) few g in
        (
          y,
          gy,
          simp append_assoc (
              rw (read_sdnv-sdnv_bytes b.procflags _ k.procflags) (
                rw f.last (
                  rw e (
                    rw (read_sdnv-sdnv_bytes (length b.payload) _ k.size)
                      (rw f.eids (rw v (rw (k.reads old.payload s) refl))))))),
        )
