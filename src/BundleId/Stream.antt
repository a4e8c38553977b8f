-- ===== src/BundleId/Stream.antt =====
-- `operator<<` and `operator>>` of BundleID.cpp.
use ibrdtn.Base.{ℕ, ◌^◌, ◌<◌, ◌≡◌, List, ◌++◌, length, Result, ok, ◌>>=◌}
use ibrdtn.Sdnv.{IsU64}
use ibrdtn.Sdnv.Encode.{sdnv_bytes}
use ibrdtn.Sdnv.Stream.{write_sdnv, read_sdnv, write_sdnv-eq, read_sdnv-sdnv_bytes}
use ibrdtn.BundleText.{write_text, read_text, text_bytes, write_text-eq, read_text-text_bytes}
use ibrdtn.Eid.{eid_of_text, get_string}
use ibrdtn.Eid.Parse.{IsPlain, eid_of_text-get_string}
use ibrdtn.BundleId.{BundleId}
use mathlib.Core.List.{append_assoc}

pub write_id : BundleId → Result (List ℕ)
write_id a = do
  timestamp ← write_sdnv a.timestamp
  sequencenumber ← write_sdnv a.sequencenumber
  offset ← write_sdnv a.offset
  source ← write_text (get_string a.source)
  ok (timestamp ++ (sequencenumber ++ (offset ++ source)))

-- Into an identity that exists: whether it is a fragment is not in the stream.
pub read_id : BundleId → List ℕ → Result (BundleId × List ℕ)
read_id old s = do
  (timestamp, s) ← read_sdnv s
  (sequencenumber, s) ← read_sdnv s
  (offset, s) ← read_sdnv s
  (source, s) ← read_text s
  ok (
    record old {
      timestamp = timestamp;
      sequencenumber = sequencenumber;
      offset = offset;
      source = eid_of_text source;
    },
    s,
  )

-- The fields that a stream can carry.
pub record IsWritable (a : BundleId) : Type 0 where
  pub timestamp : IsU64 a.timestamp
  pub sequencenumber : IsU64 a.sequencenumber
  pub offset : IsU64 a.offset
  pub source : IsPlain a.source
  pub short : length (get_string a.source) < 2 ^ 63

id_bytes : BundleId → List ℕ
id_bytes a =
    sdnv_bytes a.timestamp
    ++ (sdnv_bytes a.sequencenumber ++ (sdnv_bytes a.offset ++ text_bytes (get_string a.source)))

write_id-eq : (a : BundleId) → IsWritable a → write_id a ≡ ok (id_bytes a)
unfolding write_id id_bytes
write_id-eq a h = rw (
  write_sdnv-eq a.timestamp h.timestamp,
  write_sdnv-eq a.sequencenumber h.sequencenumber,
  write_sdnv-eq a.offset h.offset,
  write_text-eq (get_string a.source) h.short,
)

read_id-id_bytes :
    (old a : BundleId) (s : List ℕ)
    → IsWritable a
    → read_id old (id_bytes a ++ s) ≡ ok (record a { fragment = old.fragment }, s)
unfolding read_id id_bytes
read_id-id_bytes old a s h = simp append_assoc (
    rw (read_sdnv-sdnv_bytes a.timestamp _ h.timestamp) (
      rw (read_sdnv-sdnv_bytes a.sequencenumber _ h.sequencenumber) (
        rw (read_sdnv-sdnv_bytes a.offset _ h.offset) (
          rw (read_text-text_bytes (get_string a.source) s h.short)
            (rw (eid_of_text-get_string a.source h.source))))))

-- An identity whose numbers fit 64 bits, and whose source is plain with a text shorter than 2 ^ 63
-- bytes, is read back, whatever follows it, but for its fragment mark, which the reader's own
-- value keeps.
read-write_id :
    (old a : BundleId) (s : List ℕ)
    → IsWritable a
    → (bs : List ℕ) × (write_id a ≡ ok bs)
      × (read_id old (bs ++ s) ≡ ok (record a { fragment = old.fragment }, s))
read-write_id old a s h = (id_bytes a, write_id-eq a h, read_id-id_bytes old a s h)
