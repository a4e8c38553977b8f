-- ===== src/Primary/Meta.antt =====
-- What a node keeps of a primary block that it reads: `operator>>` of a MetaBundle in
-- ibrdtn/ibrdtn/data/Serializer.cpp.
use ibrdtn.Base.{ℕ, ◌≡◌, refl, ap, ◌∙◌, Bool, true, List, ◌++◌, Result, ok, ◌>>=◌}
use ibrdtn.Clock.{Clock, expire_time}
use ibrdtn.Dictionary.{Dictionary}
use ibrdtn.PrimaryBlock.{PrimaryBlock, is_fragment}
use ibrdtn.MetaBundle.{MetaBundle}
use ibrdtn.Primary.{write_primary, read_primary}
use ibrdtn.Primary.Header.{kept_span}
use ibrdtn.Primary.Round.{IsCompressable, read-write_primary}

-- The fields of a MetaBundle from a primary block.
pub meta_of_block : Clock → PrimaryBlock → MetaBundle
meta_of_block c b = record {
  id = record {
    source = b.source;
    timestamp = b.timestamp;
    sequencenumber = b.sequencenumber;
    fragment = is_fragment b;
    offset = b.fragmentoffset;
  };
  received = record { seconds = 0; nanoseconds = 0 };
  lifetime = b.lifetime;
  destination = b.destination;
  reportto = b.reportto;
  custodian = b.custodian;
  appdatalength = b.appdatalength;
  procflags = b.procflags;
  expiretime = expire_time c b.timestamp b.lifetime;
  hopcount = 0;
}

-- `operator>>` of a MetaBundle. `new` is the primary block as its constructor leaves it.
pub read_meta :
    (PrimaryBlock → Bool)
    → Clock
    → Dictionary
    → PrimaryBlock
    → List ℕ
    → Result (MetaBundle × List ℕ)
unfolding meta_of_block
read_meta valid c d new s = do (b, names, s) ← read_primary valid d new s; ok (meta_of_block c b, s)

whole_again : (b new : PrimaryBlock) → is_fragment b ≡ true → kept_span new b ≡ b
unfolding kept_span
whole_again b new h = rw h refl

-- Of a fragment with a compressed header the reader keeps just what the writer had.
read_meta-write_primary :
    (valid : PrimaryBlock → Bool) (c : Clock) (d d' : Dictionary) (new b : PrimaryBlock)
    (s : List ℕ)
    → IsCompressable b
    → is_fragment b ≡ true
    → valid b ≡ true
    → (bytes : List ℕ) × (write_primary true d b ≡ ok (bytes, d))
      × (read_meta valid c d' new (bytes ++ s) ≡ ok (meta_of_block c b, s))
unfolding read_meta
read_meta-write_primary valid c d d' new b s h f v =
    let same = whole_again b new f in
    let (rest, writes, reads) = read-write_primary valid d d' new b s h (ap valid same ∙ v) in
    (_, writes, rw reads (ap (λ x. ok (meta_of_block c x, s)) same))
