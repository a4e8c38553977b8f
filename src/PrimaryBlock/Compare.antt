-- ===== src/PrimaryBlock/Compare.antt =====
-- The comparisons of primary blocks, and their labels.
use ibrdtn.Base.{ℕ, ◌+◌, ◌*◌, ◌%◌, ◌^◌, ◌≤◌, ◌<◌, ◌≡◌, ◌⊎◌, ◌∙◌, true, false, none, arith}
use ibrdtn.Eid.{colon}
use ibrdtn.Eid.Parts.{Without}
use ibrdtn.Eid.Order.{
  less, same, greater, eid_Compares, eid_lt_trans, eid_eq_refl, eid_eq→eq, eid_lt_irrefl,
}
use ibrdtn.Clock.{Clock, get_time, bundle_is_expired}
use ibrdtn.Clock.Expiry.{is_expired-eq, plain_is_expired-eq}
use ibrdtn.PrimaryBlock.{PrimaryBlock, is_fragment, block_is_expired, block_eq, block_lt, relabel}

-- `operator==` is an equivalence: it holds of any block and itself, and holds both ways.
pub block_eq_refl : (a : PrimaryBlock) → block_eq a a ≡ true
unfolding block_eq
block_eq_refl a = ground (arith, eid_eq_refl a.source)

pub block_eq_sym : (a b : PrimaryBlock) → block_eq a b ≡ true → block_eq b a ≡ true
unfolding block_eq
block_eq_sym a b e = ground (arith, eid_eq→eq b.source a.source, eid_eq_refl a.source)

-- A block that is no fragment has the offset 0, and no source has a colon in its scheme.
pub record IsNormal (a : PrimaryBlock) : Type 0 where
  pub whole : (is_fragment a ≡ true) ⊎ (a.fragmentoffset ≡ 0)
  pub no_colon : Without colon a.source.scheme

pub block_lt_trans :
    (a b c : PrimaryBlock)
    → IsNormal b
    → IsNormal c
    → block_lt a b ≡ true
    → block_lt b c ≡ true
    → block_lt a c ≡ true
unfolding block_lt
block_lt_trans a b c hb hc p q = ground (
  arith,
  eid_lt_trans a.source b.source c.source,
  eid_eq→eq a.source b.source,
  eid_eq→eq b.source c.source,
  eid_eq_refl b.source,
  eid_eq_refl a.source,
)

-- Two blocks that `operator<` leaves unordered have the same source, timestamp, sequence number and
-- offset, and the other way round.
unordered_same :
    (a b : PrimaryBlock)
    → IsNormal a
    → IsNormal b
    → a.source ≡ b.source
    → block_lt a b ≡ false
    → block_lt b a ≡ false
    → (a.timestamp ≡ b.timestamp)
      × (a.sequencenumber ≡ b.sequencenumber)
      × (a.fragmentoffset ≡ b.fragmentoffset)
unfolding block_lt
unordered_same a b ha hb e p q = ground (arith, eid_eq_refl a.source, eid_lt_irrefl a.source)

unordered :
    (a b : PrimaryBlock)
    → IsNormal a
    → IsNormal b
    → block_lt a b ≡ false
    → block_lt b a ≡ false
    → (a.source ≡ b.source)
      × (a.timestamp ≡ b.timestamp)
      × (a.sequencenumber ≡ b.sequencenumber)
      × (a.fragmentoffset ≡ b.fragmentoffset)
unordered a b ha hb p q = elim (eid_Compares a.source b.source ha.no_colon hb.no_colon) [
  | less l n r m ↦ unfold block_lt in ground arith
  | greater l n r m ↦ unfold block_lt in ground arith
  | same e l n r m ↦ let (t, s, o) = unordered_same a b ha hb e p q in (e, t, s, o)
]

-- A whole bundle and its fragment at the offset 0 are one to a std::set, since neither is less, but
-- not to `operator==`.
first_fragment_unordered :
    (a b : PrimaryBlock)
    → is_fragment a ≡ false
    → is_fragment b ≡ true
    → a.fragmentoffset ≡ 0
    → b.fragmentoffset ≡ 0
    → b.source ≡ a.source
    → b.timestamp ≡ a.timestamp
    → b.sequencenumber ≡ a.sequencenumber
    → (block_lt a b ≡ false) × (block_lt b a ≡ false) × (block_eq a b ≡ false)
unfolding block_lt block_eq
first_fragment_unordered a b fa fb oa ob s t n =
    (ground (arith, eid_lt_irrefl a.source), ground (arith, eid_lt_irrefl a.source), ground arith)

-- Two blocks that are labelled one after the other, from a 64-bit counter, are not `==`, even if
-- the clock stands still.
relabel_fresh :
    (c d : Clock) (next : ℕ) (a b : PrimaryBlock)
    → next < 2 ^ 64
    → block_eq (relabel c next a).0 (relabel d (relabel c next a).1 b).0 ≡ false
unfolding block_eq relabel
relabel_fresh c d next a b h = ground arith

-- With a clock of some quality that is not bad, and as long as no sum reaches 2 ^ 64: `isExpired`
-- of a primary block hands over the end of the lifetime as the timestamp, so that the lifetime
-- counts twice, and for one more lifetime it says no where the clock says yes.
block_is_expired_late :
    (c : Clock) (b : PrimaryBlock)
    → c.quality_zero ≡ false
    → c.badclock ≡ false
    → b.timestamp + 2 * b.lifetime + c.sigma b.lifetime < 2 ^ 64
    → b.timestamp + b.lifetime + c.sigma b.lifetime < get_time c
    → get_time c ≤ b.timestamp + 2 * b.lifetime + c.sigma b.lifetime
    → (bundle_is_expired c b.timestamp b.lifetime none ≡ true) × (block_is_expired c b ≡ false)
unfolding block_is_expired
block_is_expired_late c b q k small over soon = (
  is_expired-eq c b.timestamp b.lifetime q k ∙ ground arith,
  plain_is_expired-eq c ((b.lifetime + b.timestamp) % 2 ^ 64) b.lifetime q k ∙ ground arith,
)

pub block_lt_irrefl : (a : PrimaryBlock) → block_lt a a ≡ false
unfolding block_lt
block_lt_irrefl a = ground (arith, eid_lt_irrefl a.source, eid_eq_refl a.source)
