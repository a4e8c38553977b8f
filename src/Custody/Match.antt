-- ===== src/Custody/Match.antt =====
-- `setMatch` and `match` of CustodySignalBlock.cpp.
use ibrdtn.Base.{◌<◌, ◌≡◌, sym, ◌∙◌, true, arith}
use ibrdtn.Flags.{has_flag}
use ibrdtn.Eid.Order.{eid_eq_refl, eid_eq→eq}
use ibrdtn.PrimaryBlock.{PrimaryBlock, is_fragment}
use ibrdtn.Custody.{Custody, set_match, matches}

-- A signal that was set for a bundle matches it, if its administrative field is a byte.
matches-set_match :
    (r : Custody) (b : PrimaryBlock) → r.admfield < 256 → matches (set_match r b) b ≡ true
unfolding matches set_match has_flag
matches-set_match r b h = ground (arith, eid_eq_refl b.source)

-- What a match says.
matches-eq_true :
    (r : Custody) (b : PrimaryBlock)
    → matches r b ≡ true
    → (r.source ≡ b.source)
      × (r.bundle_timestamp ≡ b.timestamp)
      × (r.bundle_sequence ≡ b.sequencenumber)
      × (is_fragment b ≡ true
          → (r.fragment.offset ≡ b.fragmentoffset) × (r.fragment.size ≡ b.appdatalength))
unfolding matches
matches-eq_true r b h = (
  eid_eq→eq r.source b.source (ground arith),
  ground arith,
  ground arith,
  λ k. (ground arith, ground arith),
)

-- Two whole bundles that one signal matches have the same source, timestamp and sequence number;
-- two fragments moreover have the same offset and the same total length.
matches_unique :
    (r : Custody) (a b : PrimaryBlock)
    → matches r a ≡ true
    → matches r b ≡ true
    → is_fragment a ≡ is_fragment b
    → (a.source ≡ b.source)
      × (a.timestamp ≡ b.timestamp)
      × (a.sequencenumber ≡ b.sequencenumber)
      × (is_fragment a ≡ true
          → (a.fragmentoffset ≡ b.fragmentoffset) × (a.appdatalength ≡ b.appdatalength))
matches_unique r a b ha hb k =
    let (ea, ta, qa, fa) = matches-eq_true r a ha in
    let (eb, tb, qb, fb) = matches-eq_true r b hb in
    (
      sym ea ∙ eb,
      sym ta ∙ tb,
      sym qa ∙ qb,
      λ f. (sym (fa f).0 ∙ (fb (sym k ∙ f)).0, sym (fa f).1 ∙ (fb (sym k ∙ f)).1),
    )
