-- ===== src/Bundles/Addressed.antt =====
-- What holds of all EIDs of the blocks of a bundle: Serializer.cpp.
use ibrdtn.Base.{◌≡◌, refl, ap, ◌∙◌, Bool, true, List, [], ◌∷◌, ◌++◌, All}
use ibrdtn.Eid.{Eid, is_compressable}
use ibrdtn.Eid.Cbhe.{is_compressable-eid_of_numbers}
use ibrdtn.Dictionary.{Dictionary}
use ibrdtn.Primary.Round.{IsNumbered}
use ibrdtn.Blocks.{Block}
use ibrdtn.Bundles.{all_eids, all_compressable}
use ibrdtn.Bundles.Carried.{IsCarried}

pub all-IsCarried :
    (c : Bool) (d : Dictionary) (Good : Dictionary → Type 0) (P : Eid → Type 0)
    → ((e : Eid) → P e → IsCarried c d Good e)
    → (es : List Eid) → All P es
    → All (IsCarried c d Good) es
all-IsCarried c d Good P f [] h = tt
all-IsCarried c d Good P f (e ∷ es) h = (f e h.0, all-IsCarried c d Good P f es h.1)

pub all_blocks-IsCarried :
    (c : Bool) (d : Dictionary) (Good : Dictionary → Type 0) (P : Eid → Type 0)
    → ((e : Eid) → P e → IsCarried c d Good e)
    → (bs : List Block) → All (λ b. All P b.eids) bs
    → All (λ b. All (IsCarried c d Good) b.eids) bs
all_blocks-IsCarried c d Good P f [] h = tt
all_blocks-IsCarried c d Good P f (b ∷ bs) h =
    (all-IsCarried c d Good P f b.eids h.0, all_blocks-IsCarried c d Good P f bs h.1)

pub by_block :
    (P : Eid → Type 0) (bs : List Block) → All P (all_eids bs) → All (λ b. All P b.eids) bs
unfolding all_eids
by_block P [] h = tt
by_block P (b ∷ bs) h = let (x, y) = both P b.eids (all_eids bs) h in (x, by_block P bs y)
  where
    both : (P : Eid → Type 0) (xs ys : List Eid) → All P (xs ++ ys) → All P xs × All P ys
    both P [] ys h = (tt, h)
    both P (x ∷ xs) ys h = let (a, b) = both P xs ys h.1 in ((h.0, a), b)

pub numbered_compressable : (e : Eid) → IsNumbered e → is_compressable e ≡ true
numbered_compressable e h = ap is_compressable h.made ∙ is_compressable-eid_of_numbers h.node h.app

pub all_compressable-append :
    (xs ys : List Eid)
    → All IsNumbered xs
    → all_compressable ys ≡ true
    → all_compressable (xs ++ ys) ≡ true
unfolding all_compressable
all_compressable-append [] ys h k = k
all_compressable-append (x ∷ xs) ys h k =
    rw (numbered_compressable x h.0) (all_compressable-append xs ys h.1 k)

pub all_eids_compressable :
    (bs : List Block) → All (λ x. All IsNumbered x.eids) bs → all_compressable (all_eids bs) ≡ true
unfolding all_eids all_compressable
all_eids_compressable [] h = refl
all_eids_compressable (b ∷ bs) h =
    all_compressable-append b.eids (all_eids bs) h.0 (all_eids_compressable bs h.1)
