-- ===== src/Blocks/Sharing.antt =====
-- Two bundles that share their blocks, as a bundle and its copy do: Bundle.cpp.
use ibrdtn.Base.{ℕ, ◌≡◌, refl, true, false, List, [], ◌∷◌, ◌++◌, All}
use ibrdtn.Flags.{has_flag}
use ibrdtn.Blocks.{Block, Heap, last_block, create, push_back, copy_list}
use ibrdtn.Blocks.Flagged.{is_last}
use ibrdtn.Blocks.Marks.{IsMarked, create-IsMarked, push_back_unmarks, push_back_marks}

-- A block that is pushed to the back of a copy takes the mark from the block that was the last one,
-- which the copy shares with its original: the original is left without a block that is marked as
-- the last one, if the new block comes without a mark.
pub push_back-copy_list :
    (h : Heap) (l : List ℕ) (b : Block)
    → has_flag b.procflags last_block ≡ false
    → IsMarked h l
    → let (h', p) = create h b in
      let (h'', copy) = push_back h' (copy_list l) p in
      (copy ≡ l ++ (p ∷ [])) × (is_last h'' p ≡ true) × All (λ q. is_last h'' q ≡ false) l
unfolding copy_list
push_back-copy_list h l b u m =
    let (m', n) = create-IsMarked h l b u m in
    (
      unfold push_back in refl,
      push_back_marks (create h b).0 l (create h b).1 n,
      push_back_unmarks (create h b).0 l (create h b).1 m' n,
    )
