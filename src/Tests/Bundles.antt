-- ===== src/Tests/Bundles.antt =====
-- The theorems on the dictionary, the clock and the primary block.
use ibrdtn.Base.{◌≡◌, refl, true, false, List, [], ◌∷◌, ◌++◌, arith, All}
use ibrdtn.Dictionary.{add_eids, empty_dictionary, get_eid, get_ref}
use ibrdtn.Dictionary.Round.{IsReferable, dictionary_round}
use ibrdtn.Clock.{get_time}
use ibrdtn.Tests.{node_eid, cbhe_eid, good_clock}
use ibrdtn.Flags.{has_flag}
use ibrdtn.Blocks.{
  Heap, plain_block, Call, to_front, to_back, ahead_of, takes_out, run, create, push_back,
  copy_list, back,
}
use ibrdtn.Blocks.Flagged.{is_last}
use ibrdtn.Blocks.Marks.{IsMarked, run-IsMarked}
use ibrdtn.Blocks.Sharing.{push_back-copy_list}

pub node_eid-IsReferable : IsReferable node_eid
node_eid-IsReferable = record {
  scheme = record {
    no_nul = (omega arith, (omega arith, (omega arith, tt)));
    some_char = refl;
    short = omega arith;
    starts = refl;
    ends = refl;
  };
  ssp = record {
    no_nul = (omega arith, (omega arith, (omega arith, (omega arith, (omega arith, tt)))));
    some_char = refl;
    short = omega arith;
    starts = refl;
    ends = refl;
  };
}

pub cbhe_eid-IsReferable : IsReferable cbhe_eid
cbhe_eid-IsReferable = record {
  scheme = record {
    no_nul = (omega arith, (omega arith, (omega arith, tt)));
    some_char = refl;
    short = omega arith;
    starts = refl;
    ends = refl;
  };
  ssp = record {
    no_nul = (omega arith, (omega arith, (omega arith, tt)));
    some_char = refl;
    short = omega arith;
    starts = refl;
    ends = refl;
  };
}

dictionary_round_example :
    let d = add_eids empty_dictionary ((cbhe_eid ∷ []) ++ (node_eid ∷ [])) in
    (get_eid d (get_ref d node_eid).0 (get_ref d node_eid).1).0 ≡ node_eid
dictionary_round_example =
    dictionary_round (cbhe_eid ∷ []) [] node_eid (cbhe_eid-IsReferable, (node_eid-IsReferable, tt))

good_clock_time : get_time good_clock ≡ 5000
unfolding get_time
good_clock_time = refl

abbrev empty_heap : Heap
empty_heap = record { at = λ p. plain_block 0; next = 0 }

-- A payload block, two blocks around it, a third one ahead of the payload, and the last one goes.
abbrev block_calls : List Call
block_calls =
    to_back (plain_block 1)
    ∷ to_front (plain_block 7)
    ∷ to_back (plain_block 8)
    ∷ ahead_of (plain_block 9) 0
    ∷ takes_out 2
    ∷ []

no_blocks-IsMarked : IsMarked empty_heap []
no_blocks-IsMarked = record {
  below = tt;
  distinct = tt;
  others = tt;
  end = λ p e. absurd (unfold back in cc);
}

run-IsMarked_example :
    IsMarked (run (empty_heap, []) block_calls).0 (run (empty_heap, []) block_calls).1
unfolding plain_block has_flag
run-IsMarked_example =
    run-IsMarked block_calls empty_heap [] (refl, (refl, (refl, (refl, (tt, tt)))))
      no_blocks-IsMarked

-- A bundle with one block that is marked.
abbrev one_block_heap : Heap
one_block_heap = record { at = λ p. record (plain_block 1) { procflags = 8 }; next = 1 }

one_block-IsMarked : IsMarked one_block_heap (0 ∷ [])
unfolding plain_block has_flag
one_block-IsMarked = record {
  below = (omega arith, tt);
  distinct = (tt, tt);
  others = (λ e. cc, tt);
  end = λ p e. refl;
}

push_back-copy_list_example :
    let (h', p) = create one_block_heap (plain_block 7) in
    let (h'', copy) = push_back h' (copy_list (0 ∷ [])) p in
    (copy ≡ (0 ∷ []) ++ (p ∷ []))
    × (is_last h'' p ≡ true)
    × All (λ q. is_last h'' q ≡ false) (0 ∷ [])
unfolding plain_block has_flag
push_back-copy_list_example =
    push_back-copy_list one_block_heap (0 ∷ []) (plain_block 7) refl one_block-IsMarked
