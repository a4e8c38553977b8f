-- ===== src/Storage/Laws.antt =====
-- What the calls of a storage do one behind the other: MemoryBundleStorage.cpp.
use ibrdtn.Base.{
  ℕ, ◌+◌, ◌-◌, ◌%◌, ◌^◌, ◌<◌, ◌≡◌, ◌⊎◌, inl, inr, refl, ap, ◌∙◌, Bool, true, false, not, ◌&&◌, ◌||◌,
  some, List, [], ◌∷◌, arith, ltb, ◌==◌, if◌then◌else◌, ok, All, Bool-cases,
}
use ibrdtn.Base.Sets.{insert, erase, contains, equivalent}
use ibrdtn.PrimaryBlock.Compare.{block_lt_irrefl}
use ibrdtn.BundleId.{BundleId, id_gt}
use ibrdtn.BundleId.Laws.{id_eq_refl, id_gt_irrefl}
use ibrdtn.MetaBundle.{MetaBundle, priority}
use ibrdtn.Bundles.{Bundle}
use ibrdtn.Storage.{
  Surroundings, Storage, length_now, id_of, meta_of, bundle_lt, priority_lt, new_storage, store,
  stored, duplicate, first, without_first, has_id, get_bundle, count_size, put_bundle, take_bundle,
  remove_id,
}

or_false : (a b : Bool) → (a || b) ≡ false → (a ≡ false) × (b ≡ false)
or_false false b h = (refl, h)
or_false true b h = cc

unordered_equivalent : (p q : Bool) → p ≡ false → q ≡ false → (not p && not q) ≡ true
unordered_equivalent p q h k = rw (h, k) refl

not_ordered : (p q : Bool) → p ≡ true → (not p && q) ≡ false
not_ordered p q h = rw h refl

module _ {ℓ} {A : Type ℓ} (lt : A → A → Bool) where
  erase_absent : (x : A) (ys : List A) → contains lt x ys ≡ false → erase lt x ys ≡ ys
  unfolding erase contains
  erase_absent x [] h = refl
  erase_absent x (y ∷ ys) h =
      let (e, k) = or_false (equivalent lt y x) (contains lt x ys) h in
      rw e (ap (λ l. y ∷ l) (erase_absent x ys k))

  -- Where nothing like `x` is in a set, `insert` puts it somewhere.
  insert_shape :
      (x y : A) (ys : List A)
      → contains lt x (y ∷ ys) ≡ false
      → (insert lt x (y ∷ ys) ≡ x ∷ y ∷ ys) ⊎ (insert lt x (y ∷ ys) ≡ y ∷ insert lt x ys)
  unfolding insert contains
  insert_shape x y ys h = elim (Bool-cases (lt x y)) [
    | inl e ↦ inl (rw e refl)
    | inr e ↦ elim (Bool-cases (lt y x)) [
      | inl f ↦ inr (rw (e, f) refl)
      | inr f ↦
          let (n, k) = or_false (equivalent lt y x) (contains lt x ys) h in
          cc (unordered_equivalent (lt y x) (lt x y) f e)
    ]
  ]

  -- What is put into a set that has nothing like it goes again.
  erase-insert :
      (x : A) (ys : List A)
      → lt x x ≡ false
      → contains lt x ys ≡ false
      → erase lt x (insert lt x ys) ≡ ys
  unfolding erase insert
  erase-insert x [] i h = rw (i) refl
  erase-insert x (y ∷ ys) i h =
      let (e, k) = or_false (equivalent lt y x) (contains lt x ys) (unfold contains in h) in
      elim (insert_shape x y ys h) [
        | inl f ↦ f_first f
        | inr f ↦ ap (λ l. erase lt x l) f ∙ rw e (ap (λ l. y ∷ l) (erase-insert x ys i k))
      ]
    where
      f_first : insert lt x (y ∷ ys) ≡ x ∷ y ∷ ys → erase lt x (insert lt x (y ∷ ys)) ≡ y ∷ ys
      f_first f =
          ap (λ l. erase lt x l) f
          ∙ rw (unordered_equivalent (lt x x) (lt x x) i i) (erase_absent x (y ∷ ys) h)

-- What is found, and what is left, after a bundle is put into a set that has none with the
-- property.
module _ (p : Bundle → Bool) (b : Bundle) (holds : p b ≡ true) where
  first-insert :
      (bs : List Bundle)
      → All (λ x. p x ≡ false) bs
      → contains bundle_lt b bs ≡ false
      → first p (insert bundle_lt b bs) ≡ some b
  unfolding first insert
  first-insert [] n h = rw holds refl
  first-insert (x ∷ xs) n h = elim (insert_shape bundle_lt b x xs h) [
    | inl f ↦ ap (λ l. first p l) f ∙ rw holds refl
    | inr f ↦
        ap (λ l. first p l) f
        ∙ rw (n.0) (
            first-insert xs n.1
              (or_false (equivalent bundle_lt x b) (contains bundle_lt b xs)
                (unfold contains in h)).1)
  ]

  without_first-insert :
      (bs : List Bundle)
      → All (λ x. p x ≡ false) bs
      → contains bundle_lt b bs ≡ false
      → without_first p (insert bundle_lt b bs) ≡ bs
  unfolding without_first insert
  without_first-insert [] n h = rw holds refl
  without_first-insert (x ∷ xs) n h = elim (insert_shape bundle_lt b x xs h) [
    | inl f ↦ ap (λ l. without_first p l) f ∙ rw holds refl
    | inr f ↦
        ap (λ l. without_first p l) f
        ∙ rw (n.0) (
            ap (λ l. x ∷ l)
              (without_first-insert xs n.1
                (or_false (equivalent bundle_lt x b) (contains bundle_lt b xs)
                  (unfold contains in h)).1))
  ]

priority_lt_irrefl : (m : MetaBundle) → priority_lt m m ≡ false
unfolding priority_lt
priority_lt_irrefl m = same (priority m) (id_gt m.id m.id) (id_gt_irrefl m.id)
  where
    same : (n : ℕ) (g : Bool) → g ≡ false → (if n == n then g else ltb n n) ≡ false
    same n g h = ground arith

same_left :
    (w w' : Surroundings) (b : Bundle) (m : MetaBundle)
    → priority_lt (meta_of w' b) m ≡ priority_lt (meta_of w b) m
unfolding priority_lt meta_of priority
same_left w w' b m = refl

same_right :
    (w w' : Surroundings) (b : Bundle) (m : MetaBundle)
    → priority_lt m (meta_of w' b) ≡ priority_lt m (meta_of w b)
unfolding priority_lt meta_of priority
same_right w w' b m = refl

-- What the priority index asks of an entry does not depend on the time at which it was made.
erase-meta_of :
    (w w' : Surroundings) (b : Bundle) (ms : List MetaBundle)
    → erase priority_lt (meta_of w' b) ms ≡ erase priority_lt (meta_of w b) ms
unfolding erase
erase-meta_of w w' b [] = refl
erase-meta_of w w' b (m ∷ ms) =
    rw (same_left w w' b m, same_right w w' b m, erase-meta_of w w' b ms) refl

-- A storage that can take a bundle: there is room, and nothing in the sets is like it.
pub record CanTake (w : Surroundings) (st : Storage) (b : Bundle) : Type 0 where
  pub size : ℕ
  pub length : length_now w b ≡ ok size
  pub current : st.currentsize < 2 ^ 64
  pub room : (ltb 0 st.maxsize && ltb st.maxsize ((st.currentsize + size) % 2 ^ 64)) ≡ false
  pub new_id : All (λ x. has_id (id_of b) x ≡ false) st.bundles
  pub new_bundle : contains bundle_lt b st.bundles ≡ false
  pub new_meta : contains priority_lt (meta_of w b) st.index ≡ false

remove_id-found :
    (w : Surroundings) (st : Storage) (id : BundleId) (b : Bundle) (n : ℕ)
    → get_bundle st id ≡ some b
    → length_now w b ≡ ok n
    → remove_id w st id ≡ ok (some (take_bundle w st (has_id id) b n))
unfolding remove_id
remove_id-found w st id b n h e = rw (remove_id, h) (rw e refl)

store-duplicate :
    (w : Surroundings) (st : Storage) (b : Bundle) (n : ℕ)
    → length_now w b ≡ ok n
    → st.maxsize ≡ 0
    → contains bundle_lt b st.bundles ≡ true
    → store w st b ≡ ok (count_size st b n, duplicate)
unfolding store
store-duplicate w st b n e m h = rw e (rw (m, h) refl)

-- In a storage whose size fits 64 bits, a bundle for which there is room, whose predicted length is
-- returned, and that is like none in the sets, by its identity, by the order of bundles and by that
-- of the priorities, is stored, and `get` returns it. A later `remove` with its identity predicts the length anew, which an age block
-- may have made another one by then. If that is returned, it gives the storage its bundles and its
-- priority index back, and a size that is the one before with the length of the first call added
-- and that of the second taken off, modulo 2 ^ 64.
pub store-remove_id :
    (w w' : Surroundings) (st : Storage) (b : Bundle) (later : ℕ) (k : CanTake w st b)
    → length_now w' b ≡ ok later
    → (st' st'' : Storage) × (store w st b ≡ ok (st', stored))
      × (get_bundle st' (id_of b) ≡ some b)
      × (remove_id w' st' (id_of b) ≡ ok (some st''))
      × (st''.bundles ≡ st.bundles)
      × (st''.index ≡ st.index)
      × (st''.currentsize < 2 ^ 64)
      × ((st''.currentsize + later) % 2 ^ 64 ≡ (st.currentsize + k.size) % 2 ^ 64)
unfolding store get_bundle remove_id count_size put_bundle take_bundle
store-remove_id w w' st b later k e =
    let mine : has_id (id_of b) b ≡ true = unfold has_id in id_eq_refl (id_of b) in
    let found = first-insert (has_id (id_of b)) b mine st.bundles k.new_id k.new_bundle in
    (
      put_bundle w (count_size st b k.size) b,
      take_bundle w' (put_bundle w (count_size st b k.size) b) (has_id (id_of b)) b later,
      rw k.length (rw k.room (rw k.new_bundle refl)),
      found,
      remove_id-found w' (put_bundle w (count_size st b k.size) b) (id_of b) b later found e,
      without_first-insert (has_id (id_of b)) b mine st.bundles k.new_id k.new_bundle,
      erase-meta_of w w' b (insert priority_lt (meta_of w b) st.index)
          ∙ erase-insert priority_lt (meta_of w b) st.index (priority_lt_irrefl (meta_of w b))
              k.new_meta,
      omega arith,
      drift st.currentsize k.size later,
    )
  where
    drift :
        (c n m : ℕ)
        → (((c + n) % 2 ^ 64 + (2 ^ 64 - m % 2 ^ 64)) % 2 ^ 64 + m) % 2 ^ 64 ≡ (c + n) % 2 ^ 64
    drift c n m = omega arith

-- A bundle that is stored a second time is a duplicate, but its size is added again: when it is
-- removed from a storage of no limit that held nothing else, no bundle is left, and the size that
-- the storage accounts for is still that of the bundle. The predicted length, which is returned and
-- fits 64 bits, is the same at the three calls.
pub store_twice :
    (w w' w'' : Surroundings) (b : Bundle) (size : ℕ)
    → length_now w b ≡ ok size
    → length_now w' b ≡ ok size
    → length_now w'' b ≡ ok size
    → size < 2 ^ 64
    → (st st' st'' : Storage) × (store w (new_storage 0) b ≡ ok (st, stored))
      × (store w' st b ≡ ok (st', duplicate))
      × (remove_id w'' st' (id_of b) ≡ ok (some st''))
      × (st''.bundles ≡ [])
      × (st''.currentsize ≡ size)
unfolding store get_bundle remove_id new_storage count_size put_bundle take_bundle contains insert
    first without_first
store_twice w w' w'' b size e e' e'' fits =
    let mine : has_id (id_of b) b ≡ true = unfold has_id in id_eq_refl (id_of b) in
    let i = block_lt_irrefl b.primary in
    let once = put_bundle w (count_size (new_storage 0) b size) b in
    let twice = count_size once b size in
    (
      once,
      twice,
      take_bundle w'' twice (has_id (id_of b)) b size,
      rw e refl,
      store-duplicate w' once b size e' refl
          (rw (unordered_equivalent (bundle_lt b b) (bundle_lt b b) i i) refl),
      remove_id-found w'' twice (id_of b) b size (only mine) e'',
      gone mine,
      left_over size fits,
    )
  where
    only : has_id (id_of b) b ≡ true → first (has_id (id_of b)) (b ∷ []) ≡ some b
    only t = rw t refl

    gone : has_id (id_of b) b ≡ true → without_first (has_id (id_of b)) (b ∷ []) ≡ []
    gone t = rw t refl

    left_over :
        (n : ℕ)
        → n < 2 ^ 64
        → (((0 + n) % 2 ^ 64 + n) % 2 ^ 64 + (2 ^ 64 - n % 2 ^ 64)) % 2 ^ 64 ≡ n
    left_over n h = omega (arith, h)
