-- ===== src/Sdnv/Encode.antt =====
-- What `SDNV::encode` writes.
use mathlib.Core.WellFounded.{Acc}
use mathlib.Core.Logic.{dif_pos}
use native.Mathlib.Decide.{dec_lt}
use native.Mathlib.Bridge.{le_prop}
use mathlib.Core.List.{append_assoc}
use ibrdtn.Base.Order.{lt_wf}
use ibrdtn.Base.{
  ℕ, zero, suc, ◌+◌, ◌*◌, ◌/◌, ◌%◌, ◌^◌, ◌≤◌, ◌<◌, ◌≡◌, ◌⊎◌, inl, inr, sym, ◌∙◌, true, none, some,
  List, [], ◌∷◌, ◌++◌, arith, length, ltb, if◌then◌else◌, ok, All, All-append,
}
use ibrdtn.Sdnv.{
  shift_shrinks, IsU64, more, count_groups, fill, encode, encoding_len, decode_loop, shift_in,
  first_is_0x81,
}

-- The groups of `v`, all with the top bit set.
pub high_groups : ℕ → List ℕ
unfolding lt_wf
high_groups v = fill v (lt_wf.apply v) 128 []

count_groups_bounds :
    (k v : ℕ) (w : Acc ◌<◌ v)
    → v < 128 ^ suc k
    → (0 < count_groups v w) × (count_groups v w ≤ suc k)
unfolding count_groups
count_groups_bounds zero v (Acc.intro _ smaller) h = ground arith
count_groups_bounds (suc k) v (Acc.intro _ smaller) h =
    grind (arith, λ (w : Acc ◌<◌ (v / 128)). count_groups_bounds k (v / 128) w (omega arith))

length-fill :
    (k v : ℕ) (w : Acc ◌<◌ v) (high : ℕ) (rest : List ℕ)
    → v < 128 ^ suc k
    → length (fill v w high rest) ≡ count_groups v w + length rest
unfolding count_groups fill
length-fill zero v (Acc.intro _ smaller) high rest h = ground arith
length-fill (suc k) v (Acc.intro _ smaller) high rest h = grind (
  arith,
  λ (w : Acc ◌<◌ (v / 128)). length-fill k (v / 128) w 128 ((high + v % 128) ∷ rest) (omega arith),
)

fill-append :
    (k v : ℕ) (w : Acc ◌<◌ v) (high : ℕ) (xs ys : List ℕ)
    → v < 128 ^ suc k
    → fill v w high (xs ++ ys) ≡ fill v w high xs ++ ys
unfolding fill
fill-append zero v (Acc.intro _ smaller) high xs ys h = ground arith
fill-append (suc k) v (Acc.intro _ smaller) high xs ys h = grind (
  arith,
  λ (w : Acc ◌<◌ (v / 128)). fill-append k (v / 128) w 128 ((high + v % 128) ∷ xs) ys (omega arith),
)

-- Behind the groups of `v` the loop of `decode` stands at the value `v`.
decode_loop-fill :
    (k v : ℕ) (w : Acc ◌<◌ v) (rest : List ℕ)
    → v < 128 ^ suc k
    → v < 2 ^ 57
    → decode_loop (fill v w 128 rest) 0 0 ≡ decode_loop rest v (count_groups v w)
unfolding fill count_groups decode_loop
decode_loop-fill zero v (Acc.intro _ smaller) rest h small = ground arith
decode_loop-fill (suc k) v (Acc.intro _ smaller) rest h small = grind (
  arith,
  λ (w : Acc ◌<◌ (v / 128)).
      decode_loop-fill k (v / 128) w ((128 + v % 128) ∷ rest) (omega arith) (omega arith),
)

-- The number of bytes and the bytes themselves.
pub group_count : ℕ → ℕ
unfolding lt_wf
group_count v = count_groups v (lt_wf.apply v)

pub sdnv_bytes : ℕ → List ℕ
unfolding lt_wf
sdnv_bytes v = fill v (lt_wf.apply v) 0 []

pub group_count_bounds : (v : ℕ) → IsU64 v → (0 < group_count v) × (group_count v ≤ 10)
unfolding group_count
group_count_bounds v h = count_groups_bounds 9 v _ (omega arith)

pub length-sdnv_bytes : (v : ℕ) → IsU64 v → length (sdnv_bytes v) ≡ group_count v
unfolding sdnv_bytes group_count
length-sdnv_bytes v h = omega (arith, length-fill 9 v (lt_wf.apply v) 0 [] (omega arith))

-- No check of `encode` fails: it returns -1 if the buffer is too small, and else all the bytes.
pub encode-eq :
    (v len : ℕ)
    → IsU64 v
    → encode v len ≡ ok (if ltb len (group_count v) then none else some (sdnv_bytes v))
unfolding encode group_count sdnv_bytes
encode-eq v len h = ground (arith, group_count_bounds v h, length-sdnv_bytes v h)

pub encoding_len-eq : (v : ℕ) → IsU64 v → encoding_len v ≡ ok (group_count v)
unfolding encoding_len
encoding_len-eq v h =
    rw (encode-eq v 16 h) (ground (arith, group_count_bounds v h, length-sdnv_bytes v h))

fill_last :
    (v : ℕ) (w : Acc ◌<◌ v) (high : ℕ) (rest : List ℕ)
    → v < 128
    → fill v w high rest ≡ (high + v) ∷ rest
unfolding fill
fill_last v (Acc.intro _ smaller) high rest h = ground arith

-- One round of the loop that is not the last.
fill_next :
    (v : ℕ) (w : Acc ◌<◌ v) (high : ℕ) (rest : List ℕ)
    → 128 ≤ v
    → (w' : Acc ◌<◌ (v / 128)) × (fill v w high rest
        ≡ fill (v / 128) w' 128 ((high + v % 128) ∷ rest))
      × (count_groups v w ≡ suc (count_groups (v / 128) w'))
unfolding fill count_groups
fill_next v (Acc.intro _ smaller) high rest h =
    let p : 0 < v / 128 = omega arith in
    (smaller _ (shift_shrinks v p), rw (dif_pos _ le_prop p), rw (dif_pos _ le_prop p))

count_last : (v : ℕ) (w : Acc ◌<◌ v) → v < 128 → count_groups v w ≡ 1
unfolding count_groups
count_last v (Acc.intro _ smaller) h = ground arith

decode_loop-last :
    (b v n : ℕ) (rest : List ℕ) → b < 128 → decode_loop (b ∷ rest) v n ≡ some (shift_in v b, n + 1)
unfolding decode_loop
decode_loop-last b v n rest h = ground arith

decode_loop-fill_0 :
    (v : ℕ) (w : Acc ◌<◌ v) (rest : List ℕ)
    → IsU64 v
    → decode_loop (fill v w 0 rest) 0 0 ≡ some (v, count_groups v w)
decode_loop-fill_0 v w rest h = elim (dec_lt v 128) [
  | yes p ↦
      rw (fill_last v w 0 rest p, count_last v w p, decode_loop-last (0 + v) 0 0 rest (omega arith))
        (ground arith)
  | no p ↦
      let (w', e, c) = fill_next v w 0 rest (omega arith) in
      rw
        (
          e,
          c,
          decode_loop-fill 9 (v / 128) w' ((0 + v % 128) ∷ rest) (omega arith) (omega arith),
          decode_loop-last (0 + v % 128) (v / 128) (count_groups (v / 128) w') rest (omega arith),
        )
        (ground arith)
]

-- The loop of `decode` stops at the end of an encoding, with its value.
pub decode_loop-sdnv_bytes :
    (v : ℕ) (rest : List ℕ)
    → IsU64 v
    → decode_loop (sdnv_bytes v ++ rest) 0 0 ≡ some (v, group_count v)
unfolding sdnv_bytes group_count
decode_loop-sdnv_bytes v rest h =
    rw (← fill-append 9 v (lt_wf.apply v) 0 [] rest (omega arith)) (decode_loop-fill_0 v _ rest h)

pub pow_pos : (k : ℕ) → 0 < 128 ^ k
pow_pos zero = omega arith
pow_pos (suc k) = omega (arith, pow_pos k)

-- A value whose highest group is 1.
first-fill :
    (k v : ℕ) (w : Acc ◌<◌ v) (high : ℕ) (rest : List ℕ)
    → 128 ^ suc k ≤ v
    → v < 2 * 128 ^ suc k
    → first_is_0x81 (fill v w high rest) ≡ true
first-fill zero v w high rest lo hi =
    let (w', e, _) = fill_next v w high rest (omega arith) in
    rw (e, fill_last (v / 128) w' 128 ((high + v % 128) ∷ rest) (omega arith)) (ground arith)
first-fill (suc k) v w high rest lo hi =
    let (w', e, _) = fill_next v w high rest (omega (arith, pow_pos k)) in
    rw e (first-fill k (v / 128) w' 128 ((high + v % 128) ∷ rest) (omega arith) (omega arith))

fill_shape :
    (k v : ℕ) (w : Acc ◌<◌ v) (high : ℕ) (rest : List ℕ)
    → v < 128 ^ suc k
    → (hs : List ℕ) × (fill v w high rest ≡ hs ++ ((high + v % 128) ∷ rest))
      × All (λ b. more b ≡ true) hs
fill_shape zero v w high rest h = ([], fill_last v w high rest h ∙ ground arith, tt)
fill_shape (suc k) v w high rest h = elim (dec_lt v 128) [
  | yes p ↦ ([], fill_last v w high rest p ∙ ground arith, tt)
  | no p ↦
      let (w', e, _) = fill_next v w high rest (omega arith) in
      let (hs, shape, high_bits) =
        fill_shape k (v / 128) w' 128 ((high + v % 128) ∷ rest) (omega arith) in
      (
        hs ++ ((128 + v / 128 % 128) ∷ []),
        e ∙ shape ∙ sym (append_assoc hs _ _),
        All-append _ hs _ high_bits (ground arith, tt),
      )
]

-- All bytes but the last have the top bit set.
pub sdnv_bytes_shape :
    (v : ℕ)
    → IsU64 v
    → (hs : List ℕ) × (sdnv_bytes v ≡ hs ++ (v % 128 ∷ [])) × All (λ b. more b ≡ true) hs
unfolding sdnv_bytes
sdnv_bytes_shape v h =
    let (hs, e, high_bits) = fill_shape 9 v (lt_wf.apply v) 0 [] (omega arith) in
    (hs, e ∙ ground arith, high_bits)

first_is_0x81-append : (xs ys : List ℕ) → first_is_0x81 xs ≡ true → first_is_0x81 (xs ++ ys) ≡ true
first_is_0x81-append [] ys h = cc
first_is_0x81-append (x ∷ xs) ys h = h

-- Ten bytes are written for the values with bit 63 set alone, and then the first is 0x81.
pub ten_groups :
    (v : ℕ) (rest : List ℕ)
    → IsU64 v
    → (group_count v < 10) ⊎ (first_is_0x81 (sdnv_bytes v ++ rest) ≡ true)
unfolding sdnv_bytes group_count
ten_groups v rest h = elim (dec_lt v (2 ^ 63)) [
  | yes p ↦ inl (omega (arith, count_groups_bounds 8 v (lt_wf.apply v) (omega arith)))
  | no p ↦ inr (
      first_is_0x81-append (fill v (lt_wf.apply v) 0 []) rest
        (first-fill 8 v (lt_wf.apply v) 0 [] (omega arith) (omega arith)))
]
