-- ===== src/Sdnv.antt =====
-- ibrdtn/ibrdtn/data/SDNV.h and SDNV.cpp: self-describing numeric values, seven bits to a byte, the
-- highest group first, with the top bit set on every byte but the last.
-- A u_int64_t is a number below 2 ^ 64 and a byte one below 256. `b & 0x7f` is `b % 128`, the test
-- of bit 7 is `128 ≤ b`, and `(v << 7) | g` with `g < 128` is `v * 128 % 2 ^ 64 + g`.
pub mod Encode
pub mod Decode
pub mod Stream
use mathlib.Core.WellFounded.{Acc}
use mathlib.Core.Logic.{dite}
use native.Mathlib.Decide.{dec_lt}
use ibrdtn.Base.Order.{lt_wf}
use ibrdtn.Base.{
  ℕ, zero, suc, ◌+◌, ◌-◌, ◌*◌, ◌/◌, ◌%◌, ◌^◌, ◌≤◌, ◌<◌, ◌≡◌, Bool, true, false, not, ◌&&◌, ◌||◌,
  Option, none, some, List, [], ◌∷◌, ◌++◌, arith, length, ltb, leb, ◌==◌, if◌then◌else◌, Result, ok,
  err, invalid_data, short_read, overrun, ◌>>=◌,
}

abbrev pub max_length : ℕ
max_length = 10

abbrev pub u64_mod : ℕ
u64_mod = 2 ^ 64

abbrev pub IsU64 : ℕ → Type 0
IsU64 v = v < 2 ^ 64

-- `*bp & 0x80`
abbrev pub more : ℕ → Bool
more b = leb 128 b

shift_shrinks : (v : ℕ) → 0 < v / 128 → v / 128 < v
shift_shrinks v h = omega arith

-- `do { tmp = tmp >> 7; val_len++; } while (tmp != 0);`
count_groups : (v : ℕ) → Acc ◌<◌ v → ℕ
count_groups v (Acc.intro _ smaller) =
    dite (dec_lt 0 (v / 128))
      (λ again. suc (count_groups (v / 128) (smaller _ (shift_shrinks v again)))) (λ _. 1)

-- The second loop of `encode` writes from the last byte to the first: `done` is what stands behind
-- `bp` already, and `high_bit` is 0 for the last byte and 128 for the others.
fill : (v : ℕ) → Acc ◌<◌ v → ℕ → List ℕ → List ℕ
fill v (Acc.intro _ smaller) high_bit done =
    dite (dec_lt 0 (v / 128))
      (λ again.
        fill (v / 128) (smaller _ (shift_shrinks v again)) 128 ((high_bit + v % 128) ∷ done))
      (λ _. (high_bit + v % 128) ∷ done)

-- The bytes that are written into a buffer of `len` bytes; `none` is the return value -1.
pub encode : ℕ → ℕ → Result (Option (List ℕ))
unfolding count_groups fill lt_wf dec_lt
encode v len =
    let val_len = count_groups v (lt_wf.apply v) in
    let bytes = fill v (lt_wf.apply v) 0 [] in
    if not (ltb 0 val_len)
    then err invalid_data
    else if not (leb val_len max_length)
    then err invalid_data
    else if ltb len val_len
    then ok none
    else if not (length bytes == val_len)
    then err invalid_data
    else ok (some bytes)

-- -1 and 0 are refused.
returned_length : Option (List ℕ) → Result ℕ
returned_length none = err invalid_data
returned_length (some []) = err invalid_data
returned_length (some (b ∷ bs)) = ok (suc (length bs))

-- `encode` into `buf[16]`, whose return value is the length.
pub encoding_len : ℕ → Result ℕ
unfolding encode returned_length
encoding_len v = do r ← encode v 16; returned_length r

-- `*val = (*val << 7) | (*bp & 0x7f)`
abbrev pub shift_in : ℕ → ℕ → ℕ
shift_in v b = v * 128 % 2 ^ 64 + b % 128

-- The loop of `decode`, with `*val` and `val_len`; `none` is the return value -1.
pub decode_loop : List ℕ → ℕ → ℕ → Option (ℕ × ℕ)
decode_loop [] v val_len = none
decode_loop (b ∷ bs) v val_len =
    let rest = decode_loop bs (shift_in v b) (val_len + 1) in
    if more b then rest else some (shift_in v b, val_len + 1)

abbrev pub first_is_0x81 : List ℕ → Bool
first_is_0x81 [] = false
first_is_0x81 (b ∷ bs) = b == 0x81

-- The check behind the loop.
pub check_overflow : List ℕ → Option (ℕ × ℕ) → Result (Option (ℕ × ℕ))
check_overflow bs none = ok none
check_overflow bs (some (v, val_len)) =
    if ltb max_length val_len || (val_len == max_length && not (first_is_0x81 bs))
    then err invalid_data
    else ok (some (v, val_len))

-- The value and the number of bytes used, for the u_int64_t version.
unfoldable pub decode : List ℕ → Result (Option (ℕ × ℕ))
unfolding decode_loop check_overflow
decode bs = check_overflow bs (decode_loop bs 0 0)

-- What a decode into a narrower type does with a value: the check for 32 bits is the check for 16
-- bits too, and the assignment keeps the low bits.
pub narrow : ℕ → Option (ℕ × ℕ) → Result (Option (ℕ × ℕ))
narrow m none = ok none
narrow m (some (v, val_len)) =
    if ltb 0xffff_ffff v then err invalid_data else ok (some (v % m, val_len))

unfoldable pub decode32 : List ℕ → Result (Option (ℕ × ℕ))
unfolding decode narrow
decode32 bs = do r ← decode bs; narrow (2 ^ 32) r

pub decode16 : List ℕ → Result (Option (ℕ × ℕ))
decode16 bs = do r ← decode bs; narrow (2 ^ 16) r

-- `SDNV::len`: the bytes up to the first without the top bit. The loop has no bound of its own.
pub encoded_len : List ℕ → Result ℕ
encoded_len [] = err short_read
encoded_len (b ∷ bs) =
    let rest = encoded_len bs in if more b then (rest >>= λ n. ok (suc n)) else ok 1

-- The operators. `operator-` takes its left operand from its right one.
pub plus : ℕ → ℕ → ℕ
plus x y = (y + x) % 2 ^ 64

unfoldable pub plus_assign : ℕ → ℕ → ℕ
plus_assign x y = (x + y) % 2 ^ 64

pub minus : ℕ → ℕ → ℕ
minus x y = (y + 2 ^ 64 - x) % 2 ^ 64

pub minus_assign : ℕ → ℕ → ℕ
minus_assign x y = (x + 2 ^ 64 - y) % 2 ^ 64
