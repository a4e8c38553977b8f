-- ===== src/Sdnv/Decode.antt =====
-- What `SDNV::decode` makes of a buffer.
use native.Mathlib.Nat.{mul_assoc, pow-succ'}
use ibrdtn.Base.{
  ℕ, zero, suc, ◌+◌, ◌*◌, ◌%◌, ◌^◌, ◌≤◌, ◌<◌, ◌≡◌, ◌≢◌, refl, sym, ap, ◌∙◌, true, Option, none,
  some, List, [], ◌∷◌, ◌++◌, arith, length, if◌then◌else◌, ok, >>=-eq-ok,
}
use ibrdtn.Sdnv.{
  IsU64, more, encode, decode, decode_loop, check_overflow, shift_in, first_is_0x81, narrow,
  decode32, decode16, minus, minus_assign, plus, plus_assign,
}
use ibrdtn.Sdnv.Encode.{
  group_count, group_count_bounds, sdnv_bytes, length-sdnv_bytes, encode-eq, decode_loop-sdnv_bytes,
  ten_groups, pow_pos,
}

pub decode-sdnv_bytes :
    (v : ℕ) (rest : List ℕ) → IsU64 v → decode (sdnv_bytes v ++ rest) ≡ ok (some (v, group_count v))
unfolding decode check_overflow
decode-sdnv_bytes v rest h =
    rw (decode_loop-sdnv_bytes v rest h)
      (ground (arith, group_count_bounds v h, ten_groups v rest h))

-- A 64-bit value that is encoded into a buffer of at least 10 bytes is decoded again, with the
-- number of bytes that were written, whatever follows them.
pub decode-encode :
    (v len : ℕ) (rest : List ℕ)
    → IsU64 v
    → 10 ≤ len
    → (bs : List ℕ) × (encode v len ≡ ok (some bs))
      × (decode (bs ++ rest) ≡ ok (some (v, length bs)))
      × (length bs ≤ 10)
decode-encode v len rest h big = (
  sdnv_bytes v,
  encode-eq v len h ∙ ground (arith, group_count_bounds v h),
  decode-sdnv_bytes v rest h ∙ ap (λ n. ok (some (v, n))) (sym (length-sdnv_bytes v h)),
  omega (arith, group_count_bounds v h, length-sdnv_bytes v h),
)

-- The number that an SDNV of any length stands for, and the number of its bytes.
pub number : List ℕ → ℕ → ℕ → Option (ℕ × ℕ)
number [] v n = none
number (b ∷ bs) v n =
    let rest = number bs (v * 128 + b % 128) (n + 1) in
    if more b then rest else some (v * 128 + b % 128, n + 1)

le_mul_pow : (k n : ℕ) → n ≤ n * 128 ^ k
le_mul_pow k n = let p = pow_pos k in grind arith

decode_loop_grows : (bs : List ℕ) (v n u m : ℕ) → decode_loop bs v n ≡ some (u, m) → n < m
unfolding decode_loop
decode_loop_grows [] v n u m e = cc
decode_loop_grows (b ∷ bs) v n u m e =
    ground (arith, decode_loop_grows bs (shift_in v b) (n + 1) u m)

regroup : (v p : ℕ) → (v + 1) * (128 * p) ≡ (v * 128 + 128) * p
regroup v p = rw (← mul_assoc (v + 1) 128 p) (ap (λ n. n * p) (omega arith))

regroup_pow : (v k : ℕ) → (v + 1) * 128 ^ suc k ≡ (v * 128 + 128) * 128 ^ k
regroup_pow v k = ap (λ n. (v + 1) * n) (pow-succ' 128 k) ∙ regroup v (128 ^ k)

step_room :
    (k v b : ℕ) → (v + 1) * 128 ^ suc k ≤ 2 ^ 64 → (v * 128 + b % 128 + 1) * 128 ^ k ≤ 2 ^ 64
step_room k v b h =
    let p : (v * 128 + b % 128 + 1) * 128 ^ k ≤ (v * 128 + 128) * 128 ^ k = grind arith in
    omega (arith, regroup_pow v k)

step_fits : (k v b : ℕ) → (v + 1) * 128 ^ suc k ≤ 2 ^ 64 → v * 128 + b % 128 < 2 ^ 64
step_fits k v b h = omega (arith, le_mul_pow k (v * 128 + 128), regroup_pow v k)

-- With room for `k` more bytes no bit is shifted out.
decode_loop_exact :
    (bs : List ℕ) (v n k u m : ℕ)
    → (v + 1) * 128 ^ k ≤ 2 ^ 64
    → decode_loop bs v n ≡ some (u, m)
    → m ≤ n + k
    → (number bs v n ≡ some (u, m)) × (u < 2 ^ 64)
unfolding decode_loop number
decode_loop_exact [] v n k u m room e fits = cc
decode_loop_exact (b ∷ bs) v n zero u m room e fits =
    absurd (omega (arith, decode_loop_grows (b ∷ bs) v n u m e))
decode_loop_exact (b ∷ bs) v n (suc k) u m room e fits =
    let same : shift_in v b ≡ v * 128 + b % 128 = omega (arith, step_fits k v b room) in
    ground (
      arith,
      same,
      step_fits k v b room,
      decode_loop_exact bs (v * 128 + b % 128) (n + 1) k u m (step_room k v b room),
    )

ten_bytes_exact :
    (bs : List ℕ) (u m : ℕ)
    → decode_loop bs 0 0 ≡ some (u, m)
    → m ≤ 10
    → first_is_0x81 bs ≡ true
    → (number bs 0 0 ≡ some (u, m)) × (u < 2 ^ 64)
unfolding decode_loop number
ten_bytes_exact [] u m e fits first = cc
ten_bytes_exact (b ∷ bs) u m e fits first =
    ground (arith, decode_loop_exact bs 1 1 9 u m (omega arith))

decode_exact_cases :
    (bs : List ℕ) (r : Option (ℕ × ℕ)) (u m : ℕ)
    → decode_loop bs 0 0 ≡ r
    → check_overflow bs r ≡ ok (some (u, m))
    → (number bs 0 0 ≡ some (u, m)) × (u < 2 ^ 64) × (m ≤ 10)
unfolding check_overflow
decode_exact_cases bs none u m e h = cc
decode_exact_cases bs (some (v, n)) u m e h =
    ground (arith, decode_loop_exact bs 0 0 9 v n (omega arith) e, ten_bytes_exact bs v n e)

-- What `decode` accepts is at most 10 bytes long and fits 64 bits, and the value is the number that
-- the bytes stand for: no bit of it is lost.
pub decode_exact :
    (bs : List ℕ) (u m : ℕ)
    → decode bs ≡ ok (some (u, m))
    → (number bs 0 0 ≡ some (u, m)) × (u < 2 ^ 64) × (m ≤ 10)
unfolding decode
decode_exact bs u m h = decode_exact_cases bs (decode_loop bs 0 0) u m refl h

-- `decode` returns what its loop has found, or throws.
pub decode_of_loop :
    (bs : List ℕ) (d : Option (ℕ × ℕ)) (u n : ℕ)
    → decode_loop bs 0 0 ≡ some (u, n)
    → decode bs ≡ ok d
    → d ≡ some (u, n)
unfolding decode
decode_of_loop bs d u n e h = checked (rw e at h)
  where
    checked : check_overflow bs (some (u, n)) ≡ ok d → d ≡ some (u, n)
    checked h = unfold check_overflow in ground arith

narrow-eq_ok :
    (k : ℕ) (r : Option (ℕ × ℕ)) (u m : ℕ)
    → narrow k r ≡ ok (some (u, m))
    → (v : ℕ) × (r ≡ some (v, m)) × (v < 2 ^ 32) × (u ≡ v % k)
unfolding narrow
narrow-eq_ok k none u m h = cc
narrow-eq_ok k (some (v, n)) u m h = (v, ground arith, ground arith, ground arith)

-- What the 32-bit version accepts fits 32 bits, and is the number that the bytes stand for.
decode32_exact :
    (bs : List ℕ) (u m : ℕ)
    → decode32 bs ≡ ok (some (u, m))
    → (number bs 0 0 ≡ some (u, m)) × (u < 2 ^ 32)
unfolding decode32
decode32_exact bs u m h =
    let (r, e, n) = >>=-eq-ok (decode bs) (narrow (2 ^ 32)) h in
    let (v, shape, small, same) = narrow-eq_ok (2 ^ 32) r u m n in
    let w : u ≡ v = omega arith in rw w ((decode_exact bs v m (e ∙ ap ok shape)).0, small)

-- The 16-bit version checks for 32 bits: it accepts every value from 2 ^ 16 up to 2 ^ 32 - 1 and
-- returns another number, which is below 2 ^ 16.
decode16_truncates :
    (v : ℕ) (rest : List ℕ)
    → 2 ^ 16 ≤ v
    → v < 2 ^ 32
    → (u : ℕ) × (decode16 (sdnv_bytes v ++ rest) ≡ ok (some (u, group_count v)))
      × (u < 2 ^ 16)
      × (u ≢ v)
unfolding decode16 narrow
decode16_truncates v rest lo hi = (
  v % 2 ^ 16,
  rw (decode-sdnv_bytes v rest (omega arith)) (ground arith),
  omega arith,
  omega arith,
)

-- `operator-` has its operands the wrong way round: for 64-bit numbers it returns the negative,
-- modulo 2 ^ 64, of the difference that `operator-=` leaves; so `x - (y + x)` is `y`, while `-=`
-- leaves `y` in `y + x` when `x` is taken off.
minus_reversed :
    (x y : ℕ)
    → IsU64 x
    → IsU64 y
    → ((minus x y + minus_assign x y) % 2 ^ 64 ≡ 0)
      × (minus x (plus y x) ≡ y)
      × (minus_assign (plus_assign y x) x ≡ y)
unfolding minus minus_assign plus plus_assign
minus_reversed x y hx hy = omega arith
