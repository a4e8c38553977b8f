-- ===== src/Sdnv/Stream.antt =====
-- `operator<<` and `operator>>` of SDNV.cpp: SDNVs in a stream of bytes.
use ibrdtn.Base.{
  ℕ, zero, suc, ◌+◌, ◌%◌, ◌≤◌, ◌<◌, ◌≡◌, inl, inr, refl, sym, ap, ◌∙◌, subst, true, false, Option,
  none, some, List, [], ◌∷◌, ◌++◌, arith, length, if◌then◌else◌, Result, ok, err, short_read,
  overrun, ◌>>=◌, >>=-eq-ok, length-append, All, Bool-cases,
}
use ibrdtn.Sdnv.{decode_loop, shift_in, IsU64, more, encode, decode, encoding_len}
use ibrdtn.Sdnv.Encode.{
  group_count, group_count_bounds, sdnv_bytes, length-sdnv_bytes, encode-eq, encoding_len-eq,
  sdnv_bytes_shape,
}
use ibrdtn.Sdnv.Decode.{decode-sdnv_bytes, decode_exact, decode_of_loop, number}
use mathlib.Core.List.{append_assoc, append-nil}

zeros : ℕ → List ℕ
zeros zero = []
zeros (suc n) = 0 ∷ zeros n

-- The buffer comes from `calloc`, and nobody looks at the return value of `encode`.
written : ℕ → Option (List ℕ) → List ℕ
unfolding zeros
written len none = zeros len
written len (some bs) = bs

pub write_sdnv : ℕ → Result (List ℕ)
unfolding encoding_len encode written
write_sdnv v = do len ← encoding_len v; bytes ← encode v len; ok (written len bytes)

-- The bytes up to the first without the top bit, into an array with room for `room` more. At the
-- end of the stream `read` stores nothing, also where there is no room.
pub collect : ℕ → List ℕ → Result (List ℕ × List ℕ)
collect zero [] = err short_read
collect zero (b ∷ s) = err overrun
collect (suc room) [] = err short_read
collect (suc room) (b ∷ s) =
    let rest = collect room s in
    if more b then (rest >>= λ r. ok (b ∷ r.0, r.1)) else ok (b ∷ [], s)

-- `decode` is given just the bytes of the array. It leaves 0 in the value where it returns -1.
unfoldable pub value_of : Option (ℕ × ℕ) → ℕ
value_of none = 0
value_of (some (v, n)) = v

unfoldable pub read_sdnv : List ℕ → Result (ℕ × List ℕ)
unfolding collect decode value_of
read_sdnv s = do r ← collect 10 s; d ← decode r.0; ok (value_of d, r.1)

-- Writing a 64-bit value throws nothing.
pub write_sdnv-eq : (v : ℕ) → IsU64 v → write_sdnv v ≡ ok (sdnv_bytes v)
unfolding write_sdnv written
write_sdnv-eq v h = rw (encoding_len-eq v h) (rw (encode-eq v (group_count v) h) (ground arith))

collect-append :
    (hs : List ℕ) (b room : ℕ) (s : List ℕ)
    → All (λ x. more x ≡ true) hs
    → more b ≡ false
    → length hs < room
    → collect room (hs ++ (b ∷ s)) ≡ ok (hs ++ (b ∷ []), s)
unfolding collect
collect-append hs b zero s high low fits = absurd (omega arith)
collect-append [] b (suc room) s high low fits = rw low
collect-append (h ∷ hs) b (suc room) s high low fits =
    rw (high.0, collect-append hs b room s high.1 low (omega arith))

pub collect-sdnv_bytes :
    (v : ℕ) (s : List ℕ) → IsU64 v → collect 10 (sdnv_bytes v ++ s) ≡ ok (sdnv_bytes v, s)
collect-sdnv_bytes v s h =
    let (hs, e, high) = sdnv_bytes_shape v h in
    rw (e, append_assoc hs (v % 128 ∷ []) s)
      (collect-append hs (v % 128) 10 s high (ground arith) (
        omega (
          arith,
          ap length e,
          length-append hs (v % 128 ∷ []),
          length-sdnv_bytes v h,
          group_count_bounds v h,
        )))

pub read_sdnv-sdnv_bytes :
    (v : ℕ) (s : List ℕ) → IsU64 v → read_sdnv (sdnv_bytes v ++ s) ≡ ok (v, s)
unfolding read_sdnv value_of
read_sdnv-sdnv_bytes v s h =
    rw (collect-sdnv_bytes v s h)
      (rw (ap decode (sym (append-nil (sdnv_bytes v))) ∙ decode-sdnv_bytes v [] h))

-- A 64-bit value is written into a stream as at most ten bytes, which are read back as the value,
-- and what follows them stays.
pub read-write_sdnv :
    (v : ℕ) (s : List ℕ)
    → IsU64 v
    → (bs : List ℕ) × (write_sdnv v ≡ ok bs) × (read_sdnv (bs ++ s) ≡ ok (v, s)) × (length bs ≤ 10)
read-write_sdnv v s h = (
  sdnv_bytes v,
  write_sdnv-eq v h,
  read_sdnv-sdnv_bytes v s h,
  omega (arith, length-sdnv_bytes v h, group_count_bounds v h),
)

-- `collect` splits the stream behind the first byte without the top bit.
collect-eq_ok :
    (room : ℕ) (s bs rest : List ℕ)
    → collect room s ≡ ok (bs, rest)
    → (s ≡ bs ++ rest) × (length bs ≤ room) × (0 < length bs)
unfolding collect
collect-eq_ok zero [] bs rest e = cc
collect-eq_ok zero (b ∷ s) bs rest e = cc
collect-eq_ok (suc room) [] bs rest e = cc
collect-eq_ok (suc room) (b ∷ s) bs rest e = elim (Bool-cases (more b)) [
  | inr low ↦ ground (arith, rw (low, collect) at e)
  | inl high ↦
      let ((more_bytes, tail), inner, same) =
        >>=-eq-ok (collect room s) (λ r. ok (b ∷ r.0, r.1)) (rw (high, collect) at e) in
      ground (arith, collect-eq_ok room s more_bytes tail inner)
]

-- The loop of `decode` comes to its end in such an array, at the last byte.
decode_loop-collect :
    (room : ℕ) (s bs rest : List ℕ) (v n : ℕ)
    → collect room s ≡ ok (bs, rest)
    → (u : ℕ) × (decode_loop bs v n ≡ some (u, n + length bs))
unfolding collect decode_loop
decode_loop-collect zero [] bs rest v n e = cc
decode_loop-collect zero (b ∷ s) bs rest v n e = cc
decode_loop-collect (suc room) [] bs rest v n e = cc
decode_loop-collect (suc room) (b ∷ s) bs rest v n e = elim (Bool-cases (more b)) [
  | inr low ↦ (shift_in v b, ground (arith, rw (low, collect) at e))
  | inl high ↦
      let ((more_bytes, tail), inner, same) =
        >>=-eq-ok (collect room s) (λ r. ok (b ∷ r.0, r.1)) (rw (high, collect) at e) in
      let (u, shape) = decode_loop-collect room s more_bytes tail (shift_in v b) (n + 1) inner in
      (u, ground arith)
]

-- The three steps of a read that succeeds.
read_steps :
    (s rest bs tail : List ℕ) (d : Option (ℕ × ℕ)) (v : ℕ)
    → collect 10 s ≡ ok (bs, tail)
    → decode bs ≡ ok d
    → ◌≡◌ {A = Result (ℕ × List ℕ)} (ok (value_of d, tail)) (ok (v, rest))
    → (s ≡ bs ++ rest)
      × (0 < length bs)
      × (length bs ≤ 10)
      × (number bs 0 0 ≡ some (v, length bs))
      × IsU64 v
unfolding value_of
read_steps s rest bs tail d v split decoded ends =
    let (u, loop) = decode_loop-collect 10 s bs tail 0 0 split in
    let same =
      decode_of_loop bs d u (length bs) (loop ∙ ap (λ n. some (u, n)) (omega arith)) decoded in
    let (num, small, _) = decode_exact bs u (length bs) (decoded ∙ ap ok same) in
    let (shape, long, some_byte) = collect-eq_ok 10 s bs tail split in
    let w : u ≡ v = cc in
    (cc, some_byte, long, num ∙ ap (λ n. some (n, length bs)) w, subst IsU64 w small)

-- What a read that succeeds has read: 1 to 10 bytes of the stream, whose number is the value, and
-- which fits 64 bits.
pub read_sdnv_sound :
    (s rest : List ℕ) (v : ℕ)
    → read_sdnv s ≡ ok (v, rest)
    → (bs : List ℕ) × (s ≡ bs ++ rest)
      × (0 < length bs)
      × (length bs ≤ 10)
      × (number bs 0 0 ≡ some (v, length bs))
      × IsU64 v
unfolding read_sdnv
read_sdnv_sound s rest v e =
    let (r, split, e1) =
      >>=-eq-ok (collect 10 s) (λ r. decode r.0 >>= λ d. ok (value_of d, r.1)) e in
    let (d, decoded, e2) = >>=-eq-ok (decode r.0) (λ d. ok (value_of d, r.1)) e1 in
    let (a, b, c, n, m) = read_steps s rest r.0 r.1 d v split decoded e2 in (r.0, a, b, c, n, m)

collect_overrun :
    (hs : List ℕ) (b : ℕ) (s : List ℕ)
    → All (λ x. more x ≡ true) hs
    → collect (length hs) (hs ++ (b ∷ s)) ≡ err overrun
unfolding collect
collect_overrun [] b s high = refl
collect_overrun (h ∷ hs) b s high = rw (high.0, collect_overrun hs b s high.1)

-- The loop of `operator>>` does not look at the size of its array: where ten bytes with the top bit
-- set are followed by a further byte, it writes that one behind the end, before `decode` can refuse
-- them.
pub read_sdnv_overrun :
    (hs : List ℕ) (b : ℕ) (s : List ℕ)
    → length hs ≡ 10
    → All (λ x. more x ≡ true) hs
    → read_sdnv (hs ++ (b ∷ s)) ≡ err overrun
unfolding read_sdnv
read_sdnv_overrun hs b s ten high = rw (← ten) (rw (collect_overrun hs b s high))
