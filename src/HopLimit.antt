-- ===== src/HopLimit.antt =====
-- ibrdtn/ibrdtn/data/ScopeControlHopLimitBlock.h and ScopeControlHopLimitBlock.cpp: the block that
-- counts the hops of a bundle.
use ibrdtn.Base.{
  ℕ, zero, suc, ◌+◌, ◌-◌, ◌%◌, ◌^◌, ◌<◌, ◌≡◌, List, ◌++◌, arith, length, ltb, if◌then◌else◌, Result,
  ok, ◌>>=◌, length-append,
}
use ibrdtn.Sdnv.{IsU64, encoding_len, plus_assign}
use ibrdtn.Sdnv.Encode.{sdnv_bytes, encoding_len-eq, length-sdnv_bytes}
use ibrdtn.Sdnv.Stream.{write_sdnv, read_sdnv, write_sdnv-eq, read_sdnv-sdnv_bytes}
use mathlib.Core.List.{append_assoc}

pub record HopLimit : Type 0 where
  pub count : ℕ
  pub limit : ℕ

pub get_hops_to_live : HopLimit → ℕ
get_hops_to_live b = if ltb b.limit b.count then 0 else b.limit - b.count

pub increment : HopLimit → ℕ → HopLimit
increment b hops = record b { count = plus_assign b.count hops }

pub set_limit : HopLimit → ℕ → HopLimit
set_limit b hops = record b { count = 0; limit = hops }

pub hop_length : HopLimit → Result ℕ
hop_length b = do c ← encoding_len b.count; l ← encoding_len b.limit; ok (c + l)

-- `serialize`: the bytes, and `length` after them.
pub write_hops : HopLimit → ℕ → Result (List ℕ × ℕ)
write_hops b len = do
  c ← write_sdnv b.count
  l ← write_sdnv b.limit
  n ← hop_length b
  ok (c ++ l, (len + n) % 2 ^ 64)

-- `deserialize`
pub read_hops : List ℕ → Result (HopLimit × List ℕ)
read_hops s = do (c, s) ← read_sdnv s; (l, s) ← read_sdnv s; ok (record { count = c; limit = l }, s)

-- `increment` n times by one.
pub increment_times : ℕ → HopLimit → HopLimit
unfolding increment
increment_times zero b = b
increment_times (suc n) b = increment_times n (increment b 1)

-- The limit stands, and the count is the number of the hops, modulo 2 ^ 64.
increment_times-eq :
    (n : ℕ) (b : HopLimit)
    → b.count < 2 ^ 64
    → increment_times n b ≡ record b { count = (b.count + n) % 2 ^ 64 }
unfolding increment_times plus_assign
increment_times-eq zero b h = ground arith
increment_times-eq (suc n) b h =
    rw (increment_times-eq n (increment b 1) (ground arith)) (ground arith)

-- After a limit below 2 ^ 64 is set, each hop takes one from what is left, down to none, for fewer
-- than 2 ^ 64 hops.
get_hops_to_live-increment_times :
    (b : HopLimit) (limit n : ℕ)
    → IsU64 limit
    → IsU64 n
    → get_hops_to_live (increment_times n (set_limit b limit)) ≡ limit - n
unfolding get_hops_to_live set_limit
get_hops_to_live-increment_times b limit n hl hn =
    rw (increment_times-eq n (record b { count = 0; limit = limit }) (omega arith)) (ground arith)

pub record IsHops (b : HopLimit) : Type 0 where
  pub count : IsU64 b.count
  pub limit : IsU64 b.limit

-- A block with both numbers below 2 ^ 64 adds to the length the bytes that it writes, and is read
-- back, whatever follows it.
read-write_hops :
    (b : HopLimit) (len : ℕ) (s : List ℕ)
    → IsHops b
    → (bs : List ℕ) × (write_hops b len ≡ ok (bs, (len + length bs) % 2 ^ 64))
      × (read_hops (bs ++ s) ≡ ok (b, s))
unfolding write_hops read_hops hop_length
read-write_hops b len s h = (
  sdnv_bytes b.count ++ sdnv_bytes b.limit,
  rw
      (
        write_sdnv-eq b.count h.count,
        write_sdnv-eq b.limit h.limit,
        encoding_len-eq b.count h.count,
        encoding_len-eq b.limit h.limit,
      )
      (simp length-append
        (rw (length-sdnv_bytes b.count h.count, length-sdnv_bytes b.limit h.limit))),
  simp append_assoc
      (rw (read_sdnv-sdnv_bytes b.count _ h.count) (rw (read_sdnv-sdnv_bytes b.limit s h.limit))),
)
