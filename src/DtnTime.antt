-- ===== src/DtnTime.antt =====
-- ibrdtn/ibrdtn/data/DTNTime.h and DTNTime.cpp: a time as two SDNVs.
use ibrdtn.Base.{
  ℕ, ◌+◌, ◌*◌, ◌%◌, ◌^◌, ◌≡◌, ap, List, ◌++◌, arith, length, Result, ok, ◌>>=◌, length-append,
}
use ibrdtn.Sdnv.{IsU64, encoding_len, plus_assign}
use ibrdtn.Sdnv.Encode.{sdnv_bytes, encoding_len-eq, length-sdnv_bytes}
use ibrdtn.Sdnv.Stream.{write_sdnv, read_sdnv, write_sdnv-eq, read_sdnv-sdnv_bytes}
use mathlib.Core.List.{append_assoc}

pub record DtnTime : Type 0 where
  pub seconds : ℕ
  pub nanoseconds : ℕ

-- `set` from the seconds and microseconds of the clock.
pub set_time : ℕ → ℕ → DtnTime
set_time sec usec = record { seconds = sec; nanoseconds = usec * 1000 % 2 ^ 64 }

pub add_seconds : DtnTime → ℕ → DtnTime
add_seconds t n = record t { seconds = plus_assign t.seconds n }

pub time_length : DtnTime → Result ℕ
time_length t = do a ← encoding_len t.seconds; b ← encoding_len t.nanoseconds; ok (a + b)

pub write_time : DtnTime → Result (List ℕ)
write_time t = do a ← write_sdnv t.seconds; b ← write_sdnv t.nanoseconds; ok (a ++ b)

pub read_time : List ℕ → Result (DtnTime × List ℕ)
read_time s = do
  (a, s) ← read_sdnv s
  (b, s) ← read_sdnv s
  ok (record { seconds = a; nanoseconds = b }, s)

pub record IsTime (t : DtnTime) : Type 0 where
  pub seconds : IsU64 t.seconds
  pub nanoseconds : IsU64 t.nanoseconds

pub time_bytes : DtnTime → List ℕ
time_bytes t = sdnv_bytes t.seconds ++ sdnv_bytes t.nanoseconds

pub write_time-eq : (t : DtnTime) → IsTime t → write_time t ≡ ok (time_bytes t)
unfolding write_time time_bytes
write_time-eq t h =
    rw (write_sdnv-eq t.seconds h.seconds, write_sdnv-eq t.nanoseconds h.nanoseconds)

pub time_length-eq : (t : DtnTime) → IsTime t → time_length t ≡ ok (length (time_bytes t))
unfolding time_length time_bytes
time_length-eq t h =
    rw (encoding_len-eq t.seconds h.seconds, encoding_len-eq t.nanoseconds h.nanoseconds)
      (ap ok (
        omega (
          arith,
          length-append (sdnv_bytes t.seconds) (sdnv_bytes t.nanoseconds),
          length-sdnv_bytes t.seconds h.seconds,
          length-sdnv_bytes t.nanoseconds h.nanoseconds,
        )))

pub read_time-time_bytes :
    (t : DtnTime) (s : List ℕ) → IsTime t → read_time (time_bytes t ++ s) ≡ ok (t, s)
unfolding read_time time_bytes
read_time-time_bytes t s h = simp append_assoc (
    rw (read_sdnv-sdnv_bytes t.seconds _ h.seconds)
      (rw (read_sdnv-sdnv_bytes t.nanoseconds s h.nanoseconds)))
