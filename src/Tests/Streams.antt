-- ===== src/Tests/Streams.antt =====
-- The theorems on single values in a stream.
use ibrdtn.Base.{
  ℕ, ◌^◌, ◌≤◌, ◌<◌, ◌≡◌, refl, some, List, [], ◌∷◌, ◌++◌, arith, length, ok, err, overrun,
}
use ibrdtn.Sdnv.{IsU64, encode, decode, decode32}
use ibrdtn.Sdnv.Decode.{number, decode-encode, decode_exact}
use ibrdtn.Sdnv.Stream.{write_sdnv, read_sdnv, read-write_sdnv, read_sdnv_sound, read_sdnv_overrun}
use ibrdtn.Segment.{sized_segment, shutdown_segment, msg_data_segment, write_segment, read_segment}
use ibrdtn.Segment.RoundTrip.{received, read-write_segment}

decode-encode_example :
    (bs : List ℕ) × (encode 300 16 ≡ ok (some bs))
    × (decode (bs ++ (7 ∷ [])) ≡ ok (some (300, length bs)))
    × (length bs ≤ 10)
decode-encode_example = decode-encode 300 16 (7 ∷ []) (omega arith) (omega arith)

decode_300 : decode (0x82 ∷ 0x2c ∷ []) ≡ ok (some (300, 2))
unfolding decode
decode_300 = refl

decode_exact_example : (number (0x82 ∷ 0x2c ∷ []) 0 0 ≡ some (300, 2)) × (300 < 2 ^ 64) × (2 ≤ 10)
decode_exact_example = decode_exact (0x82 ∷ 0x2c ∷ []) 300 2 decode_300

decode32_300 : decode32 (0x82 ∷ 0x2c ∷ []) ≡ ok (some (300, 2))
unfolding decode32
decode32_300 = refl

read-write_sdnv_example :
    (bs : List ℕ) × (write_sdnv 300 ≡ ok bs)
    × (read_sdnv (bs ++ (7 ∷ [])) ≡ ok (300, 7 ∷ []))
    × (length bs ≤ 10)
read-write_sdnv_example = read-write_sdnv 300 (7 ∷ []) (omega arith)

read_300 : read_sdnv (0x82 ∷ 0x2c ∷ 9 ∷ []) ≡ ok (300, 9 ∷ [])
unfolding read_sdnv
read_300 = refl

read_sdnv_sound_example :
    (bs : List ℕ) × ((0x82 ∷ 0x2c ∷ 9 ∷ []) ≡ bs ++ (9 ∷ []))
    × (0 < length bs)
    × (length bs ≤ 10)
    × (number bs 0 0 ≡ some (300, length bs))
    × IsU64 300
read_sdnv_sound_example = read_sdnv_sound (0x82 ∷ 0x2c ∷ 9 ∷ []) (9 ∷ []) 300 read_300

abbrev ten_high : List ℕ
ten_high = 128 ∷ 128 ∷ 128 ∷ 128 ∷ 128 ∷ 128 ∷ 128 ∷ 128 ∷ 128 ∷ 128 ∷ []

read_sdnv_overrun_example : read_sdnv (ten_high ++ (1 ∷ [])) ≡ err overrun
read_sdnv_overrun_example =
    read_sdnv_overrun ten_high 1 [] refl
      (refl, (refl, (refl, (refl, (refl, (refl, (refl, (refl, (refl, (refl, tt))))))))))

read-write_segment_example :
    (bs : List ℕ) × (write_segment (sized_segment msg_data_segment 300) ≡ ok bs)
    × (read_segment (shutdown_segment 2 9) (bs ++ (7 ∷ []))
        ≡ ok (
          received (shutdown_segment 2 9) (sized_segment msg_data_segment 300) msg_data_segment,
          7 ∷ [],
        ))
unfolding sized_segment
read-write_segment_example =
    read-write_segment (shutdown_segment 2 9) (sized_segment msg_data_segment 300) (7 ∷ []) tt
      (omega arith) (omega arith) (omega arith)
