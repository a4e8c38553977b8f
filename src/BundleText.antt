-- ===== src/BundleText.antt =====
-- ibrdtn/ibrdtn/data/BundleString.h and BundleString.cpp: a text behind its length as an SDNV.
use ibrdtn.Base.{
  ℕ, ◌+◌, ◌^◌, ◌<◌, ◌≡◌, refl, ap, ◌&&◌, List, [], ◌∷◌, ◌++◌, arith, length, ltb, if◌then◌else◌,
  Result, ok, read_bytes, read_bytes-append, ◌>>=◌, length-append,
}
use ibrdtn.Sdnv.{encoding_len}
use ibrdtn.Sdnv.Encode.{sdnv_bytes, encoding_len-eq, length-sdnv_bytes}
use ibrdtn.Sdnv.Stream.{write_sdnv, read_sdnv, write_sdnv-eq, read_sdnv-sdnv_bytes}
use mathlib.Core.List.{append_assoc}

pub text_length : List ℕ → Result ℕ
text_length t = do n ← encoding_len (length t); ok (n + length t)

pub write_text : List ℕ → Result (List ℕ)
write_text t = do len ← write_sdnv (length t); ok (len ++ t)

-- The length becomes a signed std::streamsize.
pub read_text : List ℕ → Result (List ℕ × List ℕ)
read_text s = do
  (n, s) ← read_sdnv s
  if ltb 0 n && ltb n (2 ^ 63) then read_bytes n s else ok ([], s)

-- The bytes of a text in a stream.
pub text_bytes : List ℕ → List ℕ
text_bytes t = sdnv_bytes (length t) ++ t

pub write_text-eq : (t : List ℕ) → length t < 2 ^ 63 → write_text t ≡ ok (text_bytes t)
unfolding write_text text_bytes
write_text-eq t h = rw (write_sdnv-eq (length t) (omega arith))

pub text_length-eq : (t : List ℕ) → length t < 2 ^ 63 → text_length t ≡ ok (length (text_bytes t))
unfolding text_length text_bytes
text_length-eq t h = rw (encoding_len-eq (length t) (omega arith)) (
    ap ok (
      omega (
        arith,
        length-append (sdnv_bytes (length t)) t,
        length-sdnv_bytes (length t) (omega arith),
      )))

read_known :
    (t s : List ℕ)
    → length t < 2 ^ 63
    → (if ltb 0 (length t) && ltb (length t) (2 ^ 63)
        then read_bytes (length t) (t ++ s)
        else ok ([], t ++ s))
      ≡ ok (t, s)
read_known [] s h = refl
read_known (c ∷ t) s h = ground (arith, read_bytes-append (c ∷ t) s)

pub read_text-text_bytes :
    (t s : List ℕ) → length t < 2 ^ 63 → read_text (text_bytes t ++ s) ≡ ok (t, s)
unfolding read_text text_bytes
read_text-text_bytes t s h =
    rw
      (
        append_assoc (sdnv_bytes (length t)) t s,
        read_sdnv-sdnv_bytes (length t) (t ++ s) (omega arith),
      )
      (read_known t s h)

-- A text shorter than 2 ^ 63 bytes takes as many bytes in a stream as `getLength` says, and is read
-- back, whatever follows it.
pub read-write_text :
    (t s : List ℕ)
    → length t < 2 ^ 63
    → (bs : List ℕ) × (write_text t ≡ ok bs)
      × (text_length t ≡ ok (length bs))
      × (read_text (bs ++ s) ≡ ok (t, s))
read-write_text t s h =
    (text_bytes t, write_text-eq t h, text_length-eq t h, read_text-text_bytes t s h)
