-- ===== src/Primary/Numbers.antt =====
-- The numbers of a primary block in a stream.
use ibrdtn.Base.{
  ℕ, ◌+◌, ◌≡◌, refl, sym, ap, ◌∙◌, none, some, List, [], ◌∷◌, ◌++◌, arith, length, ◌==◌,
  if◌then◌else◌, ok, length-append, All,
}
use mathlib.Core.List.{append_assoc, append-nil}
use ibrdtn.Sdnv.{IsU64, decode}
use ibrdtn.Sdnv.Encode.{sdnv_bytes, encoding_len-eq, length-sdnv_bytes}
use ibrdtn.Sdnv.Decode.{decode-sdnv_bytes}
use ibrdtn.Sdnv.Stream.{write_sdnv-eq, read_sdnv-sdnv_bytes, collect-sdnv_bytes, value_of}
use ibrdtn.Primary.{write_numbers, numbers_length, named, read_size, read_pair}

unfoldable pub numbers_bytes : List ℕ → List ℕ
numbers_bytes [] = []
numbers_bytes (x ∷ xs) = sdnv_bytes x ++ numbers_bytes xs

pub write_numbers-eq : (xs : List ℕ) → All IsU64 xs → write_numbers xs ≡ ok (numbers_bytes xs)
unfolding write_numbers numbers_bytes
write_numbers-eq [] h = refl
write_numbers-eq (x ∷ xs) h = rw (write_sdnv-eq x h.0, write_numbers-eq xs h.1) refl

pub numbers_length-eq :
    (xs : List ℕ) → All IsU64 xs → numbers_length xs ≡ ok (length (numbers_bytes xs))
unfolding numbers_length numbers_bytes
numbers_length-eq [] h = refl
numbers_length-eq (x ∷ xs) h =
    rw (encoding_len-eq x h.0, numbers_length-eq xs h.1)
      (ap ok
        (omega (arith, length-append (sdnv_bytes x) (numbers_bytes xs), length-sdnv_bytes x h.0)))

unfoldable pub numbers_bytes-append :
    (xs ys : List ℕ) → numbers_bytes (xs ++ ys) ≡ numbers_bytes xs ++ numbers_bytes ys
unfolding numbers_bytes
numbers_bytes-append [] ys = refl
numbers_bytes-append (x ∷ xs) ys =
    rw (numbers_bytes-append xs ys)
      (sym (append_assoc (sdnv_bytes x) (numbers_bytes xs) (numbers_bytes ys)))

pub read_pair-sdnv_bytes :
    (a b : ℕ) (s : List ℕ)
    → IsU64 a
    → IsU64 b
    → read_pair (sdnv_bytes a ++ (sdnv_bytes b ++ s)) ≡ ok ((a, b), s)
unfolding read_pair
read_pair-sdnv_bytes a b s ha hb =
    rw (read_sdnv-sdnv_bytes a (sdnv_bytes b ++ s) ha) (rw (read_sdnv-sdnv_bytes b s hb) refl)

pub read_size-sdnv_bytes :
    (v : ℕ) (s : List ℕ)
    → IsU64 v
    → read_size (sdnv_bytes v ++ s) ≡ ok (if v == 0 then none else some v, s)
unfolding read_size named value_of
read_size-sdnv_bytes v s h =
    rw (collect-sdnv_bytes v s h)
      (rw (ap decode (sym (append-nil (sdnv_bytes v))) ∙ decode-sdnv_bytes v [] h) refl)

-- The predicted length of a header with the size of the dictionary, its bytes, and the text `t`.
pub predicted_length :
    (xs names t : List ℕ) (size : ℕ)
    → length names ≡ length (sdnv_bytes size) + size
    → size + length (numbers_bytes (xs ++ (size ∷ []))) + length t
      ≡ length (numbers_bytes xs ++ (names ++ t))
unfolding numbers_bytes
predicted_length xs names t size e =
    rw
      (
        numbers_bytes-append xs (size ∷ []),
        length-append (numbers_bytes xs) (sdnv_bytes size ++ []),
        append-nil (sdnv_bytes size),
        length-append (numbers_bytes xs) (names ++ t),
        length-append names t,
      )
      (omega (arith, e))
