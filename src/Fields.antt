-- ===== src/Fields.antt =====
-- What the administrative records share: single characters, and fields that stand in a stream only
-- when a flag says so.
use ibrdtn.Base.{
  ℕ, ◌+◌, ◌≡◌, refl, ap, Bool, true, false, List, [], ◌∷◌, ◌++◌, arith, length, if◌then◌else◌,
  Result, ok, get_byte, ◌>>=◌, length-append,
}
use ibrdtn.Sdnv.{IsU64, encoding_len}
use ibrdtn.Sdnv.Encode.{sdnv_bytes, encoding_len-eq, length-sdnv_bytes}
use ibrdtn.Sdnv.Stream.{write_sdnv, read_sdnv, write_sdnv-eq, read_sdnv-sdnv_bytes}
use ibrdtn.Decimal.{is_space, skip_spaces}
use mathlib.Core.List.{append_assoc}

-- `stream >> c` for a char: white space before it is skipped, as for every formatted read.
pub read_char : List ℕ → Result (ℕ × List ℕ)
unfolding skip_spaces
read_char s = get_byte (skip_spaces s)

pub read_char-solid : (c : ℕ) (s : List ℕ) → is_space c ≡ false → read_char (c ∷ s) ≡ ok (c, s)
unfolding read_char skip_spaces
read_char-solid c s h = rw h

pub read_char-space : (c : ℕ) (s : List ℕ) → is_space c ≡ true → read_char (c ∷ s) ≡ read_char s
unfolding read_char skip_spaces
read_char-space c s h = rw h

-- `if (c) stream << x;`, `if (c) len += x.getLength();` and `if (c) stream >> x;`
pub write_if : Bool → Result (List ℕ) → Result (List ℕ)
write_if c m = if c then m else ok []

pub length_if : Bool → Result ℕ → Result ℕ
length_if c m = if c then m else ok 0

pub read_if {ℓ} :
    {A : Type ℓ} → Bool → A → (List ℕ → Result (A × List ℕ)) → List ℕ → Result (A × List ℕ)
read_if c old r s = if c then r s else ok (old, s)

pub bytes_if : Bool → List ℕ → List ℕ
bytes_if c bs = if c then bs else []

pub write_if-eq :
    (c : Bool) (m : Result (List ℕ)) (bs : List ℕ) → m ≡ ok bs → write_if c m ≡ ok (bytes_if c bs)
unfolding write_if bytes_if
write_if-eq true m bs h = h
write_if-eq false m bs h = refl

pub length_if-eq :
    (c : Bool) (m : Result ℕ) (bs : List ℕ)
    → m ≡ ok (length bs)
    → length_if c m ≡ ok (length (bytes_if c bs))
unfolding length_if bytes_if
length_if-eq true m bs h = h
length_if-eq false m bs h = refl

pub read_if-bytes_if {ℓ} :
    {A : Type ℓ} (c : Bool) (old a : A) (r : List ℕ → Result (A × List ℕ)) (bs s : List ℕ)
    → r (bs ++ s) ≡ ok (a, s)
    → read_if c old r (bytes_if c bs ++ s) ≡ ok (if c then a else old, s)
unfolding read_if bytes_if
read_if-bytes_if true old a r bs s h = h
read_if-bytes_if false old a r bs s h = refl

-- The offset and the length of a fragment.
pub record Span : Type 0 where
  pub offset : ℕ
  pub size : ℕ

pub write_span : Span → Result (List ℕ)
write_span f = do a ← write_sdnv f.offset; b ← write_sdnv f.size; ok (a ++ b)

pub span_length : Span → Result ℕ
span_length f = do a ← encoding_len f.offset; b ← encoding_len f.size; ok (a + b)

pub read_span : List ℕ → Result (Span × List ℕ)
read_span s = do (a, s) ← read_sdnv s; (b, s) ← read_sdnv s; ok (record { offset = a; size = b }, s)

pub record IsSpan (f : Span) : Type 0 where
  pub offset : IsU64 f.offset
  pub size : IsU64 f.size

pub span_bytes : Span → List ℕ
span_bytes f = sdnv_bytes f.offset ++ sdnv_bytes f.size

pub write_span-eq : (f : Span) → IsSpan f → write_span f ≡ ok (span_bytes f)
unfolding write_span span_bytes
write_span-eq f h = rw (write_sdnv-eq f.offset h.offset, write_sdnv-eq f.size h.size)

pub span_length-eq : (f : Span) → IsSpan f → span_length f ≡ ok (length (span_bytes f))
unfolding span_length span_bytes
span_length-eq f h =
    rw (encoding_len-eq f.offset h.offset, encoding_len-eq f.size h.size)
      (ap ok (
        omega (
          arith,
          length-append (sdnv_bytes f.offset) (sdnv_bytes f.size),
          length-sdnv_bytes f.offset h.offset,
          length-sdnv_bytes f.size h.size,
        )))

pub read_span-span_bytes :
    (f : Span) (s : List ℕ) → IsSpan f → read_span (span_bytes f ++ s) ≡ ok (f, s)
unfolding read_span span_bytes
read_span-span_bytes f s h =
    simp append_assoc
      (rw (read_sdnv-sdnv_bytes f.offset _ h.offset) (rw (read_sdnv-sdnv_bytes f.size s h.size)))
