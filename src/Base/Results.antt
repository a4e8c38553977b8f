-- ===== src/Base/Results.antt =====
-- What a function of the sources may do besides return: throw, or read where nothing can be read.
use Prim.Native.Nat.{ℕ, zero, suc, ◌≤◌}
use native.Mathlib.Omega.{arith}
use mathlib.Core.List.{List, [], ◌∷◌, ◌++◌}
use ibrdtn.Base.Lists.{length}
use mathlib.Core.Path.{◌≡◌, refl, subst}
use mathlib.Core.Logic.{◌⊎◌, inl, inr}

-- `invalid_data` is dtn::InvalidDataException, `invalid_protocol` is dtn::InvalidProtocolException,
-- `rejected` is dtn::data::Validator::RejectedException, and `wrong_eid` is the
-- ibrcommon::Exception "wrong eid format", `aborted` and `unsent` are dtn::net::DatagramException
-- of a stream that is aborted and of a datagram that no peer acknowledges. The other two are no
-- exceptions of the sources. `short_read` is a read behind the end of the stream, after which the
-- sources go on with an indeterminate byte; `overrun` is a write behind the end of an array.
pub data Error : Type 0 where
  invalid_data invalid_protocol rejected wrong_eid aborted unsent short_read overrun : Error

-- A call that returns a value, or leaves by an error.
pub data Result {ℓ} (V : Type ℓ) : Type ℓ where
  err : (reason : Error) → Result V
  ok : (value : V) → Result V

infixl 5 ◌>>=◌
abbrev pub ◌>>=◌ {ℓ ℓ'} : {V : Type ℓ} {W : Type ℓ'} → Result V → (V → Result W) → Result W
err reason >>= next = err reason
ok value >>= next = next value

-- Where two calls in a row return, the first has returned what the second went on with.
pub >>=-eq-ok {ℓ ℓ'} :
    {V : Type ℓ} {W : Type ℓ'} (first : Result V) (next : V → Result W) {w : W}
    → (first >>= next) ≡ ok w
    → (v : V) × (first ≡ ok v) × (next v ≡ ok w)
>>=-eq-ok (err reason) next both = cc
>>=-eq-ok (ok value) next both = (value, refl, both)

pub Result-cases {ℓ} :
    {V : Type ℓ} (r : Result V) → ((reason : Error) × (r ≡ err reason)) ⊎ ((v : V) × (r ≡ ok v))
Result-cases (err reason) = inl (reason, refl)
Result-cases (ok value) = inr (value, refl)

-- A stream is the list of the bytes not read yet. `get` takes one byte.
abbrev pub get_byte : List ℕ → Result (ℕ × List ℕ)
get_byte [] = err short_read
get_byte (b ∷ s) = ok (b, s)

-- `stream.read(buffer, n)`.
unfoldable pub read_bytes : ℕ → List ℕ → Result (List ℕ × List ℕ)
read_bytes zero s = ok ([], s)
read_bytes (suc n) [] = err short_read
read_bytes (suc n) (b ∷ s) = read_bytes n s >>= λ r. ok (b ∷ r.0, r.1)

pub read_bytes-append : (bs s : List ℕ) → read_bytes (length bs) (bs ++ s) ≡ ok (bs, s)
unfolding read_bytes
read_bytes-append [] s = refl
read_bytes-append (b ∷ bs) s = rw (read_bytes-append bs s)

-- Two results with the same value and stream have the same stream.
pub same_rest {ℓ} :
    {V : Type ℓ} {v w : V} {s t : List ℕ}
    → ◌≡◌ {A = Result (V × List ℕ)} (ok (v, s)) (ok (w, t))
    → s ≡ t
same_rest e = cc

pub read_bytes-shorter :
    (n : ℕ) (s bytes rest : List ℕ) → read_bytes n s ≡ ok (bytes, rest) → length rest ≤ length s
unfolding read_bytes
read_bytes-shorter zero s bytes rest e =
    subst (λ r. length r ≤ length s) (same_rest e) (omega arith)
read_bytes-shorter (suc n) [] bytes rest e = cc
read_bytes-shorter (suc n) (b ∷ s) bytes rest e =
    let (r, first, second) = >>=-eq-ok (read_bytes n s) (λ r. ok (b ∷ r.0, r.1)) e in
    let shorter = read_bytes-shorter n s r.0 r.1 first in
    subst (λ l. length l ≤ suc (length s)) (same_rest second) (omega (arith, shorter))
