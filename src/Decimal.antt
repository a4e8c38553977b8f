-- ===== src/Decimal.antt =====
-- Numbers as text: `stream << n` and `stream >> n` of the standard library for a size_t, as
-- EID.cpp uses them for the node and application numbers of "ipn" EIDs.
pub mod RoundTrip
use ibrdtn.Base.{
  ℕ, zero, suc, ◌+◌, ◌-◌, ◌*◌, ◌/◌, ◌%◌, ◌^◌, ◌≤◌, ◌<◌, ◌≡◌, ◌≢◌, ◌⊎◌, inl, inr, refl, sym, ap, ◌∙◌,
  Bool, true, false, not, ◌&&◌, ◌||◌, Option, none, some, List, [], ◌∷◌, ◌++◌, arith, length, ltb,
  leb, ◌==◌, if◌then◌else◌, Result, ok, err, invalid_data, invalid_protocol, rejected, short_read,
  overrun, get_byte, read_bytes, read_bytes-append, ◌>>=◌, >>=-eq-ok, length-append, All,
  All-append, subst, Bool-cases, Trichotomy, below, level, above, trichotomy, Option-cases, map,
}
use mathlib.Core.WellFounded.{Acc}
use mathlib.Core.Logic.{dite}
use native.Mathlib.Decide.{dec_lt}
use ibrdtn.Base.Order.{lt_wf}

tenth_shrinks : (n : ℕ) → 0 < n / 10 → n / 10 < n
tenth_shrinks n h = omega arith

-- The digits of `n` before the text `done`.
digits_onto : (n : ℕ) → Acc ◌<◌ n → List ℕ → List ℕ
digits_onto n (Acc.intro _ smaller) done =
    dite (dec_lt 0 (n / 10))
      (λ h. digits_onto (n / 10) (smaller _ (tenth_shrinks n h)) ((b'0' + n % 10) ∷ done))
      (λ _. (b'0' + n % 10) ∷ done)

pub print_number : ℕ → List ℕ
unfolding digits_onto lt_wf dec_lt
print_number n = digits_onto n (lt_wf.apply n) []

abbrev pub is_digit : ℕ → Bool
is_digit c = leb b'0' c && leb c b'9'

-- The value of the digits in front, after `v`.
pub digits_value : ℕ → List ℕ → ℕ
digits_value v [] = v
digits_value v (c ∷ s) =
    let rest = digits_value (v * 10 + (c - b'0')) s in if is_digit c then rest else v

abbrev pub is_space : ℕ → Bool
is_space c = c == 32 || (leb 9 c && leb c 13)

unfoldable pub skip_spaces : List ℕ → List ℕ
skip_spaces [] = []
skip_spaces (c ∷ s) = let rest = skip_spaces s in if is_space c then rest else c ∷ s

-- A number that does not fit leaves the greatest size_t.
saturate : ℕ → ℕ
saturate n = if ltb n (2 ^ 64) then n else 2 ^ 64 - 1

-- The sign: a minus takes the negative modulo 2 ^ 64.
signed_value : List ℕ → ℕ
unfolding digits_value saturate
signed_value [] = 0
signed_value (c ∷ s) =
    if c == b'-'
    then (if ltb (digits_value 0 s) (2 ^ 64)
        then (2 ^ 64 - digits_value 0 s) % 2 ^ 64
        else 2 ^ 64 - 1)
    else if c == b'+'
    then saturate (digits_value 0 s)
    else saturate (digits_value 0 (c ∷ s))

-- What `stringstream(text) >> n` leaves in a size_t that was 0.
unfoldable pub read_number : List ℕ → ℕ
unfolding skip_spaces signed_value
read_number s = signed_value (skip_spaces s)
