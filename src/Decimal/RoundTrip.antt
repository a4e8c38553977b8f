-- ===== src/Decimal/RoundTrip.antt =====
-- A printed number is read back.
use ibrdtn.Base.{
  ℕ, zero, suc, ◌+◌, ◌*◌, ◌/◌, ◌%◌, ◌^◌, ◌≤◌, ◌<◌, ◌≡◌, ap, ◌∙◌, Bool, true, false, List, [], ◌∷◌,
  ◌++◌, arith, All,
}
use mathlib.Core.WellFounded.{Acc}
use mathlib.Core.Logic.{dif_pos}
use native.Mathlib.Decide.{dec_lt}
use native.Mathlib.Bridge.{le_prop}
use ibrdtn.Base.Order.{lt_wf}
use ibrdtn.Decimal.{
  digits_onto, tenth_shrinks, print_number, is_digit, digits_value, skip_spaces, saturate,
  signed_value, read_number,
}

digits_next :
    (n : ℕ) (w : Acc ◌<◌ n) (done : List ℕ)
    → 10 ≤ n
    → (w' : Acc ◌<◌ (n / 10)) × (digits_onto n w done
        ≡ digits_onto (n / 10) w' ((b'0' + n % 10) ∷ done))
unfolding digits_onto
digits_next n (Acc.intro _ smaller) done h =
    let p : 0 < n / 10 = omega arith in (smaller _ (tenth_shrinks n p), rw (dif_pos _ le_prop p))

digits_last :
    (n : ℕ) (w : Acc ◌<◌ n) (done : List ℕ) → n < 10 → digits_onto n w done ≡ (b'0' + n) ∷ done
unfolding digits_onto
digits_last n (Acc.intro _ smaller) done h = ground arith

digits_value-digit :
    (v c : ℕ) (s : List ℕ) → c < 10 → digits_value v ((b'0' + c) ∷ s) ≡ digits_value (v * 10 + c) s
unfolding digits_value
digits_value-digit v c s h = ground arith

-- `fuel` bounds the number of digits.
digits_value-onto :
    (fuel n : ℕ) (w : Acc ◌<◌ n) (done : List ℕ)
    → n < fuel
    → digits_value 0 (digits_onto n w done) ≡ digits_value n done
digits_value-onto zero n w done h = absurd (omega arith)
digits_value-onto (suc fuel) n w done h = elim (dec_lt n 10) [
  | yes p ↦
      rw (digits_last n w done p, digits_value-digit 0 n done p)
        (ap (λ k. digits_value k done) (omega arith))
  | no p ↦
      let (w', e) = digits_next n w done (omega arith) in
      rw
        (
          e,
          digits_value-onto fuel (n / 10) w' ((b'0' + n % 10) ∷ done) (omega arith),
          digits_value-digit (n / 10) (n % 10) done (omega arith),
        )
        (ap (λ k. digits_value k done) (omega arith))
]

-- The first character is a digit.
abbrev pub starts_digit : List ℕ → Bool
starts_digit [] = false
starts_digit (c ∷ s) = is_digit c

starts_digit-onto :
    (fuel n : ℕ) (w : Acc ◌<◌ n) (done : List ℕ)
    → n < fuel
    → starts_digit (digits_onto n w done) ≡ true
starts_digit-onto zero n w done h = absurd (omega arith)
starts_digit-onto (suc fuel) n w done h = elim (dec_lt n 10) [
  | yes p ↦ rw (digits_last n w done p) (ground arith)
  | no p ↦
      let (w', e) = digits_next n w done (omega arith) in
      rw e (starts_digit-onto fuel (n / 10) w' ((b'0' + n % 10) ∷ done) (omega arith))
]

pub print_number-starts : (n : ℕ) (rest : List ℕ) → starts_digit (print_number n ++ rest) ≡ true
unfolding print_number
print_number-starts n rest =
    behind (digits_onto n (lt_wf.apply n) []) rest
      (starts_digit-onto (suc n) n (lt_wf.apply n) [] (omega arith))
  where
    behind : (s rest : List ℕ) → starts_digit s ≡ true → starts_digit (s ++ rest) ≡ true
    behind [] rest h = cc
    behind (c ∷ s) rest h = h

unsigned : (s : List ℕ) → starts_digit s ≡ true → read_number s ≡ saturate (digits_value 0 s)
unfolding read_number skip_spaces signed_value
unsigned [] h = cc
unsigned (c ∷ s) h = ground arith

-- A size_t that is printed as text is read back.
pub read-print_number : (n : ℕ) → n < 2 ^ 64 → read_number (print_number n) ≡ n
read-print_number n h = unsigned (print_number n) (starts n) ∙ value n h
  where
    starts : (n : ℕ) → starts_digit (print_number n) ≡ true
    starts n = unfold print_number in starts_digit-onto (suc n) n (lt_wf.apply n) [] (omega arith)

    value : (n : ℕ) → n < 2 ^ 64 → saturate (digits_value 0 (print_number n)) ≡ n
    value n h =
        unfold print_number in
        rw (digits_value-onto (suc n) n (lt_wf.apply n) [] (omega arith))
          (unfold saturate digits_value in ground arith)

digits_onto-digits :
    (fuel n : ℕ) (w : Acc ◌<◌ n) (done : List ℕ)
    → n < fuel
    → All (λ c. b'0' ≤ c) done
    → All (λ c. b'0' ≤ c) (digits_onto n w done)
digits_onto-digits zero n w done h k = absurd (omega arith)
digits_onto-digits (suc fuel) n w done h k = elim (dec_lt n 10) [
  | yes p ↦ rw (digits_last n w done p) (omega arith, k)
  | no p ↦
      let (w', e) = digits_next n w done (omega arith) in
      rw e (
        digits_onto-digits fuel (n / 10) w' ((b'0' + n % 10) ∷ done) (omega arith) (omega arith, k))
]

pub print_number-digits : (n : ℕ) → All (λ c. b'0' ≤ c) (print_number n)
unfolding print_number
print_number-digits n = digits_onto-digits (suc n) n (lt_wf.apply n) [] (omega arith) tt
