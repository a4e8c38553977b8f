-- ===== src/Flags.antt =====
-- Processing flags: `get` and `set` of ibrdtn/ibrdtn/data/PrimaryBlock.cpp, Block.cpp and
-- MetaBundle.cpp, over the word that holds them. A flag is a power of two.
use native.Mathlib.Nat.{div-eq-sub-div, le-div_iff_mul-le}
use ibrdtn.Base.{
  ℕ, ◌+◌, ◌-◌, ◌/◌, ◌%◌, ◌≤◌, ◌<◌, ◌≡◌, sym, ap, ◌∙◌, Bool, true, false, arith, ◌==◌, if◌then◌else◌,
}

-- `v & flag` for a flag that is a power of two.
unfoldable pub has_flag : ℕ → ℕ → Bool
has_flag v flag = v / flag % 2 == 1

-- `v |= flag` and `v &= ~flag`.
unfoldable pub set_flag : ℕ → ℕ → ℕ
unfolding has_flag
set_flag v flag = if has_flag v flag then v else v + flag

unfoldable pub clear_flag : ℕ → ℕ → ℕ
unfolding has_flag
clear_flag v flag = if has_flag v flag then v - flag else v

-- `set(flag, value)`
unfoldable pub put_flag : ℕ → ℕ → Bool → ℕ
unfolding set_flag clear_flag
put_flag v flag value = if value then set_flag v flag else clear_flag v flag

div-add_self : (v f : ℕ) → 0 < f → (v + f) / f ≡ v / f + 1
div-add_self v f h =
    let below : f ≤ v + f = omega arith in
    let back : v + f - f ≡ v = omega arith in div-eq-sub-div h below ∙ ap (λ n. n / f + 1) back

div-sub_self : (v f : ℕ) → 0 < f → 0 < v / f → (v - f) / f + 1 ≡ v / f
div-sub_self v f h k = sym (div-eq-sub-div h (le_of_div v f h k))
  where
    le_of_div : (v f : ℕ) → 0 < f → 0 < v / f → f ≤ v
    le_of_div v f h k = let le = (le-div_iff_mul-le {k = f} {x = 1} {y = v} h).0 k in omega arith

-- `get` reads what `set` has put into a flag.
pub has_flag-put_flag : (v f : ℕ) (value : Bool) → 0 < f → has_flag (put_flag v f value) f ≡ value
unfolding put_flag has_flag
has_flag-put_flag v f true h = ground (arith, div-add_self v f h)
has_flag-put_flag v f false h = ground (arith, div-sub_self v f h)
