-- ===== src/Eid/Cbhe.antt =====
-- The EIDs of compressed bundle headers, which are two numbers: ibrdtn/ibrdtn/data/EID.cpp.
use ibrdtn.Base.{
  ℕ, ◌^◌, ◌≤◌, ◌<◌, ◌≡◌, inl, inr, refl, ap, Bool, true, false, Option, none, some, List, [], ◌∷◌,
  ◌++◌, arith, ◌==◌, if◌then◌else◌, All, Bool-cases,
}
use ibrdtn.Eid.{
  Eid, eid_none, dot, cbhe_scheme, is_cbhe, is_compressable, ssp_parts, get_host, get_application,
  has_application,
}
use ibrdtn.Eid.Parts.{Without, cut_at-Without}
use ibrdtn.Decimal.{print_number, read_number}
use ibrdtn.Decimal.RoundTrip.{read-print_number, print_number-digits}

-- The constructor from two numbers.
unfoldable pub eid_of_numbers : ℕ → ℕ → Eid
eid_of_numbers node app =
    if node == 0
    then eid_none
    else record { scheme = cbhe_scheme; ssp = print_number node ++ (dot ∷ print_number app) }

-- `getCompressed`; `none` is the exception that the accessors throw.
number_of : Bool → Option (List ℕ) → Option ℕ
number_of true none = none
number_of true (some s) = some (read_number s)
number_of false o = some 0

both : Option ℕ → Option ℕ → Option (ℕ × ℕ)
both none b = none
both (some a) none = none
both (some a) (some b) = some (a, b)

pub get_compressed : Eid → Option (ℕ × ℕ)
unfolding number_of both
get_compressed e =
    if is_compressable e
    then elim (has_application e) [
      | none ↦ none
      | some has ↦ both (number_of true (get_host e)) (number_of has (get_application e))
    ]
    else some (0, 0)

no_dot : (s : List ℕ) → All (λ c. b'0' ≤ c) s → Without dot s
no_dot [] h = tt
no_dot (c ∷ s) h = (λ e. absurd (omega (arith, e, h.0)), no_dot s h.1)

cbhe_parts :
    (a b : List ℕ)
    → Without dot a
    → ssp_parts (record { scheme = cbhe_scheme; ssp = a ++ (dot ∷ b) }) ≡ some (a, some b)
unfolding ssp_parts
cbhe_parts a b h = rw (cut_at-Without dot a b h) refl

-- The three accessors from the parts.
accessors :
    (e : Eid) (a b : List ℕ)
    → is_cbhe e ≡ true
    → ssp_parts e ≡ some (a, some b)
    → (get_host e ≡ some a) × (get_application e ≡ some b) × (has_application e ≡ some true)
unfolding get_host get_application has_application
accessors e a b c h =
    (rw (get_host, h) refl, rw (get_application, h) (rw c refl), rw (has_application, h) refl)

get_compressed-cbhe :
    (a b : List ℕ)
    → Without dot a
    → get_compressed (record { scheme = cbhe_scheme; ssp = a ++ (dot ∷ b) })
      ≡ some (read_number a, read_number b)
get_compressed-cbhe a b h =
    let (host, app, has) =
      accessors (record { scheme = cbhe_scheme; ssp = a ++ (dot ∷ b) }) a b (unfold is_cbhe in refl)
        (cbhe_parts a b h) in
    by_accessors (record { scheme = cbhe_scheme; ssp = a ++ (dot ∷ b) }) a b
      (unfold is_compressable in refl) host app has
  where
    by_accessors :
        (e : Eid) (a b : List ℕ)
        → is_compressable e ≡ true
        → get_host e ≡ some a
        → get_application e ≡ some b
        → has_application e ≡ some true
        → get_compressed e ≡ some (read_number a, read_number b)
    by_accessors e a b c host app has = unfold get_compressed in rw (c, has) (rw (host, app) refl)

none_number : get_compressed eid_none ≡ some (0, 0)
unfolding get_compressed get_host has_application is_compressable read_number
none_number = refl

-- An EID that is made of two 64-bit numbers gives them back, the node 0 with the application 0.
pub get_compressed-eid_of_numbers :
    (node app : ℕ)
    → node < 2 ^ 64
    → app < 2 ^ 64
    → get_compressed (eid_of_numbers node app) ≡ some (node, if node == 0 then 0 else app)
unfolding eid_of_numbers
get_compressed-eid_of_numbers node app hn ha = elim (Bool-cases (node == 0)) [
  | inl e ↦ rw (e, none_number) (ap (λ n. some (n, 0)) (ground arith))
  | inr e ↦
      rw
        (
          e,
          get_compressed-cbhe (print_number node) (print_number app)
              (no_dot (print_number node) (print_number-digits node)),
          read-print_number node hn,
          read-print_number app ha,
        )
        refl
]

pub is_compressable-eid_of_numbers :
    (node app : ℕ) → is_compressable (eid_of_numbers node app) ≡ true
unfolding eid_of_numbers
is_compressable-eid_of_numbers node app = elim (Bool-cases (node == 0)) [
  | inl e ↦ rw e (unfold is_compressable in refl)
  | inr e ↦ rw e (unfold is_compressable in refl)
]
