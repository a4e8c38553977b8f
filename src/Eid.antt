-- ===== src/Eid.antt =====
-- ibrdtn/ibrdtn/data/EID.h and EID.cpp: endpoint identifiers, and the trimming of
-- ibrdtn/ibrdtn/utils/Utils.cpp. A std::string is the list of its bytes, and what the sources find
-- as a position and cut by `substr` is here the pair of texts before and behind it.
pub mod Parts
pub mod Parse
pub mod Order
pub mod Cbhe
use ibrdtn.Base.{
  ℕ, zero, suc, ◌+◌, ◌-◌, ◌*◌, ◌/◌, ◌%◌, ◌^◌, ◌≤◌, ◌<◌, ◌≡◌, ◌≢◌, ◌⊎◌, inl, inr, refl, sym, ap, ◌∙◌,
  Bool, true, false, not, ◌&&◌, ◌||◌, Option, none, some, List, [], ◌∷◌, ◌++◌, arith, length, ltb,
  leb, ◌==◌, if◌then◌else◌, Result, ok, err, invalid_data, invalid_protocol, short_read, overrun,
  get_byte, ◌>>=◌, >>=-eq-ok, length-append, All, All-append, Bool-cases, Option-cases, map,
}

abbrev pub colon : ℕ
colon = b':'

abbrev pub slash : ℕ
slash = b'/'

abbrev pub dot : ℕ
dot = b'.'

-- DEFAULT_SCHEME "dtn", CBHE_SCHEME "ipn" and the text "none".
abbrev pub default_scheme : List ℕ
default_scheme = b'd' ∷ b't' ∷ b'n' ∷ []

abbrev pub cbhe_scheme : List ℕ
cbhe_scheme = b'i' ∷ b'p' ∷ b'n' ∷ []

abbrev pub text_none : List ℕ
text_none = b'n' ∷ b'o' ∷ b'n' ∷ b'e' ∷ []

abbrev pub is_empty {ℓ} : {A : Type ℓ} → List A → Bool
is_empty [] = true
is_empty (x ∷ xs) = false

-- Equality of strings.
unfoldable pub text_eq : List ℕ → List ℕ → Bool
text_eq [] [] = true
text_eq [] (y ∷ ys) = false
text_eq (x ∷ xs) [] = false
text_eq (x ∷ xs) (y ∷ ys) = x == y && text_eq xs ys

-- `operator<` of strings.
pub text_lt : List ℕ → List ℕ → Bool
text_lt [] [] = false
text_lt [] (y ∷ ys) = true
text_lt (x ∷ xs) [] = false
text_lt (x ∷ xs) (y ∷ ys) = ltb x y || (x == y && text_lt xs ys)

-- A blank of " \t".
abbrev pub is_blank : ℕ → Bool
is_blank c = c == 32 || c == 9

pub skip_blanks : List ℕ → List ℕ
skip_blanks [] = []
skip_blanks (c ∷ s) = let rest = skip_blanks s in if is_blank c then rest else c ∷ s

pub drop_last_blanks : List ℕ → List ℕ
drop_last_blanks [] = []
drop_last_blanks (c ∷ s) =
    let rest = drop_last_blanks s in if is_empty rest && is_blank c then [] else c ∷ rest

-- A text of blanks alone has no first and no last other character, and stays.
pub ltrim : List ℕ → List ℕ
unfolding skip_blanks
ltrim s = if is_empty (skip_blanks s) then s else skip_blanks s

pub rtrim : List ℕ → List ℕ
unfolding drop_last_blanks
rtrim s = if is_empty (drop_last_blanks s) then s else drop_last_blanks s

unfoldable pub trim : List ℕ → List ℕ
unfolding ltrim rtrim
trim s = rtrim (ltrim s)

-- `find_first_of(c)` and the texts before and behind that character; `none` is npos.
pub cut_at : ℕ → List ℕ → Option (List ℕ × List ℕ)
cut_at c [] = none
cut_at c (x ∷ s) =
    let rest = cut_at c s in
    if x == c then some ([], s) else elim rest [ none ↦ none | some (a, b) ↦ some (x ∷ a, b) ]

-- `find_first_not_of(c)`: the text before it and the text from it on.
pub leading : ℕ → List ℕ → List ℕ × List ℕ
leading c [] = ([], [])
leading c (x ∷ s) = let rest = leading c s in if x == c then (x ∷ rest.0, rest.1) else ([], x ∷ s)

pub record Eid : Type 0 where
  pub scheme : List ℕ
  pub ssp : List ℕ

abbrev pub eid_none : Eid
eid_none = record { scheme = default_scheme; ssp = text_none }

unfoldable pub eid_of_parts : List ℕ → List ℕ → Eid
unfolding trim
eid_of_parts scheme ssp = record { scheme = trim scheme; ssp = trim ssp }

-- A text with no delimiter makes the default EID.
eid_of_cut : Option (List ℕ × List ℕ) → Eid
eid_of_cut none = eid_none
eid_of_cut (some (scheme, ssp)) = record { scheme = scheme; ssp = ssp }

pub eid_of_text : List ℕ → Eid
unfolding trim cut_at eid_of_cut
eid_of_text value = eid_of_cut (cut_at colon (trim value))

unfoldable pub eid_eq : Eid → Eid → Bool
unfolding text_eq
eid_eq a b = text_eq a.ssp b.ssp && text_eq a.scheme b.scheme

unfoldable pub get_string : Eid → List ℕ
get_string e = e.scheme ++ (colon ∷ e.ssp)

pub eid_lt : Eid → Eid → Bool
unfolding text_lt get_string
eid_lt a b = text_lt (get_string a) (get_string b)

unfoldable pub is_cbhe : Eid → Bool
unfolding text_eq
is_cbhe e = text_eq e.scheme cbhe_scheme

-- The text of the SSP up to the delimiter of the application part, and the text behind that
-- delimiter. `none` is the exception "wrong eid format" of an SSP of slashes alone.
unfoldable ssp_parts : Eid → Option (List ℕ × Option (List ℕ))
unfolding is_cbhe cut_at leading
ssp_parts e =
    if is_cbhe e
    then elim (cut_at dot e.ssp) [ none ↦ some (e.ssp, none) | some (a, b) ↦ some (a, some b) ]
    else if is_empty (leading slash e.ssp).1
    then none
    else elim (cut_at slash (leading slash e.ssp).1) [
      | none ↦ some (e.ssp, none)
      | some (a, b) ↦ some ((leading slash e.ssp).0 ++ a, some b)
    ]

unfoldable pub get_host : Eid → Option (List ℕ)
unfolding ssp_parts
get_host e = elim (ssp_parts e) [ none ↦ none | some (host, app) ↦ some host ]

-- The application part keeps its slash, but not its dot.
unfoldable pub get_application : Eid → Option (List ℕ)
unfolding ssp_parts
get_application e = elim (ssp_parts e) [
  | none ↦ none
  | some (host, none) ↦ some []
  | some (host, some app) ↦ some (if is_cbhe e then app else slash ∷ app)
]

unfoldable pub has_application : Eid → Option Bool
unfolding ssp_parts
has_application e = elim (ssp_parts e) [
  | none ↦ none
  | some (host, none) ↦ some false
  | some (host, some app) ↦ some true
]

pub get_node : Eid → Option Eid
unfolding get_host eid_of_text
get_node e = elim (get_host e) [
  | none ↦ none
  | some host ↦ some (eid_of_text (e.scheme ++ (colon ∷ host)))
]

pub same_host : Eid → Eid → Option Bool
unfolding get_node eid_eq
same_host e other = elim (get_node e) [
  | none ↦ none
  | some mine ↦ elim (get_node other) [ none ↦ none | some its ↦ some (eid_eq its mine) ]
]

pub is_none_eid : Eid → Bool
unfolding text_eq
is_none_eid e = text_eq e.scheme default_scheme && text_eq e.ssp text_none

unfoldable pub is_compressable : Eid → Bool
unfolding is_none_eid is_cbhe
is_compressable e = is_none_eid e || is_cbhe e
