-- ===== src/Dictionary.antt =====
-- ibrdtn/ibrdtn/data/Dictionary.h and Dictionary.cpp: the texts of a bundle's EIDs, each with a NUL
-- behind it, and the reading of EIDs by the positions of their texts.
pub mod Entries
pub mod Round
pub mod References
use ibrdtn.Base.{
  ℕ, zero, suc, ◌+◌, ◌-◌, ◌*◌, ◌/◌, ◌%◌, ◌^◌, ◌≤◌, ◌<◌, ◌≡◌, ◌≢◌, ◌⊎◌, inl, inr, refl, sym, ap, ◌∙◌,
  Bool, true, false, not, ◌&&◌, ◌||◌, Option, none, some, List, [], ◌∷◌, ◌++◌, arith, length, ltb,
  leb, ◌==◌, if◌then◌else◌, Result, ok, err, invalid_data, invalid_protocol, short_read, overrun,
  get_byte, read_bytes, read_bytes-append, ◌>>=◌, >>=-eq-ok, length-append, All, All-append, subst,
  Bool-cases, Trichotomy, below, level, above, trichotomy, Option-cases, map,
}
use ibrdtn.Eid.{Eid, text_eq, eid_of_parts, is_empty}
use ibrdtn.Sdnv.Stream.{write_sdnv, read_sdnv}

-- The bytes of `_bytestream`, its read position, and whether its failbit is set, after which it
-- reads and writes nothing. (The model leaves the eofbit out: a read sets it only at a text that no
-- NUL ends, and the next `seekg` clears it.)
pub record Dictionary : Type 0 where
  pub bytes : List ℕ
  pub position : ℕ
  pub failed : Bool

abbrev pub empty_dictionary : Dictionary
empty_dictionary = record { bytes = []; position = 0; failed = false }

-- `std::string(bytepos)`: up to the next NUL, or up to the NUL that `c_str()` has behind the bytes.
pub c_string : List ℕ → List ℕ
c_string [] = []
c_string (c ∷ s) = let rest = c_string s in if c == 0 then [] else c ∷ rest

-- `bytepos += dictstr.length() + 1`; nothing is left where that passes `byteend`.
pub behind : List ℕ → Option (List ℕ)
behind [] = none
behind (c ∷ s) = let rest = behind s in if c == 0 then some s else rest

-- The loop of `get`, from the position `pos` on, where `s` stands. It also visits the empty text
-- behind the last NUL. Each round passes a NUL, so `length s + 1` rounds are enough.
pub get_loop : ℕ → List ℕ → ℕ → List ℕ → Option ℕ
unfolding c_string behind
get_loop zero s pos value = none
get_loop (suc fuel) s pos value =
    let next : Option ℕ = elim (behind s) [
      | none ↦ none
      | some rest ↦ get_loop fuel rest (pos + length (c_string s) + 1) value
    ] in
    if text_eq (c_string s) value then some pos else next

-- `get(value)`; `none` is npos.
pub find_text : Dictionary → List ℕ → Option ℕ
unfolding get_loop
find_text d value = if is_empty d.bytes then none else get_loop (length d.bytes + 1) d.bytes 0 value

-- The loop of `exists`, which ends at the end of the bytes.
exists_loop : ℕ → List ℕ → List ℕ → Bool
unfolding c_string behind
exists_loop zero s value = false
exists_loop (suc fuel) s value =
    let next : Bool = elim (behind s) [ none ↦ false | some rest ↦ exists_loop fuel rest value ] in
    if is_empty s then false else if text_eq (c_string s) value then true else next

pub exists : Dictionary → List ℕ → Bool
unfolding exists_loop
exists d value = exists_loop (length d.bytes + 1) d.bytes value

pub add_text : Dictionary → List ℕ → Dictionary
unfolding exists
add_text d value =
    if exists d value || d.failed then d else record d { bytes = d.bytes ++ (value ++ (0 ∷ [])) }

pub add_eid : Dictionary → Eid → Dictionary
unfolding add_text
add_eid d e = add_text (add_text d e.scheme) e.ssp

pub add_eids : Dictionary → List Eid → Dictionary
unfolding add_eid
add_eids d [] = d
add_eids d (e ∷ es) = add_eids (add_eid d e) es

-- `seekg(pos)`
abbrev pub seek : ℕ → List ℕ → Option (List ℕ)
seek zero s = some s
seek (suc n) [] = none
seek (suc n) (c ∷ s) = seek n s

-- `get(buffer, 1024, '\0')`: at most `room` characters up to a NUL.
pub take_chars : ℕ → List ℕ → List ℕ
take_chars zero s = []
take_chars (suc room) [] = []
take_chars (suc room) (c ∷ s) = let rest = take_chars room s in if c == 0 then [] else c ∷ rest

-- A read that takes no character sets the failbit, and so does a position behind the end.
pub read_at : Dictionary → ℕ → List ℕ × Dictionary
unfolding take_chars
read_at d pos = if d.failed then ([], d) else elim (seek pos d.bytes) [
  | none ↦ ([], record d { failed = true })
  | some s ↦ (
    take_chars 1023 s,
    record d { position = pos + length (take_chars 1023 s); failed = is_empty (take_chars 1023 s) },
  )
]

-- `get(scheme, ssp)`
pub get_eid : Dictionary → ℕ → ℕ → Eid × Dictionary
get_eid d scheme ssp =
    let (a, d1) = read_at d scheme in let (b, d2) = read_at d1 ssp in (eid_of_parts a b, d2)

-- `clear`: `str("")` also resets the position, but not the failbit.
pub clear_dictionary : Dictionary → Dictionary
clear_dictionary d = record d { bytes = []; position = 0 }

-- What `<< rdbuf()` takes out of a stream: the bytes from the read position on, which moves to
-- the end.
unread : Dictionary → List ℕ
unread d = elim (seek d.position d.bytes) [ none ↦ [] | some s ↦ s ]

pub drained : Dictionary → Dictionary
drained d = record d { position = length d.bytes }

-- `operator=`: the copy and the dictionary copied. `<< rdbuf()` that inserts nothing sets the
-- failbit of the copy.
pub copy_dictionary : Dictionary → Dictionary × Dictionary
unfolding unread drained
copy_dictionary d =
    (record { bytes = unread d; position = 0; failed = is_empty (unread d) }, drained d)

-- `getRef`; npos is 2 ^ 64 - 1.
pub npos : ℕ
npos = 2 ^ 64 - 1

or_npos : Option ℕ → ℕ
unfolding npos
or_npos none = npos
or_npos (some p) = p

pub get_ref : Dictionary → Eid → ℕ × ℕ
unfolding or_npos
get_ref d e = (or_npos (find_text d e.scheme), or_npos (find_text d e.ssp))

unfoldable pub dictionary_size : Dictionary → ℕ
dictionary_size d = length d.bytes

-- The length counts all bytes; the bytes come from the read position on.
pub write_dictionary : Dictionary → Result (List ℕ × Dictionary)
unfolding unread drained
write_dictionary d = do len ← write_sdnv (length d.bytes); ok (len ++ unread d, drained d)

-- `operator>>` replaces the bytes, and refuses an empty dictionary.
pub read_dictionary : Dictionary → List ℕ → Result (Dictionary × List ℕ)
read_dictionary d s = read_sdnv s >>= λ r.
    if r.0 == 0
    then err invalid_data
    else (read_bytes r.0 r.1 >>= λ t.
        ok (record d { bytes = if d.failed then [] else t.0; position = 0 }, t.1))
