-- ===== src/Primary.antt =====
-- The primary block in a stream: `operator<<` and `operator>>` of
-- ibrdtn/ibrdtn/data/Serializer.cpp.
pub mod Numbers
pub mod Header
pub mod Round
pub mod Named
pub mod Meta
use ibrdtn.Base.{
  wrong_eid, ℕ, zero, suc, ◌+◌, ◌-◌, ◌*◌, ◌/◌, ◌%◌, ◌^◌, ◌≤◌, ◌<◌, ◌≡◌, ◌≢◌, ◌⊎◌, inl, inr, refl,
  sym, ap, ◌∙◌, Bool, true, false, not, ◌&&◌, ◌||◌, Option, none, some, List, [], ◌∷◌, ◌++◌, arith,
  length, ltb, leb, ◌==◌, if◌then◌else◌, Result, ok, err, invalid_data, invalid_protocol, rejected,
  short_read, overrun, get_byte, read_bytes, read_bytes-append, ◌>>=◌, >>=-eq-ok, length-append,
  All, All-append, subst, Bool-cases, Trichotomy, below, level, above, trichotomy, Option-cases,
  map,
}
use ibrdtn.Sdnv.{encoding_len, decode}
use ibrdtn.Sdnv.Stream.{write_sdnv, read_sdnv, collect, value_of}
use ibrdtn.Eid.{Eid}
use ibrdtn.Eid.Cbhe.{eid_of_numbers, get_compressed}
use ibrdtn.Dictionary.{Dictionary, get_ref, get_eid, dictionary_size, write_dictionary}
use ibrdtn.Fields.{write_if, length_if, read_if, Span, write_span, span_length, read_span}
use ibrdtn.PrimaryBlock.{PrimaryBlock, is_fragment}
use ibrdtn.Flags.{has_flag}

abbrev pub bundle_version : ℕ
bundle_version = 6

-- The reference to an EID, in a compressed header or over the dictionary.
unfoldable pub reference : Bool → Dictionary → Eid → Result (ℕ × ℕ)
reference false d e = ok (get_ref d e)
reference true d e = elim (get_compressed e) [ none ↦ err wrong_eid | some r ↦ ok r ]

-- SDNVs one behind the other.
pub write_numbers : List ℕ → Result (List ℕ)
write_numbers [] = ok []
write_numbers (x ∷ xs) = do a ← write_sdnv x; b ← write_numbers xs; ok (a ++ b)

pub numbers_length : List ℕ → Result ℕ
numbers_length [] = ok 0
numbers_length (x ∷ xs) = do a ← encoding_len x; b ← numbers_length xs; ok (a + b)

-- The eleven numbers of `primaryheader` before the size of the dictionary.
unfoldable pub header_numbers : Bool → Dictionary → PrimaryBlock → Result (List ℕ)
unfolding reference
header_numbers c d b = do
  to ← reference c d b.destination
  from ← reference c d b.source
  report ← reference c d b.reportto
  keeper ← reference c d b.custodian
  ok (
      to.0 ∷ to.1 ∷ from.0 ∷ from.1 ∷ report.0 ∷ report.1 ∷ keeper.0 ∷ keeper.1 ∷ b.timestamp
      ∷ b.sequencenumber ∷ b.lifetime ∷ [])

abbrev pub span_of : PrimaryBlock → Span
span_of b = record { offset = b.fragmentoffset; size = b.appdatalength }

-- The size of the dictionary in the stream, zero for a compressed header.
unfoldable pub written_size : Bool → Dictionary → ℕ
written_size c d = if c then 0 else dictionary_size d

-- The bytes of the dictionary, or of its size alone, and the dictionary afterwards.
pub write_names : Bool → Dictionary → Result (List ℕ × Dictionary)
write_names true d = write_sdnv 0 >>= λ z. ok (z, d)
write_names false d = write_dictionary d

-- `operator<<` of a primary block, with `_compressable` and `_dictionary`.
pub write_primary : Bool → Dictionary → PrimaryBlock → Result (List ℕ × Dictionary)
unfolding header_numbers write_numbers numbers_length written_size write_names
write_primary c d b = do
  flags ← write_sdnv b.procflags
  numbers ← header_numbers c d b
  n ← numbers_length (numbers ++ (written_size c d ∷ []))
  f ← length_if (is_fragment b) (span_length (span_of b))
  len ← write_sdnv ((written_size c d + n + f) % 2 ^ 64)
  header ← write_numbers numbers
  (names, d) ← write_names c d
  span ← write_if (is_fragment b) (write_span (span_of b))
  ok (bundle_version ∷ (flags ++ (len ++ (header ++ (names ++ span)))), d)

-- The size of the dictionary, where what `decode` refuses and what is zero makes a compressed
-- header; the stream has moved on behind the number in each case.
pub named : List ℕ → Result (Option (ℕ × ℕ)) → Result (Option ℕ × List ℕ)
named s (ok o) = ok (if value_of o == 0 then none else some (value_of o), s)
named s (err invalid_data) = ok (none, s)
named s (err e) = err e

pub read_size : List ℕ → Result (Option ℕ × List ℕ)
unfolding named
read_size s = collect 10 s >>= λ r. named r.1 (decode r.0)

-- `_stream >> _dictionary` inside the `try`.
pub read_names : Dictionary → List ℕ → Result (Option Dictionary × List ℕ)
unfolding read_size
read_names d s = read_size s >>= λ r. elim r.0 [
  | none ↦ ok (none, r.1)
  | some n ↦
      (read_bytes n r.1 >>= λ t.
      ok (some (record d { bytes = if d.failed then [] else t.0; position = 0 }), t.1))
]

-- The four EIDs from their references, whether the header is compressed, and the dictionary.
pub record Names : Type 0 where
  pub destination : Eid
  pub source : Eid
  pub reportto : Eid
  pub custodian : Eid
  pub compressed : Bool
  pub dictionary : Dictionary

pub names_of : Dictionary → Option Dictionary → ℕ × ℕ → ℕ × ℕ → ℕ × ℕ → ℕ × ℕ → Names
names_of old none r0 r1 r2 r3 = record {
  destination = eid_of_numbers r0.0 r0.1;
  source = eid_of_numbers r1.0 r1.1;
  reportto = eid_of_numbers r2.0 r2.1;
  custodian = eid_of_numbers r3.0 r3.1;
  compressed = true;
  dictionary = old;
}
names_of old (some d) r0 r1 r2 r3 =
    let (e0, d0) = get_eid d r0.0 r0.1 in
    let (e1, d1) = get_eid d0 r1.0 r1.1 in
    let (e2, d2) = get_eid d1 r2.0 r2.1 in
    let (e3, d3) = get_eid d2 r3.0 r3.1 in
    record {
      destination = e0;
      source = e1;
      reportto = e2;
      custodian = e3;
      compressed = false;
      dictionary = d3;
    }

unfoldable pub read_pair : List ℕ → Result ((ℕ × ℕ) × List ℕ)
read_pair s = do (a, s) ← read_sdnv s; (b, s) ← read_sdnv s; ok ((a, b), s)

-- Behind the version.
read_behind_version :
    (PrimaryBlock → Bool)
    → Dictionary
    → PrimaryBlock
    → List ℕ
    → Result (PrimaryBlock × Names × List ℕ)
unfolding read_pair read_names names_of
read_behind_version valid d old s = do
  (flags, s) ← read_sdnv s
  (blocklength, s) ← read_sdnv s
  (r0, s) ← read_pair s
  (r1, s) ← read_pair s
  (r2, s) ← read_pair s
  (r3, s) ← read_pair s
  (timestamp, s) ← read_sdnv s
  (sequence, s) ← read_sdnv s
  (lifetime, s) ← read_sdnv s
  (o, s) ← read_names d s
  (span, s) ← read_if (has_flag flags 1) (span_of old) read_span s
  let n = names_of d o r0 r1 r2 r3
  let b : PrimaryBlock = record {
    procflags = flags;
    timestamp = timestamp;
    sequencenumber = sequence;
    lifetime = lifetime;
    fragmentoffset = span.offset;
    appdatalength = span.size;
    source = n.source;
    destination = n.destination;
    reportto = n.reportto;
    custodian = n.custodian;
  }
  if valid b then ok (b, n, s) else err rejected

-- `operator>>` of a primary block into one that exists. `valid` is the validator.
pub read_primary :
    (PrimaryBlock → Bool)
    → Dictionary
    → PrimaryBlock
    → List ℕ
    → Result (PrimaryBlock × Names × List ℕ)
unfolding read_behind_version
read_primary valid d old s = get_byte s >>= λ v.
    if v.0 == bundle_version then read_behind_version valid d old v.1 else err invalid_protocol
