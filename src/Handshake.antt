-- ===== src/Handshake.antt =====
-- daemon/src/routing/NodeHandshake.h and NodeHandshake.cpp, with the stream operators of
-- daemon/src/routing/SummaryVector.cpp and the two handlers of
-- daemon/src/routing/NodeHandshakeExtension.cpp: what two neighbours tell each other about the
-- bundles that they have and have had.
-- A summary vector is in a stream the table of its Bloom filter, a list of bytes. `std::map` is a
-- list of pairs, and the copy of an item into its string stream takes the bytes it is told to take.
pub mod Requests
pub mod Round
use ibrdtn.Base.{
  ℕ, zero, suc, ◌+◌, ◌-◌, ◌*◌, ◌/◌, ◌%◌, ◌^◌, ◌≤◌, ◌<◌, ◌≡◌, ◌≢◌, ◌⊎◌, inl, inr, refl, sym, ap, ◌∙◌,
  Bool, true, false, not, ◌&&◌, ◌||◌, Option, none, some, List, [], ◌∷◌, ◌++◌, arith, length, ltb,
  leb, ◌==◌, if◌then◌else◌, Result, ok, err, invalid_data, invalid_protocol, rejected, wrong_eid,
  aborted, unsent, short_read, overrun, get_byte, read_bytes, read_bytes-append, ◌>>=◌, >>=-eq-ok,
  length-append, All, All-append, subst, Bool-cases, Trichotomy, below, level, above, trichotomy,
  Option-cases, Result-cases, map, ltb→lt,
}
use mathlib.Core.Option
use ibrdtn.Base.Sets.{insert, contains}
use ibrdtn.Sdnv.{encoding_len}
use ibrdtn.Sdnv.Stream.{write_sdnv, read_sdnv}

-- `stream << vector`, `stream >> vector` and `getLength`.
unfoldable pub write_vector : List ℕ → Result (List ℕ)
write_vector table = do count ← write_sdnv (length table); ok (count ++ table)

unfoldable pub read_vector : List ℕ → Result (List ℕ × List ℕ)
read_vector s = do (count, s) ← read_sdnv s; read_bytes count s

unfoldable pub vector_length : List ℕ → Result ℕ
vector_length table = do n ← encoding_len (length table); ok (n + length table)

-- The classes of items.
pub data ItemClass : Type 0 where
  summary_vector purge_vector : ItemClass

unfoldable pub identifier : ItemClass → ℕ
identifier summary_vector = 1
identifier purge_vector = 1

pub record Item : Type 0 where
  pub class : ItemClass
  pub table : List ℕ

abbrev pub handshake_request : ℕ
handshake_request = 1

abbrev pub handshake_response : ℕ
handshake_response = 2

pub record NodeHandshake : Type 0 where
  pub type : ℕ
  pub lifetime : ℕ
  pub requests : List ℕ
  pub items : List Item
  pub raw_items : List (ℕ × List ℕ)

-- The constructors. The plain one leaves the lifetime as it is in memory.
unfoldable pub new_handshake : ℕ → ℕ → NodeHandshake
new_handshake type lifetime = record {
  type = type;
  lifetime = lifetime;
  requests = [];
  items = [];
  raw_items = [];
}

unfoldable pub add_request : NodeHandshake → ℕ → NodeHandshake
unfolding insert
add_request hs id = record hs { requests = insert ltb id hs.requests }

unfoldable pub has_request : NodeHandshake → ℕ → Bool
unfolding contains
has_request hs id = contains ltb id hs.requests

unfoldable pub add_item : NodeHandshake → Item → NodeHandshake
add_item hs item = record hs { items = hs.items ++ (item ∷ []) }

item_of : List Item → ℕ → Option Item
unfolding identifier
item_of [] id = none
item_of (item ∷ items) id =
    let rest = item_of items id in if identifier item.class == id then some item else rest

unfoldable pub get_item : NodeHandshake → ℕ → Option Item
unfolding item_of
get_item hs id = item_of hs.items id

-- `getItem` says with NULL what `hasItem` says.
pub has_item : NodeHandshake → ℕ → Bool
unfolding get_item
has_item hs id = elim (get_item hs id) [ none ↦ false | some item ↦ true ]

-- `_raw_items[id] = data`, `find` and `erase`.
unfoldable pub put_raw : ℕ → List ℕ → List (ℕ × List ℕ) → List (ℕ × List ℕ)
put_raw id bytes [] = (id, bytes) ∷ []
put_raw id bytes (r ∷ raws) =
    let rest = put_raw id bytes raws in if r.0 == id then (id, bytes) ∷ raws else r ∷ rest

unfoldable pub find_raw : ℕ → List (ℕ × List ℕ) → Option (List ℕ)
find_raw id [] = none
find_raw id (r ∷ raws) = let rest = find_raw id raws in if r.0 == id then some r.1 else rest

unfoldable pub erase_raw : ℕ → List (ℕ × List ℕ) → List (ℕ × List ℕ)
erase_raw id [] = []
erase_raw id (r ∷ raws) = let rest = erase_raw id raws in if r.0 == id then raws else r ∷ rest

write_ids : List ℕ → Result (List ℕ)
write_ids [] = ok []
write_ids (id ∷ ids) = do first ← write_sdnv id; rest ← write_ids ids; ok (first ++ rest)

write_items : List Item → Result (List ℕ)
unfolding identifier write_vector vector_length
write_items [] = ok []
write_items (item ∷ items) = do
  id ← write_sdnv (identifier item.class)
  n ← vector_length item.table
  len ← write_sdnv n
  bytes ← write_vector item.table
  rest ← write_items items
  ok (id ++ (len ++ (bytes ++ rest)))

-- `operator<<`, behind the type.
unfoldable pub write_message : NodeHandshake → Result (List ℕ)
unfolding write_ids write_items
write_message hs =
    if hs.type == handshake_request
    then (do
      number ← write_sdnv (length hs.requests)
      ids ← write_ids hs.requests
      ok (number ++ ids))
    else if hs.type == handshake_response
    then (do
      lifetime ← write_sdnv hs.lifetime
      number ← write_sdnv (length hs.items)
      items ← write_items hs.items
      ok (lifetime ++ (number ++ items)))
    else ok []

unfoldable pub write_handshake : NodeHandshake → Result (List ℕ)
unfolding write_message
write_handshake hs = do type ← write_sdnv hs.type; rest ← write_message hs; ok (type ++ rest)

-- The two loops of `operator>>`, for as many rounds as the number before says.
read_requests : ℕ → NodeHandshake → List ℕ → Result (NodeHandshake × List ℕ)
unfolding add_request
read_requests zero hs s = ok (hs, s)
read_requests (suc n) hs s = do (id, s) ← read_sdnv s; read_requests n (add_request hs id) s

read_items : ℕ → NodeHandshake → List ℕ → Result (NodeHandshake × List ℕ)
unfolding put_raw
read_items zero hs s = ok (hs, s)
read_items (suc n) hs s = do
  (id, s) ← read_sdnv s
  (len, s) ← read_sdnv s
  (bytes, s) ← read_bytes len s
  read_items n (record hs { raw_items = put_raw id bytes hs.raw_items }) s

unfoldable pub read_message : NodeHandshake → List ℕ → Result (NodeHandshake × List ℕ)
unfolding read_requests read_items
read_message hs s =
    if hs.type == handshake_request
    then (do (n, s) ← read_sdnv s; read_requests n hs s)
    else if hs.type == handshake_response
    then (do
      (lifetime, s) ← read_sdnv s
      (n, s) ← read_sdnv s
      read_items n (record hs { lifetime = lifetime }) s)
    else ok (hs, s)

unfoldable pub read_handshake : NodeHandshake → List ℕ → Result (NodeHandshake × List ℕ)
unfolding read_message
read_handshake hs s = do (type, s) ← read_sdnv s; read_message (record hs { type = type }) s

abbrev same_class : ItemClass → ItemClass → Bool
same_class summary_vector summary_vector = true
same_class summary_vector purge_vector = false
same_class purge_vector summary_vector = false
same_class purge_vector purge_vector = true

-- `get<T>`: the handshake afterwards and the vector, or an exception: no such item, one that cannot
-- be read, or std::bad_cast for an item of another class.
unfoldable pub get : ItemClass → NodeHandshake → Option (NodeHandshake × List ℕ)
unfolding get_item identifier find_raw erase_raw
get class hs = elim (get_item hs (identifier class)) [
  | some item ↦ if same_class item.class class then some (hs, item.table) else none
  | none ↦ elim (find_raw (identifier class) hs.raw_items) [
    | none ↦ none
    | some bytes ↦ elim (read_vector bytes) [
      | err e ↦ none
      | ok (table, rest) ↦ some (
        record hs {
          items = hs.items ++ (record { class = class; table = table } ∷ []);
          raw_items = erase_raw (identifier class) hs.raw_items;
        },
        table,
      )
    ]
  ]
]

-- `responseHandshake` of a node with a summary of its bundles and one of its purged bundles.
unfoldable pub response_handshake : List ℕ → List ℕ → NodeHandshake → NodeHandshake → NodeHandshake
unfolding has_request add_item identifier
response_handshake summary purged request answer =
    let answer =
      if has_request request (identifier summary_vector)
      then add_item answer (record { class = summary_vector; table = summary })
      else answer in
    if has_request request (identifier purge_vector)
    then add_item answer (record { class = summary_vector; table = purged })
    else answer

-- What a call of `get<T>` leaves.
left_by : NodeHandshake → Option (NodeHandshake × List ℕ) → NodeHandshake
left_by hs none = hs
left_by hs (some r) = r.0

-- `processHandshake`: the filter that the neighbour's entry gets, and the one that the storage is
-- purged by. The handler catches both exceptions.
unfoldable pub process_handshake : NodeHandshake → Option (List ℕ) × Option (List ℕ)
unfolding get left_by
process_handshake answer =
    let first = get summary_vector answer in
    let second = get purge_vector (left_by answer first) in
    (Option.map (λ r. r.1) first, Option.map (λ r. r.1) second)
