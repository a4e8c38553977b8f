-- ===== src/Handshake/Round.antt =====
-- Responses of a handshake through a stream, and what a neighbour makes of one: NodeHandshake.cpp
-- and NodeHandshakeExtension.cpp.
use ibrdtn.Base.{
  ℕ, ◌^◌, ◌<◌, ◌≡◌, refl, sym, ap, ◌∙◌, none, some, List, [], ◌∷◌, ◌++◌, arith, length, ok,
  read_bytes-append, length-append, All,
}
use mathlib.Core.List.{append_assoc, append-nil}
use ibrdtn.Base.Sets.{insert, contains}
use ibrdtn.Sdnv.{IsU64}
use ibrdtn.Sdnv.Encode.{sdnv_bytes, length-sdnv_bytes, group_count_bounds, encoding_len-eq}
use ibrdtn.Sdnv.Stream.{write_sdnv-eq, read_sdnv-sdnv_bytes}
use ibrdtn.Handshake.{
  write_vector, read_vector, vector_length, ItemClass, summary_vector, purge_vector, identifier,
  Item, NodeHandshake, new_handshake, handshake_request, handshake_response, add_request,
  has_request, add_item, put_raw, write_items, write_message, write_handshake, read_items,
  read_message, read_handshake, get, response_handshake, process_handshake, item_of, get_item,
  find_raw, left_by,
}

-- A vector in a stream.
abbrev pub vector_bytes : List ℕ → List ℕ
vector_bytes table = sdnv_bytes (length table) ++ table

abbrev pub IsShort : List ℕ → Type 0
IsShort table = length table < 2 ^ 63

length-vector_bytes : (table : List ℕ) → IsShort table → IsU64 (length (vector_bytes table))
length-vector_bytes table h =
    let n = length table in
    omega (
      arith,
      length-append (sdnv_bytes n) table,
      length-sdnv_bytes n (omega arith),
      group_count_bounds n (omega arith),
    )

write_vector-eq : (table : List ℕ) → IsShort table → write_vector table ≡ ok (vector_bytes table)
unfolding write_vector
write_vector-eq table h = rw (write_sdnv-eq (length table) (omega arith)) refl

vector_length-eq :
    (table : List ℕ) → IsShort table → vector_length table ≡ ok (length (vector_bytes table))
unfolding vector_length
vector_length-eq table h = rw (encoding_len-eq (length table) (omega arith)) (
    ap ok (
      omega (
        arith,
        length-append (sdnv_bytes (length table)) table,
        length-sdnv_bytes (length table) (omega arith),
      )))

read_vector-eq :
    (table s : List ℕ) → IsShort table → read_vector (vector_bytes table ++ s) ≡ ok (table, s)
unfolding read_vector
read_vector-eq table s h =
    rw
      (
        append_assoc (sdnv_bytes (length table)) table s,
        read_sdnv-sdnv_bytes (length table) (table ++ s) (omega arith),
      )
      (read_bytes-append table s)

identifier-IsU64 : (c : ItemClass) → IsU64 (identifier c)
unfolding identifier
identifier-IsU64 summary_vector = omega arith
identifier-IsU64 purge_vector = omega arith

items_bytes : List Item → List ℕ
items_bytes [] = []
items_bytes (item ∷ items) =
    sdnv_bytes (identifier item.class)
    ++ (sdnv_bytes (length (vector_bytes item.table))
        ++ (vector_bytes item.table ++ items_bytes items))

write_items-eq :
    (items : List Item)
    → All (λ i. IsShort i.table) items
    → write_items items ≡ ok (items_bytes items)
unfolding write_items items_bytes
write_items-eq [] h = refl
write_items-eq (item ∷ items) h =
    rw (write_sdnv-eq (identifier item.class) (identifier-IsU64 item.class)) (
      rw (vector_length-eq item.table h.0) (
        rw (write_sdnv-eq (length (vector_bytes item.table)) (length-vector_bytes item.table h.0))
          (rw (write_vector-eq item.table h.0, write_items-eq items h.1) refl)))

-- The raw items that a reader has after it has read these.
abbrev pub put_items : List Item → List (ℕ × List ℕ) → List (ℕ × List ℕ)
put_items [] raws = raws
put_items (item ∷ items) raws =
    put_items items (put_raw (identifier item.class) (vector_bytes item.table) raws)

read_items-eq :
    (items : List Item) (hs : NodeHandshake) (s : List ℕ)
    → All (λ i. IsShort i.table) items
    → read_items (length items) hs (items_bytes items ++ s)
      ≡ ok (record hs { raw_items = put_items items hs.raw_items }, s)
unfolding read_items items_bytes
read_items-eq [] hs s h = refl
read_items-eq (item ∷ items) hs s h =
    let id = sdnv_bytes (identifier item.class) in
    let bytes = vector_bytes item.table in
    let len = sdnv_bytes (length bytes) in
    let rest = items_bytes items in
    let split : (id ++ (len ++ (bytes ++ rest))) ++ s ≡ id ++ (len ++ (bytes ++ (rest ++ s))) =
      append_assoc id (len ++ (bytes ++ rest)) s
      ∙ ap (λ t. id ++ t)
          (append_assoc len (bytes ++ rest) s ∙ ap (λ t. len ++ t) (append_assoc bytes rest s)) in
    rw (split) (
      rw
        (read_sdnv-sdnv_bytes (identifier item.class) (len ++ (bytes ++ (rest ++ s)))
          (identifier-IsU64 item.class))
        (rw
          (read_sdnv-sdnv_bytes (length bytes) (bytes ++ (rest ++ s))
            (length-vector_bytes item.table h.0))
          (rw (read_bytes-append bytes (rest ++ s)) (
            read_items-eq items
              (record hs { raw_items = put_raw (identifier item.class) bytes hs.raw_items }) s
              h.1))))

-- A response with a lifetime and a number of items of 64 bits, whose vectors are shorter than
-- 2 ^ 63 bytes, is written, and is read back whatever follows it: the reader, whatever it held
-- before, has its type and its lifetime, and under each identifier the bytes of the last item that
-- was sent with it.
pub read-write_response :
    (hs old : NodeHandshake) (s : List ℕ)
    → hs.type ≡ handshake_response
    → IsU64 hs.lifetime
    → IsU64 (length hs.items)
    → All (λ i. IsShort i.table) hs.items
    → (bs : List ℕ) × (write_handshake hs ≡ ok bs)
      × (read_handshake old (bs ++ s)
          ≡ ok (
            record old {
              type = handshake_response;
              lifetime = hs.lifetime;
              raw_items = put_items hs.items old.raw_items;
            },
            s,
          ))
unfolding write_handshake read_handshake write_message read_message
read-write_response hs old s t l n h =
    let lifetime = sdnv_bytes hs.lifetime in
    let number = sdnv_bytes (length hs.items) in
    let items = items_bytes hs.items in
    let type = sdnv_bytes handshake_response in
    let split : (type ++ (lifetime ++ (number ++ items))) ++ s
        ≡ type ++ (lifetime ++ (number ++ (items ++ s))) =
      append_assoc type (lifetime ++ (number ++ items)) s
      ∙ ap (λ b. type ++ b)
          (append_assoc lifetime (number ++ items) s
            ∙ ap (λ b. lifetime ++ b) (append_assoc number items s)) in
    (
      type ++ (lifetime ++ (number ++ items)),
      rw (t) (
          rw (write_sdnv-eq handshake_response (omega arith), write_sdnv-eq hs.lifetime l)
            (rw (write_sdnv-eq (length hs.items) n) (rw (write_items-eq hs.items h) refl))),
      rw (split) (
          rw
            (read_sdnv-sdnv_bytes handshake_response (lifetime ++ (number ++ (items ++ s)))
              (omega arith))
            (rw (read_sdnv-sdnv_bytes hs.lifetime (number ++ (items ++ s)) l) (
              rw (read_sdnv-sdnv_bytes (length hs.items) (items ++ s) n) (
                read_items-eq hs.items
                  (record old { type = handshake_response; lifetime = hs.lifetime }) s h)))),
    )

-- The two classes of items have the same identifier. A node that asks another one for its purged
-- bundles, and whose peer has a summary and a purge vector shorter than 2 ^ 63 bytes, and answers
-- with a lifetime of 64 bits, reads that answer, whatever follows it; but it then takes the purge
-- vector for the summary of its neighbour's bundles, and purges nothing.
pub purge_lost :
    (summary purged : List ℕ) (asked lifetime known : ℕ) (s : List ℕ)
    → IsShort summary
    → IsShort purged
    → IsU64 lifetime
    → let request = add_request (new_handshake handshake_request asked) (identifier purge_vector) in
      let answer =
        response_handshake summary purged request (new_handshake handshake_response lifetime) in
      (bs : List ℕ) × (hs : NodeHandshake) × (write_handshake answer ≡ ok bs)
      × (read_handshake (new_handshake 0 known) (bs ++ s) ≡ ok (hs, s))
      × (process_handshake hs ≡ (some purged, none))
unfolding response_handshake add_request new_handshake identifier has_request add_item insert
    contains process_handshake get put_raw find_raw get_item item_of left_by
purge_lost summary purged asked lifetime known s a b l =
    let answer : NodeHandshake = record (new_handshake handshake_response lifetime) {
      items =
          record { class = summary_vector; table = summary }
          ∷ record { class = summary_vector; table = purged }
          ∷ [];
    } in
    let (bs, written, back) =
      read-write_response answer (new_handshake 0 known) s refl l (omega arith) (a, (b, tt)) in
    let vector : read_vector (vector_bytes purged) ≡ ok (purged, []) =
      ap read_vector (sym (append-nil (vector_bytes purged))) ∙ read_vector-eq purged [] b in
    (
      bs,
      record (new_handshake handshake_response lifetime) {
        raw_items = (1, vector_bytes purged) ∷ [];
      },
      written,
      back,
      rw (process_handshake, get, vector) refl,
    )
