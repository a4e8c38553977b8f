-- ===== src/Handshake/Requests.antt =====
-- Requests of a handshake through a stream: NodeHandshake.cpp.
use ibrdtn.Base.{
  ℕ, ◌≡◌, refl, ap, ◌∙◌, true, false, List, [], ◌∷◌, ◌++◌, arith, length, ltb, ok, All, All-append,
}
use mathlib.Core.List.{append_assoc, append-nil}
use ibrdtn.Base.Sets.{insert, Ascending}
use ibrdtn.Sdnv.{IsU64}
use ibrdtn.Sdnv.Encode.{sdnv_bytes}
use ibrdtn.Sdnv.Stream.{write_sdnv-eq, read_sdnv-sdnv_bytes}
use ibrdtn.Handshake.{
  NodeHandshake, new_handshake, handshake_request, add_request, write_ids, write_message,
  write_handshake, read_requests, read_message, read_handshake,
}

ids_bytes : List ℕ → List ℕ
ids_bytes [] = []
ids_bytes (id ∷ ids) = sdnv_bytes id ++ ids_bytes ids

write_ids-eq : (ids : List ℕ) → All IsU64 ids → write_ids ids ≡ ok (ids_bytes ids)
unfolding write_ids ids_bytes
write_ids-eq [] h = refl
write_ids-eq (id ∷ ids) h = rw (write_sdnv-eq id h.0, write_ids-eq ids h.1) refl

-- A number above all others of a set goes to its end.
insert-last :
    (x : ℕ) (ys : List ℕ) → All (λ y. ltb y x ≡ true) ys → insert ltb x ys ≡ ys ++ (x ∷ [])
unfolding insert
insert-last x [] h = refl
insert-last x (y ∷ ys) h =
    let above : ltb x y ≡ false = ground (arith, h.0) in
    rw (above, h.0) (ap (λ t. y ∷ t) (insert-last x ys h.1))

-- What a set and the numbers above it have to do with each other.
abbrev Above : List ℕ → List ℕ → Type 0
Above ys [] = Unit {0}
Above ys (x ∷ xs) = All (λ y. ltb y x ≡ true) ys × Above ys xs

Above-next :
    (ys : List ℕ) (x : ℕ) (xs : List ℕ)
    → Above ys xs
    → All (λ z. ltb x z ≡ true) xs
    → Above (ys ++ (x ∷ [])) xs
Above-next ys x [] a h = tt
Above-next ys x (z ∷ xs) a h =
    (All-append (λ y. ltb y z ≡ true) ys (x ∷ []) a.0 (h.0, tt), Above-next ys x xs a.1 h.1)

Above-nothing : (xs : List ℕ) → Above [] xs
Above-nothing [] = tt
Above-nothing (x ∷ xs) = (tt, Above-nothing xs)

read_requests-eq :
    (ids : List ℕ) (hs : NodeHandshake) (s : List ℕ)
    → All IsU64 ids
    → Ascending ltb ids
    → Above hs.requests ids
    → read_requests (length ids) hs (ids_bytes ids ++ s)
      ≡ ok (record hs { requests = hs.requests ++ ids }, s)
unfolding read_requests ids_bytes add_request
read_requests-eq [] hs s h a b = rw (append-nil hs.requests) refl
read_requests-eq (id ∷ ids) hs s h a b =
    let next : NodeHandshake = record hs { requests = hs.requests ++ (id ∷ []) } in
    let step : add_request hs id ≡ next =
      ap {A = List ℕ} {B = NodeHandshake} (λ r. record hs { requests = r })
        (insert-last id hs.requests b.0) in
    rw (append_assoc (sdnv_bytes id) (ids_bytes ids) s) (
      rw (read_sdnv-sdnv_bytes id (ids_bytes ids ++ s) h.0) (
        ap (λ r. read_requests (length ids) r (ids_bytes ids ++ s)) step
        ∙ (read_requests-eq ids next s h.1 a.1 (Above-next hs.requests id ids b.1 a.0)
            ∙ ap {A = List ℕ} (λ r. ok (record hs { requests = r }, s))
                (append_assoc hs.requests (id ∷ []) ids))))

-- A request for a set of 64-bit identifiers, which has less than 2 ^ 64 elements, is written, and
-- is read back by a new handshake, whatever follows it: the reader has its type and the same set.
pub read-write_request :
    (hs : NodeHandshake) (lifetime : ℕ) (s : List ℕ)
    → hs.type ≡ handshake_request
    → All IsU64 hs.requests
    → Ascending ltb hs.requests
    → IsU64 (length hs.requests)
    → (bs : List ℕ) × (write_handshake hs ≡ ok bs)
      × (read_handshake (new_handshake 0 lifetime) (bs ++ s)
          ≡ ok (record (new_handshake handshake_request lifetime) { requests = hs.requests }, s))
unfolding write_handshake read_handshake write_message read_message new_handshake
read-write_request hs lifetime s t h a n =
    let type = sdnv_bytes handshake_request in
    let number = sdnv_bytes (length hs.requests) in
    let ids = ids_bytes hs.requests in
    let split : (type ++ (number ++ ids)) ++ s ≡ type ++ (number ++ (ids ++ s)) =
      append_assoc type (number ++ ids) s ∙ ap (λ b. type ++ b) (append_assoc number ids s) in
    (
      type ++ (number ++ ids),
      rw t (
          rw (write_sdnv-eq handshake_request (omega arith), write_sdnv-eq (length hs.requests) n)
            (rw (write_ids-eq hs.requests h) refl)),
      rw split (
          rw (read_sdnv-sdnv_bytes handshake_request (number ++ (ids ++ s)) (omega arith)) (
            rw (read_sdnv-sdnv_bytes (length hs.requests) (ids ++ s) n) (
              read_requests-eq hs.requests (new_handshake handshake_request lifetime) s h a
                (Above-nothing hs.requests)))),
    )
