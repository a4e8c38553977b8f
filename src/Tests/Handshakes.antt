-- ===== src/Tests/Handshakes.antt =====
-- The theorems on handshakes.
use ibrdtn.Base.{ℕ, ◌≡◌, refl, none, some, List, [], ◌∷◌, ◌++◌, arith, ok}
use ibrdtn.Handshake.{
  summary_vector, purge_vector, identifier, NodeHandshake, new_handshake, handshake_request,
  handshake_response, add_request, write_handshake, read_handshake, response_handshake,
  process_handshake,
}
use ibrdtn.Handshake.Round.{put_items, read-write_response, purge_lost}
use ibrdtn.Handshake.Requests.{read-write_request}

abbrev some_response : NodeHandshake
some_response = record {
  type = handshake_response;
  lifetime = 60;
  requests = [];
  items = record { class = summary_vector; table = 7 ∷ 0 ∷ 255 ∷ [] } ∷ [];
  raw_items = [];
}

read-write_response_example :
    (bs : List ℕ) × (write_handshake some_response ≡ ok bs)
    × (read_handshake (new_handshake 0 5) (bs ++ (9 ∷ []))
        ≡ ok (
          record (new_handshake 0 5) {
            type = handshake_response;
            lifetime = 60;
            raw_items = put_items some_response.items (new_handshake 0 5).raw_items;
          },
          9 ∷ [],
        ))
read-write_response_example =
    read-write_response some_response (new_handshake 0 5) (9 ∷ []) refl (omega arith) (omega arith)
      (omega arith, tt)

abbrev some_request : NodeHandshake
some_request = record {
  type = handshake_request;
  lifetime = 60;
  requests = 1 ∷ 4 ∷ 300 ∷ [];
  items = [];
  raw_items = [];
}

read-write_request_example :
    (bs : List ℕ) × (write_handshake some_request ≡ ok bs)
    × (read_handshake (new_handshake 0 5) (bs ++ (9 ∷ []))
        ≡ ok (record (new_handshake handshake_request 5) { requests = 1 ∷ 4 ∷ 300 ∷ [] }, 9 ∷ []))
read-write_request_example =
    read-write_request some_request 5 (9 ∷ []) refl (omega arith, (omega arith, (omega arith, tt)))
      ((refl, (refl, tt)), ((refl, tt), (tt, tt))) (omega arith)

purge_lost_example :
    let request = add_request (new_handshake handshake_request 60) (identifier purge_vector) in
    let answer =
      response_handshake (1 ∷ 2 ∷ []) (3 ∷ 4 ∷ []) request (new_handshake handshake_response 60) in
    (bs : List ℕ) × (hs : NodeHandshake) × (write_handshake answer ≡ ok bs)
    × (read_handshake (new_handshake 0 0) (bs ++ []) ≡ ok (hs, []))
    × (process_handshake hs ≡ (some (3 ∷ 4 ∷ []), none))
purge_lost_example =
    purge_lost (1 ∷ 2 ∷ []) (3 ∷ 4 ∷ []) 60 60 0 [] (omega arith) (omega arith) (omega arith)
