-- ===== src/Bundles/Endless.antt =====
-- Blocks with more EIDs than the counter of the reader can count: Serializer.cpp.
use ibrdtn.Base.{
  ℕ, zero, suc, ◌^◌, ◌≤◌, ◌<◌, ◌≡◌, ◌≢◌, refl, sym, ap, ◌∙◌, Bool, false, List, ◌∷◌, arith, length,
  ltb, ok, ◌>>=◌, >>=-eq-ok, length-append,
}
use ibrdtn.Sdnv.Stream.{read_sdnv, read_sdnv_sound}
use ibrdtn.Eid.{Eid}
use ibrdtn.Dictionary.{Dictionary}
use ibrdtn.Primary.{read_pair}
use ibrdtn.Bundles.{eid_at, read_eids, rounds, read_counted}

read_sdnv-shorter : (s rest : List ℕ) (v : ℕ) → read_sdnv s ≡ ok (v, rest) → length rest < length s
read_sdnv-shorter s rest v e =
    let (bs, shape, some_byte, long, num, small) = read_sdnv_sound s rest v e in
    omega (arith, ap length shape, length-append bs rest, some_byte)

read_pair-shorter :
    (s rest : List ℕ) (r : ℕ × ℕ) → read_pair s ≡ ok (r, rest) → length rest < length s
unfolding read_pair
read_pair-shorter s rest r e =
    let (a, first, e1) =
      >>=-eq-ok (read_sdnv s) (λ a. read_sdnv a.1 >>= λ b. ok ((a.0, b.0), b.1)) e in
    let (b, second, e2) = >>=-eq-ok (read_sdnv a.1) (λ b. ok ((a.0, b.0), b.1)) e1 in
    let same : b.1 ≡ rest = cc in
    omega (
      arith,
      read_sdnv-shorter s a.1 a.0 first,
      read_sdnv-shorter a.1 b.1 b.0 second,
      ap length same,
    )

-- Each round of the loop takes bytes of the stream.
read_eids-rounds :
    (n : ℕ) (c : Bool) (d : Dictionary) (s : List ℕ) (r : List Eid × Dictionary × List ℕ)
    → read_eids n c d s ≡ ok r
    → n ≤ length s
unfolding read_eids
read_eids-rounds zero c d s r e = omega arith
read_eids-rounds (suc n) c d s r e =
    let (p, first, e1) =
      >>=-eq-ok (read_pair s)
        (λ p. read_eids n c (eid_at c d p.0).1 p.1 >>= λ q. ok ((eid_at c d p.0).0 ∷ q.0, q.1, q.2))
        e in
    let (q, second, e2) =
      >>=-eq-ok (read_eids n c (eid_at c d p.0).1 p.1)
        (λ q. ok ((eid_at c d p.0).0 ∷ q.0, q.1, q.2)) e1 in
    omega (
      arith,
      read_pair-shorter s p.1 p.0 first,
      read_eids-rounds n c (eid_at c d p.0).1 p.1 q second,
    )

-- Where a block says that it has 2 ^ 32 EIDs or more, the reader of the EIDs never comes to an end
-- with them, whatever bytes follow: the stream ends or a number is wrong before.
read_counted_endless :
    (c : Bool) (d : Dictionary) (s rest : List ℕ) (n : ℕ) (r : List Eid × Dictionary × List ℕ)
    → read_sdnv s ≡ ok (n, rest)
    → 2 ^ 32 ≤ n
    → read_counted c d s ≢ ok r
unfolding read_counted rounds
read_counted_endless c d s rest n r e many f =
    let over : ltb n (2 ^ 32) ≡ false = beyond n many in
    let opened : read_counted c d s ≡ read_eids (suc (length rest)) c d rest =
      rw e (rw over refl) in
    omega (arith, read_eids-rounds (suc (length rest)) c d rest r (sym opened ∙ f))
  where
    beyond : (n : ℕ) → 2 ^ 32 ≤ n → ltb n (2 ^ 32) ≡ false
    beyond n h = ground arith
