-- ===== src/Datagram/Acknowledge.antt =====
-- Stop and wait: `stream_send` and `ack` of DatagramConnection.cpp.
use ibrdtn.Base.{
  ℕ, zero, suc, ◌+◌, ◌-◌, ◌^◌, ◌≤◌, ◌≡◌, ◌≢◌, refl, Bool, true, false, not, ◌||◌, List, [], ◌∷◌,
  arith, ◌==◌, if◌then◌else◌,
}

-- `_last_ack` and `_wait_ack`; no number is 2 ^ 64 - 1.
pub record Acks : Type 0 where
  pub last : ℕ
  pub wait : ℕ

unfoldable pub new_acks : Acks
new_acks = record { last = 2 ^ 64 - 1; wait = 2 ^ 64 - 1 }

pub ack : Acks → ℕ → Acks
ack a seqno = if a.wait == seqno then record a { last = seqno } else a

pub ack_all : Acks → List ℕ → Acks
unfolding ack
ack_all a [] = a
ack_all a (n ∷ ns) = ack_all (ack a n) ns

-- The acknowledgements that come before the timeout of this round, and those of the later ones.
abbrev pub this_round : List (List ℕ) → List ℕ
this_round [] = []
this_round (w ∷ ws) = w

abbrev pub later_rounds : List (List ℕ) → List (List ℕ)
later_rounds [] = []
later_rounds (w ∷ ws) = ws

-- What comes of the loop: how often the datagram was sent, whether `stream_send` returns, and the
-- two numbers.
pub record Outcome : Type 0 where
  pub sends : ℕ
  pub returns : Bool
  pub acks : Acks

pub send_rounds : Bool → ℕ → List (List ℕ) → Acks → Outcome
unfolding ack_all
send_rounds stopnwait zero windows a = record { sends = 0; returns = false; acks = a }
send_rounds stopnwait (suc rounds) windows a =
    let a' = ack_all a (this_round windows) in
    let rest = send_rounds stopnwait rounds (later_rounds windows) a' in
    if not stopnwait
    then record { sends = 1; returns = true; acks = a }
    else if a'.last == a'.wait
    then record { sends = 1; returns = true; acks = a' }
    else record rest { sends = rest.sends + 1 }

pub stream_send : Bool → List (List ℕ) → Acks → ℕ → Outcome
unfolding send_rounds
stream_send stopnwait windows a seqno = send_rounds stopnwait 5 windows (record a { wait = seqno })

-- Whether a number is acknowledged in time, in one of the first `rounds` rounds.
pub acked : ℕ → List ℕ → Bool
acked seqno [] = false
acked seqno (n ∷ ns) = seqno == n || acked seqno ns

pub acked_in : ℕ → ℕ → List (List ℕ) → Bool
unfolding acked
acked_in seqno zero windows = false
acked_in seqno (suc rounds) windows =
    acked seqno (this_round windows) || acked_in seqno rounds (later_rounds windows)

ack_all-wait : (a : Acks) (ns : List ℕ) → (ack_all a ns).wait ≡ a.wait
unfolding ack_all ack
ack_all-wait a [] = refl
ack_all-wait a (n ∷ ns) = ground (arith, ack_all-wait (ack a n) ns)

-- An acknowledgement of the number that is waited for stays.
ack_all-last :
    (a : Acks) (ns : List ℕ)
    → ((ack_all a ns).last == a.wait) ≡ (a.last == a.wait || acked a.wait ns)
unfolding ack_all ack acked
ack_all-last a [] = ground arith
ack_all-last a (n ∷ ns) = ground (arith, ack_all-last a ns, ack_all-last (record a { last = n }) ns)

send_rounds-returns :
    (rounds : ℕ) (windows : List (List ℕ)) (a : Acks)
    → (a.last == a.wait) ≡ false
    → (send_rounds true rounds windows a).returns ≡ acked_in a.wait rounds windows
unfolding send_rounds acked_in
send_rounds-returns zero windows a h = refl
send_rounds-returns (suc rounds) windows a h = ground (
  arith,
  ack_all-wait a (this_round windows),
  ack_all-last a (this_round windows),
  send_rounds-returns rounds (later_rounds windows) (ack_all a (this_round windows)),
)

send_rounds_bound :
    (stopnwait : Bool) (rounds : ℕ) (windows : List (List ℕ)) (a : Acks)
    → (send_rounds stopnwait rounds windows a).sends ≤ rounds
unfolding send_rounds
send_rounds_bound stopnwait zero windows a = omega arith
send_rounds_bound stopnwait (suc rounds) windows a = ground (
  arith,
  send_rounds_bound stopnwait rounds (later_rounds windows) (ack_all a (this_round windows)),
)

-- The loop gives up only after all rounds.
send_rounds_all :
    (stopnwait : Bool) (rounds : ℕ) (windows : List (List ℕ)) (a : Acks)
    → (send_rounds stopnwait rounds windows a).returns ≡ false
    → (send_rounds stopnwait rounds windows a).sends ≡ rounds
unfolding send_rounds
send_rounds_all stopnwait zero windows a h = refl
send_rounds_all stopnwait (suc rounds) windows a h = ground (
  arith,
  send_rounds_all stopnwait rounds (later_rounds windows) (ack_all a (this_round windows)),
)

-- With stop and wait, and unless the number is that of the last acknowledgement, a datagram is sent
-- at most five times, `stream_send` returns exactly when the number is acknowledged within the
-- timeout of one of these rounds, and it throws only after all five.
pub stream_send_lem :
    (windows : List (List ℕ)) (a : Acks) (seqno : ℕ)
    → a.last ≢ seqno
    → ((stream_send true windows a seqno).returns ≡ acked_in seqno 5 windows)
      × ((stream_send true windows a seqno).sends ≤ 5)
      × ((stream_send true windows a seqno).returns ≡ false
          → (stream_send true windows a seqno).sends ≡ 5)
stream_send_lem windows a seqno h =
    unfold stream_send in
    (
      send_rounds-returns 5 windows (record a { wait = seqno }) (ground arith),
      send_rounds_bound true 5 windows (record a { wait = seqno }),
      send_rounds_all true 5 windows (record a { wait = seqno }),
    )
