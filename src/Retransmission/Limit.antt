-- ===== src/Retransmission/Limit.antt =====
-- The number of retries: RetransmissionExtension.cpp.
use ibrdtn.Base.{
  ℕ, zero, suc, ◌+◌, ◌-◌, ◌%◌, ◌^◌, ◌≤◌, ◌<◌, ◌≡◌, inl, inr, refl, ap, ◌∙◌, Option, none, some,
  List, [], ◌∷◌, ◌++◌, arith, length, ltb, leb, if◌then◌else◌, All, All-append, Bool-cases,
}
use ibrdtn.Base.Sets.{insert, erase, find, All-insert, All-erase}
use ibrdtn.Eid.{Eid}
use ibrdtn.BundleId.{BundleId, id_eq}
use ibrdtn.BundleId.Laws.{id_lt_irrefl}
use ibrdtn.Clock.{Clock, get_time}
use ibrdtn.Retransmission.{
  RetransmissionData, data_lt, retry_again, new_data, Retransmission, empty_state, Event, time_tick,
  transfer_completed, transfer_aborted, requeue, bundle_expired, retry_limit_reached, on_time,
  on_front, try_again, requeue_as, on_done, on_requeue, expire_rounds, on_expired, notify,
}

-- A number of tries within the limit.
abbrev pub IsTry : RetransmissionData → Type 0
IsTry d = (0 < d.count) × (d.count ≤ 8)

pub record IsBounded (r : Retransmission) : Type 0 where
  pub queue : All IsTry r.queue
  pub set : All IsTry r.set

-- The events arrive at times of their own.
pub run : Retransmission → List (Clock × Event) → Retransmission
run r [] = r
run r (e ∷ es) = run (notify e.0 r e.1).0 es

on_front-IsBounded :
    (r : Retransmission) (now : ℕ) (q : List RetransmissionData)
    → IsBounded r
    → All IsTry q
    → IsBounded (on_front r now q).0
unfolding on_front
on_front-IsBounded r now [] h k = h
on_front-IsBounded r now (d ∷ ds) h k = elim (Bool-cases (leb d.timestamp now)) [
  | inl e ↦ rw e (record { queue = k.1; set = h.set })
  | inr e ↦ rw e h
]

retry_again-IsTry :
    (c : Clock) (d : RetransmissionData) → (retry_again c d).count ≤ 8 → IsTry (retry_again c d)
unfolding retry_again
retry_again-IsTry c d h = (omega arith, h)

try_again-IsBounded :
    (r : Retransmission) (others : List RetransmissionData) (d : RetransmissionData) (id : BundleId)
    (peer : Eid)
    → IsBounded r
    → All IsTry others
    → 0 < d.count
    → IsBounded (try_again r others d id peer).0
unfolding try_again
try_again-IsBounded r others d id peer h k p = elim (Bool-cases (leb d.count 8)) [
  | inl e ↦
      let t : IsTry d = (p, ground arith) in
      rw e (record {
        queue = All-append IsTry r.queue (d ∷ []) h.queue (t, tt);
        set = All-insert data_lt IsTry d others t k;
      })
  | inr e ↦ rw e (record { queue = h.queue; set = k })
]

requeue_as-IsBounded :
    (c : Clock) (r : Retransmission) (d : RetransmissionData) (id : BundleId) (peer : Eid)
    (o : Option RetransmissionData)
    → IsBounded r
    → IsTry d
    → IsBounded (requeue_as c r d id peer o).0
unfolding requeue_as retry_again
requeue_as-IsBounded c r d id peer (some old) h t =
    try_again-IsBounded r (erase data_lt d r.set) (retry_again c old) id peer h
      (All-erase data_lt IsTry d r.set h.set) (omega arith)
requeue_as-IsBounded c r d id peer none h t = record {
  queue = All-append IsTry r.queue (d ∷ []) h.queue (t, tt);
  set = All-insert data_lt IsTry d r.set t h.set;
}

on_requeue-IsBounded :
    (c : Clock) (r : Retransmission) (id : BundleId) (peer : Eid)
    → IsBounded r
    → IsBounded (on_requeue c r id peer).0
unfolding on_requeue new_data retry_again
on_requeue-IsBounded c r id peer h =
    requeue_as-IsBounded c r (new_data c id peer) id peer (find data_lt (new_data c id peer) r.set)
      h (omega arith, omega arith)

expire_rounds-All :
    (n : ℕ) (q : List RetransmissionData) (id : BundleId)
    → All IsTry q
    → All IsTry (expire_rounds n q id).0
unfolding expire_rounds
expire_rounds-All zero q id h = h
expire_rounds-All (suc n) [] id h = tt
expire_rounds-All (suc n) (d ∷ q) id h = elim (Bool-cases (id_eq d.id id)) [
  | inl e ↦ rw e (expire_rounds-All n q id h.1)
  | inr e ↦
      rw e (expire_rounds-All n (q ++ (d ∷ [])) id (All-append IsTry q (d ∷ []) h.1 (h.0, tt)))
]

notify-IsBounded :
    (c : Clock) (r : Retransmission) (e : Event) → IsBounded r → IsBounded (notify c r e).0
unfolding notify on_time on_done on_expired
notify-IsBounded c r (time_tick now) h = on_front-IsBounded r now r.queue h h.queue
notify-IsBounded c r (transfer_completed id peer) h = record {
  queue = h.queue;
  set = All-erase data_lt IsTry (new_data c id peer) r.set h.set;
}
notify-IsBounded c r (transfer_aborted id peer) h = record {
  queue = h.queue;
  set = All-erase data_lt IsTry (new_data c id peer) r.set h.set;
}
notify-IsBounded c r (requeue id peer) h = on_requeue-IsBounded c r id peer h
notify-IsBounded c r (bundle_expired id) h = record {
  queue = expire_rounds-All (length r.queue) r.queue id h.queue;
  set = h.set;
}

run-IsBounded :
    (r : Retransmission) (es : List (Clock × Event)) → IsBounded r → IsBounded (run r es)
unfolding run
run-IsBounded r [] h = h
run-IsBounded r (e ∷ es) h = run-IsBounded (notify e.0 r e.1).0 es (notify-IsBounded e.0 r e.1 h)

-- Whatever events arrive at an extension that starts empty, each retransmission that it holds is
-- its first to eighth try.
pub run_empty-IsBounded : (es : List (Clock × Event)) → IsBounded (run empty_state es)
run_empty-IsBounded es = run-IsBounded empty_state es (record { queue = tt; set = tt })

-- The `n`th try of a bundle.
pub nth_try : Clock → BundleId → Eid → ℕ → RetransmissionData
nth_try c id peer n = record {
  id = id;
  destination = peer;
  timestamp = (get_time c + 2 ^ (n - 1)) % 2 ^ 64;
  count = n;
  retry = 2;
}

-- The extension with an entry for a bundle that has had its `n`th try, with any time `t` as the one
-- of that try, and with `q` in the queue.
abbrev pub entry : BundleId → Eid → ℕ → ℕ → RetransmissionData
entry id peer t n = record { id = id; destination = peer; timestamp = t; count = n; retry = 2 }

abbrev pub tried : BundleId → Eid → ℕ → ℕ → List RetransmissionData → Retransmission
tried id peer t n q = record { queue = q; set = entry id peer t n ∷ [] }

find_only :
    (c : Clock) (id : BundleId) (peer other : Eid) (t n : ℕ)
    → find data_lt (new_data c id other) (entry id peer t n ∷ []) ≡ some (entry id peer t n)
unfolding find new_data retry_again
find_only c id peer other t n = rw (id_lt_irrefl id) refl

erase_only :
    (c : Clock) (id : BundleId) (peer other : Eid) (t n : ℕ)
    → erase data_lt (new_data c id other) (entry id peer t n ∷ []) ≡ []
unfolding erase new_data retry_again
erase_only c id peer other t n = rw (id_lt_irrefl id) refl

next_try :
    (c : Clock) (id : BundleId) (peer : Eid) (t n : ℕ)
    → 0 < n
    → retry_again c (entry id peer t n) ≡ nth_try c id peer (n + 1)
unfolding retry_again nth_try
next_try c id peer t n h = let back : n + 1 - 1 ≡ n = omega arith in rw back refl

try_next :
    (c : Clock) (id : BundleId) (peer other : Eid) (t n : ℕ) (q : List RetransmissionData)
    → try_again (tried id peer t n q) [] (nth_try c id peer (n + 1)) id other ≡ (
        if ltb n 8
        then (
          record {
            queue = q ++ (nth_try c id peer (n + 1) ∷ []);
            set = nth_try c id peer (n + 1) ∷ [];
          },
          [],
        )
        else (record { queue = q; set = [] }, retry_limit_reached other id ∷ []))
unfolding try_again insert nth_try
try_next c id peer other t n q = ground arith

-- When a bundle is the only one in the set, after its `n`th try for a peer at whatever time, with a
-- backoff of 2 at its retries, a further requeue of it, for whichever peer, queues the next try for
-- the first peer, as long as that is at most the eighth: it is set to 2 to the power of `n` seconds
-- after the time of the requeue. After the eighth try the requeue takes the bundle out of the set,
-- queues nothing, and reports the limit for the peer of the requeue.
pub requeue_known :
    (c : Clock) (id : BundleId) (peer other : Eid) (t n : ℕ) (q : List RetransmissionData)
    → 0 < n
    → notify c (tried id peer t n q) (requeue id other) ≡ (
        if ltb n 8
        then (
          tried id peer
              ((get_time c + 2 ^ n) % 2 ^ 64)
              (n + 1)
              (q ++ (entry id peer ((get_time c + 2 ^ n) % 2 ^ 64) (n + 1) ∷ [])),
          [],
        )
        else (record { queue = q; set = [] }, retry_limit_reached other id ∷ []))
unfolding notify on_requeue requeue_as nth_try
requeue_known c id peer other t n q h =
    let back : n + 1 - 1 ≡ n = omega arith in
    ap (requeue_as c (tried id peer t n q) (new_data c id other) id other)
      (find_only c id peer other t n)
    ∙ rw (erase_only c id peer other t n, next_try c id peer t n h)
        (try_next c id peer other t n q ∙ rw back refl)
