-- ===== src/Retransmission.antt =====
-- daemon/src/routing/RetransmissionExtension.h and RetransmissionExtension.cpp: bundles that could
-- not be sent are queued again, each time for twice as long, until a limit.
pub mod Limit
pub mod Expiry
use ibrdtn.Base.{
  ℕ, zero, suc, ◌+◌, ◌-◌, ◌*◌, ◌/◌, ◌%◌, ◌^◌, ◌≤◌, ◌<◌, ◌≡◌, ◌≢◌, ◌⊎◌, inl, inr, refl, sym, ap, ◌∙◌,
  Bool, true, false, not, ◌&&◌, ◌||◌, Option, none, some, List, [], ◌∷◌, ◌++◌, arith, length, ltb,
  leb, ◌==◌, if◌then◌else◌, Result, ok, err, invalid_data, invalid_protocol, rejected, short_read,
  overrun, get_byte, read_bytes, read_bytes-append, ◌>>=◌, >>=-eq-ok, length-append, All,
  All-append, subst, Bool-cases, Trichotomy, below, level, above, trichotomy, Option-cases, map,
}
use ibrdtn.Base.Sets.{insert, erase, find}
use ibrdtn.Eid.{Eid}
use ibrdtn.BundleId.{BundleId, id_lt, id_eq}
use ibrdtn.Clock.{Clock, get_time}

pub record RetransmissionData : Type 0 where
  pub id : BundleId
  pub destination : Eid
  pub timestamp : ℕ
  pub count : ℕ
  pub retry : ℕ

-- The set compares the data as the BundleIDs that they are: the destination does not count.
abbrev pub data_lt : RetransmissionData → RetransmissionData → Bool
data_lt a b = id_lt a.id b.id

-- `operator++`, both of them.
pub retry_again : Clock → RetransmissionData → RetransmissionData
retry_again c d = record d {
  count = d.count + 1;
  timestamp = (get_time c + d.retry ^ d.count) % 2 ^ 64;
}

-- The constructor, with the default base of the backoff.
pub new_data : Clock → BundleId → Eid → RetransmissionData
unfolding retry_again
new_data c id destination =
    retry_again c
      (record { id = id; destination = destination; timestamp = 0; count = 0; retry = 2 })

pub record Retransmission : Type 0 where
  pub queue : List RetransmissionData
  pub set : List RetransmissionData

abbrev pub empty_state : Retransmission
empty_state = record { queue = []; set = [] }

-- The events that `notify` knows.
pub data Event : Type 0 where
  time_tick : ℕ → Event
  transfer_completed transfer_aborted requeue : BundleId → Eid → Event
  bundle_expired : BundleId → Event

-- What `notify` calls: `transferTo`, and the event of a transfer aborted for either reason.
pub data Raised : Type 0 where
  transfer_to retry_limit_reached bundle_deleted : Eid → BundleId → Raised

on_front : Retransmission → ℕ → List RetransmissionData → Retransmission × List Raised
on_front r now [] = (r, [])
on_front r now (d ∷ ds) =
    if leb d.timestamp now
    then (record r { queue = ds }, transfer_to d.destination d.id ∷ [])
    else (r, [])

pub on_time : Retransmission → ℕ → Retransmission × List Raised
unfolding on_front
on_time r now = on_front r now r.queue

-- Both for a transfer that is completed and for one that is aborted.
pub on_done : Clock → Retransmission → BundleId → Eid → Retransmission
unfolding erase new_data
on_done c r id peer = record r { set = erase data_lt (new_data c id peer) r.set }

-- A bundle that is in the set: its next try `d2`, unless the limit is reached.
try_again :
    Retransmission
    → List RetransmissionData
    → RetransmissionData
    → BundleId
    → Eid
    → Retransmission × List Raised
unfolding insert
try_again r others d2 id peer =
    if leb d2.count 8
    then (record { queue = r.queue ++ (d2 ∷ []); set = insert data_lt d2 others }, [])
    else (record r { set = others }, retry_limit_reached peer id ∷ [])

-- What the set has of the bundle, for which `d` is a first try.
requeue_as :
    Clock
    → Retransmission
    → RetransmissionData
    → BundleId
    → Eid
    → Option RetransmissionData
    → Retransmission × List Raised
unfolding erase retry_again try_again
requeue_as c r d id peer (some old) =
    try_again r (erase data_lt d r.set) (retry_again c old) id peer
requeue_as c r d id peer none =
    (record { queue = r.queue ++ (d ∷ []); set = insert data_lt d r.set }, [])

pub on_requeue : Clock → Retransmission → BundleId → Eid → Retransmission × List Raised
unfolding find new_data requeue_as
on_requeue c r id peer =
    let d = new_data c id peer in requeue_as c r d id peer (find data_lt d r.set)

-- The loop over the queue: `n` rounds, each of which takes the front and may put it back at the
-- end.
pub expire_rounds : ℕ → List RetransmissionData → BundleId → List RetransmissionData × List Raised
expire_rounds zero q id = (q, [])
expire_rounds (suc n) [] id = ([], [])
expire_rounds (suc n) (d ∷ q) id =
    let gone = expire_rounds n q id in
    let kept = expire_rounds n (q ++ (d ∷ [])) id in
    if id_eq d.id id then (gone.0, bundle_deleted d.destination d.id ∷ gone.1) else kept

pub on_expired : Retransmission → BundleId → Retransmission × List Raised
unfolding expire_rounds
on_expired r id =
    let (q, raised) = expire_rounds (length r.queue) r.queue id in (record r { queue = q }, raised)

pub notify : Clock → Retransmission → Event → Retransmission × List Raised
unfolding on_time on_done on_requeue on_expired
notify c r (time_tick now) = on_time r now
notify c r (transfer_completed id peer) = (on_done c r id peer, [])
notify c r (transfer_aborted id peer) = (on_done c r id peer, [])
notify c r (requeue id peer) = on_requeue c r id peer
notify c r (bundle_expired id) = on_expired r id
