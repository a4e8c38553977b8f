-- ===== src/Tests/Events.antt =====
-- The theorems on retransmissions.
use ibrdtn.Base.{◌≡◌, ◌+◌, ◌^◌, ◌%◌, List, [], ◌∷◌, ◌++◌, arith, ltb, if◌then◌else◌}
use ibrdtn.Clock.{Clock, get_time}
use ibrdtn.Retransmission.{
  Retransmission, empty_state, Event, requeue, transfer_completed, bundle_expired,
  retry_limit_reached, notify,
}
use ibrdtn.Retransmission.Limit.{
  IsBounded, run, run_empty-IsBounded, nth_try, entry, tried, requeue_known,
}
use ibrdtn.Retransmission.Expiry.{others, reports, notify_expired}
use ibrdtn.Tests.{node_eid, cbhe_eid, whole_id, next_id, good_clock}

abbrev some_events : List (Clock × Event)
some_events =
    (good_clock, requeue whole_id node_eid)
    ∷ (good_clock, requeue next_id cbhe_eid)
    ∷ (good_clock, requeue whole_id node_eid)
    ∷ (good_clock, transfer_completed next_id cbhe_eid)
    ∷ []

run_empty-IsBounded_example : IsBounded (run empty_state some_events)
run_empty-IsBounded_example = run_empty-IsBounded some_events

requeue_known_example :
    notify good_clock (tried whole_id node_eid 17 3 []) (requeue whole_id cbhe_eid) ≡ (
      if ltb 3 8
      then (
        tried whole_id node_eid
            ((get_time good_clock + 2 ^ 3) % 2 ^ 64)
            4
            ([] ++ (entry whole_id node_eid ((get_time good_clock + 2 ^ 3) % 2 ^ 64) 4 ∷ [])),
        [],
      )
      else (record { queue = []; set = [] }, retry_limit_reached cbhe_eid whole_id ∷ []))
requeue_known_example = requeue_known good_clock whole_id node_eid cbhe_eid 17 3 [] (omega arith)

abbrev some_queue : Retransmission
some_queue = record {
  queue = nth_try good_clock whole_id node_eid 1 ∷ nth_try good_clock next_id node_eid 2 ∷ [];
  set = [];
}

notify_expired_example : notify good_clock some_queue (bundle_expired next_id) ≡ (
  record { queue = others next_id some_queue.queue; set = [] },
  reports next_id some_queue.queue,
)
notify_expired_example = notify_expired good_clock some_queue next_id
