-- ===== src/Connection/Unheard.antt =====
-- `underflow` of StreamBuffer.cpp does not tell the user of the end of the connection.
use ibrdtn.Base.{
  ℕ, zero, suc, ◌+◌, ◌-◌, ◌%◌, ◌^◌, ◌≡◌, refl, ap, true, false, ◌&&◌, List, [], ◌∷◌, length, ltb,
  ◌==◌, if◌then◌else◌, Result, ok, err, read_bytes,
}
use ibrdtn.Base.{Error}
use ibrdtn.Eid.{is_empty}
use ibrdtn.Connection.Ledger.{begins, ends}
use ibrdtn.Segment.{
  SegmentType, msg_data_segment, msg_ack_segment, msg_keepalive, msg_refuse_bundle, msg_shutdown,
  unnamed, StreamDataSegment, plain_segment, sized_segment, read_segment,
}
use ibrdtn.Connection.{
  Connection, event_bundle_refused, event_bundle_forwarded, event_bundle_ack, Outcome, returned,
  stream_error, stream_shutdown, io_failure, exhausted, thrown, and_then, notify, send, is_short,
}
use ibrdtn.Connection.Receive.{
  read_stream, read_size, skip_loop, skip_data, refuse, answer, announce, on_data, acknowledged,
  on_ack, refused, on_refuse, dispatch, unread, receive, fill, underflow, underflow_caught,
  move_segments,
}
use ibrdtn.Connection.Quiet.{
  downs, Leaves, leaves, stays, and_then-Leaves, notify-Leaves, send-Leaves, if-Leaves,
  choose-Leaves,
}

pub same :
    {c d : Connection} → d.shutdown_reason ≡ c.shutdown_reason → d.events ≡ c.events → Leaves c d
same r e = record { reason = r; down = ap downs e }

pub read_stream-Leaves :
    (c : Connection) (n : ℕ) (filled : List ℕ → Connection → Connection × Outcome)
    → ((bytes : List ℕ) (d : Connection) → Leaves d (filled bytes d).0)
    → Leaves c (read_stream c n filled).0
unfolding read_stream
read_stream-Leaves c n filled f = bytes_read (read_bytes n c.incoming)
  where
    bytes_read :
        (r : Result (List ℕ × List ℕ))
        → Leaves c
            (elim r as (λ x. Connection × Outcome) [
              | err e ↦
                  (record c { good = false; incoming = []; transferring = false }, stream_error)
              | ok (bytes, rest) ↦ filled bytes (record c { incoming = rest })
            ]).0
    bytes_read (err e) = same refl refl
    bytes_read (ok (bytes, rest)) = leaves (same refl refl) (f bytes (record c { incoming = rest }))

pub skip_loop-Leaves : (n : ℕ) (c : Connection) → Leaves c (skip_loop n c).0
unfolding skip_loop
skip_loop-Leaves zero c = stays
skip_loop-Leaves (suc n) c =
    let next : List ℕ → Connection → Connection × Outcome =
      λ bytes c. skip_loop n (record c { data_remain = c.data_remain - read_size c }) in
    if-Leaves (ltb 0 c.data_remain && c.good) c (read_stream c (read_size c) next) (c, returned)
      (read_stream-Leaves c (read_size c) next (λ bytes d.
        leaves (same refl refl)
          (skip_loop-Leaves n (record d { data_remain = d.data_remain - read_size d }))))
      stays

pub refuse-Leaves : (c : Connection) → Leaves c (refuse c).0
unfolding refuse
refuse-Leaves c =
    if-Leaves c.nack_support c (send c (plain_segment msg_refuse_bundle) []) (c, returned)
      (send-Leaves c _ []) stays

pub refuse_and_skip-Leaves : (c : Connection) → Leaves c (and_then (refuse c) skip_data).0
unfolding skip_data
refuse_and_skip-Leaves c =
    and_then-Leaves c (refuse c) skip_data (refuse-Leaves c)
      (λ d. skip_loop-Leaves (suc d.data_remain) d)

pub idle-Leaves :
    (c : Connection) (r : Connection × Outcome)
    → Leaves c r.0
    → Leaves c (and_then r (λ c. (record c { transferring = false }, returned))).0
idle-Leaves c r l =
    and_then-Leaves c r (λ c. (record c { transferring = false }, returned)) l (λ d. same refl refl)

pub answer-Leaves : (c : Connection) → Leaves c (answer c).0
unfolding answer
answer-Leaves c =
    let idle : Connection × Outcome → Connection × Outcome =
      λ r. and_then r (λ c. (record c { transferring = false }, returned)) in
    let ack : Connection × Outcome =
      if c.ack_support
      then send c (sized_segment msg_ack_segment c.recv_size) []
      else (c, returned) in
    let rest : Connection × Outcome = if c.data_remain == 0 then idle ack else (c, returned) in
    if-Leaves c.transferring c (if c.reject then idle (and_then (refuse c) skip_data) else rest)
      (c, returned)
      (if-Leaves c.reject c (idle (and_then (refuse c) skip_data)) rest
        (idle-Leaves c (and_then (refuse c) skip_data) (refuse_and_skip-Leaves c))
        (if-Leaves (c.data_remain == 0) c (idle ack) (c, returned)
          (idle-Leaves c ack (
            if-Leaves c.ack_support c (send c (sized_segment msg_ack_segment c.recv_size) [])
              (c, returned) (send-Leaves c _ []) stays))
          stays))
      stays

pub announce-Leaves : (c : Connection) (seg : StreamDataSegment) → Leaves c (announce c seg)
unfolding announce
announce-Leaves c seg =
    let first : Connection = record c { recv_size = seg.value; reject = false } in
    let next : Connection = record c { recv_size = (c.recv_size + seg.value) % 2 ^ 64 } in
    leaves (choose-Leaves (begins seg) c first next (same refl refl) (same refl refl))
      (same refl refl)

pub on_data-Leaves : (c : Connection) (seg : StreamDataSegment) → Leaves c (on_data c seg).0
unfolding on_data
on_data-Leaves c seg =
    let a = announce c seg in
    if-Leaves a.reject c (and_then (refuse a) skip_data)
      (record a { transferring = true }, returned)
      (leaves (announce-Leaves c seg) (refuse_and_skip-Leaves a))
      (leaves (announce-Leaves c seg) (same refl refl))

pub on_ack-Leaves : (c : Connection) (size : ℕ) → Leaves c (on_ack c size)
unfolding on_ack acknowledged
on_ack-Leaves c size =
    choose-Leaves c.ack_support c (acknowledged c size c.segments) c (acked c.segments) stays
  where
    acked : (segs : List StreamDataSegment) → Leaves c (acknowledged c size segs)
    acked [] = stays
    acked (front ∷ rest) =
        let d : Connection = if ends front then notify c event_bundle_forwarded else c in
        leaves
          (leaves
            (choose-Leaves (ends front) c (notify c event_bundle_forwarded) c
              (notify-Leaves c event_bundle_forwarded refl) stays)
            (notify-Leaves d (event_bundle_ack size) refl))
          (same refl refl)

pub on_refuse-Leaves : (c : Connection) → Leaves c (on_refuse c)
unfolding on_refuse refused
on_refuse-Leaves c =
    choose-Leaves (c.ack_support && c.nack_support) c (refused c c.rejected_segments c.segments) c
      (rejected_now c.rejected_segments c.segments) stays
  where
    rejected_now : (others segs : List StreamDataSegment) → Leaves c (refused c others segs)
    rejected_now (first ∷ others) segs = same refl refl
    rejected_now [] [] = stays
    rejected_now [] (front ∷ rest) =
        let moved : Connection = record c {
          segments = (move_segments rest []).0;
          rejected_segments = (move_segments rest []).1;
        } in
        let d : Connection = notify moved event_bundle_refused in
        let l : Leaves c d =
          leaves (same refl refl) (notify-Leaves moved event_bundle_refused refl) in
        choose-Leaves (is_empty (move_segments rest []).0) c (record d { skip = true }) d
          (leaves l (same refl refl)) l

pub dispatch-Leaves :
    (t : SegmentType) (c : Connection) (seg : StreamDataSegment) → Leaves c (dispatch t c seg).0
unfolding dispatch
dispatch-Leaves msg_data_segment c seg = on_data-Leaves c seg
dispatch-Leaves msg_ack_segment c seg = on_ack-Leaves c seg.value
dispatch-Leaves msg_keepalive c seg = stays
dispatch-Leaves msg_refuse_bundle c seg = on_refuse-Leaves c
dispatch-Leaves msg_shutdown c seg = stays
dispatch-Leaves (unnamed n) c seg = stays

pub unread-Leaves : (c : Connection) (e : Error) → Leaves c (unread c e).0
unfolding unread
unread-Leaves c e =
    if-Leaves (is_short e) c (record c { good = false; incoming = [] }, stream_error) (c, thrown e)
      (same refl refl) stays

pub receive-Leaves : (n : ℕ) (c : Connection) → Leaves c (receive n c).0
unfolding receive
receive-Leaves zero c = stays
receive-Leaves (suc n) c =
    let first : Result (StreamDataSegment × List ℕ) → Connection × Outcome = λ r.
      elim r as (λ x. Connection × Outcome) [
        | err e ↦ unread c e
        | ok (seg, rest) ↦
            and_then (dispatch seg.type (record c { incoming = rest }) seg) (receive n)
      ] in
    let r = read_segment (plain_segment msg_keepalive) c.incoming in
    if-Leaves c.transferring c (c, returned) (if c.good then first r else (c, stream_error)) stays
      (if-Leaves c.good c (first r) (c, stream_error) (segment_read n c (receive-Leaves n) r) stays)
  where
    segment_read :
        (n : ℕ) (c : Connection)
        → ((d : Connection) → Leaves d (receive n d).0)
        → (r : Result (StreamDataSegment × List ℕ))
        → Leaves c
            (elim r as (λ x. Connection × Outcome) [
              | err e ↦ unread c e
              | ok (seg, rest) ↦
                  and_then (dispatch seg.type (record c { incoming = rest }) seg) (receive n)
            ]).0
    segment_read n c later (err e) = unread-Leaves c e
    segment_read n c later (ok (seg, rest)) =
        and_then-Leaves c (dispatch seg.type (record c { incoming = rest }) seg) (receive n)
          (leaves (same refl refl) (dispatch-Leaves seg.type (record c { incoming = rest }) seg))
          later

pub fill-Leaves : (c : Connection) → Leaves c (fill c).0
unfolding fill
fill-Leaves c =
    let filled : List ℕ → Connection → Connection × Outcome = λ bytes c.
      (record c { data_remain = c.data_remain - read_size c; in_buf = bytes }, returned) in
    if-Leaves c.good c (read_stream c (read_size c) filled) (c, stream_error)
      (read_stream-Leaves c (read_size c) filled (λ bytes d. same refl refl)) stays

pub underflow_caught-Leaves :
    (c : Connection) (r : Connection × Outcome) → Leaves c r.0 → Leaves c (underflow_caught r).0
unfolding underflow_caught
underflow_caught-Leaves c (d, returned) l = l
underflow_caught-Leaves c (d, stream_error) l = leaves l (same refl refl)
underflow_caught-Leaves c (d, stream_shutdown) l = leaves l (same refl refl)
underflow_caught-Leaves c (d, io_failure) l = l
underflow_caught-Leaves c (d, exhausted) l = l
underflow_caught-Leaves c (d, thrown e) l = l

pub underflow-Leaves : (c : Connection) → Leaves c (underflow c).0
unfolding underflow
underflow-Leaves c =
    let segment : Connection → Connection × Outcome = λ c. receive (suc (length c.incoming)) c in
    underflow_caught-Leaves c (and_then (and_then (answer c) segment) fill) (
      and_then-Leaves c (and_then (answer c) segment) fill
        (and_then-Leaves c (answer c) segment (answer-Leaves c)
          (λ d. receive-Leaves (suc (length d.incoming)) d))
        fill-Leaves)
