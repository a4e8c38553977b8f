-- ===== src/Connection/Ends.antt =====
-- The loops of `underflow` of StreamBuffer.cpp end.
use ibrdtn.Base.{
  ℕ, zero, suc, ◌+◌, ◌-◌, ◌%◌, ◌^◌, ◌≤◌, ◌<◌, ◌≡◌, ◌≢◌, refl, ◌∙◌, Bool, true, false, ◌&&◌, List,
  [], ◌∷◌, arith, length, ◌==◌, if◌then◌else◌, Result, ok, err, subst,
}
use ibrdtn.Base.{Error}
use ibrdtn.Eid.{is_empty}
use ibrdtn.Segment.{
  SegmentType, msg_data_segment, msg_ack_segment, msg_keepalive, msg_refuse_bundle, msg_shutdown,
  unnamed, StreamDataSegment, plain_segment, sized_segment, read_segment,
}
use ibrdtn.Segment.RoundTrip.{read_segment-shorter}
use ibrdtn.Connection.{
  Connection, Outcome, returned, stream_error, stream_shutdown, io_failure, exhausted, thrown,
  and_then, send, is_short, notify, event_bundle_forwarded,
}
use ibrdtn.Connection.Receive.{
  read_stream, read_size, skip_data, refuse, answer, announce, on_data, acknowledged, on_ack,
  refused, on_refuse, dispatch, unread, receive, fill, underflow, underflow_caught, move_segments,
}
use ibrdtn.Connection.Ledger.{begins, ends}
use ibrdtn.Connection.Bounded.{
  Ends, and_then-Ends, is_exhausted, if-Ends, at_once, stays_so, send-Ends, read_stream-Ends,
  refuse_and_skip-Ends,
}

idle-Ends :
    (c : Connection) (r : Connection × Outcome)
    → Ends c r
    → Ends c (and_then r (λ c. (record c { transferring = false }, returned)))
unfolding is_exhausted
idle-Ends c r l =
    and_then-Ends c r (λ c. (record c { transferring = false }, returned)) l
      (λ d s l. at_once refl refl stays_so)

answer-Ends : (c : Connection) → 0 < c.buffer_size → Ends c (answer c)
unfolding answer is_exhausted
answer-Ends c b =
    let idle : Connection × Outcome → Connection × Outcome =
      λ r. and_then r (λ c. (record c { transferring = false }, returned)) in
    let ack : Connection × Outcome =
      if c.ack_support
      then send c (sized_segment msg_ack_segment c.recv_size) []
      else (c, returned) in
    let rest : Connection × Outcome = if c.data_remain == 0 then idle ack else (c, returned) in
    let stay : Ends c (c, returned) = at_once refl refl stays_so in
    if-Ends c.transferring c (if c.reject then idle (and_then (refuse c) skip_data) else rest)
      (c, returned)
      (if-Ends c.reject c (idle (and_then (refuse c) skip_data)) rest
        (idle-Ends c (and_then (refuse c) skip_data) (refuse_and_skip-Ends c b))
        (if-Ends (c.data_remain == 0) c (idle ack) (c, returned)
          (idle-Ends c ack (
            if-Ends c.ack_support c (send c (sized_segment msg_ack_segment c.recv_size) [])
              (c, returned) (send-Ends c _ []) stay))
          stay))
      stay

-- A connection with the same size of its buffer and the same stream.
record SameStream (c d : Connection) : Type 0 where
  pub size : d.buffer_size ≡ c.buffer_size
  pub same : d.incoming ≡ c.incoming

SameStream-Ends :
    {c d : Connection} {r : Connection × Outcome} → SameStream c d → Ends d r → Ends c r
SameStream-Ends {r = r} s t = record {
  finishes = t.finishes;
  size = t.size ∙ s.size;
  shorter = subst (λ l. length r.0.incoming ≤ length l) s.same t.shorter;
}

choose-SameStream :
    (b : Bool) (c x y : Connection)
    → SameStream c x
    → SameStream c y
    → SameStream c (if b then x else y)
choose-SameStream true c x y l m = l
choose-SameStream false c x y l m = m

same_all : {c d : Connection} → SameStream c d → Ends c (d, returned)
unfolding is_exhausted
same_all s = at_once refl s.size (rw s.same stays_so)

announce-SameStream : (c : Connection) (seg : StreamDataSegment) → SameStream c (announce c seg)
unfolding announce
announce-SameStream c seg =
    let first : Connection = record c { recv_size = seg.value; reject = false } in
    let next : Connection = record c { recv_size = (c.recv_size + seg.value) % 2 ^ 64 } in
    let s =
      choose-SameStream (begins seg) c first next (record { size = refl; same = refl })
        (record { size = refl; same = refl }) in
    record { size = s.size; same = s.same }

on_data-Ends :
    (c : Connection) (seg : StreamDataSegment) → 0 < c.buffer_size → Ends c (on_data c seg)
unfolding on_data is_exhausted
on_data-Ends c seg b =
    let a = announce c seg in
    let s = announce-SameStream c seg in
    SameStream-Ends s (
      if-Ends a.reject a (and_then (refuse a) skip_data)
        (record a { transferring = true }, returned) (refuse_and_skip-Ends a (rw s.size b))
        (at_once refl refl stays_so))

on_ack-SameStream : (c : Connection) (size : ℕ) → SameStream c (on_ack c size)
unfolding on_ack acknowledged notify
on_ack-SameStream c size =
    choose-SameStream c.ack_support c (acknowledged c size c.segments) c (acked c.segments)
      (record { size = refl; same = refl })
  where
    acked : (segs : List StreamDataSegment) → SameStream c (acknowledged c size segs)
    acked [] = record { size = refl; same = refl }
    acked (front ∷ rest) =
        let s =
          choose-SameStream (ends front) c (notify c event_bundle_forwarded) c
            (record { size = refl; same = refl }) (record { size = refl; same = refl }) in
        record { size = s.size; same = s.same }

on_refuse-SameStream : (c : Connection) → SameStream c (on_refuse c)
unfolding on_refuse refused notify
on_refuse-SameStream c =
    choose-SameStream (c.ack_support && c.nack_support) c (refused c c.rejected_segments c.segments)
      c (rejected_now c.rejected_segments c.segments) (record { size = refl; same = refl })
  where
    rejected_now : (others segs : List StreamDataSegment) → SameStream c (refused c others segs)
    rejected_now (first ∷ others) segs = record { size = refl; same = refl }
    rejected_now [] [] = record { size = refl; same = refl }
    rejected_now [] (front ∷ rest) =
        choose-SameStream (is_empty (move_segments rest []).0) c _ _
          (record { size = refl; same = refl }) (record { size = refl; same = refl })

dispatch-Ends :
    (t : SegmentType) (c : Connection) (seg : StreamDataSegment)
    → 0 < c.buffer_size
    → Ends c (dispatch t c seg)
unfolding dispatch is_exhausted
dispatch-Ends msg_data_segment c seg b = on_data-Ends c seg b
dispatch-Ends msg_ack_segment c seg b = same_all (on_ack-SameStream c seg.value)
dispatch-Ends msg_keepalive c seg b = at_once refl refl stays_so
dispatch-Ends msg_refuse_bundle c seg b = same_all (on_refuse-SameStream c)
dispatch-Ends msg_shutdown c seg b = at_once refl refl stays_so
dispatch-Ends (unnamed n) c seg b = at_once refl refl stays_so

unread-Ends : (c : Connection) (e : Error) → Ends c (unread c e)
unfolding unread is_exhausted
unread-Ends c e =
    if-Ends (is_short e) c (record c { good = false; incoming = [] }, stream_error) (c, thrown e)
      (at_once refl refl (omega arith)) (at_once refl refl stays_so)

receive-Ends :
    (n : ℕ) (c : Connection) → 0 < c.buffer_size → length c.incoming < n → Ends c (receive n c)
unfolding receive is_exhausted
receive-Ends zero c b h = absurd (omega arith)
receive-Ends (suc n) c b h =
    let first : Result (StreamDataSegment × List ℕ) → Connection × Outcome = λ r.
      elim r as (λ x. Connection × Outcome) [
        | err e ↦ unread c e
        | ok (seg, rest) ↦
            and_then (dispatch seg.type (record c { incoming = rest }) seg) (receive n)
      ] in
    let r = read_segment (plain_segment msg_keepalive) c.incoming in
    if-Ends c.transferring c (c, returned) (if c.good then first r else (c, stream_error))
      (at_once refl refl stays_so)
      (if-Ends c.good c (first r) (c, stream_error) (segment_read n c b h (receive-Ends n) r refl)
        (at_once refl refl stays_so))
  where
    segment_read :
        (n : ℕ) (c : Connection)
        → 0 < c.buffer_size
        → length c.incoming < suc n
        → ((d : Connection) → 0 < d.buffer_size → length d.incoming < n → Ends d (receive n d))
        → (r : Result (StreamDataSegment × List ℕ))
        → read_segment (plain_segment msg_keepalive) c.incoming ≡ r
        → Ends c (elim r as (λ x. Connection × Outcome) [
          | err e ↦ unread c e
          | ok (seg, rest) ↦
              and_then (dispatch seg.type (record c { incoming = rest }) seg) (receive n)
        ])
    segment_read n c b h later (err e) same = unread-Ends c e
    segment_read n c b h later (ok (seg, rest)) same =
        let d : Connection = record c { incoming = rest } in
        let less = read_segment-shorter (plain_segment msg_keepalive) seg c.incoming rest same in
        let t =
          and_then-Ends d (dispatch seg.type d seg) (receive n) (dispatch-Ends seg.type d seg b)
            (λ f s l. later f (rw s b) (omega (arith, l, less, h))) in
        record { finishes = t.finishes; size = t.size; shorter = omega (arith, t.shorter, less) }

fill-Ends : (c : Connection) → Ends c (fill c)
unfolding fill is_exhausted
fill-Ends c =
    let filled : List ℕ → Connection → Connection × Outcome = λ bytes c.
      (record c { data_remain = c.data_remain - read_size c; in_buf = bytes }, returned) in
    if-Ends c.good c (read_stream c (read_size c) filled) (c, stream_error)
      (read_stream-Ends c (read_size c) filled (λ bytes rest l. at_once refl refl stays_so))
      (at_once refl refl stays_so)

caught-finishes : (r : Connection × Outcome) → r.1 ≢ exhausted → (underflow_caught r).1 ≢ exhausted
unfolding underflow_caught
caught-finishes (d, returned) f = f
caught-finishes (d, stream_error) f = f
caught-finishes (d, stream_shutdown) f = f
caught-finishes (d, io_failure) f = f
caught-finishes (d, exhausted) f = f
caught-finishes (d, thrown e) f = f

-- With a buffer that has room for a byte, the loops of `underflow`, which are cut off after as many
-- rounds as the stream has bytes and the segment has bytes left, end before they are cut off.
pub underflow_finishes : (c : Connection) → 0 < c.buffer_size → (underflow c).1 ≢ exhausted
unfolding underflow
underflow_finishes c b =
    let segment : Connection → Connection × Outcome = λ c. receive (suc (length c.incoming)) c in
    caught-finishes (and_then (and_then (answer c) segment) fill)
      (and_then-Ends c (and_then (answer c) segment) fill
        (and_then-Ends c (answer c) segment (answer-Ends c b)
          (λ d s l. receive-Ends (suc (length d.incoming)) d (rw s b) (omega arith)))
        (λ d s l. fill-Ends d)).finishes
