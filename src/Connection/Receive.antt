-- ===== src/Connection/Receive.antt =====
-- ibrdtn/ibrdtn/streams/StreamBuffer.cpp: what a connection receives, `underflow` and `skipData`.
use ibrdtn.Base.{
  ℕ, zero, suc, ◌+◌, ◌-◌, ◌%◌, ◌^◌, true, false, ◌&&◌, List, [], ◌∷◌, ◌++◌, length, ltb, ◌==◌,
  if◌then◌else◌, ok, err, overrun, read_bytes,
}
use ibrdtn.Base.{Error}
use ibrdtn.Eid.{is_empty}
use ibrdtn.Flags.{has_flag}
use ibrdtn.Segment.{
  SegmentType, msg_data_segment, msg_ack_segment, msg_refuse_bundle, msg_keepalive, msg_shutdown,
  unnamed, StreamDataSegment, sized_segment, plain_segment, read_segment,
}
use ibrdtn.Connection.{
  Connection, event_bundle_ack, event_bundle_forwarded, event_bundle_refused, Outcome, returned,
  stream_error, stream_shutdown, io_failure, exhausted, thrown, and_then, notify, send, mark_begin,
  mark_end, is_short,
}

-- `_stream.read(buffer, n)`, where `filled` says what happens to the bytes. A stream that ends
-- before is read to its end, goes bad and throws; the handlers turn that into an error of the
-- connection and go back to IDLE.
unfoldable pub read_stream :
    Connection → ℕ → (List ℕ → Connection → Connection × Outcome) → Connection × Outcome
read_stream c n filled = elim (read_bytes n c.incoming) [
  | err e ↦ (record c { good = false; incoming = []; transferring = false }, stream_error)
  | ok (bytes, rest) ↦ filled bytes (record c { incoming = rest })
]

-- Both reads take the smaller one of the buffer and of what remains of the segment.
abbrev pub read_size : Connection → ℕ
read_size c = if ltb c.data_remain c.buffer_size then c.data_remain else c.buffer_size

-- The loop of `skipData`.
unfoldable pub skip_loop : ℕ → Connection → Connection × Outcome
unfolding read_stream
skip_loop zero c = (c, exhausted)
skip_loop (suc n) c =
    if ltb 0 c.data_remain && c.good
    then read_stream c (read_size c)
        (λ bytes c. skip_loop n (record c { data_remain = c.data_remain - read_size c }))
    else (c, returned)

unfoldable pub skip_data : Connection → Connection × Outcome
unfolding skip_loop
skip_data c = skip_loop (suc c.data_remain) c

-- The refusal of a segment.
unfoldable pub refuse : Connection → Connection × Outcome
unfolding plain_segment send
refuse c = if c.nack_support then send c (plain_segment msg_refuse_bundle) [] else (c, returned)

-- The first part of `underflow`: the answer to a segment that is rejected, or read to its end.
unfoldable pub answer : Connection → Connection × Outcome
unfolding skip_data refuse sized_segment send
answer c =
    if c.transferring
    then if c.reject
      then and_then (and_then (refuse c) skip_data)
          (λ c. (record c { transferring = false }, returned))
      else if c.data_remain == 0
      then and_then
          (if c.ack_support
            then send c (sized_segment msg_ack_segment c.recv_size) []
            else (c, returned))
          (λ c. (record c { transferring = false }, returned))
      else (c, returned)
    else (c, returned)

-- The cases of the switch over the type of a segment.
unfoldable pub announce : Connection → StreamDataSegment → Connection
unfolding has_flag
announce c seg =
    record (if has_flag seg.flags mark_begin
      then record c { recv_size = seg.value; reject = false }
      else record c { recv_size = (c.recv_size + seg.value) % 2 ^ 64 }) { data_remain = seg.value }

unfoldable pub on_data : Connection → StreamDataSegment → Connection × Outcome
unfolding announce refuse skip_data
on_data c seg =
    let c = announce c seg in
    if c.reject then and_then (refuse c) skip_data else (record c { transferring = true }, returned)

unfoldable pub acknowledged : Connection → ℕ → List StreamDataSegment → Connection
unfolding notify has_flag
acknowledged c size [] = c
acknowledged c size (front ∷ rest) =
    let c = if has_flag front.flags mark_end then notify c event_bundle_forwarded else c in
    record (notify c (event_bundle_ack size)) { segments = rest }

unfoldable pub on_ack : Connection → ℕ → Connection
unfolding acknowledged
on_ack c size = if c.ack_support then acknowledged c size c.segments else c

-- The loop that moves the rest of a transfer from one queue to the other: both queues.
unfoldable pub move_segments :
    List StreamDataSegment
    → List StreamDataSegment
    → List StreamDataSegment × List StreamDataSegment
unfolding has_flag
move_segments [] moved = ([], moved)
move_segments (seg ∷ segments) moved =
    if has_flag seg.flags mark_begin
    then (seg ∷ segments, moved)
    else move_segments segments (moved ++ (seg ∷ []))

unfoldable pub refused : Connection → List StreamDataSegment → List StreamDataSegment → Connection
unfolding move_segments notify
refused c (first ∷ others) segments = record c { rejected_segments = others }
refused c [] [] = c
refused c [] (front ∷ rest) =
    let (left, moved) = move_segments rest [] in
    let c = notify (record c { segments = left; rejected_segments = moved }) event_bundle_refused in
    if is_empty left then record c { skip = true } else c

unfoldable pub on_refuse : Connection → Connection
unfolding refused
on_refuse c =
    if c.ack_support && c.nack_support then refused c c.rejected_segments c.segments else c

unfoldable pub dispatch : SegmentType → Connection → StreamDataSegment → Connection × Outcome
unfolding on_data on_ack on_refuse
dispatch msg_data_segment c seg = on_data c seg
dispatch msg_ack_segment c seg = (on_ack c seg.value, returned)
dispatch msg_keepalive c seg = (c, returned)
dispatch msg_refuse_bundle c seg = (on_refuse c, returned)
dispatch msg_shutdown c seg = (c, stream_shutdown)
dispatch (unnamed n) c seg = (c, returned)

-- A segment that cannot be read: the stream has ended, or the decoder has thrown.
unfoldable pub unread : Connection → Error → Connection × Outcome
unread c e =
    if is_short e then (record c { good = false; incoming = [] }, stream_error) else (c, thrown e)

-- The loop that reads segments until data is there.
unfoldable pub receive : ℕ → Connection → Connection × Outcome
unfolding dispatch unread plain_segment
receive zero c = (c, exhausted)
receive (suc n) c =
    if c.transferring
    then (c, returned)
    else if c.good
    then elim (read_segment (plain_segment msg_keepalive) c.incoming) [
      | err e ↦ unread c e
      | ok (seg, rest) ↦ and_then (dispatch seg.type (record c { incoming = rest }) seg) (receive n)
    ]
    else (c, stream_error)

-- The last part of `underflow`: the next bytes of the segment.
unfoldable pub fill : Connection → Connection × Outcome
unfolding read_stream
fill c =
    if c.good
    then read_stream c (read_size c) (λ bytes c.
      (record c { data_remain = c.data_remain - read_size c; in_buf = bytes }, returned))
    else (c, stream_error)

-- The handlers of `underflow`. After `stream_shutdown` it returns the end of the file.
unfoldable pub underflow_caught : Connection × Outcome → Connection × Outcome
underflow_caught (c, returned) = (c, returned)
underflow_caught (c, stream_error) = (record c { failed = true }, stream_error)
underflow_caught (c, stream_shutdown) = (record c { failed = true }, stream_shutdown)
underflow_caught (c, io_failure) = (c, io_failure)
underflow_caught (c, exhausted) = (c, exhausted)
underflow_caught (c, thrown e) = (c, thrown e)

unfoldable pub underflow : Connection → Connection × Outcome
unfolding answer receive fill underflow_caught
underflow c =
    underflow_caught
      (and_then (and_then (answer c) (λ c. receive (suc (length c.incoming)) c)) fill)

-- `reject`
unfoldable pub reject_bundle : Connection → Connection
reject_bundle c = record c { reject = true; in_buf = [] }

-- What a reader has after some calls: the bytes, and how the last call ended.
abbrev pub Taken : Type 0
Taken = (Connection × Outcome) × List ℕ

taken : Connection × Outcome → Taken
taken (c, returned) = elim c.in_buf [
  | [] ↦ ((c, thrown overrun), [])
  | b ∷ bs ↦ ((record c { in_buf = bs }, returned), b ∷ [])
]
taken (c, stream_error) = ((c, stream_error), [])
taken (c, stream_shutdown) = ((c, stream_shutdown), [])
taken (c, io_failure) = ((c, io_failure), [])
taken (c, exhausted) = ((c, exhausted), [])
taken (c, thrown e) = ((c, thrown e), [])

-- `sbumpc` of the standard library. A segment without data leaves the get area empty, and the byte
-- is read behind its end.
pub take_char : Connection → Taken
unfolding underflow taken
take_char c = taken (elim c.in_buf [ [] ↦ underflow c | b ∷ bs ↦ (c, returned) ])

then_take : Taken → (Connection → Taken) → Taken
then_take ((c, returned), bytes) next = ((next c).0, bytes ++ (next c).1)
then_take ((c, stream_error), bytes) next = ((c, stream_error), bytes)
then_take ((c, stream_shutdown), bytes) next = ((c, stream_shutdown), bytes)
then_take ((c, io_failure), bytes) next = ((c, io_failure), bytes)
then_take ((c, exhausted), bytes) next = ((c, exhausted), bytes)
then_take ((c, thrown e), bytes) next = ((c, thrown e), bytes)

-- A reader that takes `n` bytes.
pub read_chars : ℕ → Connection → Taken
unfolding take_char then_take
read_chars zero c = ((c, returned), [])
read_chars (suc n) c = then_take (take_char c) (read_chars n)
