-- ===== src/Segment.antt =====
-- ibrdtn/ibrdtn/streams/StreamDataSegment.h and .cpp: the segments of the TCP convergence layer.
-- A char is a number below 256; `(header & 0xF0) >> 4` is `header / 16` and `header & 0x0F` is
-- `header % 16`.
pub mod RoundTrip
use ibrdtn.Base.{
  ℕ, zero, suc, ◌+◌, ◌-◌, ◌*◌, ◌/◌, ◌%◌, ◌^◌, ◌≤◌, ◌<◌, ◌≡◌, ◌≢◌, ◌⊎◌, inl, inr, refl, sym, ap, ◌∙◌,
  Bool, true, false, not, ◌&&◌, ◌||◌, Option, none, some, List, [], ◌∷◌, ◌++◌, arith, length, ltb,
  leb, ◌==◌, if◌then◌else◌, Result, ok, err, invalid_data, invalid_protocol, short_read, overrun,
  get_byte, ◌>>=◌, >>=-eq-ok, length-append, All, All-append, Bool-cases, Option-cases, map,
}
use ibrdtn.Sdnv.Stream.{write_sdnv, read_sdnv}

-- A cast from the four bits of the header may give a value that the enumeration does not name.
pub data SegmentType : Type 0 where
  msg_data_segment msg_ack_segment msg_refuse_bundle msg_keepalive msg_shutdown : SegmentType
  unnamed : ℕ → SegmentType

pub type_code : SegmentType → ℕ
type_code msg_data_segment = 1
type_code msg_ack_segment = 2
type_code msg_refuse_bundle = 3
type_code msg_keepalive = 4
type_code msg_shutdown = 5
type_code (unnamed n) = n

pub type_of_code : ℕ → SegmentType
type_of_code n =
    if n == 1
    then msg_data_segment
    else if n == 2
    then msg_ack_segment
    else if n == 3
    then msg_refuse_bundle
    else if n == 4
    then msg_keepalive
    else if n == 5
    then msg_shutdown
    else unnamed n

-- `reason` is the value of the enumeration ShutdownReason, an unsigned int.
pub record StreamDataSegment : Type 0 where
  pub value : ℕ
  pub type : SegmentType
  pub reason : ℕ
  pub flags : ℕ

abbrev pub msg_shutdown_none : ℕ
msg_shutdown_none = 0xff

abbrev pub msg_shutdown_idle_timeout : ℕ
msg_shutdown_idle_timeout = 0

-- The three constructors.
unfoldable pub sized_segment : SegmentType → ℕ → StreamDataSegment
sized_segment t size = record {
  value = size;
  type = t;
  reason = msg_shutdown_idle_timeout;
  flags = 0;
}

unfoldable pub plain_segment : SegmentType → StreamDataSegment
plain_segment t = record { value = 0; type = t; reason = msg_shutdown_idle_timeout; flags = 0 }

pub shutdown_segment : ℕ → ℕ → StreamDataSegment
shutdown_segment reason reconnect = record {
  value = reconnect;
  type = msg_shutdown;
  reason = reason;
  flags = 3;
}

-- What follows the header byte.
body : SegmentType → StreamDataSegment → Result (List ℕ)
body msg_data_segment seg = write_sdnv seg.value
body msg_ack_segment seg = write_sdnv seg.value
body msg_refuse_bundle seg = ok []
body msg_keepalive seg = ok []
body msg_shutdown seg = do len ← write_sdnv seg.value; ok ((seg.reason % 256) ∷ len)
body (unnamed n) seg = ok []

pub write_segment : StreamDataSegment → Result (List ℕ)
unfolding body type_code
write_segment seg = do
  rest ← body seg.type seg
  ok (((seg.flags + type_code seg.type % 16 * 16) % 256) ∷ rest)

-- A char is signed: from 128 on the cast into the enumeration wraps around.
pub reason_of_char : ℕ → ℕ
reason_of_char c = if ltb c 128 then c else c + (2 ^ 32 - 256)

read_body : SegmentType → StreamDataSegment → List ℕ → Result (StreamDataSegment × List ℕ)
unfolding reason_of_char
read_body msg_data_segment seg s = do (v, s) ← read_sdnv s; ok (record seg { value = v }, s)
read_body msg_ack_segment seg s = do (v, s) ← read_sdnv s; ok (record seg { value = v }, s)
read_body msg_refuse_bundle seg s = ok (seg, s)
read_body msg_keepalive seg s = ok (seg, s)
read_body msg_shutdown seg s = do
  (c, s) ← get_byte s
  (v, s) ← read_sdnv s
  ok (record seg { reason = reason_of_char c; value = v }, s)
read_body (unnamed n) seg s = ok (seg, s)

-- `operator>>` into a segment that exists: a field that the type does not carry stays as it was.
pub read_segment : StreamDataSegment → List ℕ → Result (StreamDataSegment × List ℕ)
unfolding read_body type_of_code
read_segment seg s = do
  (header, s) ← get_byte s
  read_body (type_of_code (header / 16))
      (record seg { type = type_of_code (header / 16); flags = header % 16 }) s
