-- ===== src/Segment/RoundTrip.antt =====
-- Segments through a stream.
use ibrdtn.Base.{
  ◌≤◌, same_rest, ◌>>=◌, length, length-append, >>=-eq-ok, subst, sym, ℕ, ◌+◌, ◌-◌, ◌*◌, ◌/◌, ◌%◌,
  ◌^◌, ◌<◌, ◌≡◌, ◌≢◌, refl, ap, ◌∙◌, List, [], ◌∷◌, ◌++◌, arith, ok,
}
use ibrdtn.Sdnv.{IsU64}
use ibrdtn.Sdnv.Encode.{sdnv_bytes}
use ibrdtn.Sdnv.Stream.{write_sdnv-eq, read_sdnv-sdnv_bytes, read_sdnv, read_sdnv_sound}
use ibrdtn.Segment.{
  SegmentType, msg_data_segment, msg_ack_segment, msg_refuse_bundle, msg_keepalive, msg_shutdown,
  unnamed, StreamDataSegment, type_code, type_of_code, body, read_body, write_segment, read_segment,
  reason_of_char, shutdown_segment, msg_shutdown_none,
}

-- What the reader's segment is after it has read `seg`.
unfoldable pub received : StreamDataSegment → StreamDataSegment → SegmentType → StreamDataSegment
received old seg msg_data_segment = record old {
  value = seg.value;
  type = seg.type;
  flags = seg.flags;
}
received old seg msg_ack_segment = record old {
  value = seg.value;
  type = seg.type;
  flags = seg.flags;
}
received old seg msg_refuse_bundle = record old { type = seg.type; flags = seg.flags }
received old seg msg_keepalive = record old { type = seg.type; flags = seg.flags }
received old seg msg_shutdown = seg
received old seg (unnamed n) = record old { type = seg.type; flags = seg.flags }

-- The type is one that the four bits of the header can carry, and the cast gives it back.
abbrev pub IsNamed : SegmentType → Type 0
IsNamed (unnamed n) = ⊥
IsNamed msg_data_segment = Unit {0}
IsNamed msg_ack_segment = Unit {0}
IsNamed msg_refuse_bundle = Unit {0}
IsNamed msg_keepalive = Unit {0}
IsNamed msg_shutdown = Unit {0}

body_bytes : SegmentType → StreamDataSegment → List ℕ
body_bytes msg_data_segment seg = sdnv_bytes seg.value
body_bytes msg_ack_segment seg = sdnv_bytes seg.value
body_bytes msg_refuse_bundle seg = []
body_bytes msg_keepalive seg = []
body_bytes msg_shutdown seg = seg.reason ∷ sdnv_bytes seg.value
body_bytes (unnamed n) seg = []

body-eq :
    (t : SegmentType) (seg : StreamDataSegment)
    → IsU64 seg.value
    → seg.reason < 128
    → body t seg ≡ ok (body_bytes t seg)
unfolding body body_bytes
body-eq msg_data_segment seg h r = write_sdnv-eq seg.value h
body-eq msg_ack_segment seg h r = write_sdnv-eq seg.value h
body-eq msg_refuse_bundle seg h r = refl
body-eq msg_keepalive seg h r = refl
body-eq msg_shutdown seg h r = rw (write_sdnv-eq seg.value h) (ground arith)
body-eq (unnamed n) seg h r = refl

type_round : (t : SegmentType) → IsNamed t → (type_of_code (type_code t) ≡ t) × (type_code t < 16)
unfolding type_code type_of_code
type_round msg_data_segment h = (refl, omega arith)
type_round msg_ack_segment h = (refl, omega arith)
type_round msg_refuse_bundle h = (refl, omega arith)
type_round msg_keepalive h = (refl, omega arith)
type_round msg_shutdown h = (refl, omega arith)
type_round (unnamed n) h = absurd h

read_body-body_bytes :
    (t : SegmentType) (old seg : StreamDataSegment) (s : List ℕ)
    → seg.type ≡ t
    → IsU64 seg.value
    → seg.reason < 128
    → read_body t (record old { type = t; flags = seg.flags }) (body_bytes t seg ++ s)
      ≡ ok (received old seg t, s)
unfolding read_body body_bytes received
read_body-body_bytes msg_data_segment old seg s e h r =
    rw (read_sdnv-sdnv_bytes seg.value s h) (ground arith)
read_body-body_bytes msg_ack_segment old seg s e h r =
    rw (read_sdnv-sdnv_bytes seg.value s h) (ground arith)
read_body-body_bytes msg_refuse_bundle old seg s e h r = ground arith
read_body-body_bytes msg_keepalive old seg s e h r = ground arith
read_body-body_bytes msg_shutdown old seg s e h r =
    rw (read_sdnv-sdnv_bytes seg.value s h) (ground arith)
read_body-body_bytes (unnamed n) old seg s e h r = ground arith

read_header :
    (old seg : StreamDataSegment) (s : List ℕ) (header : ℕ)
    → header % 16 ≡ seg.flags
    → type_of_code (header / 16) ≡ seg.type
    → IsU64 seg.value
    → seg.reason < 128
    → read_segment old (header ∷ body_bytes seg.type seg ++ s) ≡ ok (received old seg seg.type, s)
unfolding read_segment
read_header old seg s header f t v r = rw (t, f) (read_body-body_bytes seg.type old seg s refl v r)

-- A segment of a named type with flags below 16, a 64-bit value and a reason below 128 is read
-- back from the stream, and the reader's other fields stay.
pub read-write_segment :
    (old seg : StreamDataSegment) (s : List ℕ)
    → IsNamed seg.type
    → seg.flags < 16
    → IsU64 seg.value
    → seg.reason < 128
    → (bs : List ℕ) × (write_segment seg ≡ ok bs)
      × (read_segment old (bs ++ s) ≡ ok (received old seg seg.type, s))
unfolding write_segment
read-write_segment old seg s named f v r =
    let header : ℕ = (seg.flags + type_code seg.type % 16 * 16) % 256 in
    let (back, small) = type_round seg.type named in
    (
      header ∷ body_bytes seg.type seg,
      rw (body-eq seg.type seg v r),
      read_header old seg s header (omega arith) (ap type_of_code (omega arith) ∙ back) v r,
    )

sdnv_left :
    {W : Type 0} (s rest : List ℕ) (f : ℕ → W) (w : W)
    → ◌>>=◌ {W = W × List ℕ} (read_sdnv s) (λ r. ok (f r.0, r.1)) ≡ ok (w, rest)
    → length rest ≤ length s
sdnv_left s rest f w e =
    let (r, first, second) = >>=-eq-ok (read_sdnv s) (λ r. ok (f r.0, r.1)) e in
    let sound = read_sdnv_sound s r.1 r.0 first in
    subst (λ l. length l ≤ length s) (same_rest second)
      (subst (λ l. length r.1 ≤ length l) (sym sound.1) (omega (arith, length-append sound.0 r.1)))

read_body-shorter :
    (t : SegmentType) (old seg : StreamDataSegment) (s rest : List ℕ)
    → read_body t old s ≡ ok (seg, rest)
    → length rest ≤ length s
unfolding read_body
read_body-shorter msg_data_segment old seg s rest e =
    sdnv_left s rest (λ v. record old { value = v }) seg e
read_body-shorter msg_ack_segment old seg s rest e =
    sdnv_left s rest (λ v. record old { value = v }) seg e
read_body-shorter msg_refuse_bundle old seg s rest e =
    subst (λ r. length r ≤ length s) (same_rest e) (omega arith)
read_body-shorter msg_keepalive old seg s rest e =
    subst (λ r. length r ≤ length s) (same_rest e) (omega arith)
read_body-shorter msg_shutdown old seg [] rest e = cc
read_body-shorter msg_shutdown old seg (c ∷ s) rest e =
    let shorter =
      sdnv_left s rest (λ v. record old { reason = reason_of_char c; value = v }) seg e in
    omega (arith, shorter)
read_body-shorter (unnamed n) old seg s rest e =
    subst (λ r. length r ≤ length s) (same_rest e) (omega arith)

-- A segment that is read takes at least one byte of the stream.
pub read_segment-shorter :
    (old seg : StreamDataSegment) (s rest : List ℕ)
    → read_segment old s ≡ ok (seg, rest)
    → length rest < length s
unfolding read_segment
read_segment-shorter old seg [] rest e = cc
read_segment-shorter old seg (header ∷ s) rest e =
    let shorter =
      read_body-shorter (type_of_code (header / 16))
        (record old { type = type_of_code (header / 16); flags = header % 16 }) seg s rest e in
    omega (arith, shorter)

-- The reader makes no difference between the reason 0xff, "none", and a value that the enumeration
-- does not name: a shutdown segment with it and a 64-bit value is read back with another reason.
shutdown_none_lost :
    (old : StreamDataSegment) (v : ℕ) (s : List ℕ)
    → IsU64 v
    → (bs : List ℕ) × (seg : StreamDataSegment) × (write_segment
          (shutdown_segment msg_shutdown_none v)
        ≡ ok bs)
      × (read_segment old (bs ++ s) ≡ ok (seg, s))
      × (seg.reason ≢ msg_shutdown_none)
unfolding write_segment read_segment read_body body shutdown_segment type_of_code reason_of_char
shutdown_none_lost old v s h = (
  83 ∷ 0xff ∷ sdnv_bytes v,
  record { value = v; type = msg_shutdown; reason = 2 ^ 32 - 1; flags = 3 },
  rw (write_sdnv-eq v h),
  rw (read_sdnv-sdnv_bytes v s h),
  omega arith,
)
