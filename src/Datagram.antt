-- ===== src/Datagram.antt =====
-- daemon/src/net/DatagramConnection.h and DatagramConnection.cpp: the stream that cuts bundles into
-- datagrams and puts them together again.
pub mod Segments
pub mod Written
pub mod Transfer
pub mod Delivery
pub mod Acknowledge
pub mod Repeat
pub mod Waking
pub mod Wakeful
use ibrdtn.Base.{
  ℕ, zero, suc, ◌+◌, ◌-◌, ◌*◌, ◌/◌, ◌%◌, ◌^◌, ◌≤◌, ◌<◌, ◌≡◌, ◌≢◌, ◌⊎◌, inl, inr, refl, sym, ap, ◌∙◌,
  Bool, true, false, not, ◌&&◌, ◌||◌, Option, none, some, List, [], ◌∷◌, ◌++◌, arith, length, ltb,
  leb, ◌==◌, if◌then◌else◌, Result, ok, err, invalid_data, invalid_protocol, rejected, wrong_eid,
  aborted, unsent, short_read, overrun, get_byte, read_bytes, read_bytes-append, ◌>>=◌, >>=-eq-ok,
  length-append, All, All-append, subst, Bool-cases, Trichotomy, below, level, above, trichotomy,
  Option-cases, map,
}
use ibrdtn.Eid.{is_empty}
use ibrdtn.Flags.{has_flag, set_flag}

abbrev pub segment_middle : ℕ
segment_middle = 0

abbrev pub segment_last : ℕ
segment_last = 1

abbrev pub segment_first : ℕ
segment_first = 2

-- A datagram as `stream_send` and `queue` have it.
pub record Datagram : Type 0 where
  pub flags : ℕ
  pub seqno : ℕ
  pub bytes : List ℕ

-- `DatagramConnection::Stream`. `out_buf` is what stands before `pptr`, `queue_buf` the bytes that
-- `_queue_buf_len` counts.
pub record Stream : Type 0 where
  pub buf_size : ℕ
  pub maxseqno : ℕ
  pub in_state : ℕ
  pub out_state : ℕ
  pub queue_buf : List ℕ
  pub out_buf : List ℕ
  pub in_seq_num : ℕ
  pub out_seq_num : ℕ
  pub abort : Bool

-- The constructor.
unfoldable pub new_stream : ℕ → ℕ → Stream
new_stream maxmsglen maxseqno = record {
  buf_size = maxmsglen;
  maxseqno = maxseqno;
  in_state = segment_first;
  out_state = segment_first;
  queue_buf = [];
  out_buf = [];
  in_seq_num = 0;
  out_seq_num = 0;
  abort = false;
}

-- What `queue` does with a datagram: it takes it in, drops it and aborts the stream, or throws.
pub data Verdict : Type 0 where
  accepted dropped thrown : Verdict

-- `queue` up to the wait for a free buffer.
unfoldable pub queue : Stream → Datagram → Stream × Verdict
unfolding has_flag
queue s d =
    if s.abort
    then (s, thrown)
    else if not (s.in_seq_num == d.seqno)
    then (record s { abort = true }, if has_flag d.flags segment_first then thrown else dropped)
    else if has_flag s.in_state segment_first && not (has_flag d.flags segment_first)
    then (record s { abort = true }, dropped)
    else if s.in_state == segment_middle && has_flag d.flags segment_first
    then (record s { abort = true }, dropped)
    else (
      record s {
        in_state = if has_flag d.flags segment_last then segment_first else segment_middle;
        in_seq_num = (s.in_seq_num + 1) % s.maxseqno;
      },
      accepted,
    )

module _ (reaches : Datagram → Bool) where
  -- `overflow`, where `none` is the end of the file; `reaches` says whether `stream_send` returns.
  -- The stream afterwards, and what was sent.
  pub overflow : Stream → Option ℕ → Result (Stream × List Datagram)
  overflow s c =
      let bytes = s.out_buf ++ elim c [ none ↦ [] | some b ↦ b ∷ [] ] in
      let d : Datagram = record { flags = s.out_state; seqno = s.out_seq_num; bytes = bytes } in
      if s.abort
      then err aborted
      else if is_empty bytes
      then ok (record s { out_buf = [] }, [])
      else if reaches d
      then ok (
        record s {
          out_buf = [];
          out_seq_num = (s.out_seq_num + 1) % s.maxseqno;
          out_state = segment_middle;
        },
        d ∷ [],
      )
      else err unsent

  -- `sputc` of the standard library: the put area has one byte less than the buffer.
  pub put_char : Stream → ℕ → Result (Stream × List Datagram)
  unfolding overflow
  put_char s c =
      if ltb (length s.out_buf) (s.buf_size - 1)
      then ok (record s { out_buf = s.out_buf ++ (c ∷ []) }, [])
      else overflow s (some c)

  pub write_chars : Stream → List ℕ → Result (Stream × List Datagram)
  unfolding put_char
  write_chars s [] = ok (s, [])
  write_chars s (c ∷ cs) = do
    (s, sent) ← put_char s c
    (s, more) ← write_chars s cs
    ok (s, sent ++ more)

  pub sync : Stream → Result (Stream × List Datagram)
  unfolding overflow set_flag
  sync s = do
    (s, sent) ← overflow (record s { out_state = set_flag s.out_state segment_last }) none
    ok (record s { out_state = segment_first }, sent)

  -- What the sender does with the bytes of a bundle: write them, and flush.
  pub send_message : Stream → List ℕ → Result (Stream × List Datagram)
  unfolding write_chars sync
  send_message s m = do (s, sent) ← write_chars s m; (s, more) ← sync s; ok (s, sent ++ more)

joined : Verdict → List ℕ → Option (Stream × List ℕ) → Option (Stream × List ℕ)
joined accepted bytes none = none
joined accepted bytes (some (s, more)) = some (s, bytes ++ more)
joined dropped bytes rest = none
joined thrown bytes rest = none

-- The datagrams of a peer one behind the other, as long as they are accepted: the stream, and their
-- bytes.
pub queue_all : Stream → List Datagram → Option (Stream × List ℕ)
unfolding queue joined
queue_all s [] = some (s, [])
queue_all s (d ∷ ds) = joined (queue s d).1 d.bytes (queue_all (queue s d).0 ds)
