-- ===== src/Connection/Wire.antt =====
-- Both sides of a connection of StreamBuffer.cpp, and what is under way between them: a sender, a
-- receiver, and the segments and answers that the streams below carry in order.
use ibrdtn.Base.{
  ℕ, Bool, zero, suc, ok, err, length, ◌≡◌, true, false, Option, none, some, List, [], ◌∷◌, ◌++◌,
  if◌then◌else◌, map,
}
use ibrdtn.Sdnv.{IsU64}
use ibrdtn.Segment.{
  SegmentType, msg_data_segment, msg_ack_segment, msg_refuse_bundle, msg_keepalive, msg_shutdown,
  unnamed, StreamDataSegment, plain_segment, read_segment,
}
use ibrdtn.Connection.{Connection, returned, overflow}
use ibrdtn.Connection.Receive.{answer, on_data, fill, reject_bundle}
use ibrdtn.Connection.Ledger.{cut}
use ibrdtn.Connection.Expected.{Answer, acks, refuses, Ledger, after_answer, new_ledger}

-- `current` is the segment whose bytes the receiver reads, `back` the answers that the receiver has
-- written and the sender has not handled, with the segments that they are for, `ledger` the sender.
-- `due` are the answers that the receiver's decisions call for, of the same segments.
pub record Peers : Type 0 where
  pub ledger : Ledger
  pub receiver : Connection
  pub forth : List StreamDataSegment
  pub current : Option StreamDataSegment
  pub back : List (StreamDataSegment × Answer)
  pub due : List Answer

-- What a call has written: the bytes behind those that had been written before.
unfoldable pub behind : ℕ → List ℕ → List ℕ
behind zero bs = bs
behind (suc n) [] = []
behind (suc n) (b ∷ bs) = behind n bs

unfoldable pub appended : Connection → Connection → List ℕ
unfolding behind
appended c d = behind (length c.outgoing) d.outgoing

-- What the peer makes of a segment: an answer to one of its own, or not.
unfoldable pub answer_as : SegmentType → ℕ → List Answer
answer_as msg_data_segment v = []
answer_as msg_ack_segment v = acks v ∷ []
answer_as msg_refuse_bundle v = refuses ∷ []
answer_as msg_keepalive v = []
answer_as msg_shutdown v = []
answer_as (unnamed n) v = []

-- The answers that it reads from some bytes, with the reader of `underflow`. Each segment takes a
-- byte at least, so as many segments as there are bytes are enough.
unfoldable pub read_answers : ℕ → List ℕ → List Answer
unfolding answer_as
read_answers zero bs = []
read_answers (suc n) bs = elim (read_segment (plain_segment msg_keepalive) bs) [
  | err e ↦ []
  | ok (seg, rest) ↦ answer_as seg.type seg.value ++ read_answers n rest
]

-- The answers to a segment that a call of the receiver has written into the stream.
unfoldable pub reply :
    Connection → Connection → StreamDataSegment → List (StreamDataSegment × Answer)
unfolding appended read_answers
reply c d seg = map (λ a. (seg, a)) (read_answers (length (appended c d)) (appended c d))

unfoldable pub is_data : SegmentType → Bool
is_data msg_data_segment = true
is_data msg_ack_segment = false
is_data msg_refuse_bundle = false
is_data msg_keepalive = false
is_data msg_shutdown = false
is_data (unnamed n) = false

-- The data segments that the peer reads from some bytes, where it takes the data behind each.
unfoldable pub read_data : ℕ → List ℕ → List StreamDataSegment
unfolding is_data behind
read_data zero bs = []
read_data (suc n) bs = elim (read_segment (plain_segment msg_keepalive) bs) [
  | err e ↦ []
  | ok (seg, rest) ↦
      let behind_it = read_data n (behind (if is_data seg.type then seg.value else 0) rest) in
      if is_data seg.type then seg ∷ behind_it else behind_it
]

-- The data segments that a call of the sender has written into the stream.
unfoldable pub transmitted : Connection → Connection → List StreamDataSegment
unfolding appended read_data
transmitted c d = read_data (length (appended c d)) (appended c d)

abbrev pub behind_first : List StreamDataSegment → List StreamDataSegment
behind_first [] = []
behind_first (seg ∷ segs) = segs

unfoldable pub sent : Peers → Option ℕ → Connection → Peers
sent p ch c = record p {
  ledger = record p.ledger {
    connection = c;
    outstanding = p.ledger.outstanding ++ cut p.ledger.connection ch;
  };
  forth = p.forth ++ transmitted p.ledger.connection c;
}

unfoldable pub arrived : Peers → StreamDataSegment → List StreamDataSegment → Connection → Peers
arrived p seg rest r = record p {
  receiver = r;
  forth = rest;
  current = if r.transferring then some seg else none;
  back = p.back ++ reply p.receiver r seg;
  due = if r.reject then p.due ++ (refuses ∷ []) else p.due;
}

-- A bundle that the user has rejected is to be refused, any other segment acknowledged with the size
-- of its transfer so far.
abbrev pub answer_of : Connection → Answer
answer_of r = if r.reject then refuses else acks r.recv_size

unfoldable pub answered : Peers → StreamDataSegment → Connection → Peers
answered p seg r = record p {
  receiver = r;
  current = none;
  back = p.back ++ reply p.receiver r seg;
  due = p.due ++ (answer_of p.receiver ∷ []);
}

abbrev pub behind_due : List Answer → List Answer
behind_due [] = []
behind_due (a ∷ answers) = answers

unfoldable pub handled :
    Peers → StreamDataSegment → Answer → List (StreamDataSegment × Answer) → Peers
handled p seg a rest = record p {
  ledger = after_answer p.ledger a (behind_first p.ledger.outstanding) seg;
  back = rest;
  due = behind_due p.due;
}

-- How many bytes a call of `overflow` has to send.
abbrev pub buffered : Connection → Option ℕ → ℕ
buffered c ch = length (c.out_buf ++ elim ch [ none ↦ [] | some b ↦ b ∷ [] ])

-- The sizes of buffers and of segments are 64-bit numbers.
pub data Step : Peers → Peers → Type 0 where
  sends :
      {p : Peers} (ch : Option ℕ) (c : Connection)
      → IsU64 (buffered p.ledger.connection ch)
      → overflow p.ledger.connection ch ≡ (c, returned)
      → Step p (sent p ch c)
  arrives :
      {p : Peers} (seg : StreamDataSegment) (rest : List StreamDataSegment) (r : Connection)
      → p.forth ≡ seg ∷ rest
      → p.receiver.transferring ≡ false
      → IsU64 seg.value
      → on_data p.receiver seg ≡ (r, returned)
      → Step p (arrived p seg rest r)
  reads :
      {p : Peers} (r : Connection)
      → p.receiver.transferring ≡ true
      → fill p.receiver ≡ (r, returned)
      → Step p (record p { receiver = r })
  rejects : {p : Peers} → Step p (record p { receiver = reject_bundle p.receiver })
  answers :
      {p : Peers} (seg : StreamDataSegment) (r : Connection)
      → p.current ≡ some seg
      → answer p.receiver ≡ (r, returned)
      → r.transferring ≡ false
      → Step p (answered p seg r)
  handles :
      {p : Peers} (seg : StreamDataSegment) (a : Answer) (rest : List (StreamDataSegment × Answer))
      → p.back ≡ (seg, a) ∷ rest
      → Step p (handled p seg a rest)

pub data Run (first : Peers) : Peers → Type 0 where
  starts : Run first first
  goes_on : {p p' : Peers} → Run first p → Step p p' → Run first p'

abbrev pub in_hand : Option StreamDataSegment → List StreamDataSegment
in_hand none = []
in_hand (some seg) = seg ∷ []

abbrev pub answered_segments : List (StreamDataSegment × Answer) → List StreamDataSegment
answered_segments bs = map (λ b. b.0) bs

abbrev pub answers_of : List (StreamDataSegment × Answer) → List Answer
answers_of bs = map (λ b. b.1) bs

-- Two connections that have done their handshake.
unfoldable pub new_peers : Connection → Connection → Peers
new_peers s r = record {
  ledger = new_ledger s;
  receiver = r;
  forth = [];
  current = none;
  back = [];
  due = [];
}
