-- ===== src/Connection/Expected.antt =====
-- What a sender of StreamBuffer.cpp may get as answers to its segments, and what they mean.
use ibrdtn.Base.{
  ℕ, ◌≡◌, Bool, true, false, not, ◌&&◌, ◌||◌, Option, List, [], ◌∷◌, ◌++◌, if◌then◌else◌, All,
}
use ibrdtn.Segment.{StreamDataSegment}
use ibrdtn.Connection.{
  Connection, Event, event_bundle_ack, event_bundle_forwarded, event_bundle_refused, returned,
  overflow,
}
use ibrdtn.Connection.Receive.{on_ack, on_refuse}
use ibrdtn.Connection.Ledger.{begins, ends, cut, starts_new}

-- The answer to one segment. An acknowledgement has the size received so far.
pub data Answer : Type 0 where
  acks : ℕ → Answer
  refuses : Answer

unfoldable pub take_answer : Connection → Answer → Connection
unfolding on_ack on_refuse
take_answer c (acks size) = on_ack c size
take_answer c refuses = on_refuse c

-- A peer that refuses a segment refuses what follows it in its transfer. `refusing` says whether
-- the last answer was a refusal.
abbrev pub may_answer : Bool → StreamDataSegment → Answer → Bool
may_answer refusing seg (acks size) = not refusing || begins seg
may_answer refusing seg refuses = true

abbrev pub refusing_after : Answer → Bool
refusing_after (acks size) = false
refusing_after refuses = true

-- What the answer to a segment means for the user of the connection: the whole bundle is there
-- where its last segment is acknowledged, and it is refused once.
abbrev pub verdict : Bool → StreamDataSegment → Answer → List Event
verdict refusing seg (acks size) =
    (if ends seg then event_bundle_forwarded ∷ [] else []) ++ (event_bundle_ack size ∷ [])
verdict refusing seg refuses =
    if refusing && not (begins seg) then [] else event_bundle_refused ∷ []

-- A sender with the segments whose answers are still under way, and with what the answers so far
-- mean, segment by segment.
pub record Ledger : Type 0 where
  pub connection : Connection
  pub outstanding : List StreamDataSegment
  pub refusing : Bool
  pub meaning : List Event

unfoldable pub after_answer : Ledger → Answer → List StreamDataSegment → StreamDataSegment → Ledger
unfolding take_answer
after_answer l a rest seg = record {
  connection = take_answer l.connection a;
  outstanding = rest;
  refusing = refusing_after a;
  meaning = l.meaning ++ verdict l.refusing seg a;
}

pub data Step : Ledger → Ledger → Type 0 where
  sends :
      {l : Ledger} (ch : Option ℕ) (c : Connection)
      → overflow l.connection ch ≡ (c, returned)
      → Step l (record l { connection = c; outstanding = l.outstanding ++ cut l.connection ch })
  answers :
      {l : Ledger} (a : Answer) (seg : StreamDataSegment) (rest : List StreamDataSegment)
      → l.outstanding ≡ seg ∷ rest
      → may_answer l.refusing seg a ≡ true
      → Step l (after_answer l a rest seg)

pub data Run (first : Ledger) : Ledger → Type 0 where
  starts : Run first first
  goes_on : {l l' : Ledger} → Run first l → Step l l' → Run first l'

-- The queues hold what is outstanding, in its order.
pub record IsKept (l : Ledger) : Type 0 where
  pub acks : l.connection.ack_support ≡ true
  pub nacks : l.connection.nack_support ≡ true
  pub both : l.connection.rejected_segments ++ l.connection.segments ≡ l.outstanding
  pub within : All (λ seg. begins seg ≡ false) l.connection.rejected_segments
  pub none_refused : l.refusing ≡ false → l.connection.rejected_segments ≡ []
  pub starts : l.refusing ≡ true → starts_new l.connection ≡ true
  pub events : l.connection.events ≡ l.meaning

-- A connection that has done its handshake, and has sent nothing.
unfoldable pub new_ledger : Connection → Ledger
new_ledger c = record { connection = c; outstanding = []; refusing = false; meaning = c.events }

pub record IsFresh (c : Connection) : Type 0 where
  pub acks : c.ack_support ≡ true
  pub nacks : c.nack_support ≡ true
  pub segments : c.segments ≡ []
  pub others : c.rejected_segments ≡ []
