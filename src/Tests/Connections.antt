-- ===== src/Tests/Connections.antt =====
-- The theorems on connections.
use ibrdtn.Base.{
  ◌≡◌, ◌≢◌, refl, ap, ◌∙◌, true, false, none, [], ◌∷◌, ◌++◌, arith, if◌then◌else◌, read_bytes, All,
}
use ibrdtn.Segment.{StreamDataSegment}
use ibrdtn.Connection.{
  Connection, error, peer_shutdown, Outcome, returned, exhausted, new_connection, overflow,
  data_segment, mark,
}
use ibrdtn.Connection.Receive.{on_data, announce, fill, answer, underflow}
use ibrdtn.Connection.Shutdown.{shutdown, is_notset}
use ibrdtn.Connection.Ledger.{cut}
use ibrdtn.Connection.Expected.{Answer, acks, Ledger, new_ledger, after_answer, IsFresh}
use ibrdtn.Connection.Expected
use ibrdtn.Connection.Answers.{queues_match_answers}
use ibrdtn.Connection.Wire.{Peers, new_peers, sent, arrived, answered}
use ibrdtn.Connection.Wire
use ibrdtn.Connection.Transmitted.{overflow-transmitted}
use ibrdtn.Connection.Replies.{on_data-no_reply, answer-ack}
use ibrdtn.Connection.Underway.{IsAck}
use ibrdtn.Connection.Peers.{acked_whole}
use ibrdtn.Connection.Quiet.{downs}
use ibrdtn.Connection.Once.{Calls, down_once}
use ibrdtn.Connection.Once
use ibrdtn.Connection.Ends.{underflow_finishes}
use ibrdtn.Connection.Sending.{overflow_returns, answer_returns}

-- In the middle of a transfer, with three bytes that are not sent yet.
abbrev sender : Connection
sender = record (new_connection 16 []) {
  ack_support = true;
  nack_support = true;
  sob = false;
  out_buf = 1 ∷ 2 ∷ 3 ∷ [];
}

-- The three bytes stand in its stream, behind the header of their segment.
abbrev receiver : Connection
receiver = record (new_connection 16 (1 ∷ 2 ∷ 3 ∷ [])) { ack_support = true; nack_support = true }

sender-IsFresh : IsFresh sender
unfolding new_connection
sender-IsFresh = record { acks = refl; nacks = refl; segments = refl; others = refl }

receiver-IsFresh : IsFresh receiver
unfolding new_connection
receiver-IsFresh = record { acks = refl; nacks = refl; segments = refl; others = refl }

abbrev last_segment : StreamDataSegment
last_segment = data_segment false none (1 ∷ 2 ∷ 3 ∷ [])

ended : (r : Connection × Outcome) → r.1 ≡ returned → r ≡ (r.0, returned)
ended r e = ap (λ o. (r.0, o)) e

sender-sends : overflow sender none ≡ ((overflow sender none).0, returned)
unfolding new_connection
sender-sends = ended (overflow sender none) (overflow_returns sender none refl (omega arith))

abbrev ledger_sent : Ledger
ledger_sent = record (new_ledger sender) {
  connection = (overflow sender none).0;
  outstanding = cut sender none;
}

abbrev ledger_answered : Ledger
ledger_answered = after_answer ledger_sent (acks 3) [] last_segment

ledger-Run : Expected.Run (new_ledger sender) ledger_answered
unfolding new_connection new_ledger cut data_segment mark
ledger-Run =
    Expected.goes_on
      (Expected.goes_on Expected.starts (Expected.sends none (overflow sender none).0 sender-sends))
      (Expected.answers (acks 3) last_segment [] refl refl)

queues_match_answers_example :
    (ledger_answered.connection.events ≡ ledger_answered.meaning)
    × (ledger_answered.connection.rejected_segments ++ ledger_answered.connection.segments
        ≡ ledger_answered.outstanding)
queues_match_answers_example = queues_match_answers sender ledger_answered sender-IsFresh ledger-Run

abbrev announced : Connection
announced = (on_data receiver last_segment).0

abbrev filled : Connection
filled = (fill announced).0

abbrev peers_sent : Peers
peers_sent = sent (new_peers sender receiver) none (overflow sender none).0

abbrev peers_read : Peers
peers_read = record (arrived peers_sent last_segment [] announced) { receiver = filled }

abbrev peers_answered : Peers
peers_answered = answered peers_read last_segment (answer filled).0

filled-answers : ((answer filled).1 ≡ returned) × ((answer filled).0.transferring ≡ false)
unfolding new_connection data_segment on_data announce fill read_bytes
filled-answers = answer_returns filled refl refl refl refl (omega arith)

forth_sent : peers_sent.forth ≡ last_segment ∷ []
unfolding new_connection new_peers new_ledger sent cut mark
forth_sent = overflow-transmitted sender (overflow sender none).0 none (omega arith) sender-sends

peers-Run : Wire.Run (new_peers sender receiver) peers_answered
unfolding new_connection new_peers new_ledger sent arrived answered cut mark data_segment on_data
    announce fill read_bytes
peers-Run =
    Wire.goes_on
      (Wire.goes_on
        (Wire.goes_on
          (Wire.goes_on Wire.starts
            (Wire.sends none (overflow sender none).0 (omega arith) sender-sends))
          (Wire.arrives last_segment [] announced forth_sent refl (omega arith) refl))
        (Wire.reads filled refl refl))
      (Wire.answers last_segment (answer filled).0 refl (ended (answer filled) filled-answers.0)
        filled-answers.1)

acks_back : peers_answered.back ≡ (last_segment, acks 3) ∷ []
unfolding new_connection new_peers new_ledger sent arrived answered cut mark data_segment on_data
    announce fill read_bytes
acks_back =
    ap (λ b. b ++ Wire.reply filled (answer filled).0 last_segment)
      (on_data-no_reply receiver announced last_segment refl refl)
    ∙ answer-ack filled (answer filled).0 last_segment refl refl refl refl (omega arith)
        (ended (answer filled) filled-answers.0)

acked_whole_example : (peers_answered.ledger.refusing ≡ false) × All IsAck []
unfolding new_connection new_peers new_ledger sent arrived answered cut mark data_segment on_data
    announce fill read_bytes
acked_whole_example =
    acked_whole sender receiver peers_answered [] [] last_segment 3 sender-IsFresh receiver-IsFresh
      refl peers-Run acks_back tt refl

abbrev shut_down : Connection
shut_down = shutdown (shutdown receiver error) peer_shutdown

two_shutdowns :
    Calls (new_connection 16 []) (shutdown (shutdown (new_connection 16 []) error) peer_shutdown)
two_shutdowns =
    Once.goes_on (Once.goes_on Once.starts (Once.shuts_down error refl))
      (Once.shuts_down peer_shutdown refl)

down_once_example :
    downs (shutdown (shutdown (new_connection 16 []) error) peer_shutdown).events ≡ (
      if is_notset (shutdown (shutdown (new_connection 16 []) error) peer_shutdown).shutdown_reason
      then 0
      else 1)
down_once_example =
    down_once 16 [] (shutdown (shutdown (new_connection 16 []) error) peer_shutdown) two_shutdowns

underflow_finishes_example : (underflow receiver).1 ≢ exhausted
unfolding new_connection
underflow_finishes_example = underflow_finishes receiver (omega arith)
