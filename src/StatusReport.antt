-- ===== src/StatusReport.antt =====
-- ibrdtn/ibrdtn/data/StatusReportBlock.h and StatusReportBlock.cpp: the administrative record
-- that tells what became of a bundle.
pub mod Stream
use ibrdtn.Base.{
  ℕ, zero, suc, ◌+◌, ◌-◌, ◌*◌, ◌/◌, ◌%◌, ◌^◌, ◌≤◌, ◌<◌, ◌≡◌, ◌≢◌, ◌⊎◌, inl, inr, refl, sym, ap, ◌∙◌,
  Bool, true, false, not, ◌&&◌, ◌||◌, Option, none, some, List, [], ◌∷◌, ◌++◌, arith, length, ltb,
  leb, ◌==◌, if◌then◌else◌, Result, ok, err, invalid_data, invalid_protocol, rejected, short_read,
  overrun, get_byte, read_bytes, read_bytes-append, ◌>>=◌, >>=-eq-ok, length-append, All,
  All-append, subst, Bool-cases, Trichotomy, below, level, above, trichotomy, Option-cases, map,
}
use ibrdtn.Sdnv.{encoding_len}
use ibrdtn.Sdnv.Stream.{write_sdnv, read_sdnv}
use ibrdtn.Flags.{has_flag, put_flag}
use ibrdtn.DtnTime.{DtnTime, time_length, write_time, read_time}
use ibrdtn.BundleText.{text_length, write_text, read_text}
use ibrdtn.Eid.{Eid, eid_of_text, get_string}
use ibrdtn.Fields.{
  Span, write_span, span_length, read_span, read_char, write_if, length_if, read_if,
}

-- The characters are bytes; `procflags` is the word of `Block`.
pub record StatusReport : Type 0 where
  pub procflags : ℕ
  pub admfield : ℕ
  pub status : ℕ
  pub reasoncode : ℕ
  pub fragment : Span
  pub timeof_receipt : DtnTime
  pub timeof_custodyaccept : DtnTime
  pub timeof_forwarding : DtnTime
  pub timeof_delivery : DtnTime
  pub timeof_deletion : DtnTime
  pub bundle_timestamp : ℕ
  pub bundle_sequence : ℕ
  pub source : Eid

abbrev pub receipt_of_bundle : ℕ
receipt_of_bundle = 1

abbrev pub custody_acceptance_of_bundle : ℕ
custody_acceptance_of_bundle = 2

abbrev pub forwarding_of_bundle : ℕ
forwarding_of_bundle = 4

abbrev pub delivery_of_bundle : ℕ
delivery_of_bundle = 8

abbrev pub deletion_of_bundle : ℕ
deletion_of_bundle = 16

abbrev pub forwarded_without_processed : ℕ
forwarded_without_processed = 32

-- `getLength`
pub report_length : StatusReport → Result ℕ
report_length r = do
  span ← length_if (has_flag r.admfield 1) (span_length r.fragment)
  receipt ← length_if (has_flag r.status receipt_of_bundle) (time_length r.timeof_receipt)
  custody ←
      length_if (has_flag r.status custody_acceptance_of_bundle)
        (time_length r.timeof_custodyaccept)
  forwarding ← length_if (has_flag r.status forwarding_of_bundle) (time_length r.timeof_forwarding)
  delivery ← length_if (has_flag r.status delivery_of_bundle) (time_length r.timeof_delivery)
  deletion ← length_if (has_flag r.status deletion_of_bundle) (time_length r.timeof_deletion)
  timestamp ← encoding_len r.bundle_timestamp
  sequence ← encoding_len r.bundle_sequence
  source ← text_length (get_string r.source)
  ok (
      3 + span + receipt + custody + forwarding + delivery + deletion + timestamp + sequence
      + source)

-- `serialize`
pub write_report : StatusReport → Result (List ℕ)
write_report r = do
  span ← write_if (has_flag r.admfield 1) (write_span r.fragment)
  receipt ← write_if (has_flag r.status receipt_of_bundle) (write_time r.timeof_receipt)
  custody ←
      write_if (has_flag r.status custody_acceptance_of_bundle) (write_time r.timeof_custodyaccept)
  forwarding ← write_if (has_flag r.status forwarding_of_bundle) (write_time r.timeof_forwarding)
  delivery ← write_if (has_flag r.status delivery_of_bundle) (write_time r.timeof_delivery)
  deletion ← write_if (has_flag r.status deletion_of_bundle) (write_time r.timeof_deletion)
  timestamp ← write_sdnv r.bundle_timestamp
  sequence ← write_sdnv r.bundle_sequence
  source ← write_text (get_string r.source)
  ok (
      r.admfield
      ∷ r.status
      ∷ r.reasoncode
      ∷ (span
          ++ (receipt
              ++ (custody
                  ++ (forwarding
                      ++ (delivery ++ (deletion ++ (timestamp ++ (sequence ++ source)))))))))

-- `deserialize` into a block that exists.
pub read_report : StatusReport → List ℕ → Result (StatusReport × List ℕ)
read_report old s = do
  (adm, s) ← read_char s
  (status, s) ← read_char s
  (reason, s) ← read_char s
  (span, s) ← read_if (has_flag adm 1) old.fragment read_span s
  (receipt, s) ← read_if (has_flag status receipt_of_bundle) old.timeof_receipt read_time s
  (custody, s) ←
      read_if (has_flag status custody_acceptance_of_bundle) old.timeof_custodyaccept read_time s
  (forwarding, s) ← read_if (has_flag status forwarding_of_bundle) old.timeof_forwarding read_time s
  (delivery, s) ← read_if (has_flag status delivery_of_bundle) old.timeof_delivery read_time s
  (deletion, s) ← read_if (has_flag status deletion_of_bundle) old.timeof_deletion read_time s
  (timestamp, s) ← read_sdnv s
  (sequence, s) ← read_sdnv s
  (source, s) ← read_text s
  ok (
    record {
      procflags = put_flag old.procflags forwarded_without_processed false;
      admfield = adm;
      status = status;
      reasoncode = reason;
      fragment = span;
      timeof_receipt = receipt;
      timeof_custodyaccept = custody;
      timeof_forwarding = forwarding;
      timeof_delivery = delivery;
      timeof_deletion = deletion;
      bundle_timestamp = timestamp;
      bundle_sequence = sequence;
      source = eid_of_text source;
    },
    s,
  )
