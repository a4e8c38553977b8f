-- ===== src/StatusReport/Stream.antt =====
-- A status report in a stream: StatusReportBlock.cpp.
use ibrdtn.Base.{
  ℕ, ◌^◌, ◌<◌, ◌≡◌, ap, false, List, ◌∷◌, ◌++◌, arith, length, if◌then◌else◌, ok, length-append,
}
use ibrdtn.Sdnv.{IsU64}
use ibrdtn.Sdnv.Encode.{sdnv_bytes, encoding_len-eq, length-sdnv_bytes}
use ibrdtn.Sdnv.Stream.{write_sdnv-eq, read_sdnv-sdnv_bytes}
use ibrdtn.Flags.{has_flag, put_flag}
use ibrdtn.DtnTime.{
  IsTime, time_bytes, write_time-eq, time_length-eq, read_time-time_bytes, read_time,
}
use ibrdtn.BundleText.{text_bytes, write_text-eq, text_length-eq, read_text-text_bytes}
use ibrdtn.Eid.{get_string}
use ibrdtn.Eid.Parse.{IsPlain, eid_of_text-get_string}
use ibrdtn.Decimal.{is_space}
use ibrdtn.Fields.{
  IsSpan, span_bytes, write_span-eq, span_length-eq, read_span-span_bytes, read_char-solid,
  bytes_if, write_if-eq, length_if-eq, read_if-bytes_if, read_span,
}
use ibrdtn.StatusReport.{
  StatusReport, report_length, write_report, read_report, receipt_of_bundle,
  custody_acceptance_of_bundle, forwarding_of_bundle, delivery_of_bundle, deletion_of_bundle,
  forwarded_without_processed,
}
use mathlib.Core.List.{append_assoc}

-- The fields that a stream can carry. None of the three characters is white space.
pub record IsReport (r : StatusReport) : Type 0 where
  pub admfield : is_space r.admfield ≡ false
  pub status : is_space r.status ≡ false
  pub reasoncode : is_space r.reasoncode ≡ false
  pub fragment : IsSpan r.fragment
  pub receipt : IsTime r.timeof_receipt
  pub custody : IsTime r.timeof_custodyaccept
  pub forwarding : IsTime r.timeof_forwarding
  pub delivery : IsTime r.timeof_delivery
  pub deletion : IsTime r.timeof_deletion
  pub timestamp : IsU64 r.bundle_timestamp
  pub sequence : IsU64 r.bundle_sequence
  pub source : IsPlain r.source
  pub short : length (get_string r.source) < 2 ^ 63

-- What a stream carries of a report: the fields that its flags name. The reader keeps its own
-- others.
pub carried : StatusReport → StatusReport → StatusReport
carried old r = record r {
  procflags = put_flag old.procflags forwarded_without_processed false;
  fragment = if has_flag r.admfield 1 then r.fragment else old.fragment;
  timeof_receipt =
      if has_flag r.status receipt_of_bundle then r.timeof_receipt else old.timeof_receipt;
  timeof_custodyaccept =
      if has_flag r.status custody_acceptance_of_bundle
      then r.timeof_custodyaccept
      else old.timeof_custodyaccept;
  timeof_forwarding =
      if has_flag r.status forwarding_of_bundle then r.timeof_forwarding else old.timeof_forwarding;
  timeof_delivery =
      if has_flag r.status delivery_of_bundle then r.timeof_delivery else old.timeof_delivery;
  timeof_deletion =
      if has_flag r.status deletion_of_bundle then r.timeof_deletion else old.timeof_deletion;
}

abbrev end_bytes : StatusReport → List ℕ
end_bytes r =
    sdnv_bytes r.bundle_timestamp
    ++ (sdnv_bytes r.bundle_sequence ++ text_bytes (get_string r.source))

report_bytes : StatusReport → List ℕ
report_bytes r =
    r.admfield
    ∷ r.status
    ∷ r.reasoncode
    ∷ (bytes_if (has_flag r.admfield 1) (span_bytes r.fragment)
        ++ (bytes_if (has_flag r.status receipt_of_bundle) (time_bytes r.timeof_receipt)
            ++ (bytes_if (has_flag r.status custody_acceptance_of_bundle)
                  (time_bytes r.timeof_custodyaccept)
                ++ (bytes_if (has_flag r.status forwarding_of_bundle)
                      (time_bytes r.timeof_forwarding)
                    ++ (bytes_if (has_flag r.status delivery_of_bundle)
                          (time_bytes r.timeof_delivery)
                        ++ (bytes_if (has_flag r.status deletion_of_bundle)
                              (time_bytes r.timeof_deletion)
                            ++ end_bytes r))))))

write_report-eq : (r : StatusReport) → IsReport r → write_report r ≡ ok (report_bytes r)
unfolding write_report report_bytes
write_report-eq r h =
    rw (write_if-eq (has_flag r.admfield 1) _ _ (write_span-eq r.fragment h.fragment)) (
      rw
        (write_if-eq (has_flag r.status receipt_of_bundle) _ _
          (write_time-eq r.timeof_receipt h.receipt))
        (rw
          (write_if-eq (has_flag r.status custody_acceptance_of_bundle) _ _
            (write_time-eq r.timeof_custodyaccept h.custody))
          (rw
            (write_if-eq (has_flag r.status forwarding_of_bundle) _ _
              (write_time-eq r.timeof_forwarding h.forwarding))
            (rw
              (write_if-eq (has_flag r.status delivery_of_bundle) _ _
                (write_time-eq r.timeof_delivery h.delivery))
              (rw
                (write_if-eq (has_flag r.status deletion_of_bundle) _ _
                  (write_time-eq r.timeof_deletion h.deletion))
                (rw (
                  write_sdnv-eq r.bundle_timestamp h.timestamp,
                  write_sdnv-eq r.bundle_sequence h.sequence,
                  write_text-eq (get_string r.source) h.short,
                )))))))

read_report-report_bytes :
    (old r : StatusReport) (s : List ℕ)
    → IsReport r
    → read_report old (report_bytes r ++ s) ≡ ok (carried old r, s)
unfolding read_report report_bytes carried
read_report-report_bytes old r s h = simp append_assoc (
    rw (read_char-solid r.admfield _ h.admfield) (
      rw (read_char-solid r.status _ h.status) (
        rw (read_char-solid r.reasoncode _ h.reasoncode) (
          rw
            (read_if-bytes_if (has_flag r.admfield 1) old.fragment r.fragment read_span
              (span_bytes r.fragment) _ (read_span-span_bytes r.fragment _ h.fragment))
            (rw
              (read_if-bytes_if (has_flag r.status receipt_of_bundle) old.timeof_receipt
                r.timeof_receipt read_time (time_bytes r.timeof_receipt) _
                (read_time-time_bytes r.timeof_receipt _ h.receipt))
              (rw
                (read_if-bytes_if (has_flag r.status custody_acceptance_of_bundle)
                  old.timeof_custodyaccept r.timeof_custodyaccept read_time
                  (time_bytes r.timeof_custodyaccept) _
                  (read_time-time_bytes r.timeof_custodyaccept _ h.custody))
                (rw
                  (read_if-bytes_if (has_flag r.status forwarding_of_bundle) old.timeof_forwarding
                    r.timeof_forwarding read_time (time_bytes r.timeof_forwarding) _
                    (read_time-time_bytes r.timeof_forwarding _ h.forwarding))
                  (rw
                    (read_if-bytes_if (has_flag r.status delivery_of_bundle) old.timeof_delivery
                      r.timeof_delivery read_time (time_bytes r.timeof_delivery) _
                      (read_time-time_bytes r.timeof_delivery _ h.delivery))
                    (rw
                      (read_if-bytes_if (has_flag r.status deletion_of_bundle) old.timeof_deletion
                        r.timeof_deletion read_time (time_bytes r.timeof_deletion) _
                        (read_time-time_bytes r.timeof_deletion _ h.deletion))
                      (rw (read_sdnv-sdnv_bytes r.bundle_timestamp _ h.timestamp) (
                        rw (read_sdnv-sdnv_bytes r.bundle_sequence _ h.sequence) (
                          rw (read_text-text_bytes (get_string r.source) s h.short)
                            (rw (eid_of_text-get_string r.source h.source))))))))))))))

report_length-eq : (r : StatusReport) → IsReport r → report_length r ≡ ok (length (report_bytes r))
unfolding report_length report_bytes
report_length-eq r h =
    rw (length_if-eq (has_flag r.admfield 1) _ _ (span_length-eq r.fragment h.fragment)) (
      rw
        (length_if-eq (has_flag r.status receipt_of_bundle) _ _
          (time_length-eq r.timeof_receipt h.receipt))
        (rw
          (length_if-eq (has_flag r.status custody_acceptance_of_bundle) _ _
            (time_length-eq r.timeof_custodyaccept h.custody))
          (rw
            (length_if-eq (has_flag r.status forwarding_of_bundle) _ _
              (time_length-eq r.timeof_forwarding h.forwarding))
            (rw
              (length_if-eq (has_flag r.status delivery_of_bundle) _ _
                (time_length-eq r.timeof_delivery h.delivery))
              (rw
                (length_if-eq (has_flag r.status deletion_of_bundle) _ _
                  (time_length-eq r.timeof_deletion h.deletion))
                (rw
                  (
                    encoding_len-eq r.bundle_timestamp h.timestamp,
                    encoding_len-eq r.bundle_sequence h.sequence,
                    text_length-eq (get_string r.source) h.short,
                  )
                  (ap ok (
                    simp length-append (
                      omega (
                        arith,
                        length-sdnv_bytes r.bundle_timestamp h.timestamp,
                        length-sdnv_bytes r.bundle_sequence h.sequence,
                      ))))))))))

-- A report whose numbers fit 64 bits, whose three characters are not white space, and whose source
-- is plain with a text shorter than 2 ^ 63 bytes, takes as many bytes in a stream as `getLength`
-- says, and is read back, whatever follows it: the fields that its flags name, and the reader's
-- own for the others.
pub read-write_report :
    (old r : StatusReport) (s : List ℕ)
    → IsReport r
    → (bs : List ℕ) × (write_report r ≡ ok bs)
      × (report_length r ≡ ok (length bs))
      × (read_report old (bs ++ s) ≡ ok (carried old r, s))
read-write_report old r s h =
    (report_bytes r, write_report-eq r h, report_length-eq r h, read_report-report_bytes old r s h)
