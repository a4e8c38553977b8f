-- ===== src/Custody/Stream.antt =====
-- A custody signal in a stream: CustodySignalBlock.cpp.
use ibrdtn.Base.{
  ℕ, ◌^◌, ◌<◌, ◌≡◌, ◌⊎◌, inl, inr, refl, ap, Bool, true, false, List, ◌∷◌, ◌++◌, arith, length,
  if◌then◌else◌, ok, length-append,
}
use ibrdtn.Sdnv.{IsU64}
use ibrdtn.Sdnv.Encode.{sdnv_bytes, encoding_len-eq, length-sdnv_bytes}
use ibrdtn.Sdnv.Stream.{write_sdnv-eq, read_sdnv-sdnv_bytes}
use ibrdtn.Flags.{has_flag, put_flag}
use ibrdtn.DtnTime.{IsTime, time_bytes, write_time-eq, time_length-eq, read_time-time_bytes}
use ibrdtn.BundleText.{text_bytes, write_text-eq, text_length-eq, read_text-text_bytes}
use ibrdtn.Eid.{get_string}
use ibrdtn.Eid.Parse.{IsPlain, eid_of_text-get_string}
use ibrdtn.Decimal.{is_space}
use ibrdtn.Fields.{
  IsSpan, span_bytes, write_span-eq, span_length-eq, read_span-span_bytes, read_char-solid,
  read_char-space, bytes_if, write_if-eq, length_if-eq, read_if-bytes_if, read_span,
}
use ibrdtn.Custody.{
  Custody, custody_length, read_custody, write_custody, reason_of_status, status_of_reason,
}
use mathlib.Core.List.{append_assoc}

-- The fields that a stream can carry. The status character must not be white space.
pub record IsCustody (r : Custody) : Type 0 where
  pub admfield : is_space r.admfield ≡ false
  pub status : is_space (status_of_reason r.reason r.custody_accepted) ≡ false
  pub reason : r.reason < 64
  pub fragment : IsSpan r.fragment
  pub time : IsTime r.timeofsignal
  pub timestamp : IsU64 r.bundle_timestamp
  pub sequence : IsU64 r.bundle_sequence
  pub source : IsPlain r.source
  pub short : length (get_string r.source) < 2 ^ 63

pub custody_carried : Custody → Custody → Custody
custody_carried old r = record r {
  procflags = put_flag old.procflags 32 false;
  fragment = if has_flag r.admfield 1 then r.fragment else old.fragment;
}

custody_bytes : Custody → List ℕ
unfolding status_of_reason
custody_bytes r =
    r.admfield
    ∷ status_of_reason r.reason r.custody_accepted
    ∷ (bytes_if (has_flag r.admfield 1) (span_bytes r.fragment)
        ++ (time_bytes r.timeofsignal
            ++ (sdnv_bytes r.bundle_timestamp
                ++ (sdnv_bytes r.bundle_sequence ++ text_bytes (get_string r.source)))))

write_custody-eq : (r : Custody) → IsCustody r → write_custody r ≡ ok (custody_bytes r)
unfolding write_custody custody_bytes
write_custody-eq r h =
    rw (write_if-eq (has_flag r.admfield 1) _ _ (write_span-eq r.fragment h.fragment)) (
      rw (
        write_time-eq r.timeofsignal h.time,
        write_sdnv-eq r.bundle_timestamp h.timestamp,
        write_sdnv-eq r.bundle_sequence h.sequence,
        write_text-eq (get_string r.source) h.short,
      ))

custody_length-eq : (r : Custody) → IsCustody r → custody_length r ≡ ok (length (custody_bytes r))
unfolding custody_length custody_bytes
custody_length-eq r h =
    rw (length_if-eq (has_flag r.admfield 1) _ _ (span_length-eq r.fragment h.fragment)) (
      rw
        (
          time_length-eq r.timeofsignal h.time,
          encoding_len-eq r.bundle_timestamp h.timestamp,
          encoding_len-eq r.bundle_sequence h.sequence,
          text_length-eq (get_string r.source) h.short,
        )
        (ap ok (
          simp length-append (
            omega (
              arith,
              length-sdnv_bytes r.bundle_timestamp h.timestamp,
              length-sdnv_bytes r.bundle_sequence h.sequence,
            )))))

accepted_of_status :
    (reason : ℕ) (accepted : Bool)
    → reason < 64
    → has_flag (status_of_reason reason accepted) 1 ≡ accepted
unfolding status_of_reason has_flag
accepted_of_status reason true h = ground arith
accepted_of_status reason false h = ground arith

reason_of_status-status_of_reason :
    (reason : ℕ) (accepted : Bool)
    → reason < 64
    → reason_of_status (status_of_reason reason accepted) ≡ reason
unfolding status_of_reason reason_of_status
reason_of_status-status_of_reason reason true h = ground arith
reason_of_status-status_of_reason reason false h = ground arith

read_custody-custody_bytes :
    (old r : Custody) (s : List ℕ)
    → IsCustody r
    → read_custody old (custody_bytes r ++ s) ≡ ok (custody_carried old r, s)
unfolding read_custody custody_bytes custody_carried
read_custody-custody_bytes old r s h = simp append_assoc (
    rw (read_char-solid r.admfield _ h.admfield) (
      rw (read_char-solid (status_of_reason r.reason r.custody_accepted) _ h.status) (
        rw
          (read_if-bytes_if (has_flag r.admfield 1) old.fragment r.fragment read_span
            (span_bytes r.fragment) _ (read_span-span_bytes r.fragment _ h.fragment))
          (rw (read_time-time_bytes r.timeofsignal _ h.time) (
            rw (read_sdnv-sdnv_bytes r.bundle_timestamp _ h.timestamp) (
              rw (read_sdnv-sdnv_bytes r.bundle_sequence _ h.sequence) (
                rw (read_text-text_bytes (get_string r.source) s h.short) (
                  rw (
                    eid_of_text-get_string r.source h.source,
                    accepted_of_status r.reason r.custody_accepted h.reason,
                    reason_of_status-status_of_reason r.reason r.custody_accepted h.reason,
                  )))))))))

-- A custody signal with a reason below 64, none of whose two characters is white space, whose
-- numbers fit 64 bits, and whose source is plain with a text shorter than 2 ^ 63 bytes, takes as
-- many bytes in a stream as `getLength` says, and is read back, whatever follows it; without a
-- fragment, the reader keeps its own offset and length.
pub read-write_custody :
    (old r : Custody) (s : List ℕ)
    → IsCustody r
    → (bs : List ℕ) × (write_custody r ≡ ok bs)
      × (custody_length r ≡ ok (length bs))
      × (read_custody old (bs ++ s) ≡ ok (custody_carried old r, s))
read-write_custody old r s h = (
  custody_bytes r,
  write_custody-eq r h,
  custody_length-eq r h,
  read_custody-custody_bytes old r s h,
)

space_of_reason :
    (reason : ℕ) → (reason ≡ 5) ⊎ (reason ≡ 6) → is_space (status_of_reason reason false) ≡ true
unfolding status_of_reason
space_of_reason reason (inl e) = rw e refl
space_of_reason reason (inr e) = rw e refl

-- A refusal for reason 5 (the destination is unintelligible) or 6 (no known route), behind an
-- administrative field that is not white space, is read as if its status character were not in the
-- stream, since that character is a line feed or a form feed.
pub refusal_skipped :
    (old : Custody) (adm reason : ℕ) (s : List ℕ)
    → is_space adm ≡ false
    → (reason ≡ 5) ⊎ (reason ≡ 6)
    → read_custody old (adm ∷ status_of_reason reason false ∷ s) ≡ read_custody old (adm ∷ s)
unfolding read_custody
refusal_skipped old adm reason s h either = rw (
  read_char-solid adm (status_of_reason reason false ∷ s) h,
  read_char-solid adm s h,
  read_char-space (status_of_reason reason false) s (space_of_reason reason either),
)
