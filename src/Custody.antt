-- ===== src/Custody.antt =====
-- ibrdtn/ibrdtn/data/CustodySignalBlock.h and CustodySignalBlock.cpp: the administrative record
-- that accepts or refuses the custody of a bundle.
pub mod Stream
pub mod Match
use ibrdtn.Base.{
  ℕ, zero, suc, ◌+◌, ◌-◌, ◌*◌, ◌/◌, ◌%◌, ◌^◌, ◌≤◌, ◌<◌, ◌≡◌, ◌≢◌, ◌⊎◌, inl, inr, refl, sym, ap, ◌∙◌,
  Bool, true, false, not, ◌&&◌, ◌||◌, Option, none, some, List, [], ◌∷◌, ◌++◌, arith, length, ltb,
  leb, ◌==◌, if◌then◌else◌, Result, ok, err, invalid_data, invalid_protocol, rejected, short_read,
  overrun, get_byte, read_bytes, read_bytes-append, ◌>>=◌, >>=-eq-ok, length-append, All,
  All-append, subst, Bool-cases, Trichotomy, below, level, above, trichotomy, Option-cases, map,
}
use ibrdtn.Sdnv.{encoding_len}
use ibrdtn.Sdnv.Stream.{write_sdnv, read_sdnv}
use ibrdtn.Flags.{has_flag, put_flag}
use ibrdtn.DtnTime.{DtnTime, time_length, write_time, read_time}
use ibrdtn.BundleText.{text_length, write_text, read_text}
use ibrdtn.Eid.{Eid, eid_of_text, get_string, eid_eq}
use ibrdtn.Fields.{
  Span, write_span, span_length, read_span, read_char, write_if, length_if, read_if,
}
use ibrdtn.PrimaryBlock.{PrimaryBlock, is_fragment}

-- The reason is kept as the 32-bit word of its enumeration.
pub record Custody : Type 0 where
  pub procflags : ℕ
  pub admfield : ℕ
  pub custody_accepted : Bool
  pub reason : ℕ
  pub fragment : Span
  pub timeofsignal : DtnTime
  pub bundle_timestamp : ℕ
  pub bundle_sequence : ℕ
  pub source : Eid

-- `getLength`
pub custody_length : Custody → Result ℕ
custody_length r = do
  span ← length_if (has_flag r.admfield 1) (span_length r.fragment)
  time ← time_length r.timeofsignal
  timestamp ← encoding_len r.bundle_timestamp
  sequence ← encoding_len r.bundle_sequence
  source ← text_length (get_string r.source)
  ok (2 + span + time + timestamp + sequence + source)

-- The reason of a status character: `status >> 1` keeps the sign of a char.
pub reason_of_status : ℕ → ℕ
reason_of_status status = if ltb status 128 then status / 2 else 2 ^ 32 - 128 + status / 2

-- The status character of a reason.
unfoldable pub status_of_reason : ℕ → Bool → ℕ
status_of_reason reason accepted = if accepted then reason * 2 % 256 + 1 else reason * 2 % 256

-- `deserialize` into a block that exists.
pub read_custody : Custody → List ℕ → Result (Custody × List ℕ)
unfolding reason_of_status
read_custody old s = do
  (adm, s) ← read_char s
  (status, s) ← read_char s
  (span, s) ← read_if (has_flag adm 1) old.fragment read_span s
  (time, s) ← read_time s
  (timestamp, s) ← read_sdnv s
  (sequence, s) ← read_sdnv s
  (source, s) ← read_text s
  ok (
    record {
      procflags = put_flag old.procflags 32 false;
      admfield = adm;
      custody_accepted = has_flag status 1;
      reason = reason_of_status status;
      fragment = span;
      timeofsignal = time;
      bundle_timestamp = timestamp;
      bundle_sequence = sequence;
      source = eid_of_text source;
    },
    s,
  )

-- `serialize`
pub write_custody : Custody → Result (List ℕ)
unfolding status_of_reason
write_custody r = do
  span ← write_if (has_flag r.admfield 1) (write_span r.fragment)
  time ← write_time r.timeofsignal
  timestamp ← write_sdnv r.bundle_timestamp
  sequence ← write_sdnv r.bundle_sequence
  source ← write_text (get_string r.source)
  ok (
      r.admfield
      ∷ status_of_reason r.reason r.custody_accepted
      ∷ (span ++ (time ++ (timestamp ++ (sequence ++ source)))))

-- `setMatch`, of a bundle.
pub set_match : Custody → PrimaryBlock → Custody
set_match r b =
    let matched : Custody = record r {
      bundle_timestamp = b.timestamp;
      bundle_sequence = b.sequencenumber;
      source = b.source;
    } in
    if is_fragment b
    then record matched {
      fragment = record { offset = b.fragmentoffset; size = b.appdatalength };
      admfield = if has_flag r.admfield 1 then r.admfield else (r.admfield + 1) % 256;
    }
    else matched

-- `match`
unfoldable pub matches : Custody → PrimaryBlock → Bool
unfolding eid_eq is_fragment
matches r b =
    if not (r.bundle_timestamp == b.timestamp)
    then false
    else if not (r.bundle_sequence == b.sequencenumber)
    then false
    else if not (eid_eq r.source b.source)
    then false
    else if is_fragment b
    then (if not (has_flag r.admfield 1)
        then false
        else if not (r.fragment.offset == b.fragmentoffset)
        then false
        else if not (r.fragment.size == b.appdatalength)
        then false
        else true)
    else true
