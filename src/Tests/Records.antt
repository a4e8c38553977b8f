-- ===== src/Tests/Records.antt =====
-- The theorems on EIDs, identities, blocks and administrative records.
use ibrdtn.Base.{
  ℕ, ◌≡◌, inr, refl, true, false, some, List, [], ◌∷◌, ◌++◌, arith, length, ◌==◌, if◌then◌else◌, ok,
}
use ibrdtn.Eid.{eid_of_text, get_string, get_host, get_application, has_application}
use ibrdtn.Eid.Parse.{eid_of_text-get_string}
use ibrdtn.Eid.Order.{Compares}
use ibrdtn.Eid.Cbhe.{eid_of_numbers, get_compressed, get_compressed-eid_of_numbers}
use ibrdtn.BundleId.{id_lt, id_eq}
use ibrdtn.BundleId.Laws.{id_Compares, id_eq_asymmetric}
use ibrdtn.Fields.{Span, IsSpan}
use ibrdtn.StatusReport.{StatusReport, write_report, report_length, read_report}
use ibrdtn.StatusReport.Stream.{carried, read-write_report}
use ibrdtn.Custody.{Custody, write_custody, custody_length, read_custody, status_of_reason, matches}
use ibrdtn.Custody.Stream.{custody_carried, read-write_custody, refusal_skipped}
use ibrdtn.HopLimit.{HopLimit}
use ibrdtn.PrimaryBlock.{PrimaryBlock}
use ibrdtn.Tests.{
  node_eid, cbhe_eid, node_eid-IsPlain, whole_id, next_id, fragment_id, whole_id-IsRegular,
  next_id-IsRegular, some_time, some_time-IsTime, some_block,
}

eid_of_text-get_string_example : eid_of_text (get_string node_eid) ≡ node_eid
eid_of_text-get_string_example = eid_of_text-get_string node_eid node_eid-IsPlain

abbrev four : List ℕ
four = b'4' ∷ []

abbrev two : List ℕ
two = b'2' ∷ []

cbhe_host : get_host cbhe_eid ≡ some four
unfolding get_host
cbhe_host = refl

cbhe_application : get_application cbhe_eid ≡ some two
unfolding get_application
cbhe_application = refl

cbhe_has : has_application cbhe_eid ≡ some true
unfolding has_application
cbhe_has = refl

get_compressed-eid_of_numbers_example :
    get_compressed (eid_of_numbers 4 2) ≡ some (4, if 4 == 0 then 0 else 2)
get_compressed-eid_of_numbers_example =
    get_compressed-eid_of_numbers 4 2 (omega arith) (omega arith)

id_Compares_example : Compares id_lt id_eq whole_id next_id
id_Compares_example = id_Compares false whole_id next_id whole_id-IsRegular next_id-IsRegular

id_eq_asymmetric_example :
    (id_eq whole_id (fragment_id 9) ≡ true) × (id_eq (fragment_id 9) whole_id ≡ false)
id_eq_asymmetric_example =
    id_eq_asymmetric whole_id (fragment_id 9) refl refl refl refl refl (omega arith)

abbrev some_span : Span
some_span = record { offset = 20; size = 300 }

some_span-IsSpan : IsSpan some_span
some_span-IsSpan = record { offset = omega arith; size = omega arith }

-- A fragment was received and forwarded.
abbrev some_report : ℕ → StatusReport
some_report adm = record {
  procflags = 32;
  admfield = adm;
  status = 5;
  reasoncode = 2;
  fragment = some_span;
  timeof_receipt = some_time;
  timeof_custodyaccept = some_time;
  timeof_forwarding = some_time;
  timeof_delivery = some_time;
  timeof_deletion = some_time;
  bundle_timestamp = 500;
  bundle_sequence = 1;
  source = node_eid;
}

read-write_report_example :
    (bs : List ℕ) × (write_report (some_report 17) ≡ ok bs)
    × (report_length (some_report 17) ≡ ok (length bs))
    × (read_report (some_report 0) (bs ++ (7 ∷ []))
        ≡ ok (carried (some_report 0) (some_report 17), 7 ∷ []))
unfolding get_string
read-write_report_example = read-write_report (some_report 0) (some_report 17) (7 ∷ []) (record {
  admfield = refl;
  status = refl;
  reasoncode = refl;
  fragment = some_span-IsSpan;
  receipt = some_time-IsTime;
  custody = some_time-IsTime;
  forwarding = some_time-IsTime;
  delivery = some_time-IsTime;
  deletion = some_time-IsTime;
  timestamp = omega arith;
  sequence = omega arith;
  source = node_eid-IsPlain;
  short = omega arith;
})

-- Custody of a fragment is refused, since the storage is depleted.
abbrev some_signal : Custody
some_signal = record {
  procflags = 32;
  admfield = 33;
  custody_accepted = false;
  reason = 7;
  fragment = some_span;
  timeofsignal = some_time;
  bundle_timestamp = 500;
  bundle_sequence = 1;
  source = node_eid;
}

read-write_custody_example :
    (bs : List ℕ) × (write_custody some_signal ≡ ok bs)
    × (custody_length some_signal ≡ ok (length bs))
    × (read_custody some_signal (bs ++ (7 ∷ []))
        ≡ ok (custody_carried some_signal some_signal, 7 ∷ []))
unfolding get_string status_of_reason
read-write_custody_example = read-write_custody some_signal some_signal (7 ∷ []) (record {
  admfield = refl;
  status = refl;
  reason = omega arith;
  fragment = some_span-IsSpan;
  time = some_time-IsTime;
  timestamp = omega arith;
  sequence = omega arith;
  source = node_eid-IsPlain;
  short = omega arith;
})

refusal_skipped_example :
    read_custody some_signal (33 ∷ status_of_reason 6 false ∷ 1 ∷ [])
    ≡ read_custody some_signal (33 ∷ 1 ∷ [])
refusal_skipped_example = refusal_skipped some_signal 33 6 (1 ∷ []) refl (inr refl)

abbrev other_block : PrimaryBlock
other_block = record (some_block 0) { lifetime = 1 }

some_signal-matches :
    (matches some_signal (some_block 0) ≡ true) × (matches some_signal other_block ≡ true)
unfolding matches
some_signal-matches = (refl, refl)

abbrev some_hops : HopLimit
some_hops = record { count = 3; limit = 200 }
