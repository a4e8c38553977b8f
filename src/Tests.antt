-- ===== src/Tests.antt =====
-- The theorems at concrete inputs. The children share the data declared here.
pub mod Streams
pub mod Records
pub mod Bundles
pub mod Sets
pub mod Events
pub mod Primary
pub mod Packets
pub mod Storages
pub mod Handshakes
pub mod Connections
use ibrdtn.Base.{
  ℕ, zero, suc, ◌+◌, ◌-◌, ◌*◌, ◌/◌, ◌%◌, ◌^◌, ◌≤◌, ◌<◌, ◌≡◌, ◌≢◌, ◌⊎◌, inl, inr, refl, sym, ap, ◌∙◌,
  Bool, true, false, not, ◌&&◌, ◌||◌, Option, none, some, List, [], ◌∷◌, ◌++◌, arith, length, ltb,
  leb, ◌==◌, if◌then◌else◌, Result, ok, err, invalid_data, invalid_protocol, rejected, short_read,
  overrun, get_byte, read_bytes, read_bytes-append, ◌>>=◌, >>=-eq-ok, length-append, All,
  All-append, subst, Bool-cases, Trichotomy, below, level, above, trichotomy, Option-cases, map,
}
use ibrdtn.Eid.{Eid}
use ibrdtn.Eid.Parts.{Without}
use ibrdtn.Eid.Parse.{IsPlain}
use ibrdtn.BundleId.{BundleId}
use ibrdtn.BundleId.Laws.{IsRegular}
use ibrdtn.DtnTime.{DtnTime, IsTime}
use ibrdtn.MetaBundle.{MetaBundle}
use ibrdtn.PrimaryBlock.{PrimaryBlock}
use ibrdtn.Clock.{Clock}

-- dtn://a/x and ipn:4.2
abbrev pub node_eid : Eid
node_eid = record { scheme = b'd' ∷ b't' ∷ b'n' ∷ []; ssp = b'/' ∷ b'/' ∷ b'a' ∷ b'/' ∷ b'x' ∷ [] }

abbrev pub cbhe_eid : Eid
cbhe_eid = record { scheme = b'i' ∷ b'p' ∷ b'n' ∷ []; ssp = b'4' ∷ b'.' ∷ b'2' ∷ [] }

pub node_eid-IsPlain : IsPlain node_eid
node_eid-IsPlain = record {
  no_colon = (omega arith, (omega arith, (omega arith, tt)));
  starts = refl;
  ends = refl;
}

-- A whole bundle, another one, and two fragments of the first.
abbrev pub whole_id : BundleId
whole_id = record {
  source = node_eid;
  timestamp = 500;
  sequencenumber = 1;
  fragment = false;
  offset = 0;
}

abbrev pub next_id : BundleId
next_id = record {
  source = node_eid;
  timestamp = 500;
  sequencenumber = 2;
  fragment = false;
  offset = 0;
}

abbrev pub fragment_id : ℕ → BundleId
fragment_id n = record {
  source = node_eid;
  timestamp = 500;
  sequencenumber = 1;
  fragment = true;
  offset = n;
}

pub whole_id-IsRegular : IsRegular false whole_id
whole_id-IsRegular = record { kind = refl; whole = inr refl; no_colon = node_eid-IsPlain.no_colon }

pub next_id-IsRegular : IsRegular false next_id
next_id-IsRegular = record { kind = refl; whole = inr refl; no_colon = node_eid-IsPlain.no_colon }

abbrev pub some_time : DtnTime
some_time = record { seconds = 700; nanoseconds = 5000 }

pub some_time-IsTime : IsTime some_time
some_time-IsTime = record { seconds = omega arith; nanoseconds = omega arith }

abbrev pub meta : BundleId → ℕ → MetaBundle
meta id expiretime = record {
  id = id;
  received = some_time;
  lifetime = 60;
  destination = cbhe_eid;
  reportto = node_eid;
  custodian = node_eid;
  appdatalength = 100;
  procflags = 128;
  expiretime = expiretime;
  hopcount = 0;
}

abbrev pub some_block : ℕ → PrimaryBlock
some_block flags = record {
  procflags = flags;
  timestamp = 500;
  sequencenumber = 1;
  lifetime = 3600;
  fragmentoffset = 0;
  appdatalength = 10;
  source = node_eid;
  destination = cbhe_eid;
  reportto = node_eid;
  custodian = node_eid;
}

-- A clock of good quality at 5000 seconds of DTN time, which adds nothing to a lifetime.
abbrev pub good_clock : Clock
good_clock = record {
  quality_zero = false;
  sigma = λ l. 0;
  badclock = false;
  tv_sec = 946689800;
  zone_offset = 0;
}
