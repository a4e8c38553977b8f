-- ===== src/PrimaryBlock.antt =====
-- ibrdtn/ibrdtn/data/PrimaryBlock.h and PrimaryBlock.cpp.
pub mod Compare
use ibrdtn.Base.{
  ℕ, zero, suc, ◌+◌, ◌-◌, ◌*◌, ◌/◌, ◌%◌, ◌^◌, ◌≤◌, ◌<◌, ◌≡◌, ◌≢◌, ◌⊎◌, inl, inr, refl, sym, ap, ◌∙◌,
  Bool, true, false, not, ◌&&◌, ◌||◌, Option, none, some, List, [], ◌∷◌, ◌++◌, arith, length, ltb,
  leb, ◌==◌, if◌then◌else◌, Result, ok, err, invalid_data, invalid_protocol, short_read, overrun,
  get_byte, read_bytes, read_bytes-append, ◌>>=◌, >>=-eq-ok, length-append, All, All-append, subst,
  Bool-cases, Trichotomy, below, level, above, trichotomy, Option-cases, map,
}
use ibrdtn.Flags.{has_flag, put_flag}
use ibrdtn.Eid.{Eid, eid_eq, eid_lt, eid_none}
use ibrdtn.Clock.{Clock, get_time, is_expired}

pub record PrimaryBlock : Type 0 where
  pub procflags : ℕ
  pub timestamp : ℕ
  pub sequencenumber : ℕ
  pub lifetime : ℕ
  pub fragmentoffset : ℕ
  pub appdatalength : ℕ
  pub source : Eid
  pub destination : Eid
  pub reportto : Eid
  pub custodian : Eid

abbrev pub flag_fragment : ℕ
flag_fragment = 1

abbrev pub flag_admrecord : ℕ
flag_admrecord = 2

pub get_flag : PrimaryBlock → ℕ → Bool
unfolding has_flag
get_flag b flag = has_flag b.procflags flag

pub set_block_flag : PrimaryBlock → ℕ → Bool → PrimaryBlock
unfolding put_flag
set_block_flag b flag value = record b { procflags = put_flag b.procflags flag value }

unfoldable pub is_fragment : PrimaryBlock → Bool
unfolding has_flag
is_fragment b = has_flag b.procflags flag_fragment

-- `operator==`, where `a` is the left operand.
pub block_eq : PrimaryBlock → PrimaryBlock → Bool
block_eq a b =
    if not (b.timestamp == a.timestamp)
    then false
    else if not (b.sequencenumber == a.sequencenumber)
    then false
    else if not (eid_eq b.source a.source)
    then false
    else if is_fragment b
    then (if not (is_fragment a)
        then false
        else if not (b.fragmentoffset == a.fragmentoffset)
        then false
        else if not (b.appdatalength == a.appdatalength)
        then false
        else true)
    else if is_fragment a
    then false
    else true

-- `operator<`. Only the right operand is asked whether it is a fragment.
pub block_lt : PrimaryBlock → PrimaryBlock → Bool
block_lt a b =
    if eid_lt a.source b.source
    then true
    else if not (eid_eq a.source b.source)
    then false
    else if ltb a.timestamp b.timestamp
    then true
    else if not (a.timestamp == b.timestamp)
    then false
    else if ltb a.sequencenumber b.sequencenumber
    then true
    else if not (a.sequencenumber == b.sequencenumber)
    then false
    else if is_fragment b && ltb a.fragmentoffset b.fragmentoffset
    then true
    else false

pub block_is_expired : Clock → PrimaryBlock → Bool
block_is_expired c b = is_expired c ((b.lifetime + b.timestamp) % 2 ^ 64) b.lifetime

-- `relabel`, with the static counter before and after it.
pub relabel : Clock → ℕ → PrimaryBlock → PrimaryBlock × ℕ
relabel c next b = (
  record b { timestamp = if c.badclock then 0 else get_time c; sequencenumber = next },
  (next + 1) % 2 ^ 64,
)

-- The constructor.
pub new_block : Clock → ℕ → PrimaryBlock × ℕ
unfolding relabel
new_block c next = relabel c next (record {
  procflags = 0;
  timestamp = 0;
  sequencenumber = 0;
  lifetime = 3600;
  fragmentoffset = 0;
  appdatalength = 0;
  source = eid_none;
  destination = eid_none;
  reportto = eid_none;
  custodian = eid_none;
})
