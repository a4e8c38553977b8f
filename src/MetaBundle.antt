-- ===== src/MetaBundle.antt =====
-- ibrdtn/ibrdtn/data/MetaBundle.h and MetaBundle.cpp: what a node remembers of a bundle.
use ibrdtn.Base.{ℕ, ◌^◌, if◌then◌else◌}
use ibrdtn.Flags.{has_flag}
use ibrdtn.Eid.{Eid}
use ibrdtn.DtnTime.{DtnTime}
use ibrdtn.BundleId.{BundleId}

pub record MetaBundle : Type 0 where
  pub id : BundleId
  pub received : DtnTime
  pub lifetime : ℕ
  pub destination : Eid
  pub reportto : Eid
  pub custodian : Eid
  pub appdatalength : ℕ
  pub procflags : ℕ
  pub expiretime : ℕ
  pub hopcount : ℕ

abbrev pub priority_bit1 : ℕ
priority_bit1 = 2 ^ 7

abbrev pub priority_bit2 : ℕ
priority_bit2 = 2 ^ 8

-- One more than `getPriority` returns, which is -1, 0 or 1.
unfoldable pub priority : MetaBundle → ℕ
unfolding has_flag
priority m =
    if has_flag m.procflags priority_bit1
    then 1
    else if has_flag m.procflags priority_bit2
    then 2
    else 0
