-- ===== src/Clock.antt =====
-- ibrdtn/ibrdtn/utils/Clock.h and Clock.cpp: the DTN time, and when a bundle expires.
-- size_t has 64 bits. `quality` is a float of the sources: of it the model has whether it is zero
-- and the function `sigma`, which is the size_t of `lifetime * (1 - quality)`.
pub mod Expiry
use ibrdtn.Base.{
  ℕ, zero, suc, ◌+◌, ◌-◌, ◌*◌, ◌/◌, ◌%◌, ◌^◌, ◌≤◌, ◌<◌, ◌≡◌, ◌≢◌, ◌⊎◌, inl, inr, refl, sym, ap, ◌∙◌,
  Bool, true, false, not, ◌&&◌, ◌||◌, Option, none, some, List, [], ◌∷◌, ◌++◌, arith, length, ltb,
  leb, ◌==◌, if◌then◌else◌, Result, ok, err, invalid_data, invalid_protocol, short_read, overrun,
  get_byte, read_bytes, read_bytes-append, ◌>>=◌, >>=-eq-ok, length-append, All, All-append, subst,
  Bool-cases, Trichotomy, below, level, above, trichotomy, Option-cases, map,
}

pub record Clock : Type 0 where
  pub quality_zero : Bool
  pub sigma : ℕ → ℕ
  pub badclock : Bool
  -- `now.tv_sec` of `Clock::gettimeofday`, and `timezone * 3600` as a size_t.
  pub tv_sec : ℕ
  pub zone_offset : ℕ

abbrev pub timeval_conversion : ℕ
timeval_conversion = 946684800

unfoldable pub get_time : Clock → ℕ
get_time c =
    if ltb (c.tv_sec % 2 ^ 32) timeval_conversion
    then 0
    else (c.tv_sec + 2 ^ 64 - timeval_conversion + c.zone_offset) % 2 ^ 64

pub get_unix_timestamp : Clock → ℕ
get_unix_timestamp c = (c.tv_sec + c.zone_offset) % 2 ^ 64

-- `__getExpireTime`
pub expire_time : Clock → ℕ → ℕ → ℕ
expire_time c timestamp lifetime =
    if c.quality_zero
    then (timestamp + lifetime) % 2 ^ 64
    else (timestamp + lifetime + c.sigma lifetime) % 2 ^ 64

-- `getExpireTime` of a bundle, with the seconds of its age block if it has one.
pub bundle_expire_time : Clock → ℕ → ℕ → Option ℕ → ℕ
unfolding expire_time get_time
bundle_expire_time c timestamp lifetime none = expire_time c timestamp lifetime
bundle_expire_time c timestamp lifetime (some age) =
    if timestamp == 0 || c.badclock
    then (get_time c + (lifetime + 2 ^ 64 - age) % 2 ^ 64) % 2 ^ 64
    else expire_time c timestamp lifetime

-- `__isExpired`
pub is_expired : Clock → ℕ → ℕ → Bool
unfolding get_time
is_expired c timestamp lifetime =
    if c.quality_zero || c.badclock
    then false
    else ltb ((timestamp + lifetime + c.sigma lifetime) % 2 ^ 64) (get_time c)

-- `isExpired` of a bundle.
pub bundle_is_expired : Clock → ℕ → ℕ → Option ℕ → Bool
unfolding is_expired
bundle_is_expired c timestamp lifetime none = is_expired c timestamp lifetime
bundle_is_expired c timestamp lifetime (some age) = ltb lifetime age
