-- ===== src/Clock/Expiry.antt =====
-- The two answers of the clock on expiry, a time and a yes or no, against one another.
use ibrdtn.Base.{
  ℕ, ◌+◌, ◌-◌, ◌%◌, ◌^◌, ◌≤◌, ◌<◌, ◌≡◌, ◌⊎◌, true, false, ◌||◌, none, some, arith, ltb, ◌==◌,
}
use ibrdtn.Clock.{Clock, get_time, bundle_expire_time, is_expired, bundle_is_expired}

-- With a clock of some quality that is not bad, a bundle without an age block is expired exactly
-- when its time of expiry is over.
is_expired-expire_time :
    (c : Clock) (timestamp lifetime : ℕ)
    → c.quality_zero ≡ false
    → c.badclock ≡ false
    → bundle_is_expired c timestamp lifetime none
      ≡ ltb (bundle_expire_time c timestamp lifetime none) (get_time c)
unfolding bundle_is_expired bundle_expire_time
is_expired-expire_time c timestamp lifetime q b = ground arith

-- A bundle that is timed by its age is expired exactly when its time of expiry is over, whatever
-- the clock is worth, if the DTN time and the lifetime together are below 2 ^ 64 and the bundle is
-- no older than that sum.
aged_expiry :
    (c : Clock) (timestamp lifetime age : ℕ)
    → (timestamp == 0 || c.badclock) ≡ true
    → lifetime < 2 ^ 64
    → age ≤ get_time c + lifetime
    → get_time c + lifetime < 2 ^ 64
    → bundle_is_expired c timestamp lifetime (some age)
      ≡ ltb (bundle_expire_time c timestamp lifetime (some age)) (get_time c)
unfolding bundle_is_expired bundle_expire_time
aged_expiry c timestamp lifetime age timed small older fits =
    rw timed (modular (get_time c) lifetime age older fits)
  where
    modular :
        (now lifetime age : ℕ)
        → age ≤ now + lifetime
        → now + lifetime < 2 ^ 64
        → ltb lifetime age ≡ ltb ((now + (lifetime + 2 ^ 64 - age) % 2 ^ 64) % 2 ^ 64) now
    modular now lifetime age older fits = ground arith

-- A bundle never expires on a clock that is bad or of no quality if it has no age block.
pub never_expires :
    (c : Clock) (timestamp lifetime : ℕ)
    → (c.quality_zero ≡ true) ⊎ (c.badclock ≡ true)
    → bundle_is_expired c timestamp lifetime none ≡ false
unfolding bundle_is_expired
never_expires c timestamp lifetime h = ground arith

pub is_expired-eq :
    (c : Clock) (timestamp lifetime : ℕ)
    → c.quality_zero ≡ false
    → c.badclock ≡ false
    → bundle_is_expired c timestamp lifetime none
      ≡ ltb ((timestamp + lifetime + c.sigma lifetime) % 2 ^ 64) (get_time c)
unfolding bundle_is_expired
is_expired-eq c timestamp lifetime q b = ground arith

pub plain_is_expired-eq :
    (c : Clock) (timestamp lifetime : ℕ)
    → c.quality_zero ≡ false
    → c.badclock ≡ false
    → is_expired c timestamp lifetime
      ≡ ltb ((timestamp + lifetime + c.sigma lifetime) % 2 ^ 64) (get_time c)
unfolding is_expired
plain_is_expired-eq c timestamp lifetime q b = ground arith
