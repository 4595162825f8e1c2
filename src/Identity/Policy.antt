-- ===== src/Identity/Policy.antt =====
-- internal/identity/session_policy.go, and the reading and writing of the stored policy in
-- internal/identity/store.go.
pub mod Stored
mod Tests
use shauth.Common.{
  ℕ, ◌+◌, ◌*◌, ◌/◌, ◌%◌, ◌≤◌, ◌<◌, Bool, true, false, ◌||◌, Option, none, some, ◌≡◌, ◌↔◌, refl, ◌∙◌,
  ap, arith, Result, ok, err, ltb, if◌then◌else◌, subst,
}

-- Times are microseconds, the resolution of a stored timestamp.
abbrev pub second : ℕ
second = 1_000_000

abbrev pub minute : ℕ
minute = 60 * second

abbrev pub hour : ℕ
hour = 60 * minute

abbrev pub day : ℕ
day = 24 * hour

-- A Go duration counts nanoseconds in 64 bits.
abbrev pub nanos : ℕ → ℕ
nanos t = t * 1000

abbrev pub second_ns : ℕ
second_ns = 1_000_000_000

-- A policy's fields are durations.
pub record SessionPolicy : Type 0 where
  pub browser_absolute_lifetime : ℕ
  pub browser_idle_timeout : ℕ
  pub oidc_session_lifetime : ℕ
  pub access_token_lifetime : ℕ
  pub id_token_lifetime : ℕ
  pub refresh_token_lifetime : ℕ
  pub updated_at : ℕ

-- The lifetime on a stored timestamp, which drops what is below a microsecond.
abbrev pub lifetime_micros : SessionPolicy → ℕ
lifetime_micros p = p.browser_absolute_lifetime / 1000

-- The timeout on a timestamp that `now` less the timeout is compared with: that difference drops
-- what is below a microsecond, so the timeout is rounded up.
abbrev pub idle_micros : SessionPolicy → ℕ
idle_micros p = (p.browser_idle_timeout + 999) / 1000

-- Which of the messages a refused policy gets, in the order of the tests.
pub data PolicyError : Type 0 where
  bad_absolute_lifetime bad_idle_timeout bad_oidc_lifetime bad_access_lifetime : PolicyError
  bad_id_lifetime bad_refresh_lifetime : PolicyError

abbrev pub default_session_policy : ℕ → SessionPolicy
default_session_policy updated_at = record {
  browser_absolute_lifetime = nanos (30 * day);
  browser_idle_timeout = nanos (12 * hour);
  oidc_session_lifetime = nanos (30 * day);
  access_token_lifetime = nanos (15 * minute);
  id_token_lifetime = nanos (15 * minute);
  refresh_token_lifetime = nanos (30 * day);
  updated_at = updated_at;
}

abbrev outside : ℕ → ℕ → ℕ → Bool
outside lo hi x = ltb x lo || ltb hi x

unfoldable pub validate : SessionPolicy → Result PolicyError (Unit {0})
validate p =
    if outside (nanos (5 * minute)) (nanos (90 * day)) p.browser_absolute_lifetime
    then err bad_absolute_lifetime
    else if outside (nanos (5 * minute)) p.browser_absolute_lifetime p.browser_idle_timeout
    then err bad_idle_timeout
    else if outside (nanos (5 * minute)) p.browser_absolute_lifetime p.oidc_session_lifetime
    then err bad_oidc_lifetime
    else if outside (nanos (5 * minute)) (nanos (24 * hour)) p.access_token_lifetime
    then err bad_access_lifetime
    else if outside (nanos (5 * minute)) (nanos (24 * hour)) p.id_token_lifetime
    then err bad_id_lifetime
    else if ltb p.refresh_token_lifetime p.access_token_lifetime
        || (ltb p.refresh_token_lifetime p.id_token_lifetime
            || ltb (nanos (90 * day)) p.refresh_token_lifetime)
    then err bad_refresh_lifetime
    else ok tt

-- A row of session_policy: whole seconds.
pub record PolicyRow : Type 0 where
  pub browser_absolute_seconds : ℕ
  pub browser_idle_seconds : ℕ
  pub oidc_session_seconds : ℕ
  pub access_token_seconds : ℕ
  pub id_token_seconds : ℕ
  pub refresh_token_seconds : ℕ
  pub updated_at : ℕ

pub data ReadError : Type 0 where
  no_policy : ReadError
  stored_policy : PolicyError → ReadError

-- `time.Duration(seconds) * time.Second` wraps at 64 bits, and is negative from 2^63 on. A negative
-- duration stands as 0 here: Validate refuses a policy that has one with the same error as for 0, so
-- that no policy that is read has one.
abbrev pub duration_of : ℕ → ℕ
duration_of seconds =
    let product = seconds * second_ns % 18446744073709551616 in
    if ltb product 9223372036854775808 then product else 0

abbrev pub policy_of_row : PolicyRow → SessionPolicy
policy_of_row r = record {
  browser_absolute_lifetime = duration_of r.browser_absolute_seconds;
  browser_idle_timeout = duration_of r.browser_idle_seconds;
  oidc_session_lifetime = duration_of r.oidc_session_seconds;
  access_token_lifetime = duration_of r.access_token_seconds;
  id_token_lifetime = duration_of r.id_token_seconds;
  refresh_token_lifetime = duration_of r.refresh_token_seconds;
  updated_at = r.updated_at;
}

-- `updated_at` is the database's clock.
abbrev pub row_of_policy : SessionPolicy → ℕ → PolicyRow
row_of_policy p updated_at = record {
  browser_absolute_seconds = p.browser_absolute_lifetime / second_ns;
  browser_idle_seconds = p.browser_idle_timeout / second_ns;
  oidc_session_seconds = p.oidc_session_lifetime / second_ns;
  access_token_seconds = p.access_token_lifetime / second_ns;
  id_token_seconds = p.id_token_lifetime / second_ns;
  refresh_token_seconds = p.refresh_token_lifetime / second_ns;
  updated_at = updated_at;
}

abbrev pub validated : SessionPolicy → Result ReadError SessionPolicy
validated p = elim (validate p) [ ok u ↦ ok p | err e ↦ err (stored_policy e) ]

-- A stored policy that is out of bounds is refused when it is read.
unfoldable pub read_policy : Option PolicyRow → Result ReadError SessionPolicy
read_policy none = err no_policy
read_policy (some r) = validated (policy_of_row r)

-- The bounds that a policy promises.
pub record IsSound (p : SessionPolicy) : Type 0 where
  pub absolute :
      (nanos (5 * minute) ≤ p.browser_absolute_lifetime)
      × (p.browser_absolute_lifetime ≤ nanos (90 * day))
  pub idle :
      (nanos (5 * minute) ≤ p.browser_idle_timeout)
      × (p.browser_idle_timeout ≤ p.browser_absolute_lifetime)
  pub oidc :
      (nanos (5 * minute) ≤ p.oidc_session_lifetime)
      × (p.oidc_session_lifetime ≤ p.browser_absolute_lifetime)
  pub access :
      (nanos (5 * minute) ≤ p.access_token_lifetime) × (p.access_token_lifetime ≤ nanos (24 * hour))
  pub identity :
      (nanos (5 * minute) ≤ p.id_token_lifetime) × (p.id_token_lifetime ≤ nanos (24 * hour))
  pub refresh :
      (p.access_token_lifetime ≤ p.refresh_token_lifetime)
      × (p.id_token_lifetime ≤ p.refresh_token_lifetime)
      × (p.refresh_token_lifetime ≤ nanos (90 * day))

-- Validate against its bounds.
pub validate-eq-ok_iff : (p : SessionPolicy) → (validate p ≡ ok tt) ↔ IsSound p
unfolding validate
validate-eq-ok_iff p = (to, from)
  where
    to : validate p ≡ ok tt → IsSound p
    to h = record {
      absolute = (ground arith, ground arith);
      idle = (ground arith, ground arith);
      oidc = (ground arith, ground arith);
      access = (ground arith, ground arith);
      identity = (ground arith, ground arith);
      refresh = (ground arith, ground arith, ground arith);
    }

    from : IsSound p → validate p ≡ ok tt
    from h = ground arith

-- Whatever is stored, a policy that is read meets its bounds.
pub read_policy-IsSound :
    (row : Option PolicyRow) (p : SessionPolicy) → read_policy row ≡ ok p → IsSound p
unfolding read_policy
read_policy-IsSound none p e = absurd (cc)
read_policy-IsSound (some r) p e = go (validate (policy_of_row r)) refl e
  where
    go :
        (v : Result PolicyError (Unit {0}))
        → validate (policy_of_row r) ≡ v
        → (let read : Result ReadError SessionPolicy = elim v [
          | ok u ↦ ok (policy_of_row r)
          | err e ↦ err (stored_policy e)
        ] in
            read ≡ ok p)
        → IsSound p
    go (ok tt) accepted h =
        let same : policy_of_row r ≡ p = ground arith in
        subst IsSound same ((validate-eq-ok_iff (policy_of_row r)).0 accepted)
    go (err e) accepted h = absurd (cc)
