-- ===== src/Identity/Policy/Tests.antt =====
-- An instance of the theorem on session policies, and rows at the edges of the 64 bits.
use shauth.Common.{some, ◌≡◌, refl, ok, err}
use shauth.Identity.Policy.{
  PolicyRow, default_session_policy, validate, row_of_policy, read_policy, duration_of, nanos, hour,
  stored_policy, bad_absolute_lifetime,
}
use shauth.Identity.Policy.Stored.{read_policy-row_of_policy}

abbrev stored : PolicyRow
stored = row_of_policy (default_session_policy 0) 7

read_policy-row_of_policy_example : read_policy (some stored) ≡ ok (default_session_policy 7)
unfolding validate
read_policy-row_of_policy_example = read_policy-row_of_policy (default_session_policy 0) 7 refl

-- 2^55 seconds more than an hour are read as an hour, and 2^34 seconds are negative.
wrapped : duration_of 36028797018967568 ≡ nanos hour
wrapped = refl

negative :
    read_policy (some (record stored { browser_absolute_seconds = 17179869184 }))
    ≡ err (stored_policy bad_absolute_lifetime)
unfolding read_policy validate
negative = refl
