-- ===== src/Identity/Policy/Stored.antt =====
-- Writing the session policy of internal/identity/store.go and reading it back.
use shauth.Common.{ℕ, ◌*◌, ◌/◌, ◌%◌, ◌≤◌, true, some, ◌≡◌, refl, ◌∙◌, ap, arith, ok, ltb}
use shauth.Identity.Policy.{
  day, nanos, second_ns, SessionPolicy, validate, IsSound, validate-eq-ok_iff, duration_of,
  policy_of_row, row_of_policy, validated, read_policy,
}

-- A duration in whole seconds.
abbrev whole : ℕ → ℕ
whole d = d / second_ns * second_ns

-- Whole seconds of a duration within 90 days are read without wrapping.
duration_of-whole : (d : ℕ) → d ≤ nanos (90 * day) → duration_of (d / second_ns) ≡ whole d
duration_of-whole d h = rw (unwrapped, below) refl
  where
    unwrapped : d / second_ns * second_ns % 18446744073709551616 ≡ d / second_ns * second_ns
    unwrapped = omega (arith, h)

    below : ltb (d / second_ns * second_ns) 9223372036854775808 ≡ true
    below = ground (arith, h)

ap6 :
    {A : Type 0} (make : ℕ → ℕ → ℕ → ℕ → ℕ → ℕ → A) {a a' b b' c c' d d' e e' f f' : ℕ}
    → a ≡ a'
    → b ≡ b'
    → c ≡ c'
    → d ≡ d'
    → e ≡ e'
    → f ≡ f'
    → make a b c d e f ≡ make a' b' c' d' e' f'
ap6 make p q r s t u = cc

-- A policy that UpdateSessionPolicy accepts is accepted again when its row is read, each duration
-- cut to whole seconds and unchanged otherwise: no column is mixed up, and no product wraps. The
-- time is the database's.
pub read_policy-row_of_policy :
    (p : SessionPolicy) (updated_at : ℕ)
    → validate p ≡ ok tt
    → read_policy (some (row_of_policy p updated_at))
      ≡ ok (record {
        browser_absolute_lifetime = p.browser_absolute_lifetime / second_ns * second_ns;
        browser_idle_timeout = p.browser_idle_timeout / second_ns * second_ns;
        oidc_session_lifetime = p.oidc_session_lifetime / second_ns * second_ns;
        access_token_lifetime = p.access_token_lifetime / second_ns * second_ns;
        id_token_lifetime = p.id_token_lifetime / second_ns * second_ns;
        refresh_token_lifetime = p.refresh_token_lifetime / second_ns * second_ns;
        updated_at = updated_at;
      })
unfolding read_policy
read_policy-row_of_policy p updated_at h = ap validated same ∙ rw (validated, accepted) refl
  where
    s : IsSound p
    s = (validate-eq-ok_iff p).0 h

    cut : SessionPolicy
    cut = record {
      browser_absolute_lifetime = whole p.browser_absolute_lifetime;
      browser_idle_timeout = whole p.browser_idle_timeout;
      oidc_session_lifetime = whole p.oidc_session_lifetime;
      access_token_lifetime = whole p.access_token_lifetime;
      id_token_lifetime = whole p.id_token_lifetime;
      refresh_token_lifetime = whole p.refresh_token_lifetime;
      updated_at = updated_at;
    }

    same : policy_of_row (row_of_policy p updated_at) ≡ cut
    same =
        ap6
          (λ a b c d e f. record {
            browser_absolute_lifetime = a;
            browser_idle_timeout = b;
            oidc_session_lifetime = c;
            access_token_lifetime = d;
            id_token_lifetime = e;
            refresh_token_lifetime = f;
            updated_at = updated_at;
          })
          (duration_of-whole p.browser_absolute_lifetime (omega (arith, s.absolute)))
          (duration_of-whole p.browser_idle_timeout (omega (arith, s.absolute, s.idle)))
          (duration_of-whole p.oidc_session_lifetime (omega (arith, s.absolute, s.oidc)))
          (duration_of-whole p.access_token_lifetime (omega (arith, s.access)))
          (duration_of-whole p.id_token_lifetime (omega (arith, s.identity)))
          (duration_of-whole p.refresh_token_lifetime (omega (arith, s.refresh)))

    accepted : validate cut ≡ ok tt
    accepted = (validate-eq-ok_iff cut).1 (record {
      absolute = (omega (arith, s.absolute), omega (arith, s.absolute));
      idle = (omega (arith, s.idle), omega (arith, s.idle));
      oidc = (omega (arith, s.oidc), omega (arith, s.oidc));
      access = (omega (arith, s.access), omega (arith, s.access));
      identity = (omega (arith, s.identity), omega (arith, s.identity));
      refresh = (omega (arith, s.refresh), omega (arith, s.refresh), omega (arith, s.refresh));
    })
