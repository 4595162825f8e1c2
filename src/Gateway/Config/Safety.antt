-- ===== src/Gateway/Config/Safety.antt =====
-- What a configuration of internal/gateway/config.go that loads is safe for.
use shauth.Common.{
  ℕ, ◌*◌, ◌≤◌, String, Bool, true, false, not, ◌&&◌, ◌||◌, ◌≡◌, refl, arith, subst, Result, ok, err,
  ltb, leb, string_eq, eq_iff, ap, zero, suc, List, [], ◌∷◌, ◌++◌, ◌⊎◌, sym, ◌∙◌, All, all, length,
  take, drop, codes, ◌==◌, bytes_eq, nat_eq, bytes_eq_iff, &&-eq-true, Bool-cases, inl, inr,
}
use shauth.Gateway.Config.{
  Variable, Config, Error, Library, minute, hour, configured_max_age, is_loopback_url, check,
  configured, load, is_hex, is_release, refuse, after, check_urls,
}

-- Lowercase hexadecimal digits.
abbrev pub IsHex : ℕ → Type 0
IsHex c = ((48 ≤ c) × (c ≤ 57)) ⊎ ((97 ≤ c) × (c ≤ 102))

-- A commit of 12 to 64 digits, or the prefix of a SHA-256 digest and its 64 digits.
abbrev pub IsImmutable : List ℕ → Type 0
IsImmutable text =
    (All IsHex text × (12 ≤ length text) × (length text ≤ 64))
    ⊎ ((digits : List ℕ) × (text ≡ codes "sha256:" ++ digits)
        × All IsHex digits
        × (length digits ≡ 64))

all-IsHex : (text : List ℕ) → all is_hex text ≡ true → All IsHex text
all-IsHex [] h = tt
all-IsHex (c ∷ cs) h =
    let (first, rest) = &&-eq-true (is_hex c) (all is_hex cs) h in (one first, all-IsHex cs rest)
  where
    one : is_hex c ≡ true → IsHex c
    one e = elim (Bool-cases (leb b'0' c && leb c b'9')) [
      | inl digit ↦ inl (ground (arith, digit), ground (arith, digit))
      | inr letter ↦ inr (ground (arith, letter, e), ground (arith, letter, e))
    ]

take-drop : (n : ℕ) (text : List ℕ) → take n text ++ drop n text ≡ text
take-drop zero text = refl
take-drop (suc n) [] = refl
take-drop (suc n) (c ∷ cs) = ap (λ l. c ∷ l) (take-drop n cs)

is_release-IsImmutable :
    (revision : String) → is_release revision ≡ true → IsImmutable (codes revision)
unfolding is_release
is_release-IsImmutable revision h =
    elim (Bool-cases (leb 12 (length text) && (leb (length text) 64 && all is_hex text))) [
      | inl commit ↦
          let (long, rest) =
            &&-eq-true (leb 12 (length text)) (leb (length text) 64 && all is_hex text) commit in
          let (short, digits) = &&-eq-true (leb (length text) 64) (all is_hex text) rest in
          inl (all-IsHex text digits, ground (arith, long), ground (arith, short))
      | inr other ↦
          let (prefix, rest) =
            &&-eq-true (take 7 text == codes "sha256:") (length digest == 64 && all is_hex digest)
              (otherwise _ _ other h) in
          let (sized, digits) = &&-eq-true (length digest == 64) (all is_hex digest) rest in
          inr (
            digest,
            sym (take-drop 7 text)
                ∙ ap (λ l. l ++ digest) ((bytes_eq_iff (take 7 text) (codes "sha256:")).0 prefix),
            all-IsHex digest digits,
            ground (arith, sized),
          )
    ]
  where
    text : List ℕ
    text = codes revision

    digest : List ℕ
    digest = drop 7 text

    otherwise : (a b : Bool) → a ≡ false → a || b ≡ true → b ≡ true
    otherwise a b h k = ground (arith, h, k)

pub record IsSafe (lib : Library) (c : Config) : Type 0 where
  pub secrets : (32 ≤ lib.byte_length c.client_secret) × (32 ≤ lib.byte_length c.cookie_secret)
  pub release : IsImmutable (codes c.release_revision)
  pub secure :
      c.insecure_cookie ≡ false
      → (c.issuer.scheme ≡ "https")
        × (c.public_url.scheme ≡ "https")
        × (c.post_logout_url.scheme ≡ "https")
  pub local :
      c.insecure_cookie ≡ true
      → (is_loopback_url lib c.issuer ≡ true)
        × (is_loopback_url lib c.public_url ≡ true)
        × (is_loopback_url lib c.post_logout_url ≡ true)
  pub bridge : c.post_logout_url.text ≡ lib.resolve c.public_url "/auth/shauth/logout/complete"
  pub lifetime : (5 * minute ≤ c.session_max_age) × (c.session_max_age ≤ 30 * (24 * hour))

refuse-eq-ok :
    (refused : Bool) (e : Error) (next : Result Error Config) (d : Config)
    → refuse refused e next ≡ ok d
    → (refused ≡ false) × (next ≡ ok d)
unfolding refuse
refuse-eq-ok true e next d h = absurd (ground arith)
refuse-eq-ok false e next d h = (refl, h)

after-eq-ok :
    {A B : Type 0} (r : Result Error A) (next : A → Result Error B) (b : B)
    → after r next ≡ ok b
    → (a : A) × (r ≡ ok a) × (next a ≡ ok b)
unfolding after
after-eq-ok (err e) next b h = absurd (ground arith)
after-eq-ok (ok a) next b h = (a, refl, h)

ok-injective : (c d : Config) → (let r : Result Error Config = ok c in r ≡ ok d) → c ≡ d
ok-injective c d h = ground arith

at_least : (n m : ℕ) → ltb n m ≡ false → m ≤ n
at_least n m h = ground arith

holds : (b : Bool) → not b ≡ false → b ≡ true
holds b h = ground arith

on : (a b : Bool) → (a && b) ≡ false → a ≡ true → b ≡ false
on a b h k = ground arith

all_hold :
    (a b c : Bool) → (not a || (not b || not c)) ≡ false → (a ≡ true) × (b ≡ true) × (c ≡ true)
all_hold a b c h = (ground arith, ground arith, ground arith)

module _ (lib : Library) (getenv : Variable → String) where
  configured_max_age-in_bounds :
      (age : ℕ)
      → configured_max_age lib getenv ≡ ok age
      → (5 * minute ≤ age) × (age ≤ 30 * (24 * hour))
  unfolding configured_max_age
  configured_max_age-in_bounds age e = (ground (arith, e), ground (arith, e))

  check-IsSafe :
      (c d : Config)
      → (5 * minute ≤ c.session_max_age) × (c.session_max_age ≤ 30 * (24 * hour))
      → check lib getenv c ≡ ok d
      → IsSafe lib d
  unfolding check check_urls
  check-IsSafe c d lifetime e =
      let (_, e1) = refuse-eq-ok _ _ _ d e in
      let (client, e2) = refuse-eq-ok _ _ _ d e1 in
      let (cookie, e3) = refuse-eq-ok _ _ _ d e2 in
      let (release, e4) = refuse-eq-ok _ _ _ d e3 in
      let (https, e5) = refuse-eq-ok _ _ _ d e4 in
      let (loopback, e6) = refuse-eq-ok _ _ _ d e5 in
      let (bridge, e7) = refuse-eq-ok _ _ _ d e6 in
      let (_, e8) = refuse-eq-ok _ _ _ d e7 in
      let (_, e9) = refuse-eq-ok _ _ _ d e8 in
      let same : c ≡ d = ok-injective c d e9 in
      subst (IsSafe lib) same (record {
        secrets = (at_least _ _ client, at_least _ _ cookie);
        release = is_release-IsImmutable c.release_revision (holds _ release);
        secure = λ s.
            let (a, b, c') = all_hold _ _ _ (on (not c.insecure_cookie) _ https (ap not s)) in
            (
              (eq_iff c.issuer.scheme "https").0 a,
              (eq_iff c.public_url.scheme "https").0 b,
              (eq_iff c.post_logout_url.scheme "https").0 c',
            );
        local = λ s. all_hold _ _ _ (on _ _ loopback s);
        bridge =
            (eq_iff c.post_logout_url.text
                (lib.resolve c.public_url "/auth/shauth/logout/complete")).0
              (holds _ bridge);
        lifetime = lifetime;
      })

  -- A configuration that loads has secrets of at least 32 bytes, a release that is 12 to 64
  -- lowercase hexadecimal digits or a SHA-256 digest with its prefix, the exact bridge address and a session lifetime from five minutes to thirty days; its issuer, public and
  -- post-logout addresses use HTTPS, or are loopback addresses where an insecure cookie is allowed.
  pub load-IsSafe : (c : Config) → load lib getenv ≡ ok c → IsSafe lib c
  unfolding load configured
  load-IsSafe c e =
      let (_, _, e1) = after-eq-ok _ _ c e in
      let (_, _, e2) = after-eq-ok _ _ c e1 in
      let (_, _, e3) = after-eq-ok _ _ c e2 in
      let (_, _, e4) = after-eq-ok _ _ c e3 in
      let (age, bounded, e5) = after-eq-ok _ _ c e4 in
      check-IsSafe _ c (configured_max_age-in_bounds age bounded) e5
