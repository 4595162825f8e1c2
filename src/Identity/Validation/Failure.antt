-- ===== src/Identity/Validation/Failure.antt =====
-- truncateUTF8 of internal/identity/store.go: the failure text that a result keeps.
use shauth.Common.{
  ℕ, zero, suc, ◌/◌, ◌≤◌, ◌<◌, Bool, true, false, not, [], ◌∷◌, ◌≡◌, ◌⊎◌, inl, inr, refl, arith,
  leb, ◌==◌, nat_eq, if◌then◌else◌, Bool-cases, leb→le, subst, length, get_or, take,
}
use shauth.Identity.Rows.{Bytes}
use shauth.Identity.Validation.Rows.{Texts}

-- utf8.RuneStart: not of the form 10xxxxxx.
abbrev pub is_rune_start : ℕ → Bool
is_rune_start b = not (b / 64 == 2)

-- The loop that moves the cut down to the start of a rune.
unfoldable pub cut_at : Bytes → ℕ → ℕ
cut_at value zero = zero
cut_at value (suc n) =
    let lower = cut_at value n in if is_rune_start (get_or value (suc n) 0) then suc n else lower

unfoldable pub truncate_utf8 : Texts → Bytes → ℕ → Bytes
unfolding cut_at
truncate_utf8 texts value limit =
    let valid = texts.to_valid_utf8 value in
    if leb (length valid) limit then valid else take (cut_at valid limit) valid

-- What the loop stops at: the start of a rune or zero, with no start above it up to the limit.
pub record IsCut (value : Bytes) (limit n : ℕ) : Type 0 where
  pub within : n ≤ limit
  pub starts : (n ≡ 0) ⊎ (is_rune_start (get_or value n 0) ≡ true)
  pub highest : (k : ℕ) → n < k → k ≤ limit → is_rune_start (get_or value k 0) ≡ false

cut_at-IsCut : (value : Bytes) (limit : ℕ) → IsCut value limit (cut_at value limit)
unfolding cut_at
cut_at-IsCut value zero = record {
  within = omega arith;
  starts = inl refl;
  highest = λ k a b. absurd (omega (arith, a, b));
}
cut_at-IsCut value (suc n) = go (is_rune_start (get_or value (suc n) 0)) refl (cut_at-IsCut value n)
  where
    go :
        (b : Bool)
        → is_rune_start (get_or value (suc n) 0) ≡ b
        → IsCut value n (cut_at value n)
        → IsCut value (suc n) (if b then suc n else cut_at value n)
    go true e h = record {
      within = omega arith;
      starts = inr e;
      highest = λ k a b. absurd (omega (arith, a, b));
    }
    go false e h = record {
      within = omega (arith, h.within);
      starts = h.starts;
      highest = λ k a b. elim (Bool-cases (leb k n)) [
        | inl below ↦ h.highest k a (leb→le k n below)
        | inr above ↦
            let top : suc n ≡ k = ground (arith, above, b) in
            subst (λ m. is_rune_start (get_or value m 0) ≡ false) top e
      ];
    }

length-take : (n : ℕ) (xs : Bytes) → length (take n xs) ≤ n
length-take zero xs = omega arith
length-take (suc n) [] = omega arith
length-take (suc n) (x ∷ xs) = omega (arith, length-take n xs)

-- A failure text is cut to the limit: it is kept whole where it fits; where it does not, what is
-- left is the text up to the last start of a rune at or below the limit, so no rune is split.
pub truncate_utf8-IsCut :
    (texts : Texts) (value : Bytes) (limit : ℕ)
    → (length (truncate_utf8 texts value limit) ≤ limit)
      × (((truncate_utf8 texts value limit ≡ texts.to_valid_utf8 value)
            × (length (texts.to_valid_utf8 value) ≤ limit))
          ⊎ ((n : ℕ) × IsCut (texts.to_valid_utf8 value) limit n
              × (truncate_utf8 texts value limit ≡ take n (texts.to_valid_utf8 value))))
unfolding truncate_utf8
truncate_utf8-IsCut texts value limit =
    elim (Bool-cases (leb (length (texts.to_valid_utf8 value)) limit)) [
      | inl fits ↦ (ground (arith, fits), inl (ground (arith, fits), leb→le _ _ fits))
      | inr over ↦ (
        ground (
          arith,
          over,
          length-take (cut_at (texts.to_valid_utf8 value) limit) (texts.to_valid_utf8 value),
          cut.within,
        ),
        inr (cut_at (texts.to_valid_utf8 value) limit, cut, ground (arith, over)),
      )
    ]
  where
    cut : IsCut (texts.to_valid_utf8 value) limit (cut_at (texts.to_valid_utf8 value) limit)
    cut = cut_at-IsCut (texts.to_valid_utf8 value) limit
