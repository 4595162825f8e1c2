-- ===== src/Identity/Validation/Queue/Choice.antt =====
-- validationWitness of internal/identity/store.go: the loop against the definition of a witness.
use native.Mathlib.Nat.{mod-eq_of_lt, mod-eq-sub-mod}
use shauth.Common.{
  ℕ, zero, suc, ◌+◌, ◌-◌, ◌%◌, ◌<◌, Bool, true, not, Option, none, some, List, [], ◌∷◌, ◌≡◌, ◌≢◌,
  refl, sym, ◌∙◌, ap, subst, arith, any, ◌==◌, string_eq, if◌then◌else◌, length, get_elem?,
  Bool-cases, inl, inr, leb, leb→le, is_none,
}
use shauth.Identity.Validation.Rows.{ManagedApp, Urls}
use shauth.Identity.Validation.Queue.{may_witness, after_target, scan, validation_witness}

any-get_elem? :
    {A : Type 0} (p : A → Bool) (xs : List A) (i : ℕ) (x : A)
    → get_elem? xs i ≡ some x
    → p x ≡ true
    → any p xs ≡ true
any-get_elem? p [] i x e h = absurd (ground arith)
any-get_elem? p (y ∷ ys) zero x e h = ground arith
any-get_elem? p (y ∷ ys) (suc i) x e h = ground (arith, any-get_elem? p ys i x e h)

get_elem?-any :
    {A : Type 0} (p : A → Bool) (xs : List A)
    → any p xs ≡ true
    → (i : ℕ) × (x : A) × (get_elem? xs i ≡ some x) × (p x ≡ true) × (i < length xs)
get_elem?-any p [] e = absurd (ground arith)
get_elem?-any p (y ∷ ys) e = elim (Bool-cases (p y)) [
  | inl hit ↦ (0, y, refl, hit, omega arith)
  | inr miss ↦
      let (i, x, at, passes, below) = get_elem?-any p ys (ground arith) in
      (suc i, x, at, passes, omega (arith, below))
]

module _ (urls : Urls) (target : ManagedApp) where
  scan-eq-some :
      (apps : List ManagedApp) (left index : ℕ) (w : ManagedApp)
      → scan urls target apps left index ≡ some w
      → (any (may_witness urls target) apps ≡ true) × (may_witness urls target w ≡ true)
  unfolding scan
  scan-eq-some apps zero index w e = absurd (ground arith)
  scan-eq-some apps (suc left) index w e =
      go (get_elem? apps (index % length apps)) refl e (λ h. scan-eq-some apps left (suc index) w h)
    where
      go :
          (o : Option ManagedApp)
          → get_elem? apps (index % length apps) ≡ o
          → (let out : Option ManagedApp = elim o [
            | none ↦ scan urls target apps left (suc index)
            | some c ↦
                if may_witness urls target c then some c else scan urls target apps left (suc index)
          ] in
              out ≡ some w)
          → (scan urls target apps left (suc index) ≡ some w
              → (any (may_witness urls target) apps ≡ true) × (may_witness urls target w ≡ true))
          → (any (may_witness urls target) apps ≡ true) × (may_witness urls target w ≡ true)
      go none at h more = more h
      go (some c) at h more = elim (Bool-cases (may_witness urls target c)) [
        | inl hit ↦
            let same : c ≡ w = ground (arith, h, hit) in
            (
              any-get_elem? _ apps _ c at hit,
              subst (λ x. may_witness urls target x ≡ true) same hit,
            )
        | inr miss ↦ more (ground (arith, h, miss))
      ]

  -- The loop sees every index that it passes.
  scan-reaches :
      (apps : List ManagedApp) (left index k : ℕ) (c : ManagedApp)
      → k < left
      → get_elem? apps ((index + k) % length apps) ≡ some c
      → may_witness urls target c ≡ true
      → scan urls target apps left index ≢ none
  unfolding scan
  scan-reaches apps zero index k c below at passes e = absurd (omega (arith, below))
  scan-reaches apps (suc left) index zero c below at passes e =
      let here : get_elem? apps (index % length apps) ≡ some c =
        subst (λ n. get_elem? apps (n % length apps) ≡ some c) (omega arith) at in
      ground (arith, here, passes, e)
  scan-reaches apps (suc left) index (suc k) c below at passes e =
      let later : get_elem? apps ((suc index + k) % length apps) ≡ some c =
        subst (λ n. get_elem? apps (n % length apps) ≡ some c) (omega arith) at in
      go (get_elem? apps (index % length apps)) e
        (scan-reaches apps left (suc index) k c (omega (arith, below)) later passes)
    where
      go :
          (o : Option ManagedApp)
          → (let out : Option ManagedApp = elim o [
            | none ↦ scan urls target apps left (suc index)
            | some d ↦
                if may_witness urls target d then some d else scan urls target apps left (suc index)
          ] in
              out ≡ none)
          → scan urls target apps left (suc index) ≢ none
          → ⊥
      go none h more = more h
      go (some d) h more = more (ground (arith, h))

  after_target-is_there :
      (apps : List ManagedApp)
      → any (λ a. a.id == target.id) apps ≡ true
      → (i : ℕ) × (a : ManagedApp) × (get_elem? apps i ≡ some a)
        × (a.id == target.id ≡ true)
        × (after_target urls target apps ≡ suc i)
        × (i < length apps)
  unfolding after_target
  after_target-is_there [] e = absurd (ground arith)
  after_target-is_there (a ∷ more) e = elim (Bool-cases (a.id == target.id)) [
    | inl hit ↦ (0, a, refl, hit, ground (arith, hit), omega arith)
    | inr miss ↦
        let (i, b, at, same, after, below) = after_target-is_there more (ground (arith, e, miss)) in
        (suc i, b, at, same, ground (arith, miss, after), omega (arith, below))
  ]

  -- The offset at which the loop sees an index other than the target's.
  around : (n i j : ℕ) → i < n → j < n → i ≢ j → (k : ℕ) × (k < n - 1) × ((suc i + k) % n ≡ j)
  around n i j hi hj other = elim (Bool-cases (leb j i)) [
    | inl before ↦
        let back : suc i + (j + n - suc i) ≡ j + n = omega (arith, hi) in
        (
          j + n - suc i,
          omega (arith, hi, hj, other, leb→le j i before),
          subst (λ m. m % n ≡ j) (sym back)
              (mod-eq-sub-mod (omega arith) ∙ (ap (λ m. m % n) (omega arith) ∙ mod-eq_of_lt hj)),
        )
    | inr later ↦
        let past : i < j = ground (arith, later, other) in
        let on : suc i + (j - suc i) ≡ j = omega (arith, past) in
        (j - suc i, omega (arith, past, hi, hj), subst (λ m. m % n ≡ j) (sym on) (mod-eq_of_lt hj))
  ]

  -- Where the target is in the catalog, a witness is found exactly when some application of the
  -- catalog may be one: it is another application, of another client and of another origin. What
  -- is found may be one.
  pub validation_witness-is_some_iff :
      (apps : List ManagedApp)
      → any (λ a. a.id == target.id) apps ≡ true
      → (is_none (validation_witness urls target apps) ≡ not (any (may_witness urls target) apps))
        × ((w : ManagedApp)
            → validation_witness urls target apps ≡ some w
            → may_witness urls target w ≡ true)
  unfolding validation_witness
  validation_witness-is_some_iff apps there = (
    go (scan urls target apps (length apps - 1) (after_target urls target apps)) refl,
    (λ w e. (scan-eq-some apps _ _ w e).1),
  )
    where
      reached :
          any (may_witness urls target) apps ≡ true
          → scan urls target apps (length apps - 1) (after_target urls target apps) ≢ none
      reached some_may e =
          let (i, a, at_i, is_target, after, below_i) = after_target-is_there apps there in
          let (j, c, at_j, passes, below_j) =
            get_elem?-any (may_witness urls target) apps some_may in
          let other : i ≢ j = λ same. absurd (clash i a at_i is_target j c at_j passes same) in
          let (k, below, lands) = around (length apps) i j below_i below_j other in
          scan-reaches apps (length apps - 1) (suc i) k c below
            (subst (λ m. get_elem? apps m ≡ some c) (sym lands) at_j) passes
            (subst (λ m. scan urls target apps (length apps - 1) m ≡ none) after e)
        where
          clash :
              (i : ℕ) (a : ManagedApp)
              → get_elem? apps i ≡ some a
              → a.id == target.id ≡ true
              → (j : ℕ) (c : ManagedApp) → get_elem? apps j ≡ some c
              → may_witness urls target c ≡ true
              → i ≢ j
          clash i a at_i is_target j c at_j passes same =
              let both : some a ≡ some c = sym at_i ∙ (ap (get_elem? apps) same ∙ at_j) in
              let one : a ≡ c = ground (arith, both) in
              let named : c.id == target.id ≡ true =
                subst (λ x. x.id == target.id ≡ true) one is_target in
              ground (arith, named, passes)

      go :
          (o : Option ManagedApp)
          → scan urls target apps (length apps - 1) (after_target urls target apps) ≡ o
          → is_none o ≡ not (any (may_witness urls target) apps)
      go none e = elim (Bool-cases (any (may_witness urls target) apps)) [
        | inl some_may ↦ absurd (reached some_may e)
        | inr nobody ↦ ground (arith, nobody)
      ]
      go (some w) e = ground (arith, (scan-eq-some apps _ _ w e).0)
