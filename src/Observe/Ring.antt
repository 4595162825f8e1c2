-- ===== src/Observe/Ring.antt =====
-- The ring buffer of internal/observe/log.go against the list of the lines that were written.
use native.Mathlib.Nat.{mod-eq_of_lt, add-mod_right, mod_self}
use shauth.Common.{
  ℕ, zero, suc, ◌+◌, ◌-◌, ◌%◌, ◌≤◌, ◌<◌, true, false, List, [], ◌∷◌, ◌≡◌, refl, sym, ◌∙◌, ap, arith,
  get_or, set, length, leb, ltb, ◌==◌, nat_eq, if◌then◌else◌, inl, inr, Bool-cases, ◌⊎◌, length-set,
  length-replicate, le→leb,
}
use shauth.Observe.{Record, Buffer, Library, blank, new_buffer, store_record, held, position}

module _ (lib : Library) where
  -- Where a line of age `index` stands.
  position_of_recent :
      (next index size : ℕ)
      → index + 1 ≤ next
      → next ≤ size
      → position lib next index size ≡ next - (index + 1)
  position_of_recent next index size h k =
      let small : (next - (index + 1)) % size ≡ next - (index + 1) = mod-eq_of_lt (omega arith) in
      rw (le→leb (index + 1) next h, add-mod_right ((next - (index + 1)) % size) size, small) small

  position_of_old :
      (next index size : ℕ)
      → next ≤ index
      → index < size
      → position lib next index size ≡ size + next - (index + 1)
  position_of_old next index size h k = elim (Bool-cases (index + 1 - next == size)) [
    | inl whole ↦
        let full : index + 1 - next ≡ size = ground (arith, whole) in
        let none_off : size - 0 ≡ size = omega arith in
        rw (older, full, mod_self size, none_off) (mod_self size ∙ omega (arith, full))
    | inr part ↦
        let short : (index + 1 - next) % size ≡ index + 1 - next =
          mod-eq_of_lt (ground (arith, part)) in
        let small : (size - (index + 1 - next)) % size ≡ size - (index + 1 - next) =
          mod-eq_of_lt (omega arith) in
        rw (older, short, small) (omega arith)
  ]
    where
      older : leb (index + 1) next ≡ false
      older = ground arith

  next_is :
      (next size : ℕ)
      → next < size
      → ((next + 1 ≡ size) × ((next + 1) % size ≡ 0))
        ⊎ ((next + 1 < size) × ((next + 1) % size ≡ next + 1))
  next_is next size h = elim (Bool-cases (next + 1 == size)) [
    | inl whole ↦
        let full : next + 1 ≡ size = ground (arith, whole) in inl (full, rw full (mod_self size))
    | inr part ↦
        let short : next + 1 < size = ground (arith, part) in inr (short, mod-eq_of_lt short)
  ]

  -- The newest line stands before the next free place.
  position_newest : (next size : ℕ) → next < size → position lib ((next + 1) % size) 0 size ≡ next
  position_newest next size h = elim (next_is next size h) [
    | inl (full, wrapped) ↦
        rw wrapped (position_of_old 0 0 size (omega arith) (omega arith) ∙ omega (arith, full))
    | inr (short, kept) ↦
        rw kept (position_of_recent (next + 1) 0 size (omega arith) (omega arith) ∙ omega arith)
  ]

  -- A line keeps its place as it gets older.
  position_older :
      (next index size : ℕ)
      → next < size
      → index + 1 < size
      → position lib ((next + 1) % size) (suc index) size ≡ position lib next index size
  position_older next index size h k = elim (next_is next size h) [
    | inl (full, wrapped) ↦ rw wrapped (
        position_of_old 0 (suc index) size (omega arith) (omega arith)
        ∙ (omega (arith, full)
            ∙ sym (position_of_recent next index size (omega arith) (omega arith))))
    | inr (short, kept) ↦ rw kept (go short (Bool-cases (leb (index + 1) next)))
  ]
    where
      go :
          next + 1 < size
          → (leb (index + 1) next ≡ true) ⊎ (leb (index + 1) next ≡ false)
          → position lib (next + 1) (suc index) size ≡ position lib next index size
      go short (inl recent) =
          position_of_recent (next + 1) (suc index) size (ground arith) (omega arith)
          ∙ (omega arith ∙ sym (position_of_recent next index size (ground arith) (omega arith)))
      go short (inr old) =
          position_of_old (next + 1) (suc index) size (ground arith) (omega arith)
          ∙ (omega arith ∙ sym (position_of_old next index size (ground arith) (omega arith)))

  -- An older line does not stand in the next free place.
  position-ne_next :
      (next index size : ℕ)
      → next < size
      → index + 1 < size
      → position lib next index size ≡ next
      → ⊥
  position-ne_next next index size h k e = elim (Bool-cases (leb (index + 1) next)) [
    | inl recent ↦
        let at = position_of_recent next index size (ground arith) (omega arith) in
        ground (arith, at, e, recent)
    | inr old ↦
        let at = position_of_old next index size (ground arith) (omega arith) in
        ground (arith, at, e, old)
  ]

get_or-set_same :
    (xs : List Record) (i : ℕ) (v d : Record) → i < length xs → get_or (set xs i v) i d ≡ v
get_or-set_same [] i v d h = absurd (omega arith)
get_or-set_same (x ∷ xs) zero v d h = refl
get_or-set_same (x ∷ xs) (suc i) v d h = get_or-set_same xs i v d (omega arith)

get_or-set_other :
    (xs : List Record) (i j : ℕ) (v d : Record)
    → (j ≡ i → ⊥)
    → get_or (set xs i v) j d ≡ get_or xs j d
get_or-set_other [] i j v d h = refl
get_or-set_other (x ∷ xs) zero zero v d h = absurd (h refl)
get_or-set_other (x ∷ xs) zero (suc j) v d h = refl
get_or-set_other (x ∷ xs) (suc i) zero v d h = refl
get_or-set_other (x ∷ xs) (suc i) (suc j) v d h = get_or-set_other xs i j v d (λ e. h (ap suc e))

-- The buffer holds the newest lines of a history, newest first, as many as it has places for.
pub record IsRing (lib : Library) (b : Buffer) (history : List Record) : Type 0 where
  pub next_bounded : b.next < length b.records
  pub held_full : b.filled ≡ true → length b.records ≤ length history
  pub held_part : b.filled ≡ false → b.next ≡ length history
  pub newest :
      (index : ℕ)
      → index < held lib b
      → get_or b.records (position lib b.next index (length b.records)) blank
        ≡ get_or history index blank

pub new_buffer-IsRing : (lib : Library) (size : ℕ) → IsRing lib (new_buffer size) []
new_buffer-IsRing lib size = record {
  next_bounded = ground (arith, length-replicate (if ltb size 1 then 1 else size) blank);
  held_full = λ e. cc;
  held_part = λ e. refl;
  newest = λ index h. absurd (omega arith);
}

pub store_record-IsRing :
    (lib : Library) (r : Record) (b : Buffer) (history : List Record)
    → IsRing lib b history
    → IsRing lib (store_record lib r b) (r ∷ history)
store_record-IsRing lib r b history ring = record {
  next_bounded = elim cases [
    | inl (full, wrapped) ↦ omega (arith, full, wrapped, same_length, ring.next_bounded)
    | inr (short, kept) ↦ omega (arith, short, kept, same_length)
  ];
  held_full = λ e. elim cases [
    | inl (full, wrapped) ↦ ground (arith, full, same_length, ring.held_full, ring.held_part)
    | inr (short, kept) ↦ ground (arith, e, kept, same_length, ring.held_full)
  ];
  held_part = λ e. ground (arith, e, cases, ring.held_part);
  newest = at;
}
  where
    cases :
        ((b.next + 1 ≡ length b.records) × ((b.next + 1) % length b.records ≡ 0))
        ⊎ ((b.next + 1 < length b.records) × ((b.next + 1) % length b.records ≡ b.next + 1))
    cases = next_is lib b.next (length b.records) ring.next_bounded

    same_length : length (set b.records b.next r) ≡ length b.records
    same_length = length-set b.records b.next r

    in_old :
        (index : ℕ)
        → index + 1 < held lib (store_record lib r b)
        → (index + 1 < length b.records) × (index < held lib b)
    in_old index h = (ground (arith, h, cases, same_length), ground (arith, h, cases, same_length))

    at :
        (index : ℕ)
        → index < held lib (store_record lib r b)
        → get_or
            (set b.records b.next r)
            (position lib ((b.next + 1) % length b.records) index (length (set b.records b.next r)))
            blank
          ≡ get_or (r ∷ history) index blank
    at zero h =
        rw (same_length, position_newest lib b.next (length b.records) ring.next_bounded)
          (get_or-set_same b.records b.next r blank ring.next_bounded)
    at (suc index) h =
        let (inside, before) = in_old index (omega (arith, h)) in
        let place = position_older lib b.next index (length b.records) ring.next_bounded inside in
        ap (λ i. get_or (set b.records b.next r) i blank)
          (ap (position lib ((b.next + 1) % length b.records) (suc index)) same_length ∙ place)
        ∙ (get_or-set_other b.records b.next _ r blank
              (position-ne_next lib b.next index (length b.records) ring.next_bounded inside)
            ∙ ring.newest index before)
