-- ===== src/Observe/Window.antt =====
-- What internal/observe/log.go reports of its buffer, against the list of the lines written.
use shauth.Common.{
  ℕ, zero, suc, ◌+◌, ◌≤◌, ◌<◌, Bool, true, false, Option, none, some, List, [], ◌∷◌, ◌≡◌, refl, sym,
  ◌∙◌, ap, arith, get_or, take, drop, length, keep, ltb, nat_eq, if◌then◌else◌, inl, inr,
  Bool-cases, min, length-replicate, length-set,
}
use shauth.Observe.{
  Bytes, Record, Buffer, Library, Level, Filter, blank, new_buffer, record_of_line, store_record,
  write, held, is_wanted, collect, limit_of, read_records, counts, count_from, is_level,
}
use shauth.Observe.Ring.{IsRing, new_buffer-IsRing, store_record-IsRing}

-- Lines and the times they arrived at, written in turn.
unfoldable pub write_all : Library → List (Bytes × ℕ) → Buffer → Buffer
write_all lib [] b = b
write_all lib ((line, arrived) ∷ lines) b = write_all lib lines (write lib line arrived b)

-- The records that the lines become, newest first, over those of an earlier history.
unfoldable pub history_of : Library → List (Bytes × ℕ) → ℕ → List Record → List Record
history_of lib [] sequence history = history
history_of lib ((line, arrived) ∷ lines) sequence history =
    elim (record_of_line lib line arrived sequence) [
      | none ↦ history_of lib lines sequence history
      | some r ↦ history_of lib lines r.sequence (r ∷ history)
    ]

write_all-IsRing :
    (lib : Library) (lines : List (Bytes × ℕ)) (b : Buffer) (history : List Record)
    → IsRing lib b history
    → IsRing lib (write_all lib lines b) (history_of lib lines b.sequence history)
unfolding write_all history_of write
write_all-IsRing lib [] b history ring = ring
write_all-IsRing lib ((line, arrived) ∷ lines) b history ring =
    go (record_of_line lib line arrived b.sequence)
      (λ b' h' r'. write_all-IsRing lib lines b' h' r')
  where
    go :
        (o : Option Record)
        → ((b' : Buffer) (h' : List Record)
            → IsRing lib b' h'
            → IsRing lib (write_all lib lines b') (history_of lib lines b'.sequence h'))
        → (let after : Buffer = elim o [ none ↦ b | some r ↦ store_record lib r b ] in
            let log : List Record = elim o [
              | none ↦ history_of lib lines b.sequence history
              | some r ↦ history_of lib lines r.sequence (r ∷ history)
            ] in
            IsRing lib (write_all lib lines after) log)
    go none rest = rest b history ring
    go (some r) rest =
        rest (store_record lib r b) (r ∷ history) (store_record-IsRing lib r b history ring)

write-length :
    (lib : Library) (line : Bytes) (arrived : ℕ) (b : Buffer)
    → length (write lib line arrived b).records ≡ length b.records
unfolding write
write-length lib line arrived b = go (record_of_line lib line arrived b.sequence)
  where
    go :
        (o : Option Record)
        → (let after : Buffer = elim o [ none ↦ b | some r ↦ store_record lib r b ] in
            length after.records ≡ length b.records)
    go none = refl
    go (some r) = length-set b.records b.next r

write_all-length :
    (lib : Library) (lines : List (Bytes × ℕ)) (b : Buffer)
    → length (write_all lib lines b).records ≡ length b.records
unfolding write_all
write_all-length lib [] b = refl
write_all-length lib ((line, arrived) ∷ lines) b =
    write_all-length lib lines (write lib line arrived b) ∙ write-length lib line arrived b

drop-get_or :
    (rs : List Record) (i : ℕ) → i < length rs → drop i rs ≡ get_or rs i blank ∷ drop (suc i) rs
drop-get_or [] i h = absurd (omega arith)
drop-get_or (r ∷ rs) zero h = refl
drop-get_or (r ∷ rs) (suc i) h = drop-get_or rs i (omega arith)

take_all : (rs : List Record) (n : ℕ) → length rs ≤ n → take n rs ≡ rs
take_all [] zero h = refl
take_all [] (suc n) h = refl
take_all (r ∷ rs) zero h = absurd (omega arith)
take_all (r ∷ rs) (suc n) h = ap (λ x. r ∷ x) (take_all rs n (omega arith))

module _ (lib : Library) (b : Buffer) (history : List Record) (ring : IsRing lib b history) where
  held-le : (held lib b ≤ length b.records) × (held lib b ≤ length history)
  held-le = (ground (arith, ring.next_bounded), ground (arith, ring.held_full, ring.held_part))

  held-min : held lib b ≡ min (length b.records) (length history)
  held-min = ground (arith, ring.held_full, ring.held_part, ring.next_bounded)

  take-held : take (held lib b) history ≡ take (length b.records) history
  take-held = elim (Bool-cases b.filled) [
    | inl full ↦ rw full refl
    | inr part ↦
        take_all history (held lib b) (ground (arith, part, ring.held_part))
        ∙ sym (
            take_all history (length b.records)
              (ground (arith, part, ring.held_part, ring.next_bounded)))
  ]

  collect-eq :
      (f : Filter) (index left room : ℕ)
      → index + left ≤ held lib b
      → collect lib f b index left room
        ≡ take room (keep (is_wanted lib f) (take left (drop index history)))
  unfolding collect
  collect-eq f index zero zero h = refl
  collect-eq f index zero (suc room) h = refl
  collect-eq f index (suc left) zero h = refl
  collect-eq f index (suc left) (suc room) h =
      ap (λ r. if is_wanted lib f r then r ∷ taken else passed) (ring.newest index (omega arith))
      ∙ (go (is_wanted lib f r) (collect-eq f (suc index) left room (omega arith))
            (collect-eq f (suc index) left (suc room) (omega arith))
          ∙ ap (λ rs. take (suc room) (keep (is_wanted lib f) (take (suc left) rs)))
              (sym (drop-get_or history index (omega (arith, held-le.1)))))
    where
      taken : List Record
      taken = collect lib f b (suc index) left room

      passed : List Record
      passed = collect lib f b (suc index) left (suc room)

      r : Record
      r = get_or history index blank

      kept : List Record
      kept = keep (is_wanted lib f) (take left (drop (suc index) history))

      go :
          (wanted : Bool)
          → taken ≡ take room kept
          → passed ≡ take (suc room) kept
          → (if wanted then r ∷ taken else passed)
            ≡ take (suc room) (if wanted then r ∷ kept else kept)
      go true t p = ap (λ rs. r ∷ rs) t
      go false t p = p

  count_from-eq :
      (level : Level) (index left : ℕ)
      → index + left ≤ held lib b
      → count_from lib level b index left
        ≡ length (keep (λ (r : Record). is_level level r.level) (take left (drop index history)))
  unfolding count_from
  count_from-eq level index zero h = refl
  count_from-eq level index (suc left) h =
      ap (λ (r : Record). if is_level level r.level then rest + 1 else rest)
        (ring.newest index (omega arith))
      ∙ (go (is_level level r.level) (count_from-eq level (suc index) left (omega arith))
          ∙ ap (λ rs. length (keep (λ (r : Record). is_level level r.level) (take (suc left) rs)))
              (sym (drop-get_or history index (omega (arith, held-le.1)))))
    where
      rest : ℕ
      rest = count_from lib level b (suc index) left

      r : Record
      r = get_or history index blank

      kept : List Record
      kept = keep (λ (r : Record). is_level level r.level) (take left (drop (suc index) history))

      go :
          (hit : Bool)
          → rest ≡ length kept
          → (if hit then rest + 1 else rest) ≡ length (if hit then r ∷ kept else kept)
      go true e = omega (arith, e)
      go false e = e

module _ (lib : Library) (lines : List (Bytes × ℕ)) (size : ℕ) (positive : 1 ≤ size) where
  abbrev log : List Record
  log = history_of lib lines 0 []

  buffer : Buffer
  buffer = write_all lib lines (new_buffer size)

  ring : IsRing lib buffer log
  unfolding buffer
  ring = write_all-IsRing lib lines (new_buffer size) [] (new_buffer-IsRing lib size)

  room : length buffer.records ≡ size
  unfolding buffer
  room =
      write_all-length lib lines (new_buffer size)
      ∙ (length-replicate (if ltb size 1 then 1 else size) blank ∙ ground (arith, positive))

  -- Whatever lines a new buffer of `size` places was given, a read answers the first `limit` of the
  -- lines that the filter wants among the last `size` written, newest first, and how many lines are
  -- held. The size is at least 1.
  pub read_records-write_all :
      (f : Filter)
      → read_records lib f (write_all lib lines (new_buffer size)) ≡ (
        take (limit_of lib f) (keep (is_wanted lib f) (take size (history_of lib lines 0 []))),
        min size (length (history_of lib lines 0 [])),
      )
  unfolding read_records buffer
  read_records-write_all f =
      let window = take-held lib buffer log ring ∙ ap (λ n. take n log) room in
      let lines_read =
        collect-eq lib buffer log ring f 0 (held lib buffer) (limit_of lib f) (omega arith)
        ∙ ap (λ rs. take (limit_of lib f) (keep (is_wanted lib f) rs)) window in
      let count = held-min lib buffer log ring ∙ ap (λ n. min n (length log)) room in
      ap (λ rs. (rs, held lib buffer)) lines_read
      ∙ ap (λ n. (take (limit_of lib f) (keep (is_wanted lib f) (take size log)), n)) count

  -- Whatever lines a new buffer of `size` places was given, the count of a level is the number of
  -- lines of that level among the last `size` written. The size is at least 1.
  pub counts-write_all :
      (level : Level)
      → counts lib level (write_all lib lines (new_buffer size))
        ≡ length
            (keep (λ (r : Record). is_level level r.level) (take size (history_of lib lines 0 [])))
  unfolding counts buffer
  counts-write_all level =
      count_from-eq lib buffer log ring level 0 (held lib buffer) (omega arith)
      ∙ ap (λ rs. length (keep (λ (r : Record). is_level level r.level) rs))
          (take-held lib buffer log ring ∙ ap (λ n. take n log) room)
