-- ===== src/Observe.antt =====
-- The service log's buffer of recent lines: internal/observe/log.go. A line is a list of bytes; the
-- sequence number is a uint64. strings.TrimSpace, strings.ToLower, strings.Contains and
-- time.ParseInLocation are parameters.
pub mod Ring
pub mod Window
mod Tests
use shauth.Common.{
  ℕ, zero, suc, ◌+◌, ◌-◌, ◌*◌, ◌%◌, Bool, true, false, not, ◌&&◌, ◌||◌, Option, none, some, List,
  [], ◌∷◌, ◌++◌, get_or, set, take, drop, replicate, length, leb, ltb, ◌==◌, nat_eq, bytes_eq,
  if◌then◌else◌,
}

abbrev pub Bytes : Type 0
Bytes = List ℕ

pub data Level : Type 0 where
  error warn info unlabelled : Level

-- A level as a filter names it: an unknown or missing name has severity 0.
abbrev pub severity : Option Level → ℕ
severity none = 0
severity (some error) = 3
severity (some warn) = 2
severity (some info) = 1
severity (some unlabelled) = 1

pub record Record : Type 0 where
  pub sequence : ℕ
  pub at : ℕ
  pub level : Option Level
  pub message : Bytes

-- The zero value that make([]Record, size) fills the ring with.
abbrev pub blank : Record
blank = record { sequence = 0; at = 0; level = none; message = [] }

pub record Buffer : Type 0 where
  pub records : List Record
  pub next : ℕ
  pub filled : Bool
  pub sequence : ℕ

pub record Library : Type 0 where
  pub trim_space : Bytes → Bytes
  pub to_lower : Bytes → Bytes
  pub contains : Bytes → Bytes → Bool
  pub parse_stamp : Bytes → Option ℕ

pub record Filter : Type 0 where
  pub minimum_level : Option Level
  pub contains : Bytes
  pub since : Option ℕ
  pub limit : ℕ

abbrev maximum_message_bytes : ℕ
maximum_message_bytes = 4096

abbrev pub new_buffer : ℕ → Buffer
new_buffer size = record {
  records = replicate (if ltb size 1 then 1 else size) blank;
  next = 0;
  filled = false;
  sequence = 0;
}

-- strings.TrimRight(line, "\n")
trim_newlines : Bytes → Bytes
trim_newlines [] = []
trim_newlines (c ∷ cs) =
    let rest = trim_newlines cs in if length rest == 0 && c == 10 then [] else c ∷ rest

-- strings.CutPrefix
abbrev cut_prefix : Bytes → Bytes → Option Bytes
cut_prefix [] line = some line
cut_prefix (p ∷ ps) [] = none
cut_prefix (p ∷ ps) (c ∷ cs) = let rest = cut_prefix ps cs in if p == c then rest else none

abbrev trim_prefix : Bytes → Bytes → Bytes
trim_prefix p line = elim (cut_prefix p line) [ none ↦ line | some rest ↦ rest ]

-- The tokens "ERROR ", "WARN " and "INFO ": no line has two of them as a prefix, so the order in
-- which the source's map gives them does not matter.
parse_level : Bytes → Level × Bytes
parse_level line = elim (cut_prefix (b'E' ∷ b'R' ∷ b'R' ∷ b'O' ∷ b'R' ∷ b' ' ∷ []) line) [
  | some rest ↦ (error, rest)
  | none ↦ elim (cut_prefix (b'W' ∷ b'A' ∷ b'R' ∷ b'N' ∷ b' ' ∷ []) line) [
    | some rest ↦ (warn, rest)
    | none ↦ elim (cut_prefix (b'I' ∷ b'N' ∷ b'F' ∷ b'O' ∷ b' ' ∷ []) line) [
      | some rest ↦ (info, rest)
      | none ↦ (unlabelled, line)
    ]
  ]
]

abbrev pub is_level : Level → Option Level → Bool
is_level error (some error) = true
is_level warn (some warn) = true
is_level info (some info) = true
is_level unlabelled (some unlabelled) = true
is_level _ _ = false

module _ (lib : Library) where
  -- The time stamp of a line, and the line without it.
  parse_stamped : Bytes → ℕ → ℕ × Bytes
  parse_stamped line arrived =
      if leb 19 (length line)
      then elim (lib.parse_stamp (take 19 line)) [
        | none ↦ (arrived, line)
        | some at ↦ (at, trim_prefix (b' ' ∷ []) (drop 19 line))
      ]
      else (arrived, line)

  parse_line : Bytes → ℕ → ℕ × Level × Bytes
  unfolding trim_newlines parse_level parse_stamped
  parse_line line arrived =
      let (at, rest) = parse_stamped (trim_newlines line) arrived in
      let (level, message) = parse_level rest in (at, level, lib.trim_space message)

  -- The bytes of "…" in UTF-8 end a message that is cut.
  bound_message : Bytes → Bytes
  bound_message message =
      if ltb maximum_message_bytes (length message)
      then take maximum_message_bytes message ++ (226 ∷ 128 ∷ 166 ∷ [])
      else message

  -- The number of a new line: it wraps around.
  abbrev pub next_sequence : ℕ → ℕ
  next_sequence n = (n + 1) % 18446744073709551616

  -- The record that a line becomes, if it says anything.
  pub record_of_line : Bytes → ℕ → ℕ → Option Record
  unfolding parse_line bound_message
  record_of_line line arrived sequence =
      let (at, level, message) = parse_line line arrived in
      if length message == 0
      then none
      else some (record {
        sequence = next_sequence sequence;
        at = at;
        level = some level;
        message = bound_message message;
      })

  abbrev pub store_record : Record → Buffer → Buffer
  store_record r b =
      let next = (b.next + 1) % length b.records in
      record {
        records = set b.records b.next r;
        next = next;
        filled = b.filled || next == 0;
        sequence = r.sequence;
      }

  pub write : Bytes → ℕ → Buffer → Buffer
  unfolding record_of_line
  write line arrived b = elim (record_of_line line arrived b.sequence) [
    | none ↦ b
    | some r ↦ store_record r b
  ]

  abbrev pub held : Buffer → ℕ
  held b = if b.filled then length b.records else b.next

  -- ((next-1-index)%size+size)%size, where Go's % has the sign of its left side.
  abbrev pub position : ℕ → ℕ → ℕ → ℕ
  position next index size =
      if leb (index + 1) next
      then ((next - (index + 1)) % size + size) % size
      else (size - (index + 1 - next) % size) % size

  abbrev pub is_wanted : Filter → Record → Bool
  is_wanted f r =
      let wanted = lib.to_lower (lib.trim_space f.contains) in
      let recent : Bool = elim f.since [ none ↦ true | some t ↦ leb t r.at ] in
      leb (severity f.minimum_level) (severity r.level)
      && (recent && (length wanted == 0 || lib.contains (lib.to_lower r.message) wanted))

  -- The walk from the newest line back: `left` lines are still to read, `room` may still be taken.
  unfoldable pub collect : Filter → Buffer → ℕ → ℕ → ℕ → List Record
  collect f b index zero room = []
  collect f b index (suc left) zero = []
  collect f b index (suc left) (suc room) =
      let r = get_or b.records (position b.next index (length b.records)) blank in
      let taken = collect f b (suc index) left room in
      let passed = collect f b (suc index) left (suc room) in
      if is_wanted f r then r ∷ taken else passed

  abbrev pub limit_of : Filter → ℕ
  limit_of f = if ltb f.limit 1 then 200 else f.limit

  pub read_records : Filter → Buffer → List Record × ℕ
  unfolding collect
  read_records f b = (collect f b 0 (held b) (limit_of f), held b)

  -- The held lines of one level.
  unfoldable pub count_from : Level → Buffer → ℕ → ℕ → ℕ
  count_from level b index zero = 0
  count_from level b index (suc left) =
      let r = get_or b.records (position b.next index (length b.records)) blank in
      let rest = count_from level b (suc index) left in
      if is_level level r.level then rest + 1 else rest

  pub counts : Level → Buffer → ℕ
  unfolding count_from
  counts level b = count_from level b 0 (held b)

  pub capacity : Buffer → ℕ
  capacity b = length b.records
