-- ===== src/Observe/Tests.antt =====
-- Runs of the log buffer on concrete lines, and instances of its theorems.
use shauth.Common.{
  ℕ, true, none, some, List, [], ◌∷◌, ◌≡◌, refl, arith, codes, length, take, keep, min,
}
use shauth.Observe.{
  Bytes, error, info, Record, Library, Filter, new_buffer, record_of_line, write, read_records,
  counts, collect, count_from, limit_of, is_wanted, is_level, parse_line, bound_message,
  trim_newlines, parse_level, parse_stamped,
}
use shauth.Observe.Window.{write_all, history_of, read_records-write_all, counts-write_all}

abbrev plain : Library
plain = record {
  trim_space = λ s. s;
  to_lower = λ s. s;
  contains = λ s t. true;
  parse_stamp = λ s. none;
}

abbrev lines : List (Bytes × ℕ)
lines = (codes "INFO up", 1) ∷ (codes "ERROR no", 2) ∷ (codes "INFO on", 3) ∷ []

abbrev everything : Filter
everything = record { minimum_level = none; contains = []; since = none; limit = 0 }

abbrev errors : Filter
errors = record everything { minimum_level = some error }

-- Two places hold the last two of three lines, one of them an error.
two_of_three :
    (length (read_records plain everything (write_all plain lines (new_buffer 2))).0 ≡ 2)
    × (length (read_records plain errors (write_all plain lines (new_buffer 2))).0 ≡ 1)
    × (counts plain info (write_all plain lines (new_buffer 2)) ≡ 1)
unfolding write_all write read_records record_of_line parse_line bound_message trim_newlines
    parse_level parse_stamped collect counts count_from
two_of_three = (refl, refl, refl)

read_records-write_all_example :
    read_records plain errors (write_all plain lines (new_buffer 2)) ≡ (
      take
          (limit_of plain errors)
          (keep (is_wanted plain errors) (take 2 (history_of plain lines 0 []))),
      min 2 (length (history_of plain lines 0 [])),
    )
read_records-write_all_example = read_records-write_all plain lines 2 (omega arith) errors

counts-write_all_example :
    counts plain info (write_all plain lines (new_buffer 2))
    ≡ length (keep (λ (r : Record). is_level info r.level) (take 2 (history_of plain lines 0 [])))
counts-write_all_example = counts-write_all plain lines 2 (omega arith) info
