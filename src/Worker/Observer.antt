-- ===== src/Worker/Observer.antt =====
-- controller/observer.py: `count_tasks`, `inspect_action_log` and `snapshot`. What the directories and
-- the log hold, and which reads fail, are arguments.
use v91_core_system.Prelude.{
  ℕ, suc, eqb, String, ◌≡◌, ◌↔◌, refl, Bool, true, false, ◌&&◌, ◌||◌, Option, none, some, List, [],
  ◌∷◌, all, length, arith, if◌then◌else◌,
}
use v91_core_system.Prelude.Text.{is_blank}
use v91_core_system.Prelude.Value.{
  Value, null, bool, int, float, str, list, dict, Fields, get_value, or_else,
}
use v91_core_system.Prelude.Float.{Floats}

-- The regular files with the suffix .json of a directory, or why they are not known.
pub data Listing : Type 0 where
  files : List String → Listing
  not_found os_error : Listing

unfoldable pub count_tasks : Listing → Option ℕ
count_tasks (files names) = some (length names)
count_tasks not_found = some 0
count_tasks os_error = none

abbrev pub counts_of : List Listing → List (Option ℕ)
counts_of [] = []
counts_of (d ∷ ds) = count_tasks d ∷ counts_of ds

-- The lines of the log that are read, and whether an OSError ends them; or no file.
pub data Log : Type 0 where
  absent : Log
  lines : List String → Bool → Log

pub record LastEvent (F : Type 0) : Type 0 where
  pub timestamp_utc : Value F
  pub phase : Value F
  pub status : Value F
  pub task_id : Value F
  pub action : Value F

pub record LogSummary (F : Type 0) : Type 0 where
  pub events : ℕ
  pub parse_errors : ℕ
  pub last_event : Option (LastEvent F)

pub record Snapshot (F : Type 0) : Type 0 where
  pub observed : Bool
  pub counts : List (Option ℕ)
  pub audit : LogSummary F

abbrev pub is_known : Option ℕ → Bool
is_known none = false
is_known (some n) = true

module _ ⦃fl : Floats⦄ (loads : String → Option (Value fl.Carrier)) where
  abbrev event_of : Fields fl.Carrier → LastEvent fl.Carrier
  event_of e = record {
    timestamp_utc = get_value "timestamp_utc" e;
    phase = get_value "phase" e;
    status = or_else (get_value "status" e) (get_value "action_status" e);
    task_id = get_value "task_id" e;
    action = get_value "action" e;
  }

  abbrev parse_error : LogSummary fl.Carrier → LogSummary fl.Carrier
  parse_error s = record s { parse_errors = suc s.parse_errors }

  -- An event is an object; every other line that is not blank is an error.
  abbrev count_line : Option (Value fl.Carrier) → LogSummary fl.Carrier → LogSummary fl.Carrier
  count_line (some (dict e)) s = record s { events = suc s.events; last_event = some (event_of e) }
  count_line _ s = parse_error s

  unfoldable pub read_line : String → LogSummary fl.Carrier → LogSummary fl.Carrier
  read_line line s = if is_blank line then s else count_line (loads line) s

  unfoldable pub read_lines : List String → LogSummary fl.Carrier → LogSummary fl.Carrier
  unfolding read_line
  read_lines [] s = s
  read_lines (line ∷ rest) s = read_lines rest (read_line line s)

  abbrev empty_summary : LogSummary fl.Carrier
  empty_summary = record { events = 0; parse_errors = 0; last_event = none }

  unfoldable pub inspect_action_log : Log → LogSummary fl.Carrier
  unfolding read_lines
  inspect_action_log absent = empty_summary
  inspect_action_log (lines ls failed) =
      let s = read_lines ls empty_summary in if failed then parse_error s else s

  -- `snapshot` of the directories and the log; its status is OBSERVED or PENDING_WITNESS.
  unfoldable pub snapshot : List Listing → Log → Snapshot fl.Carrier
  unfolding count_tasks inspect_action_log
  snapshot directories log =
      let audit = inspect_action_log log in
      let counts = counts_of directories in
      record {
        observed = all is_known counts && eqb audit.parse_errors 0;
        counts = counts;
        audit = audit;
      }

  abbrev pub is_object : Option (Value fl.Carrier) → Bool
  is_object (some (dict e)) = true
  is_object _ = false

  -- A line that is blank or an object.
  abbrev pub is_event : String → Bool
  is_event line = is_blank line || is_object (loads line)

  count_line_errors :
      (v : Option (Value fl.Carrier)) (s : LogSummary fl.Carrier)
      → (count_line v s).parse_errors ≡ (if is_object v then s.parse_errors else suc s.parse_errors)
  count_line_errors none s = refl
  count_line_errors (some null) s = refl
  count_line_errors (some (bool b)) s = refl
  count_line_errors (some (int n)) s = refl
  count_line_errors (some (float x)) s = refl
  count_line_errors (some (str t)) s = refl
  count_line_errors (some (list l)) s = refl
  count_line_errors (some (dict d)) s = refl

  read_line_errors :
      (line : String) (s : LogSummary fl.Carrier)
      → (read_line line s).parse_errors
        ≡ (if is_event line then s.parse_errors else suc s.parse_errors)
  unfolding read_line
  read_line_errors line s = ground (arith, count_line_errors (loads line) s)

  read_lines_errors :
      (ls : List String) (s : LogSummary fl.Carrier)
      → ((read_lines ls s).parse_errors ≡ 0) ↔ ((s.parse_errors ≡ 0) × (all is_event ls ≡ true))
  unfolding read_lines
  read_lines_errors [] s = (λ h. (h, refl), λ h. h.0)
  read_lines_errors (line ∷ ls) s =
      let (down, up) = read_lines_errors ls (read_line line s) in
      let e = read_line_errors line s in
      (
        λ h.
            let (first, rest) = down h in
            (ground (arith, e, first), ground (arith, e, first, rest)),
        λ h. let (none_yet, events) = h in up (ground (arith, e), ground arith),
      )

  -- The log is not there, or it is read to its end and every line is blank or an object.
  abbrev pub IsReadable : Log → Type 0
  IsReadable absent = Unit
  IsReadable (lines ls failed) = (failed ≡ false) × (all is_event ls ≡ true)

  inspect_errors : (log : Log) → ((inspect_action_log log).parse_errors ≡ 0) ↔ IsReadable log
  unfolding inspect_action_log
  inspect_errors absent = (λ h. tt, λ h. refl)
  inspect_errors (lines ls true) = (λ h. absurd (omega (arith, h)), λ h. cc)
  inspect_errors (lines ls false) =
      let (down, up) = read_lines_errors ls empty_summary in
      (λ h. (refl, (down h).1), λ h. up (refl, h.1))

  -- A snapshot is OBSERVED exactly if every directory is counted and the log is readable.
  pub snapshot_observed :
      (directories : List Listing) (log : Log)
      → ((snapshot directories log).observed ≡ true)
        ↔ ((all is_known (counts_of directories) ≡ true) × IsReadable log)
  unfolding snapshot
  snapshot_observed directories log =
      let (down, up) = inspect_errors log in
      (
        λ h. (ground arith, down (ground arith)),
        λ h. let (known, readable) = h in let zero_errors = up readable in ground arith,
      )
