-- ===== src/Measurement/Chain.antt =====
-- controller/measurement_core.py: `event_hash`, `verify_ledger` and `append_snapshot`. The file is
-- the list of its lines, each with its end. JSON and SHA-256 are parameters. Left out are a file that
-- is not UTF-8, failing writes, and that opening a missing ledger makes an empty one, which shows
-- only if the JSON of a record fails after that of its payload did not.
use v91_core_system.Prelude.{
  ℕ, ◌+◌, ◌-◌, eqb, ◌==◌, String, Bool, true, false, not, ◌&&◌, Option, none, some, List, [], ◌∷◌,
  ◌++◌, if◌then◌else◌,
}
use v91_core_system.Prelude.Float.{Floats}
use v91_core_system.Prelude.Int.{pos, eqb_ℤ}
use v91_core_system.Prelude.Result.{Result, ok, err, raise_if, or_raise, ◌>>=◌, ◌>>◌}
use v91_core_system.Prelude.Text.{is_blank, join}
use v91_core_system.Prelude.Value.{
  Value, bool, int, float, str, dict, Fields, end, field, get_value, without,
}

-- `n` is the number of the line. `value_error` is the ValueError of `json.dumps` at a float that is
-- not finite, which is no MeasurementError.
pub data Error : Type 0 where
  blank_line invalid_record sequence_mismatch previous_hash_mismatch event_hash_mismatch : ℕ → Error
  not_parsed : Error
  lock_exists : Error
  value_error : Error

-- `canonical_json`, with `none` for its ValueError, `json.loads`, and the hexadecimal SHA-256 of the
-- bytes of a text.
pub record Codec (F : Type 0) : Type 0 where
  pub canonical : Fields F → Option String
  pub loads : String → Option (Value F)
  pub sha256 : String → String

abbrev pub genesis : String
genesis = "0000000000000000000000000000000000000000000000000000000000000000"

-- The status `EMPTY_LEDGER` tells that there is no file.
pub record Verified : Type 0 where
  pub empty_ledger : Bool
  pub events : ℕ
  pub last_hash : String

-- The ledger and its lock file.
pub record Disk : Type 0 where
  pub ledger : Option (List String)
  pub locked : Bool

-- What an append finds in the file.
abbrev pub lines_of : Option (List String) → List String
lines_of none = []
lines_of (some lines) = lines

module _ ⦃fl : Floats⦄ (c : Codec fl.Carrier) where
  -- `event_hash`, of a payload in canonical JSON.
  abbrev pub link : String → String → String
  link previous body = c.sha256 (join previous (join "\n" body))

  abbrev pub event_hash : String → Fields fl.Carrier → Result Error String
  event_hash previous payload =
      or_raise (c.canonical payload) value_error >>= λ body. ok (link previous body)

  -- `v == n` for a value and a number.
  unfoldable pub is_number : ℕ → Value fl.Carrier → Bool
  is_number n (int m) = eqb_ℤ m (pos n)
  is_number n (bool true) = eqb n 1
  is_number n (bool false) = eqb n 0
  is_number n (float x) = fl.le x (fl.of_int (pos n)) && fl.le (fl.of_int (pos n)) x
  is_number n _ = false

  -- `v == s` for a value and a text.
  unfoldable pub is_text : String → Value fl.Carrier → Bool
  is_text s (str t) = t == s
  is_text s _ = false

  -- One round of the loop, with the number of the line, which is the expected sequence, and the
  -- last hash.
  unfoldable pub check_record : ℕ → String → Value fl.Carrier → Result Error String
  check_record n previous (dict fields) = do
    raise_if (not (is_number n (get_value "sequence" (without "event_hash" fields))))
        (sequence_mismatch n)
    raise_if (not (is_text previous (get_value "previous_hash" (without "event_hash" fields))))
        (previous_hash_mismatch n)
    calculated ← event_hash previous (without "event_hash" fields)
    raise_if (not (is_text calculated (get_value "event_hash" fields))) (event_hash_mismatch n)
    ok calculated
  check_record n previous _ = err (invalid_record n)

  unfoldable pub check_line : ℕ → String → String → Result Error String
  check_line n previous line =
      raise_if (is_blank line) (blank_line n) >> or_raise (c.loads line) not_parsed >>= λ v.
      check_record n previous v

  -- The rest of the loop: the expected sequence and the last hash after it.
  unfoldable pub check_lines : ℕ → String → List String → Result Error (ℕ × String)
  check_lines n previous [] = ok (n, previous)
  check_lines n previous (line ∷ lines) =
      check_line n previous line >>= λ calculated. check_lines (n + 1) calculated lines

  unfoldable pub verify_ledger : Option (List String) → Result Error Verified
  verify_ledger none = ok (record { empty_ledger = true; events = 0; last_hash = genesis })
  verify_ledger (some lines) = check_lines 1 genesis lines >>= λ x.
      ok (record { empty_ledger = false; events = x.0 - 1; last_hash = x.1 })

  abbrev pub payload_of : ℕ → String → String → Value fl.Carrier → Fields fl.Carrier
  payload_of sequence previous now snapshot = field "sequence" (int (pos sequence)) (
      field "previous_hash" (str previous)
        (field "recorded_at_utc" (str now) (field "snapshot" snapshot end)))

  abbrev pub hashed : String → Fields fl.Carrier → Fields fl.Carrier
  hashed digest (field k v fs) = field k v (hashed digest fs)
  hashed digest end = field "event_hash" (str digest) end

  -- The lines after the append, and what it returns: the sequence and the hash.
  unfoldable pub append_line :
      Option (List String) → String → Value fl.Carrier → Result Error ((ℕ × String) × List String)
  append_line ledger now snapshot = do
    state ← verify_ledger ledger
    digest ← event_hash state.last_hash (payload_of (state.events + 1) state.last_hash now snapshot)
    line ←
        or_raise
          (c.canonical (hashed digest (payload_of (state.events + 1) state.last_hash now snapshot)))
          value_error
    ok ((state.events + 1, digest), lines_of ledger ++ (line ∷ []))

  -- With the lock taken, and given back in the end.
  abbrev pub finish :
      Disk → Result Error ((ℕ × String) × List String) → Result Error (ℕ × String) × Disk
  finish d (ok (answer, lines)) = (ok answer, record { ledger = some lines; locked = false })
  finish d (err e) = (err e, record d { locked = false })

  unfoldable pub append_snapshot :
      String → Value fl.Carrier → Disk → Result Error (ℕ × String) × Disk
  append_snapshot now snapshot d =
      if d.locked then (err lock_exists, d) else finish d (append_line d.ledger now snapshot)
