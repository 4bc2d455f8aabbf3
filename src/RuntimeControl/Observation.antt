-- ===== src/RuntimeControl/Observation.antt =====
-- controller/runtime_control.py: the reading of Docker's output. `json.loads`, `str` of a value
-- that is no text and `str.isalnum` are parameters; a raise of ControlError is `none`.
use v91_core_system.Prelude.{
  ℕ, ◌==◌, eqb, String, Bool, false, not, ◌&&◌, ◌||◌, Option, none, some, List, [], ◌∷◌, map, suc,
  length, all, any, if◌then◌else◌,
}
use v91_core_system.Prelude.Dict.{Dict, lookup, insert}
use v91_core_system.Prelude.Float.{Floats}
use v91_core_system.Prelude.Int.{pos}
use v91_core_system.Prelude.Text.{
  codes, strip, ends_with, drop_last, lower, lstrip_of, splitlines, one_of,
}
use v91_core_system.Prelude.Value.{
  as_dict, truthy, as_nonempty, Value, null, bool, int, float, str, list, dict, Items, nil, cons,
  Fields, get_value, or_else,
}
use v91_core_system.RuntimeControl.Decision.{Observed, Snapshot}

infixl 5 ◌>>=◌
abbrev pub ◌>>=◌ : {A B : Type 0} → Option A → (A → Option B) → Option B
none >>= f = none
some a >>= f = f a

-- What the code takes from Python: the JSON reader, `str(v)`, `c.isalnum()`.
pub record Builtins (F : Type 0) : Type 0 where
  pub loads : String → Option (Value F)
  pub to_str : Value F → String
  pub is_alnum : ℕ → Bool

-- `ch.isalnum() or ch in "-_"` for every character of a name that is not empty.
unfoldable pub is_project_name : {F : Type 0} → Builtins F → String → Bool
is_project_name b s = not (s == "") && all (λ c. b.is_alnum c || eqb c b'-' || eqb c b'_') (codes s)

-- Every item is an object.
abbrev pub objects : {F : Type 0} → Items F → Option (List (Fields F))
objects nil = some []
objects (cons (dict fs) vs) = objects vs >>= λ rest. some (fs ∷ rest)
objects (cons _ vs) = none

-- One object to a line.
abbrev pub object_lines : {F : Type 0} → Builtins F → List String → Option (List (Fields F))
object_lines b [] = some []
object_lines b (l ∷ ls) =
    b.loads l >>= as_dict >>= λ fs. object_lines b ls >>= λ rest. some (fs ∷ rest)

-- A JSON array of objects, one object, or one object to a line where the whole is no JSON.
abbrev of_document :
    {F : Type 0} → Builtins F → String → Option (Value F) → Option (List (Fields F))
of_document b raw none = object_lines b (splitlines raw)
of_document b raw (some (list vs)) = objects vs
of_document b raw (some (dict fs)) = some (fs ∷ [])
of_document b raw (some _) = none

unfoldable pub parse_json_lines : {F : Type 0} → Builtins F → String → Option (List (Fields F))
parse_json_lines b raw =
    if strip raw == "" then some [] else of_document b (strip raw) (b.loads (strip raw))

-- `ALLOWED_SERVICE not in {service.strip() for service in services}`, negated.
unfoldable pub defines_worker : String → Bool
defines_worker out = any (λ service. strip service == "worker") (splitlines out)

module _ ⦃fl : Floats⦄ where
  unfoldable pub parse_percent : Value fl.Carrier → Option fl.Carrier
  parse_percent (str s) =
      if not (ends_with "%" (strip s))
      then none
      else fl.of_text (drop_last (strip s)) >>= λ x.
          if not (fl.is_finite x) || fl.lt x (fl.of_int (pos 0)) then none else some x
  parse_percent _ = none

  -- `item.get(k) or item.get(j)`
  abbrev pub first_of_keys : String → String → Fields fl.Carrier → Value fl.Carrier
  first_of_keys k j fs = or_else (get_value k fs) (get_value j fs)

  -- `str(v or "").lower()`
  abbrev pub word : Builtins fl.Carrier → Value fl.Carrier → String
  word b (str s) = lower s
  word b v = if truthy v then lower (b.to_str v) else ""

  abbrev pub is_worker : Fields fl.Carrier → Bool
  is_worker fs = elim (first_of_keys "Service" "service" fs) [
    | str s ↦ s == "worker"
    | null ↦ false
    | bool _ ↦ false
    | int _ ↦ false
    | float _ ↦ false
    | list _ ↦ false
    | dict _ ↦ false
  ]

  abbrev pub workers_of : List (Fields fl.Carrier) → List (Fields fl.Carrier)
  workers_of [] = []
  workers_of (fs ∷ rest) = if is_worker fs then fs ∷ workers_of rest else workers_of rest

  -- `stats_by_name`, from the records left and the dictionary so far.
  abbrev pub index_stats :
      List (Fields fl.Carrier) → Dict (Fields fl.Carrier) → Dict (Fields fl.Carrier)
  index_stats [] d = d
  index_stats (fs ∷ rest) d =
      index_stats rest
        (elim (as_nonempty (or_else (first_of_keys "Name" "name" fs) (get_value "Container" fs))) [
          | none ↦ d
          | some name ↦ insert (lstrip_of "/" name) fs d
        ])

  -- One worker with its statistics; `none` unless it runs, is healthy and is measured.
  unfoldable pub observe_worker :
      Builtins fl.Carrier
      → Dict (Fields fl.Carrier)
      → Fields fl.Carrier
      → Option (Observed fl.Carrier)
  observe_worker b stats item =
      let state = word b (first_of_keys "State" "state" item) in
      let health = word b (first_of_keys "Health" "health" item) in
      as_nonempty (first_of_keys "Name" "name" item) >>= λ name.
      if not (state == "running") || one_of health ("unhealthy" ∷ "starting" ∷ [])
      then none
      else lookup (lstrip_of "/" name) stats >>= λ measured.
          parse_percent (first_of_keys "CPUPerc" "cpuperc" measured) >>= λ cpu.
          parse_percent (first_of_keys "MemPerc" "memperc" measured) >>= λ memory. some (record {
            name = name;
            state = state;
            health = if health == "" then "not-reported" else health;
            cpu_percent = cpu;
            memory_percent = memory;
          })

  abbrev pub observe_all :
      Builtins fl.Carrier
      → Dict (Fields fl.Carrier)
      → List (Fields fl.Carrier)
      → Option (List (Observed fl.Carrier))
  observe_all b stats [] = some []
  observe_all b stats (item ∷ items) =
      observe_worker b stats item >>= λ o. observe_all b stats items >>= λ os. some (o ∷ os)

  -- Python's `max`, which keeps the first of equals.
  abbrev pub maximum : fl.Carrier → List fl.Carrier → fl.Carrier
  maximum m [] = m
  maximum m (x ∷ xs) = maximum (if fl.lt m x then x else m) xs

  abbrev pub count_running : List (Observed fl.Carrier) → ℕ
  count_running [] = 0
  count_running (o ∷ os) = if o.state == "running" then suc (count_running os) else count_running os

  -- The snapshot of the observed containers; `max` of an empty sequence raises.
  abbrev pub summarize : String → ℕ → List (Observed fl.Carrier) → Option (Snapshot fl.Carrier)
  summarize project n [] = none
  summarize project n (o ∷ os) = some (record {
    project = project;
    replicas = n;
    running = count_running (o ∷ os);
    max_cpu_percent = maximum o.cpu_percent (map (λ c. c.cpu_percent) os);
    max_memory_percent = maximum o.memory_percent (map (λ c. c.memory_percent) os);
    containers = o ∷ os;
  })

  -- What `collect_snapshot` makes of the records of `ps` and of `stats`.
  unfoldable pub snapshot_of :
      Builtins fl.Carrier
      → String
      → List (Fields fl.Carrier)
      → List (Fields fl.Carrier)
      → Option (Snapshot fl.Carrier)
  unfolding observe_worker
  snapshot_of b project workers stats =
      observe_all b (index_stats stats []) workers >>= summarize project (length workers)
