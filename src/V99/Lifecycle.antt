-- ===== src/V99/Lifecycle.antt =====
-- v99/core/lifecycle.py. The argument of `transition` is a state or an object of another type.
use v91_core_system.Prelude.{
  Bool, true, false, not, Option, none, some, List, [], ◌∷◌, if◌then◌else◌,
}
use v91_core_system.Prelude.Result.{Result, ok, err}

pub data LifecycleState : Type 0 where
  initializing running paused halted : LifecycleState

pub data LifecycleError : Type 0 where
  type_error not_allowed : LifecycleError

-- `_ALLOWED`
unfoldable pub is_allowed : LifecycleState → LifecycleState → Bool
is_allowed initializing running = true
is_allowed initializing halted = true
is_allowed running paused = true
is_allowed running halted = true
is_allowed paused running = true
is_allowed paused halted = true
is_allowed _ _ = false

-- The result and the state of the machine after the call.
unfoldable pub transition :
    Option LifecycleState → LifecycleState → Result LifecycleError LifecycleState × LifecycleState
unfolding is_allowed
transition none s = (err type_error, s)
transition (some t) s = if not (is_allowed s t) then (err not_allowed, s) else (ok t, t)

abbrev pub reset : LifecycleState → LifecycleState
reset s = initializing

-- The calls of a machine.
pub data Call : Type 0 where
  transition_to : Option LifecycleState → Call
  reset_call : Call

unfoldable pub call : Call → LifecycleState → LifecycleState
unfolding transition
call (transition_to t) s = (transition t s).1
call reset_call s = reset s

unfoldable pub run : List Call → LifecycleState → LifecycleState
unfolding call
run [] s = s
run (c ∷ cs) s = run cs (call c s)
