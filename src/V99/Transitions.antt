-- ===== src/V99/Transitions.antt =====
-- The transitions of v99/core/lifecycle.py as a relation, and what follows for runs.
use v91_core_system.Prelude.{◌≡◌, refl, Bool, true, false, Option, none, some, List, [], ◌∷◌}
use v91_core_system.Prelude.Result.{Result, ok, err}
use v91_core_system.V99.Lifecycle.{
  LifecycleState, initializing, running, paused, halted, LifecycleError, not_allowed, transition,
  Call, transition_to, reset_call, call, run,
}

-- The diagram.
infix 40 ◌⟶◌
pub data ◌⟶◌ : LifecycleState → LifecycleState → Type 0 where
  start : initializing ⟶ running
  pause : running ⟶ paused
  resume : paused ⟶ running
  abort : initializing ⟶ halted
  stop : running ⟶ halted
  stop_paused : paused ⟶ halted

-- What a transition into `t` gives.
pub data Transits (s t : LifecycleState)
    : Result LifecycleError LifecycleState × LifecycleState → Type 0 where
  moved : s ⟶ t → Transits s t (ok t, t)
  refused : ¬ (s ⟶ t) → Transits s t (err not_allowed, s)

-- A call for a state moves along an edge of the diagram, or is refused where there is none and
-- changes nothing.
pub transition-Transits : (s t : LifecycleState) → Transits s t (transition (some t) s)
unfolding transition
transition-Transits initializing initializing = refused (λ e. elim e [ ])
transition-Transits initializing running = moved start
transition-Transits initializing paused = refused (λ e. elim e [ ])
transition-Transits initializing halted = moved abort
transition-Transits running initializing = refused (λ e. elim e [ ])
transition-Transits running running = refused (λ e. elim e [ ])
transition-Transits running paused = moved pause
transition-Transits running halted = moved stop
transition-Transits paused initializing = refused (λ e. elim e [ ])
transition-Transits paused running = moved resume
transition-Transits paused paused = refused (λ e. elim e [ ])
transition-Transits paused halted = moved stop_paused
transition-Transits halted t = refused (λ e. elim e [ ])

abbrev pub is_reset : Call → Bool
is_reset reset_call = true
is_reset (transition_to t) = false

abbrev pub has_reset : List Call → Bool
has_reset [] = false
has_reset (reset_call ∷ cs) = true
has_reset (transition_to t ∷ cs) = has_reset cs

halted_call : (t : Option LifecycleState) → call (transition_to t) halted ≡ halted
unfolding call
halted_call none = refl
halted_call (some initializing) = refl
halted_call (some running) = refl
halted_call (some paused) = refl
halted_call (some halted) = refl

-- A halted machine stays halted under any calls without a reset.
pub halted_absorbs : (cs : List Call) → has_reset cs ≡ false → run cs halted ≡ halted
unfolding run
halted_absorbs [] h = refl
halted_absorbs (reset_call ∷ cs) h = cc
halted_absorbs (transition_to t ∷ cs) h = rw (halted_call t) (halted_absorbs cs h)
