-- ===== src/RuntimeControl/Monad.antt =====
-- What the steps of a control cycle append to the record of acts, one rule for each way to build
-- a step.
use v91_core_system.Prelude.{
  ℕ, ◌≡◌, refl, ap, sym, ◌∙◌, Bool, true, false, Option, none, some, List, [], ◌∷◌, ◌++◌,
  append_assoc, append-nil, arith, ◌⊎◌, inl, inr, Bool-cases,
}
use v91_core_system.Prelude.Float.{Floats}
use v91_core_system.Prelude.Result.{Result, ok, err, is_ok}
use v91_core_system.RuntimeControl.Decision.{Exception}
use v91_core_system.RuntimeControl.Cycle.{
  Command, Act, Event, Host, Config, State, M, ran, logged, stored, ◌>>=◌, ◌>>◌, or_raise,
  raise_unless, run_command, append_audit, write_state,
}

module _ ⦃fl : Floats⦄ (h : Host) (c : Config) where
  -- From every state, the step appends a list of acts that has the property `P`.
  pub record Appends {A : Type 0} (P : List Act → Type 0) (m : M h c A) : Type 0 where
    pub at : (s : State h c) → (t : List Act) × ((m s).1.acts ≡ s.acts ++ t) × P t

  -- The rest of a step after a part that ended with `r` in the state `s'`.
  bind_rest :
      {A B : Type 0} (P Q R : List Act → Type 0) (f : A → M h c B) (acts t : List Act)
      (r : Result Exception A) (s' : State h c)
      → s'.acts ≡ acts ++ t
      → P t
      → ((a : A) → Appends Q (f a))
      → ((t : List Act) → P t → R t)
      → ((t u : List Act) → P t → Q u → R (t ++ u))
      → let after : Result Exception B × State h c = elim r [
        | ok a ↦ f a s'
        | err e ↦ (err e, s')
      ] in
        (u : List Act) × (after.1.acts ≡ acts ++ u) × R u
  bind_rest P Q R f acts t (ok a) s' e p hf stop join =
      let (u, e', q) = (hf a).at s' in
      (t ++ u, e' ∙ ap (λ l. l ++ u) e ∙ append_assoc acts t u, join t u p q)
  bind_rest P Q R f acts t (err x) s' e p hf stop join = (t, e, stop t p)

  pub Appends-bind :
      {A B : Type 0} (P Q R : List Act → Type 0) (m : M h c A) (f : A → M h c B)
      → Appends P m
      → ((a : A) → Appends Q (f a))
      → ((t : List Act) → P t → R t)
      → ((t u : List Act) → P t → Q u → R (t ++ u))
      → Appends R (◌>>=◌ h c m f)
  unfolding ◌>>=◌
  Appends-bind P Q R m f hm hf stop join = record {
    at =
        λ s. let (t, e, p) = hm.at s in bind_rest P Q R f s.acts t (m s).0 (m s).1 e p hf stop join;
  }

  pub Appends-weaken :
      {A : Type 0} {P Q : List Act → Type 0} (m : M h c A)
      → Appends P m
      → ((t : List Act) → P t → Q t)
      → Appends Q m
  Appends-weaken m hm w = record { at = λ s. let (t, e, p) = hm.at s in (t, e, w t p) }

  -- `append_audit` raises and appends nothing, or returns with the event appended.
  audited :
      (e : Event) (s : State h c)
      → let (r, s') = append_audit h c e s in
        ((is_ok r ≡ false) × (s'.acts ≡ s.acts))
        ⊎ ((r ≡ ok tt) × (s'.acts ≡ s.acts ++ logged e ∷ []))
  unfolding append_audit
  audited e s = ground arith

  announced_rest :
      {A : Type 0} (Q R : List Act → Type 0) (e : Event) (k : M h c A) (acts : List Act)
      (r : Result Exception (Unit {0})) (s' : State h c)
      → ((is_ok r ≡ false) × (s'.acts ≡ acts)) ⊎ ((r ≡ ok tt) × (s'.acts ≡ acts ++ logged e ∷ []))
      → Appends Q k
      → R []
      → ((u : List Act) → Q u → R (logged e ∷ u))
      → let after : Result Exception A × State h c = elim r [ ok _ ↦ k s' | err x ↦ (err x, s') ] in
        (u : List Act) × (after.1.acts ≡ acts ++ u) × R u
  announced_rest Q R e k acts (ok a) s' (inl (bad, _)) hk stop join = cc
  announced_rest Q R e k acts (ok a) s' (inr (_, more)) hk stop join =
      let (u, same, q) = hk.at s' in
      (logged e ∷ u, same ∙ ap (λ l. l ++ u) more ∙ append_assoc acts (logged e ∷ []) u, join u q)
  announced_rest Q R e k acts (err x) s' (inl (_, same)) hk stop join =
      ([], same ∙ sym (append-nil acts), stop)
  announced_rest Q R e k acts (err x) s' (inr (bad, _)) hk stop join = cc

  -- What comes after `append_audit` stands behind its event.
  pub Appends-announce :
      {A : Type 0} (Q R : List Act → Type 0) (e : Event) (k : M h c A)
      → Appends Q k
      → R []
      → ((u : List Act) → Q u → R (logged e ∷ u))
      → Appends R (◌>>◌ h c (append_audit h c e) k)
  unfolding ◌>>=◌
  Appends-announce Q R e k hk stop join = record {
    at = λ s.
        let (r, s') = append_audit h c e s in
        announced_rest Q R e k s.acts r s' (audited e s) hk stop join;
  }

  -- A property of the empty list and of concatenations: a step keeps it if its parts do.
  pub record IsClosed (P : List Act → Type 0) : Type 0 where
    pub nil : P []
    pub append : (t u : List Act) → P t → P u → P (t ++ u)

  module _ {P : List Act → Type 0} (closed : IsClosed P) where
    -- A step that leaves the record alone.
    pub Appends-still :
        {A : Type 0} (m : M h c A) → ((s : State h c) → (m s).1.acts ≡ s.acts) → Appends P m
    Appends-still m same = record { at = λ s. ([], same s ∙ sym (append-nil s.acts), closed.nil) }

    pub Appends-then :
        {A B : Type 0} (m : M h c A) (f : A → M h c B)
        → Appends P m
        → ((a : A) → Appends P (f a))
        → Appends P (◌>>=◌ h c m f)
    Appends-then m f hm hf = Appends-bind P P P m f hm hf (λ t p. p) closed.append

    pub Appends-or_raise :
        {A : Type 0} (o : Option A) (e : Exception) → Appends P (or_raise h c o e)
    Appends-or_raise none e = Appends-still (or_raise h c none e) (λ s. refl)
    Appends-or_raise (some a) e = Appends-still (or_raise h c (some a) e) (λ s. refl)

    pub Appends-raise_unless : (b : Bool) (e : Exception) → Appends P (raise_unless h c b e)
    Appends-raise_unless true e = Appends-still (raise_unless h c true e) (λ s. refl)
    Appends-raise_unless false e = Appends-still (raise_unless h c false e) (λ s. refl)

    pub Appends-run_command : (k : Command) → P (ran k ∷ []) → Appends P (run_command h c k)
    unfolding run_command
    Appends-run_command k p = record { at = λ s. (ran k ∷ [], refl, p) }

    pub Appends-append_audit : (e : Event) → P (logged e ∷ []) → Appends P (append_audit h c e)
    unfolding append_audit
    Appends-append_audit e p = record {
      at = λ s. elim (audited e s) [
        | inl (_, same) ↦ ([], same ∙ sym (append-nil s.acts), closed.nil)
        | inr (_, more) ↦ (logged e ∷ [], more, p)
      ];
    }

    pub Appends-write_state : (n : ℕ) → P (stored n ∷ []) → Appends P (write_state h c n)
    unfolding write_state
    Appends-write_state n p = record {
      at = λ s. elim (Bool-cases (h.replace_state n s.world).0) [
        | inl written ↦ (stored n ∷ [], rw written refl, p)
        | inr failed ↦ ([], rw failed (sym (append-nil s.acts)), closed.nil)
      ];
    }
