-- ===== src/Measurement/Tampering.antt =====
-- Tamper evidence of the ledger of controller/measurement_core.py: two ledgers that verify with as
-- many events and the same last hash hold the same records, or show a collision of the digest.
use v91_core_system.Prelude.{
  ℕ, ◌+◌, ◌-◌, ◌==◌, String, ◌≡◌, ◌≢◌, refl, ap, sym, ◌∙◌, inl, inr, ◌⊎◌, false, Option, none, some,
  List, [], ◌∷◌, length, arith, eq_iff, Bool-cases, Option-cases,
}
use v91_core_system.Prelude.Float.{Floats}
use v91_core_system.Prelude.Result.{ok, >>=-eq-ok}
use v91_core_system.Prelude.Text.{is_blank, join, count_chars}
use v91_core_system.Prelude.Value.{Value, null, bool, int, float, str, list, dict, without}
use v91_core_system.Measurement.Chain.{
  Codec, genesis, link, check_record, check_line, check_lines, Verified, verify_ledger,
}

-- Two texts that differ and have one digest.
pub record Collision (digest : String → String) : Type 0 where
  pub first : String
  pub second : String
  pub differ : first ≢ second
  pub collide : digest first ≡ digest second

join_inv :
    (p q s t : String) → count_chars p ≡ count_chars q → join p s ≡ join q t → (p ≡ q) × (s ≡ t)
join_inv String.[] String.[] s t n e = (refl, e)
join_inv String.[] (String.◌∷◌ d q) s t n e = absurd (omega (arith, n))
join_inv (String.◌∷◌ c p) String.[] s t n e = absurd (omega (arith, n))
join_inv (String.◌∷◌ c p) (String.◌∷◌ d q) s t n e =
    let rest = join_inv p q s t (omega (arith, n)) (cc) in (cc, rest.1)

abbrev pub cons_body : Option String → Option (List String) → Option (List String)
cons_body (some b) (some bs) = some (b ∷ bs)
cons_body (some b) none = none
cons_body none _ = none

module _ ⦃fl : Floats⦄ (c : Codec fl.Carrier) where
  -- The hash after the bodies.
  fold_link : String → List String → String
  fold_link p [] = p
  fold_link p (b ∷ bs) = fold_link (link c p b) bs

  -- What a line says: the canonical JSON of its record less the hash.
  abbrev pub body_of : Value fl.Carrier → Option String
  body_of (dict fields) = c.canonical (without "event_hash" fields)
  body_of _ = none

  abbrev pub line_body : String → Option String
  line_body line = elim (c.loads line) [ none ↦ none | some v ↦ body_of v ]

  unfoldable pub bodies : List String → Option (List String)
  bodies [] = some []
  bodies (line ∷ lines) = cons_body (line_body line) (bodies lines)

  fold_link_inv :
      ((x : String) → count_chars (c.sha256 x) ≡ 64)
      → (p q : String) (bs cs : List String) → count_chars p ≡ count_chars q
      → length bs ≡ length cs
      → fold_link p bs ≡ fold_link q cs
      → ((p ≡ q) × (bs ≡ cs)) ⊎ Collision c.sha256
  unfolding fold_link
  fold_link_inv size p q [] [] n m e = inl (e, refl)
  fold_link_inv size p q [] (d ∷ cs) n m e = absurd (omega (arith, m))
  fold_link_inv size p q (b ∷ bs) [] n m e = absurd (omega (arith, m))
  fold_link_inv size p q (b ∷ bs) (d ∷ cs) n m e =
      let x = join p (join "\n" b) in
      let y = join q (join "\n" d) in
      elim (fold_link_inv size (link c p b) (link c q d) bs cs (size x ∙ sym (size y))
        (omega (arith, m)) e) [
          | inr collision ↦ inr collision
          | inl (same, rest) ↦ elim (Bool-cases (x == y)) [
            | inr differ ↦ inr (record {
              first = x;
              second = y;
              differ = λ h. ground (arith, eq_iff x y);
              collide = same;
            })
            | inl equal ↦
                (let parts = join_inv p q (join "\n" b) (join "\n" d) n ((eq_iff x y).0 equal) in
                  inl (parts.0, cc))
          ]
        ]

  check_record_body :
      (n : ℕ) (p q : String) (v : Value fl.Carrier)
      → check_record c n p v ≡ ok q
      → (b : String) × (body_of v ≡ some b) × (link c p b ≡ q)
  unfolding check_record
  check_record_body n p q (dict fields) h =
      elim (Option-cases (c.canonical (without "event_hash" fields))) [
        | inl e ↦ absurd (ground (arith, e))
        | inr (b, e) ↦ (b, e, ground (arith, e))
      ]
  check_record_body n p q null h = cc
  check_record_body n p q (bool b) h = cc
  check_record_body n p q (int b) h = cc
  check_record_body n p q (float b) h = cc
  check_record_body n p q (str b) h = cc
  check_record_body n p q (list b) h = cc

  check_line_body :
      (n : ℕ) (p q line : String)
      → check_line c n p line ≡ ok q
      → (b : String) × (line_body line ≡ some b) × (link c p b ≡ q)
  unfolding check_line
  check_line_body n p q line h = elim (Bool-cases (is_blank line)) [
    | inl blank ↦ absurd (ground (arith, blank))
    | inr fine ↦ elim (Option-cases (c.loads line)) [
      | inl e ↦ absurd (ground (arith, fine, e))
      | inr (v, e) ↦
          (let (b, body, linked) = check_record_body n p q v (ground (arith, fine, e)) in
            (b, ap (λ o. elim o [ none ↦ none | some w ↦ body_of w ]) e ∙ body, linked))
    ]
  ]

  bodies-cons :
      (line b : String) (lines bs : List String)
      → line_body line ≡ some b
      → bodies lines ≡ some bs
      → bodies (line ∷ lines) ≡ some (b ∷ bs)
  unfolding bodies
  bodies-cons line b lines bs e f = λ i. cons_body (e i) (f i)

  trace_of_lines :
      (lines : List String) (n m : ℕ) (p q : String)
      → check_lines c n p lines ≡ ok (m, q)
      → (bs : List String) × (bodies lines ≡ some bs) × (n + length bs ≡ m) × (fold_link p bs ≡ q)
  unfolding check_lines bodies fold_link
  trace_of_lines [] n m p q h = ([], refl, ground arith, cc)
  trace_of_lines (line ∷ lines) n m p q h =
      let (r, first, h1) = >>=-eq-ok (check_line c n p line) _ h in
      let (b, body, linked) = check_line_body n p r line first in
      let (bs, rest, count, fold) = trace_of_lines lines (n + 1) m r q h1 in
      (
        b ∷ bs,
        bodies-cons line b lines bs body rest,
        omega (arith, count),
        ap (λ x. fold_link x bs) linked ∙ fold,
      )

  -- A ledger that verifies has a body on each line, as many as events, and the last hash is the
  -- chain over them.
  verified_bodies :
      (l : List String) (x : Verified)
      → verify_ledger c (some l) ≡ ok x
      → (bs : List String) × (bodies l ≡ some bs)
        × (length bs ≡ x.events)
        × (fold_link genesis bs ≡ x.last_hash)
  unfolding verify_ledger
  verified_bodies l x e =
      let (end_state, h, r) = >>=-eq-ok (check_lines c 1 genesis l) _ e in
      let (bs, b, n, f) = trace_of_lines l 1 end_state.0 genesis end_state.1 h in
      let result : x
          ≡ record { empty_ledger = false; events = end_state.0 - 1; last_hash = end_state.1 } =
        cc in
      (
        bs,
        b,
        omega (arith, n, ap (λ (v : Verified). v.events) result),
        f ∙ sym (ap (λ (v : Verified). v.last_hash) result),
      )

  -- Two ledgers that verify with as many events and the same last hash have the same records up to
  -- the order of keys, or show two texts with one digest; digests have 64 characters.
  pub tamper_evident :
      ((x : String) → count_chars (c.sha256 x) ≡ 64)
      → (l1 l2 : List String) (x y : Verified) → verify_ledger c (some l1) ≡ ok x
      → verify_ledger c (some l2) ≡ ok y
      → x.events ≡ y.events
      → x.last_hash ≡ y.last_hash
      → ((bs : List String) × (bodies l1 ≡ some bs) × (bodies l2 ≡ some bs)) ⊎ Collision c.sha256
  tamper_evident size l1 l2 x y e1 e2 events hashes =
      let (bs, b1, n1, f1) = verified_bodies l1 x e1 in
      let (cs, b2, n2, f2) = verified_bodies l2 y e2 in
      elim (fold_link_inv size genesis genesis bs cs refl (n1 ∙ events ∙ sym n2)
        (f1 ∙ hashes ∙ sym f2)) [
          | inl (_, same) ↦ inl (bs, b1, b2 ∙ ap some (sym same))
          | inr collision ↦ inr collision
        ]
