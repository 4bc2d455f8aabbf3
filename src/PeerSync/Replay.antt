-- ===== src/PeerSync/Replay.antt =====
-- The sequences that a registry of controller/peer_sync.py accepts from one peer.
use v91_core_system.Prelude.{
  ◌==◌, String, ◌≡◌, ◌≢◌, refl, ap, sym, ◌∙◌, some, inl, inr, List, [], ◌∷◌, arith, eq_iff,
  if◌then◌else◌,
}
use v91_core_system.Prelude.Dict.{lookup, get_or, lookup-insert}
use v91_core_system.Prelude.Float.{Floats}
use v91_core_system.Prelude.Int.{ℤ, pos, ◌≤ℤ◌, ◌<ℤ◌}
use v91_core_system.Prelude.Result.{Result, ok, err}
use v91_core_system.Prelude.Value.{Fields}
use v91_core_system.PeerSync.Message.{
  Reason, overflow, fields_differ, Crypto, Checked, check_message,
}
use v91_core_system.PeerSync.Registry.{
  Limits, Registry, PeerResult, invalid, accept, received, receive, receive_and_track, track,
  mark_one, mark_all, mark_unseen_stale, Event, message, tracked, sweep, step, run,
}
use v91_core_system.PeerSync.Authenticity.{authenticate_cases, received_cases}

-- The last sequence accepted from a peer, 0 if there is none.
abbrev pub last : {F : Type 0} → String → Registry F → ℤ
last k g = get_or (pos 0) k g.last_sequence

module _ ⦃fl : Floats⦄ (c : Crypto fl.Carrier) (p : Limits c) where
  last-accept :
      (k : String) (m : Checked fl.Carrier) (age now : fl.Carrier) (g : Registry fl.Carrier)
      → last k (accept c p m age now g).1 ≡ (if m.peer_id == k then m.sequence else last k g)
  unfolding accept
  last-accept k m age now g =
      ground (arith, lookup-insert m.peer_id k m.sequence g.last_sequence, eq_iff m.peer_id k)

  received_err :
      (fields : Fields fl.Carrier) (checked : Result Reason (Checked fl.Carrier)) (now : fl.Carrier)
      (g g' : Registry fl.Carrier) (x : Reason)
      → received c p fields checked now g ≡ (err x, g')
      → g' ≡ g
  unfolding received
  received_err fields (ok m) now g g' x e =
      elim (authenticate_cases c p fields m (lookup m.key_id p.trusted_keys) now g refl) [
        | inl (y, raised) ↦ cc
        | inr (inl (r, bad, same)) ↦ cc
        | inr (inr (authentic, acc)) ↦ cc
      ]
  received_err fields (err overflow) now g g' x e = cc
  received_err fields (err fields_differ) now g g' x e = cc
  received_err fields (err r) now g g' x e = cc

  receive_last :
      (k : String) (fields : Fields fl.Carrier) (now : fl.Carrier) (g : Registry fl.Carrier)
      (out : Result Reason PeerResult × Registry fl.Carrier)
      → receive c p fields now g ≡ out
      → last k g ≤ℤ last k out.1
  unfolding receive
  receive_last k fields now g (ok r, g') e = elim (received_cases c p fields now g r g' e) [
    | inl (_, same) ↦ rw same (omega arith)
    | inr (m, _, authentic, acc) ↦
        (let q : g' ≡ (accept c p m (fl.sub now m.timestamp) now g).1 =
            ap (λ (x : PeerResult × Registry fl.Carrier). x.1) acc in
          let f = authentic.fresh in
          rw (q, last-accept k m (fl.sub now m.timestamp) now g)
            (ground (arith, eq_iff m.peer_id k)))
  ]
  receive_last k fields now g (err x, g') e =
      rw (received_err fields (check_message c fields now) now g g' x e) (omega arith)

  -- An accepted message has a greater sequence than any before it of its peer, which becomes the
  -- last.
  accepted_sequence :
      (k : String) (n : ℤ) (fields : Fields fl.Carrier) (now : fl.Carrier)
      (g g' : Registry fl.Carrier) (r : PeerResult)
      → receive c p fields now g ≡ (ok r, g')
      → r.state ≢ invalid
      → r.peer_id ≡ some k
      → r.sequence ≡ some n
      → (last k g <ℤ n) × (last k g' ≡ n)
  unfolding accept
  accepted_sequence k n fields now g g' r e ne id seq =
      elim (received_cases c p fields now g r g' e) [
        | inl (bad, _) ↦ absurd (ne bad)
        | inr (m, _, authentic, acc) ↦
            (let age = fl.sub now m.timestamp in
              let q : g' ≡ (accept c p m age now g).1 =
                ap (λ (x : PeerResult × Registry fl.Carrier). x.1) acc in
              let a : some m.peer_id ≡ r.peer_id =
                ap (λ (x : PeerResult × Registry fl.Carrier). x.0.peer_id) (sym acc) in
              let b : some m.sequence ≡ r.sequence =
                ap (λ (x : PeerResult × Registry fl.Carrier). x.0.sequence) (sym acc) in
              let same : m.peer_id ≡ k = cc in
              let number : m.sequence ≡ n = cc in
              let f = authentic.fresh in
              (
                ground (arith, eq_iff m.peer_id k),
                rw (q, last-accept k m age now g) (ground (arith, eq_iff m.peer_id k)),
              ))
      ]

  mark_one-last_sequence :
      (now : fl.Carrier) (e : String × PeerResult) (g : Registry fl.Carrier)
      → (mark_one c p now e g).last_sequence ≡ g.last_sequence
  unfolding mark_one
  mark_one-last_sequence now (peer, r) g = ground arith

  mark_all-last_sequence :
      (now : fl.Carrier) (es : List (String × PeerResult)) (g : Registry fl.Carrier)
      → (mark_all c p now es g).last_sequence ≡ g.last_sequence
  unfolding mark_all
  mark_all-last_sequence now [] g = refl
  mark_all-last_sequence now (e ∷ es) g =
      mark_all-last_sequence now es (mark_one c p now e g) ∙ mark_one-last_sequence now e g

  track-last_sequence :
      (now : fl.Carrier) (out : Result Reason PeerResult × Registry fl.Carrier)
      → (track c p now out).1.last_sequence ≡ out.1.last_sequence
  unfolding track
  track-last_sequence now (ok r, g) = ground arith
  track-last_sequence now (err x, g) = refl

  step_last :
      (k : String) (e : Event c p) (g : Registry fl.Carrier) → last k g ≤ℤ last k (step c p e g)
  unfolding step receive_and_track mark_unseen_stale
  step_last k (message fields now) g = receive_last k fields now g (receive c p fields now g) refl
  step_last k (tracked fields now) g =
      rw (track-last_sequence now (receive c p fields now g))
        (receive_last k fields now g (receive c p fields now g) refl)
  step_last k (sweep now) g = rw (mark_all-last_sequence now g.states g) (omega arith)

  run_last :
      (k : String) (es : List (Event c p)) (g : Registry fl.Carrier)
      → last k g ≤ℤ last k (run c p es g)
  unfolding run
  run_last k [] g = omega arith
  run_last k (e ∷ es) g = omega (arith, step_last k e g, run_last k es (step c p e g))

  -- Of two messages of one peer that a registry accepts, with any messages and sweeps between them,
  -- the later has the greater sequence.
  pub no_replay :
      (k : String) (n1 n2 : ℤ) (f1 f2 : Fields fl.Carrier) (t1 t2 : fl.Carrier)
      (es : List (Event c p)) (g g1 g2 : Registry fl.Carrier) (r1 r2 : PeerResult)
      → receive c p f1 t1 g ≡ (ok r1, g1)
      → receive c p f2 t2 (run c p es g1) ≡ (ok r2, g2)
      → r1.state ≢ invalid
      → r2.state ≢ invalid
      → r1.peer_id ≡ some k
      → r2.peer_id ≡ some k
      → r1.sequence ≡ some n1
      → r2.sequence ≡ some n2
      → n1 <ℤ n2
  no_replay k n1 n2 f1 f2 t1 t2 es g g1 g2 r1 r2 e1 e2 ne1 ne2 id1 id2 s1 s2 =
      let first = accepted_sequence k n1 f1 t1 g g1 r1 e1 ne1 id1 s1 in
      let second = accepted_sequence k n2 f2 t2 (run c p es g1) g2 r2 e2 ne2 id2 s2 in
      omega (arith, second.0, rw first.1 at (run_last k es g1))
