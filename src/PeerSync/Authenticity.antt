-- ===== src/PeerSync/Authenticity.antt =====
-- What an accepted heartbeat of controller/peer_sync.py proves, and what a refused one leaves alone.
use v91_core_system.Prelude.{
  ◌==◌, String, ◌≡◌, refl, true, false, not, Option, none, some, inl, inr, ◌⊎◌, arith, eq_iff,
  if_cases,
}
use v91_core_system.Prelude.Dict.{lookup, get_or}
use v91_core_system.Prelude.Float.{Floats}
use v91_core_system.Prelude.Int.{pos, leb_ℤ}
use v91_core_system.Prelude.Result.{Result, ok, err}
use v91_core_system.Prelude.Text.{is_ascii}
use v91_core_system.Prelude.Value.{Fields}
use v91_core_system.PeerSync.Message.{
  Reason, overflow, fields_differ, Crypto, Checked, check_message, unsigned,
}
use v91_core_system.PeerSync.Registry.{
  Limits, Registry, PeerResult, invalid, accept, authenticate, received, receive,
}

module _ ⦃fl : Floats⦄ (c : Crypto fl.Carrier) (p : Limits c) where
  -- The conditions under which a checked message is accepted.
  pub record IsAuthentic (fields : Fields fl.Carrier) (m : Checked fl.Carrier) (now : fl.Carrier)
      (g : Registry fl.Carrier) : Type 0 where
    pub secret : c.Secret
    pub bound : lookup m.key_id p.trusted_keys ≡ some (m.peer_id, secret)
    pub key : c.is_key secret ≡ true
    pub signed : m.signature ≡ c.mac secret (unsigned fields)
    pub not_future :
        fl.lt (fl.sub now m.timestamp) (fl.sub (fl.of_int (pos 0)) p.future_skew) ≡ false
    pub fresh : leb_ℤ m.sequence (get_or (pos 0) m.peer_id g.last_sequence) ≡ false

  -- An exception or a refusal that changes nothing, or the acceptance of an authentic message.
  abbrev pub Verdict :
      Fields fl.Carrier
      → Checked fl.Carrier
      → fl.Carrier
      → Registry fl.Carrier
      → Result Reason PeerResult × Registry fl.Carrier
      → Type 0
  Verdict fields m now g x =
      ((e : Reason) × (x ≡ (err e, g)))
      ⊎ (((r : PeerResult) × (r.state ≡ invalid) × (x ≡ (ok r, g)))
          ⊎ (IsAuthentic fields m now g
              × (x ≡ (
                ok (accept c p m (fl.sub now m.timestamp) now g).0,
                (accept c p m (fl.sub now m.timestamp) now g).1,
              ))))

  pub authenticate_cases :
      (fields : Fields fl.Carrier) (m : Checked fl.Carrier) (entry : Option (String × c.Secret))
      (now : fl.Carrier) (g : Registry fl.Carrier)
      → lookup m.key_id p.trusted_keys ≡ entry
      → Verdict fields m now g (authenticate c p fields m entry now g)
  unfolding authenticate
  authenticate_cases fields m none now g e = inr (inl (_, refl, refl))
  authenticate_cases fields m (some (peer, secret)) now g e =
      let age = fl.sub now m.timestamp in
      let P = Verdict fields m now g in
      if_cases P (not (m.peer_id == peer)) (λ _. inr (inl (_, refl, refl)))
        λ same.
          if_cases P (not (c.is_key secret)) (λ _. inr (inl (_, refl, refl)))
            λ key.
              if_cases P (not (is_ascii m.signature)) (λ _. inl (_, refl))
                λ plain.
                  if_cases P (not (m.signature == c.mac secret (unsigned fields)))
                    (λ _. inr (inl (_, refl, refl)))
                    λ signed.
                      if_cases P (fl.lt age (fl.sub (fl.of_int (pos 0)) p.future_skew))
                        (λ _. inr (inl (_, refl, refl)))
                        λ past.
                          if_cases P (leb_ℤ m.sequence (get_or (pos 0) m.peer_id g.last_sequence))
                            (λ _. inr (inl (_, refl, refl)))
                            λ fresh. inr (
                              inr (
                                record {
                                  secret = secret;
                                  bound = ground (arith, eq_iff m.peer_id peer);
                                  key = ground arith;
                                  signed =
                                      ground (
                                        arith,
                                        eq_iff m.signature (c.mac secret (unsigned fields)),
                                      );
                                  not_future = past;
                                  fresh = fresh;
                                },
                                refl,
                              ))

  received_from :
      {fields : Fields fl.Carrier} {now : fl.Carrier} {g : Registry fl.Carrier} {r : PeerResult}
      {g' : Registry fl.Carrier} (checked : Result Reason (Checked fl.Carrier))
      → check_message c fields now ≡ checked
      → received c p fields checked now g ≡ (ok r, g')
      → ((r.state ≡ invalid) × (g' ≡ g))
        ⊎ ((m : Checked fl.Carrier) × (check_message c fields now ≡ ok m)
            × IsAuthentic fields m now g
            × ((r, g') ≡ accept c p m (fl.sub now m.timestamp) now g))
  unfolding received
  received_from {fields} {now} {g} {r} {g'} (ok m) e h =
      let x = authenticate c p fields m (lookup m.key_id p.trusted_keys) now g in
      elim (authenticate_cases fields m (lookup m.key_id p.trusted_keys) now g refl) [
        | inl (x, raised) ↦ cc
        | inr (inl (r', bad, same)) ↦ inl (cc, cc)
        | inr (inr (authentic, acc)) ↦ inr (m, e, authentic, cc)
      ]
  received_from (err overflow) e h = cc
  received_from (err fields_differ) e h = inl (cc, cc)
  received_from (err x) e h = inl (cc, cc)

  pub received_cases :
      (fields : Fields fl.Carrier) (now : fl.Carrier) (g : Registry fl.Carrier) (r : PeerResult)
      (g' : Registry fl.Carrier)
      → receive c p fields now g ≡ (ok r, g')
      → ((r.state ≡ invalid) × (g' ≡ g))
        ⊎ ((m : Checked fl.Carrier) × (check_message c fields now ≡ ok m)
            × IsAuthentic fields m now g
            × ((r, g') ≡ accept c p m (fl.sub now m.timestamp) now g))
  unfolding receive
  received_cases fields now g r g' e = received_from (check_message c fields now) refl e
