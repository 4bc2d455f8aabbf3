-- ===== src/Measurement/Appending.antt =====
-- What an append to the ledger of controller/measurement_core.py leaves.
use v91_core_system.Prelude.{ℕ, String, ◌≡◌, false, some}
use v91_core_system.Prelude.Float.{Floats}
use v91_core_system.Prelude.Int.{pos}
use v91_core_system.Prelude.Result.{Result}
use v91_core_system.Prelude.Text.{is_blank}
use v91_core_system.Prelude.Value.{Value, int, str, dict, Fields, get_value, without}
use v91_core_system.Measurement.Chain.{Codec}

module _ ⦃fl : Floats⦄ (c : Codec fl.Carrier) where
  -- What is read back from the line of an event: an object with the sequence, the previous hash and
  -- the hash of the event, whose canonical JSON less the hash is that of the payload.
  pub record IsReadBack (sequence : ℕ) (previous digest body line : String) : Type 0 where
    pub fields : Fields fl.Carrier
    pub filled : is_blank line ≡ false
    pub loaded : c.loads line ≡ some (dict fields)
    pub has_sequence : get_value "sequence" (without "event_hash" fields) ≡ int (pos sequence)
    pub has_previous : get_value "previous_hash" (without "event_hash" fields) ≡ str previous
    pub has_digest : get_value "event_hash" fields ≡ str digest
    pub has_body : c.canonical (without "event_hash" fields) ≡ some body
