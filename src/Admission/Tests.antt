-- ===== src/Admission/Tests.antt =====
-- Concrete admissions, with whole numbers, and the theorem at inputs.
use v91_core_system.Prelude.{true, ◌≡◌, refl, none, some, [], ◌∷◌}
use v91_core_system.Prelude.Float.{whole}
use v91_core_system.Prelude.Int.{ℤ, pos, ◌-ℤ◌}
use v91_core_system.Prelude.Result.{ok, err}
use v91_core_system.Prelude.Value.{null, int, bool, float}
use v91_core_system.Admission.Gate.{
  ResourceMeasurements, AdmissionRequest, malformed_request, stale, quota_exceeded, vram_unmeasured,
  missing_fields, invalid_fields, quota_violations, deficits, request_admission,
}

abbrev host : ResourceMeasurements ℤ
host = record {
  cpu_cores = some (pos 8);
  ram_mb = some (pos 4096);
  vram_mb = none;
  disk_mb = some (pos 100);
  measured_at = pos 10;
}

abbrev request : AdmissionRequest ℤ
request = record {
  cpu_cores = float (pos 2);
  ram_mb = int (pos 512);
  disk_mb = int (pos 0);
  vram_mb = null;
}

admitted : request_admission ⦃fl = whole⦄ (pos 30) [] (some host) (pos 20) request ≡ ok host
unfolding ◌-ℤ◌ request_admission invalid_fields missing_fields quota_violations deficits
admitted = refl

too_old : request_admission ⦃fl = whole⦄ (pos 5) [] (some host) (pos 20) request ≡ err stale
unfolding ◌-ℤ◌ request_admission invalid_fields missing_fields quota_violations deficits
too_old = refl

-- The quota is compared with what the host has, not with what the request asks for.
quota_of_host :
    request_admission ⦃fl = whole⦄ (pos 30) (("ram_mb", pos 1024) ∷ []) (some host) (pos 20) request
    ≡ err (quota_exceeded ("ram_mb" ∷ []))
unfolding ◌-ℤ◌ request_admission invalid_fields missing_fields quota_violations deficits
quota_of_host = refl

no_vram :
    request_admission ⦃fl = whole⦄
      (pos 30)
      []
      (some host)
      (pos 20)
      (record request { vram_mb = int (pos 1) })
    ≡ err vram_unmeasured
unfolding ◌-ℤ◌ request_admission invalid_fields missing_fields quota_violations deficits
no_vram = refl

flagged :
    request_admission ⦃fl = whole⦄
      (pos 30)
      []
      (some host)
      (pos 20)
      (record request { ram_mb = bool true })
    ≡ err (malformed_request ("ram_mb" ∷ []))
unfolding ◌-ℤ◌ request_admission invalid_fields missing_fields quota_violations deficits
flagged = refl
