-- ===== src/Admission/Exactness.antt =====
-- What controller/resource_admission.py admits.
use v91_core_system.Prelude.Dict.{Dict}
use v91_core_system.Prelude.Value.{Value}
