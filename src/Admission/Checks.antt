-- ===== src/Admission/Checks.antt =====
-- The checks of controller/resource_admission.py one by one.
use v91_core_system.Prelude.{
  String, ◌≡◌, ◌↔◌, refl, sym, ap, ◌∙◌, ◌⊎◌, Bool, true, false, not, ◌&&◌, Option, none, some, List,
  [], ◌∷◌, ◌++◌, all, arith,
}
use v91_core_system.Prelude.Dict.{Dict}
use v91_core_system.Prelude.Float.{Floats}
use v91_core_system.Prelude.Int.{ℤ, pos, ◌≤ℤ◌, ltb_ℤ}
use v91_core_system.Prelude.Result.{ok, err, raise_if, ◌>>◌}
use v91_core_system.Prelude.Value.{Value, null, as_int, as_number}
use v91_core_system.Admission.Gate.{
  ResourceMeasurements, AdmissionRequest, malformed_request, unmeasured, quota_exceeded,
  insufficient, no_measurements, stale, vram_unmeasured, named_if, is_empty, no_more, lacks_float,
  lacks_int, negative_int, is_null, attribute, exceeds, more_float, more_int, missing_fields,
  invalid_fields, quota_violations, deficits, unmeasured_vram, deny_if_any, request_admission,
}

named_none4 :
    (a b c d : Bool)
    → named_if a "cpu_cores" ++ named_if b "ram_mb" ++ named_if c "disk_mb" ++ named_if d "vram_mb"
      ≡ []
    → (a ≡ false) × (b ≡ false) × (c ≡ false) × (d ≡ false)
named_none4 false false false false h = (refl, refl, refl, refl)
named_none4 true b c d h = cc
named_none4 false true c d h = cc
named_none4 false false true d h = cc
named_none4 false false false true h = cc

named_none3 :
    (a b c : Bool)
    → named_if a "cpu_cores" ++ named_if b "ram_mb" ++ named_if c "disk_mb" ≡ []
    → (a ≡ false) × (b ≡ false) × (c ≡ false)
named_none3 false false false h = (refl, refl, refl)
named_none3 true b c h = cc
named_none3 false true c h = cc
named_none3 false false true h = cc

quota_step :
    (b : Bool) (key : String) (l : List String) (c : Bool)
    → (l ≡ []) ↔ (c ≡ true)
    → (named_if b key ++ l ≡ []) ↔ (not b && c ≡ true)
quota_step true key l c h = (λ e. cc, λ e. cc)
quota_step false key l c h = h

module _ ⦃fl : Floats⦄ where
  -- A number of cores that is asked for and measured, both not `<= 0`, and not more than is measured.
  pub record IsCovered (v : Value fl.Carrier) (measured : Option fl.Carrier) : Type 0 where
    pub cores : fl.Carrier
    pub asked : as_number v ≡ some cores
    pub positive : no_more cores ≡ false
    pub there : fl.Carrier
    pub found : measured ≡ some there
    pub not_empty : no_more there ≡ false
    pub enough : fl.lt there cores ≡ false

  -- An integer of at least `least` that is asked for, and a positive one that is measured and covers it.
  pub record IsSupplied (least : ℤ) (v : Value fl.Carrier) (measured : Option ℤ) : Type 0 where
    pub amount : ℤ
    pub asked : as_int v ≡ some amount
    pub at_least : least ≤ℤ amount
    pub there : ℤ
    pub found : measured ≡ some there
    pub positive : pos 1 ≤ℤ there
    pub enough : amount ≤ℤ there

  pub record IsAdmissible (freshness : fl.Carrier) (quota : Dict fl.Carrier) (now : fl.Carrier)
      (r : AdmissionRequest fl.Carrier) (m : ResourceMeasurements fl.Carrier) : Type 0 where
    pub cores : IsCovered r.cpu_cores m.cpu_cores
    pub ram : IsSupplied (pos 1) r.ram_mb m.ram_mb
    pub disk : IsSupplied (pos 0) r.disk_mb m.disk_mb
    pub vram :
        (r.vram_mb ≡ null)
        ⊎ ((n k : ℤ) × (as_int r.vram_mb ≡ some n) × (pos 1 ≤ℤ n) × (m.vram_mb ≡ some k) × (n ≤ℤ k))
    pub fresh : fl.lt freshness (fl.sub now m.measured_at) ≡ false
    pub within : all (λ q. not (exceeds q.1 (attribute q.0 m))) quota ≡ true

  empty_list : (l : List String) → is_empty l ≡ true → l ≡ []
  empty_list [] h = refl
  empty_list (s ∷ l) h = cc

  pub number_there :
      (o : Option fl.Carrier)
      → lacks_float o ≡ false
      → (x : fl.Carrier) × (o ≡ some x) × (no_more x ≡ false)
  number_there none h = cc
  number_there (some x) h = (x, refl, h)

  pub integer_there : (o : Option ℤ) → lacks_int o ≡ false → (n : ℤ) × (o ≡ some n) × (pos 1 ≤ℤ n)
  integer_there none h = cc
  integer_there (some n) h = (n, refl, ground arith)

  pub disk_there : (o : Option ℤ) → negative_int o ≡ false → (n : ℤ) × (o ≡ some n) × (pos 0 ≤ℤ n)
  disk_there none h = cc
  disk_there (some n) h = (n, refl, ground arith)

  pub covers :
      (a b : Option fl.Carrier) (x y : fl.Carrier)
      → a ≡ some x
      → b ≡ some y
      → more_float a b ≡ false
      → fl.lt y x ≡ false
  covers a b x y e f h =
      ap (λ o. more_float o (some y)) (sym e) ∙ ap (λ o. more_float a o) (sym f) ∙ h

  pub supplies :
      (a b : Option ℤ) (x y : ℤ) → a ≡ some x → b ≡ some y → more_int a b ≡ false → x ≤ℤ y
  supplies a b x y e f h =
      let g : ltb_ℤ y x ≡ false =
        ap (λ o. more_int o (some y)) (sym e) ∙ ap (λ o. more_int a o) (sym f) ∙ h in
      ground arith

  pub invalid_none :
      (r : AdmissionRequest fl.Carrier)
      → invalid_fields r ≡ []
      → (lacks_float (as_number r.cpu_cores) ≡ false)
        × (lacks_int (as_int r.ram_mb) ≡ false)
        × (negative_int (as_int r.disk_mb) ≡ false)
        × (not (is_null r.vram_mb) && lacks_int (as_int r.vram_mb) ≡ false)
  unfolding invalid_fields
  invalid_none r h = named_none4 _ _ _ _ h

  pub missing_none :
      (m : ResourceMeasurements fl.Carrier)
      → missing_fields m ≡ []
      → (lacks_float m.cpu_cores ≡ false)
        × (lacks_int m.ram_mb ≡ false)
        × (lacks_int m.disk_mb ≡ false)
  unfolding missing_fields
  missing_none m h = named_none3 _ _ _ h

  pub deficits_none :
      (r : AdmissionRequest fl.Carrier) (m : ResourceMeasurements fl.Carrier)
      → deficits r m ≡ []
      → (more_float (as_number r.cpu_cores) m.cpu_cores ≡ false)
        × (more_int (as_int r.ram_mb) m.ram_mb ≡ false)
        × (more_int (as_int r.disk_mb) m.disk_mb ≡ false)
        × (not (is_null r.vram_mb) && more_int (as_int r.vram_mb) m.vram_mb ≡ false)
  unfolding deficits
  deficits_none r m h = named_none4 _ _ _ _ h

  pub quota_none :
      (quota : Dict fl.Carrier) (m : ResourceMeasurements fl.Carrier)
      → (quota_violations quota m ≡ [])
        ↔ (all (λ q. not (exceeds q.1 (attribute q.0 m))) quota ≡ true)
  unfolding quota_violations
  quota_none [] m = (λ h. refl, λ h. refl)
  quota_none ((key, limit) ∷ quota) m =
      quota_step (exceeds limit (attribute key m)) key (quota_violations quota m)
        (all (λ q. not (exceeds q.1 (attribute q.0 m))) quota) (quota_none quota m)

  unmeasured_denied :
      (inv : List String) (m : ResourceMeasurements fl.Carrier)
      → ¬ ((deny_if_any inv malformed_request >> err no_measurements) ≡ ok m)
  unmeasured_denied [] m h = cc
  unmeasured_denied (s ∷ inv) m h = cc

  chain_ok :
      (inv mis : List String) (st : Bool) (quo : List String) (vr : Bool) (def : List String)
      (x m : ResourceMeasurements fl.Carrier)
      → (deny_if_any inv malformed_request
          >> (deny_if_any mis unmeasured
              >> (raise_if st stale
                  >> (deny_if_any quo quota_exceeded
                      >> (raise_if vr vram_unmeasured >> (deny_if_any def insufficient >> ok x))))))
        ≡ ok m
      → (inv ≡ []) × (mis ≡ []) × (st ≡ false) × (quo ≡ []) × (vr ≡ false) × (def ≡ []) × (x ≡ m)
  chain_ok [] [] false [] false [] x m h = (refl, refl, refl, refl, refl, refl, cc)
  chain_ok [] [] false [] false (s ∷ def) x m h = cc
  chain_ok [] [] false [] true def x m h = cc
  chain_ok [] [] false (s ∷ quo) vr def x m h = cc
  chain_ok [] [] true quo vr def x m h = cc
  chain_ok [] (s ∷ mis) st quo vr def x m h = cc
  chain_ok (s ∷ inv) mis st quo vr def x m h = cc

  -- The checks that a request passes, as the code makes them.
  pub record Passes (freshness : fl.Carrier) (quota : Dict fl.Carrier)
      (measured : Option (ResourceMeasurements fl.Carrier)) (now : fl.Carrier)
      (r : AdmissionRequest fl.Carrier) (m : ResourceMeasurements fl.Carrier) : Type 0 where
    pub given : measured ≡ some m
    pub valid : invalid_fields r ≡ []
    pub complete : missing_fields m ≡ []
    pub fresh : fl.lt freshness (fl.sub now m.measured_at) ≡ false
    pub within : quota_violations quota m ≡ []
    pub vram : unmeasured_vram r m ≡ false
    pub sufficient : deficits r m ≡ []

  pub request_admission-Passes :
      (freshness : fl.Carrier) (quota : Dict fl.Carrier)
      (measured : Option (ResourceMeasurements fl.Carrier)) (now : fl.Carrier)
      (r : AdmissionRequest fl.Carrier) (m : ResourceMeasurements fl.Carrier)
      → request_admission freshness quota measured now r ≡ ok m
      → Passes freshness quota measured now r m
  unfolding request_admission
  request_admission-Passes freshness quota none now r m h =
      absurd (unmeasured_denied (invalid_fields r) m h)
  request_admission-Passes freshness quota (some x) now r m h =
      let (inv, mis, st, quo, vr, def, e) =
        chain_ok (invalid_fields r) (missing_fields x) (fl.lt freshness (fl.sub now x.measured_at))
          (quota_violations quota x) (unmeasured_vram r x) (deficits r x) x m h in
      rw (← e) (record {
        given = refl;
        valid = inv;
        complete = mis;
        fresh = st;
        within = quo;
        vram = vr;
        sufficient = def;
      })

  pub Passes-request_admission :
      (freshness : fl.Carrier) (quota : Dict fl.Carrier)
      (measured : Option (ResourceMeasurements fl.Carrier)) (now : fl.Carrier)
      (r : AdmissionRequest fl.Carrier) (m : ResourceMeasurements fl.Carrier)
      → Passes freshness quota measured now r m
      → request_admission freshness quota measured now r ≡ ok m
  unfolding request_admission
  Passes-request_admission freshness quota measured now r m p =
      rw (p.given, p.valid, p.complete, p.fresh, p.within, p.vram, p.sufficient) (refl)
