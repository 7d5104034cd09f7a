-- ===== src/Runner/Export/Readings.antt =====
-- Which readings Export hands to the backend.
use gpuid.Base.{
  ◌≡◌, ◌≢◌, refl, sym, ap, ◌∙◌, true, false, List, [], ◌∷◌, ◌++◌, append-nil, append_assoc, map,
  map-append, arith, if◌then◌else◌, Option, none, some, Text, codes, is_empty, is_blank, trim_space,
  All, All-append, ◌↔◌, Bool-cases, inl, inr, Option-cases,
}
use gpuid.Gpu.Serials.{Serials}
use gpuid.Gpu.Reading.{SerialNumberReading, ReadingError, validate, IsComplete, validate-IsComplete}
use gpuid.Runner.Pod.{Pod}
use gpuid.Runner.Export.{
  Backend, make_reading, push_valid, read_gpus, read_unit, read_units, write_records, export,
  ExportError,
}

-- What a reading says, its time apart.
abbrev pub untimed : SerialNumberReading → SerialNumberReading
untimed r = record r { time = 0 }

-- The specification: one reading for each serial that is not empty, of each unit with a chassis,
-- in their order.
module _ (cluster : Text) (pod : Pod) (machine : Text) where
  unfoldable pub gpu_readings : Text → List Text → List SerialNumberReading
  gpu_readings chassis [] = []
  gpu_readings chassis (sn ∷ gpus) =
      if is_empty sn
      then gpu_readings chassis gpus
      else record {
        cluster = cluster;
        node = pod.node_name;
        machine = machine;
        source = pod.namespace ++ (codes "/" ++ pod.name);
        chassis = chassis;
        gpu = sn;
        time = 0;
      }
        ∷ gpu_readings chassis gpus

  unfoldable pub unit_readings : List (Option Serials) → List SerialNumberReading
  unit_readings [] = []
  unit_readings (none ∷ units) = unit_readings units
  unit_readings (some s ∷ units) =
      (if is_empty s.chassis then [] else gpu_readings s.chassis s.gpu) ++ unit_readings units

module _ {W : Type 0} (backend : Backend W) (cluster : Text) (pod : Pod) (machine : Text)
    (ticks : (w : W) → (backend.now w).0 ≢ 0) (has_cluster : is_empty cluster ≡ false)
    (has_node : is_empty pod.node_name ≡ false) (has_machine : is_empty machine ≡ false) where
  source_not_empty : (s t : Text) → is_empty (s ++ (codes "/" ++ t)) ≡ false
  source_not_empty [] t = refl
  source_not_empty (c ∷ s) t = refl

  -- With the provenance known, only an empty serial makes a record invalid.
  validate_lem :
      (chassis sn : Text) (w : W)
      → validate (make_reading cluster pod machine chassis sn (backend.now w).0)
        ≡ (if is_empty sn then some ReadingError.gpu_required else none)
  unfolding validate
  validate_lem chassis sn w =
      ground (
        arith,
        ticks w,
        has_cluster,
        has_node,
        has_machine,
        source_not_empty pod.namespace pod.name,
      )

  abbrev Spec :
      List SerialNumberReading → List SerialNumberReading → List SerialNumberReading → Type 0
  Spec before after new =
      (map untimed after ≡ map untimed before ++ new)
      × (All IsComplete before → All IsComplete after)

  push-untimed :
      (chassis sn : Text) (records rest : List SerialNumberReading) (w : W)
      → map untimed
            (push_valid (make_reading cluster pod machine chassis sn (backend.now w).0) records)
          ++ rest
        ≡ map untimed records
          ++ (if is_empty sn then rest else make_reading cluster pod machine chassis sn 0 ∷ rest)
  unfolding push_valid
  push-untimed chassis sn records rest w =
      rw (validate_lem chassis sn w, push_valid)
        (elim (Bool-cases (is_empty sn)) [
          | inl e ↦ rw e refl
          | inr e ↦
              rw (e, map-append untimed records) (append_assoc (map untimed records) (_ ∷ []) rest)
        ])

  push_valid-All :
      (r : SerialNumberReading) (records : List SerialNumberReading)
      → All IsComplete records
      → All IsComplete (push_valid r records)
  unfolding push_valid
  push_valid-All r records h = elim (Option-cases (validate r)) [
    | inl e ↦
        rw (e, push_valid)
          (All-append IsComplete records (r ∷ []) h ((validate-IsComplete r).0 e, tt))
    | inr (x, e) ↦ rw (e, push_valid) h
  ]

  read_gpus-Spec :
      (chassis : Text) (gpus : List Text) (records : List SerialNumberReading) (w : W)
      → Spec records
          (read_gpus backend cluster pod machine chassis gpus records w).0
          (gpu_readings cluster pod machine chassis gpus)
  unfolding read_gpus gpu_readings
  read_gpus-Spec chassis [] records w = (sym (append-nil _), λ h. h)
  read_gpus-Spec chassis (sn ∷ gpus) records w =
      let r = make_reading cluster pod machine chassis sn (backend.now w).0 in
      let ih = read_gpus-Spec chassis gpus (push_valid r records) (backend.now w).1 in
      (ih.0 ∙ push-untimed chassis sn records _ w, λ h. ih.1 (push_valid-All r records h))

  read_unit-Spec :
      (s : Serials) (records : List SerialNumberReading) (w : W)
      → Spec records
          (read_unit backend cluster pod machine s records w).0
          (if is_empty s.chassis then [] else gpu_readings cluster pod machine s.chassis s.gpu)
  unfolding read_unit
  read_unit-Spec s records w = elim (Bool-cases (is_empty s.chassis)) [
    | inl e ↦ rw e (sym (append-nil _), λ h. h)
    | inr e ↦ rw e (read_gpus-Spec s.chassis s.gpu records w)
  ]

  read_units-Spec :
      (units : List (Option Serials)) (records : List SerialNumberReading) (w : W)
      → Spec records
          (read_units backend cluster pod machine units records w).0
          (unit_readings cluster pod machine units)
  unfolding read_units unit_readings
  read_units-Spec [] records w = (sym (append-nil _), λ h. h)
  read_units-Spec (none ∷ units) records w = read_units-Spec units records w
  read_units-Spec (some s ∷ units) records w =
      let one = read_unit-Spec s records w in
      let r = read_unit backend cluster pod machine s records w in
      let rest = read_units-Spec units r.0 r.1 in
      let later = unit_readings cluster pod machine units in
      (
        rest.0 ∙ (ap (λ l. l ++ later) one.0 ∙ append_assoc (map untimed records) _ later),
        λ h. rest.1 (one.1 h),
      )

is_blank-not_empty : (s : Text) → is_blank s ≡ false → is_empty s ≡ false
unfolding is_blank trim_space
is_blank-not_empty [] h = cc
is_blank-not_empty (c ∷ s) h = refl

-- The readings that Export hands to its backend.
pub export-read_units :
    {W : Type 0} (backend : Backend W) (cluster : Text) (pod : Pod) (machine : Text)
    (serials : List (Option Serials)) (w : W)
    → ((v : W) → (backend.now v).0 ≢ 0)
    → is_blank cluster ≡ false
    → is_blank machine ≡ false
    → is_empty pod.node_name ≡ false
    → (export (some backend) cluster (some pod) machine serials w
        ≡ write_records backend (read_units backend cluster pod machine serials [] w))
      × (map untimed (read_units backend cluster pod machine serials [] w).0
          ≡ unit_readings cluster pod machine serials)
      × All IsComplete (read_units backend cluster pod machine serials [] w).0
unfolding export unit_readings
export-read_units backend cluster pod machine [] w ticks hc hm hn =
    (unfold read_units write_records in refl, unfold read_units in refl, unfold read_units in tt)
export-read_units backend cluster pod machine (s ∷ serials) w ticks hc hm hn =
    let spec =
      read_units-Spec backend cluster pod machine ticks (is_blank-not_empty cluster hc) hn
        (is_blank-not_empty machine hm) (s ∷ serials) [] w in
    (rw (hc, hm) refl, spec.0, spec.1 tt)

-- What has become of records that were handed over: with none the backend is left alone; some are
-- written by one call of the backend, and this fails exactly if that call does.
abbrev pub IsHandedOver :
    {W : Type 0} → Backend W → List SerialNumberReading → W → Option ExportError × W → Type 0
IsHandedOver backend [] w r = r ≡ (none, w)
IsHandedOver backend (x ∷ xs) w (e, w') =
    (w' ≡ (backend.write (x ∷ xs) w).1) × ((e ≡ none) ↔ ((backend.write (x ∷ xs) w).0 ≡ false))

pub write_records-IsHandedOver :
    {W : Type 0} (backend : Backend W) (records : List SerialNumberReading) (w : W)
    → IsHandedOver backend records w (write_records backend (records, w))
unfolding write_records
write_records-IsHandedOver backend [] w = refl
write_records-IsHandedOver backend (x ∷ xs) w = elim (Bool-cases (backend.write (x ∷ xs) w).0) [
  | inl e ↦ (refl, (λ h. cc (rw e at h), λ h. cc))
  | inr e ↦ (refl, (λ h. e, λ h. rw e refl))
]

-- A unit with no chassis serial.
abbrev pub HasNoChassis : Option Serials → Type 0
HasNoChassis none = Unit
HasNoChassis (some s) = is_empty s.chassis ≡ true

read_units-no_chassis :
    {W : Type 0} (backend : Backend W) (cluster : Text) (pod : Pod) (machine : Text)
    (units : List (Option Serials)) (w : W)
    → All HasNoChassis units
    → read_units backend cluster pod machine units [] w ≡ ([], w)
unfolding read_units read_unit
read_units-no_chassis backend cluster pod machine [] w h = refl
read_units-no_chassis backend cluster pod machine (none ∷ units) w (_, h) =
    read_units-no_chassis backend cluster pod machine units w h
read_units-no_chassis backend cluster pod machine (some s ∷ units) w (e, h) =
    rw e (read_units-no_chassis backend cluster pod machine units w h)

-- If no unit has a chassis serial, Export reports success and writes nothing, however many GPUs the
-- units have.
pub export_no_chassis :
    {W : Type 0} (backend : Backend W) (cluster : Text) (pod : Pod) (machine : Text)
    (serials : List (Option Serials)) (w : W)
    → is_blank cluster ≡ false
    → is_blank machine ≡ false
    → All HasNoChassis serials
    → export (some backend) cluster (some pod) machine serials w ≡ (none, w)
unfolding export
export_no_chassis backend cluster pod machine [] w hc hm h = refl
export_no_chassis backend cluster pod machine (s ∷ serials) w hc hm h =
    rw (hc, hm, read_units-no_chassis backend cluster pod machine (s ∷ serials) w h)
      (unfold write_records in refl)
