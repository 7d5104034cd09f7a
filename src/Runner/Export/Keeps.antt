-- ===== src/Runner/Export/Keeps.antt =====
-- What Export needs for a success, and what it leaves alone.
use gpuid.Base.{
  ◌≡◌, refl, false, List, [], ◌∷◌, Option, none, some, Text, is_empty, is_blank, inl, inr,
  Bool-cases,
}
use gpuid.Gpu.Serials.{Serials}
use gpuid.Gpu.Reading.{SerialNumberReading}
use gpuid.Runner.Pod.{Pod}
use gpuid.Runner.Export.{Backend, read_gpus, read_unit, read_units, write_records, export}

-- An export of some units succeeds only with a backend, a cluster and a machine name.
pub export-needs :
    {W : Type 0} (exporter : Option (Backend W)) (cluster : Text) (pod : Pod) (machine : Text)
    (u : Option Serials) (units : List (Option Serials)) (w : W)
    → (export exporter cluster (some pod) machine (u ∷ units) w).0 ≡ none
    → (backend : Backend W) × (exporter ≡ some backend)
      × (is_blank cluster ≡ false)
      × (is_blank machine ≡ false)
unfolding export
export-needs none cluster pod machine u units w h = cc h
export-needs (some b) cluster pod machine u units w h = elim (Bool-cases (is_blank cluster)) [
  | inl e ↦ absurd (cc (rw e at h))
  | inr e ↦ elim (Bool-cases (is_blank machine)) [
    | inl m ↦ absurd (cc (rw (e, m) at h))
    | inr m ↦ (b, refl, e, m)
  ]
]

-- What the clock and the backend keep, Export keeps.
module _ {W : Type 0} (P : W → Type 0) (backend : Backend W)
    (now_keeps : (w : W) → P w → P (backend.now w).1) (cluster : Text) (pod : Pod)
    (machine : Text) where
  read_gpus-keeps :
      (chassis : Text) (gpus : List Text) (records : List SerialNumberReading) (w : W)
      → P w
      → P (read_gpus backend cluster pod machine chassis gpus records w).1
  unfolding read_gpus
  read_gpus-keeps chassis [] records w h = h
  read_gpus-keeps chassis (sn ∷ gpus) records w h =
      read_gpus-keeps chassis gpus _ (backend.now w).1 (now_keeps w h)

  read_unit-keeps :
      (s : Serials) (records : List SerialNumberReading) (w : W)
      → P w
      → P (read_unit backend cluster pod machine s records w).1
  unfolding read_unit
  read_unit-keeps s records w h = elim (Bool-cases (is_empty s.chassis)) [
    | inl e ↦ rw e h
    | inr e ↦ rw e (read_gpus-keeps s.chassis s.gpu records w h)
  ]

  pub read_units-keeps :
      (units : List (Option Serials)) (records : List SerialNumberReading) (w : W)
      → P w
      → P (read_units backend cluster pod machine units records w).1
  unfolding read_units
  read_units-keeps [] records w h = h
  read_units-keeps (none ∷ units) records w h = read_units-keeps units records w h
  read_units-keeps (some s ∷ units) records w h =
      let r = read_unit backend cluster pod machine s records w in
      read_units-keeps units r.0 r.1 (read_unit-keeps s records w h)

  module _
      (write_keeps : (r : List SerialNumberReading) (w : W) → P w → P (backend.write r w).1) where
    write_records-keeps : (r : List SerialNumberReading × W) → P r.1 → P (write_records backend r).1
    unfolding write_records
    write_records-keeps ([], w) h = h
    write_records-keeps (r ∷ records, w) h = write_keeps (r ∷ records) w h

    pub export-keeps :
        (units : List (Option Serials)) (w : W)
        → P w
        → P (export (some backend) cluster (some pod) machine units w).1
    unfolding export
    export-keeps [] w h = h
    export-keeps (u ∷ units) w h = elim (Bool-cases (is_blank cluster)) [
      | inl e ↦ rw e h
      | inr e ↦ elim (Bool-cases (is_blank machine)) [
        | inl m ↦ rw (e, m) h
        | inr m ↦ rw (e, m) (write_records-keeps _ (read_units-keeps (u ∷ units) [] w h))
      ]
    ]
