-- ===== src/Runner/Export.antt =====
-- Exporter of pkg/runner/export.go: from serials to readings, and on to the backend.
pub mod Readings
pub mod Keeps
pub mod Stored
pub mod Select
use gpuid.Base.{
  ℕ, Bool, true, false, List, [], ◌∷◌, ◌++◌, if◌then◌else◌, Option, none, some, Text, codes,
  is_empty, is_blank,
}
use gpuid.Gpu.Serials.{Serials}
use gpuid.Gpu.Reading.{SerialNumberReading, ReadingError, validate}
use gpuid.Runner.Pod.{Pod}

pub data ExportError : Type 0 where
  not_initialized cluster_required pod_nil node_required : ExportError
  backend_failed : ExportError

-- ExporterBackend.Write, and time.Now, over the state W of the world. A failed write is `true`.
pub record Backend (W : Type 0) : Type 0 where
  pub write : List SerialNumberReading → W → Bool × W
  pub now : W → ℕ × W

-- The record of one GPU: pod and machine say where the reading is from.
abbrev pub make_reading : Text → Pod → Text → Text → Text → ℕ → SerialNumberReading
make_reading cluster pod machine chassis sn time = record {
  cluster = cluster;
  node = pod.node_name;
  machine = machine;
  source = pod.namespace ++ (codes "/" ++ pod.name);
  chassis = chassis;
  gpu = sn;
  time = time;
}

-- A valid record is appended, another one is skipped.
unfoldable pub push_valid :
    SerialNumberReading → List SerialNumberReading → List SerialNumberReading
push_valid r records = elim (validate r) [ none ↦ records ++ r ∷ [] | some e ↦ records ]

module _ {W : Type 0} (backend : Backend W) (cluster : Text) (pod : Pod) (machine : Text) where
  -- The inner loop: a record for each GPU, if it is valid.
  unfoldable pub read_gpus :
      Text → List Text → List SerialNumberReading → W → List SerialNumberReading × W
  read_gpus chassis [] records w = (records, w)
  read_gpus chassis (sn ∷ gpus) records w =
      let (time, w') = backend.now w in
      read_gpus chassis gpus (push_valid (make_reading cluster pod machine chassis sn time) records)
        w'

  -- A unit with no chassis is skipped.
  unfoldable pub read_unit : Serials → List SerialNumberReading → W → List SerialNumberReading × W
  read_unit s records w =
      if is_empty s.chassis then (records, w) else read_gpus s.chassis s.gpu records w

  -- The outer loop: nil units are skipped too.
  unfoldable pub read_units :
      List (Option Serials) → List SerialNumberReading → W → List SerialNumberReading × W
  read_units [] records w = (records, w)
  read_units (none ∷ units) records w = read_units units records w
  read_units (some s ∷ units) records w =
      let (records', w') = read_unit s records w in read_units units records' w'

-- The backend is asked only if there is a record.
unfoldable pub write_records :
    {W : Type 0} → Backend W → List SerialNumberReading × W → Option ExportError × W
write_records backend ([], w) = (none, w)
write_records backend (r ∷ records, w) =
    let (failed, w') = backend.write (r ∷ records) w in
    (if failed then some backend_failed else none, w')

-- Export. A nil exporter or backend, and a nil pod, are `none`.
unfoldable pub export :
    {W : Type 0}
    → Option (Backend W)
    → Text
    → Option Pod
    → Text
    → List (Option Serials)
    → W
    → Option ExportError × W
export exporter cluster pod machine [] w = (none, w)
export none cluster pod machine (s ∷ serials) w = (some not_initialized, w)
export (some backend) cluster none machine (s ∷ serials) w =
    if is_blank cluster then (some cluster_required, w) else (some pod_nil, w)
export (some backend) cluster (some pod) machine (s ∷ serials) w =
    if is_blank cluster
    then (some cluster_required, w)
    else if is_blank machine
    then (some node_required, w)
    else write_records backend (read_units backend cluster pod machine (s ∷ serials) [] w)
