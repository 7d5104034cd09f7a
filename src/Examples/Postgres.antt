-- ===== src/Examples/Postgres.antt =====
-- The postgres exporter on a database in memory.
use gpuid.Base.{
  arith, map, All, ℕ, ◌≡◌, refl, inr, false, List, [], ◌∷◌, ◌++◌, Option, none, some, codes, pos,
}
use gpuid.Gpu.Serials.{Serials}
use gpuid.Gpu.Reading.{SerialNumberReading, IsComplete}
use gpuid.Runner.Export.{export}
use gpuid.Runner.Export.Readings.{untimed, unit_readings}
use gpuid.Runner.Export.Stored.{postgres_backend, AllOrNone, export-AllOrNone}
use gpuid.Examples.Runner.{settings, pod, lab_not_blank, machine_not_blank}
use gpuid.Exporters.Postgres.{
  Config, Row, row_of, Database, write, copy_rows, commit_copy, close_copy, flush_copy, after_rows,
  copy_in, end_tx,
}
use gpuid.Exporters.Postgres.Atomic.{rows_of, IsTransactional}

-- The rows of the table, and those of the transaction.
abbrev pub Tables : Type 0
Tables = List Row × List Row

abbrev pub memory : Database Tables
memory = record {
  begin_tx = λ w. (false, (w.0, []));
  prepare = λ t w. (false, w);
  exec_row = λ r w. (false, (w.0, w.1 ++ r ∷ []));
  flush = λ w. (false, w);
  close_stmt = λ w. (false, w);
  commit = λ w. (false, (w.0 ++ w.1, []));
  rollback = λ w. (false, (w.0, []));
  now = λ w. (9, w);
}

abbrev pub memory_laws : IsTransactional memory
memory_laws = record {
  stored = λ w. w.0;
  buffered = λ w. w.1;
  begin_keeps = λ w. refl;
  begin_empties = λ w h. refl;
  prepare_keeps = λ t w. (refl, refl);
  now_keeps = λ w. (refl, refl);
  exec_keeps = λ r w. refl;
  exec_buffers = λ r w h. refl;
  flush_keeps = λ w. (refl, refl);
  close_keeps = λ w. (refl, refl);
  commit_stores = λ w h. refl;
  commit_fails = λ w. inr refl;
  rollback_keeps = λ w. refl;
}

abbrev batch : List (Option SerialNumberReading)
batch =
    some (record {
      cluster = codes "lab";
      node = codes "n1";
      machine = codes "i-1";
      source = codes "gpu/p";
      chassis = [];
      gpu = codes "g1";
      time = 5;
    })
    ∷ none
    ∷ []

write_test : write memory (codes "gpu") batch ([], []) ≡ (none, (rows_of 9 batch, []))
unfolding write copy_in copy_rows after_rows flush_copy close_copy commit_copy end_tx rows_of row_of
write_test = refl

abbrev config : Config
config = record {
  host = codes "db";
  port = pos 5432;
  database = codes "gpu";
  user = codes "gpuid";
  password = codes "secret";
  ssl_mode = codes "require";
  table = codes "gpu; drop";
}

exported_units : List (Option Serials)
exported_units = some (record { chassis = codes "c1"; gpu = codes "g1" ∷ [] ∷ [] }) ∷ none ∷ []

export-AllOrNone_example :
    (records : List SerialNumberReading) × (now : ℕ) × (map untimed records
      ≡ unit_readings settings.cluster pod (codes "i-0ab") exported_units)
    × All IsComplete records
    × AllOrNone memory memory_laws
        (codes "gpu")
        ([], [])
        (rows_of now (map some records))
        (export
          (some (postgres_backend memory (codes "gpu")))
          settings.cluster
          (some pod)
          (codes "i-0ab")
          exported_units
          ([], []))
export-AllOrNone_example =
    export-AllOrNone memory memory_laws (codes "gpu") settings.cluster pod (codes "i-0ab")
      exported_units ([], []) (λ w e. absurd (omega arith)) lab_not_blank machine_not_blank refl
