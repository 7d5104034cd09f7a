-- ===== src/Runner/Export/Stored.antt =====
-- Export on the postgres exporter: from the serials of the units to the rows of the table.
use gpuid.Base.{
  ℕ, ◌≡◌, ◌≢◌, refl, sym, ◌∙◌, subst, ◌⊎◌, false, List, [], ◌∷◌, ◌++◌, append-nil, map, Option,
  none, some, Text, is_empty, is_blank, is_some, All, if◌then◌else◌,
}
use gpuid.Gpu.Serials.{Serials}
use gpuid.Gpu.Reading.{SerialNumberReading, IsComplete}
use gpuid.Exporters.Postgres.{Row, Database, WriteError, write}
use gpuid.Exporters.Postgres.Atomic.{rows_of, IsTransactional, IsAtomic, write-IsAtomic}
use gpuid.Runner.Pod.{Pod}
use gpuid.Runner.Export.{Backend, ExportError, write_records, read_units, export, backend_failed}
use gpuid.Runner.Export.Readings.{untimed, unit_readings, export-read_units}
use gpuid.Runner.Export.Keeps.{read_units-keeps}

-- The postgres exporter as the backend of Export.
unfoldable pub postgres_backend : {W : Type 0} → Database W → Text → Backend W
postgres_backend db table = record {
  write = λ records w. let (e, w') = write db table (map some records) w in (is_some e, w');
  now = db.now;
}

module _ {W : Type 0} (db : Database W) (law : IsTransactional db) (table : Text) where
  open law use {stored}

  -- Without an error the table has gained the rows, with an error these or none.
  abbrev pub AllOrNone : W → List Row → Option ExportError × W → Type 0
  AllOrNone w rows (none, w') = stored w' ≡ stored w ++ rows
  AllOrNone w rows (some e, w') = (stored w' ≡ stored w) ⊎ (stored w' ≡ stored w ++ rows)

  of_write :
      (w : W) (rows : List Row) (x : Option WriteError × W)
      → IsAtomic db law table (stored w) rows x
      → AllOrNone w rows (if is_some x.0 then some backend_failed else none, x.1)
  of_write w rows (none, w') h = h
  of_write w rows (some e, w') h = h

  write_records-AllOrNone :
      (records : List SerialNumberReading) (v w : W)
      → stored v ≡ stored w
      → (now : ℕ) × AllOrNone w
          (rows_of now (map some records))
          (write_records (postgres_backend db table) (records, v))
  unfolding write_records postgres_backend rows_of
  write_records-AllOrNone [] v w same = (0, same ∙ sym (append-nil (stored w)))
  write_records-AllOrNone (r ∷ records) v w same =
      let batch = map some (r ∷ records) in
      let (now, atomic) = write-IsAtomic db law table batch v in
      (
        now,
        of_write w (rows_of now batch) (write db table batch v) (
            subst (λ l. IsAtomic db law table l (rows_of now batch) (write db table batch v)) same
              atomic),
      )

  -- Export on the postgres exporter: there are readings, one for each non-empty serial of each unit
  -- with a chassis, in order and all complete, such that the table gains exactly one row for each,
  -- with its fields, unknown for a chassis that is empty, and one time that all rows are stamped
  -- with, if Export reports no error, and these rows or none if it reports one. Assumed: the
  -- database is transactional, the clock is past the zero time, and the cluster, the machine and
  -- the node have names.
  pub export-AllOrNone :
      (cluster : Text) (pod : Pod) (machine : Text) (serials : List (Option Serials)) (w : W)
      → ((v : W) → (db.now v).0 ≢ 0)
      → is_blank cluster ≡ false
      → is_blank machine ≡ false
      → is_empty pod.node_name ≡ false
      → (records : List SerialNumberReading) × (now : ℕ) × (map untimed records
          ≡ unit_readings cluster pod machine serials)
        × All IsComplete records
        × AllOrNone w
            (rows_of now (map some records))
            (export (some (postgres_backend db table)) cluster (some pod) machine serials w)
  unfolding postgres_backend
  export-AllOrNone cluster pod machine serials w ticks hc hm hn =
      let b = postgres_backend db table in
      let (run, readings, complete) =
        export-read_units b cluster pod machine serials w ticks hc hm hn in
      let r = read_units b cluster pod machine serials [] w in
      let kept =
        read_units-keeps (λ v. stored v ≡ stored w) b (λ v same. (law.now_keeps v).0 ∙ same) cluster
          pod machine serials [] w refl in
      let (now, stored_all) = write_records-AllOrNone r.0 r.1 w kept in
      (r.0, now, readings, complete, rw run stored_all)
