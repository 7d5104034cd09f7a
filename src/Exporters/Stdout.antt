-- ===== src/Exporters/Stdout.antt =====
-- pkg/exporters/stdout/exporter.go: what is logged, and the state of the standard output.
use gpuid.Base.{
  ℕ, ◌≡◌, refl, ap, map, Bool, true, false, List, [], ◌∷◌, ◌++◌, length, if◌then◌else◌, Option,
  none, some,
}
use gpuid.Gpu.Reading.{SerialNumberReading}

pub data Line : Type 0 where
  reading : SerialNumberReading → Line
  completed : ℕ → Line

-- The loop: nil records are skipped.
unfoldable pub log_readings : List (Option SerialNumberReading) → List Line
log_readings [] = []
log_readings (none ∷ records) = log_readings records
log_readings (some r ∷ records) = reading r ∷ log_readings records

-- Write: the lines that are logged; `none` is the nil slice, which is an error
unfoldable pub write : Option (List (Option SerialNumberReading)) → Bool × List Line
unfolding log_readings
write none = (true, [])
write (some records) = (false, log_readings records ++ completed (length records) ∷ [])

-- Health, over os.Stdout.Stat: whether it is a directory, or an error
unfoldable pub health : Option Bool → Bool
health none = true
health (some is_dir) = if is_dir then true else false

abbrev present : List (Option SerialNumberReading) → List SerialNumberReading
present [] = []
present (none ∷ records) = present records
present (some r ∷ records) = r ∷ present records

log_readings-present :
    (records : List (Option SerialNumberReading))
    → log_readings records ≡ map reading (present records)
unfolding log_readings
log_readings-present [] = refl
log_readings-present (none ∷ records) = log_readings-present records
log_readings-present (some r ∷ records) = ap (◌∷◌ (reading r)) (log_readings-present records)

-- Write logs the readings that are not nil, in order, and then the number of all, nil ones included.
pub write-lines :
    (records : List (Option SerialNumberReading))
    → write (some records)
      ≡ (false, map reading (present records) ++ completed (length records) ∷ [])
unfolding write
write-lines records =
    ap (λ l. (false, l ++ completed (length records) ∷ [])) (log_readings-present records)
