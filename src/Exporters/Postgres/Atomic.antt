-- ===== src/Exporters/Postgres/Atomic.antt =====
-- Write of the postgres exporter stores all rows or none.
use gpuid.Base.{
  ℕ, ◌≡◌, refl, sym, ap, ◌∙◌, subst, ◌⊎◌, inl, inr, false, List, [], ◌∷◌, ◌++◌, append-nil,
  append_assoc, Option, none, some, Text, codes, is_empty, if◌then◌else◌, Bool-cases,
}
use gpuid.Gpu.Reading.{SerialNumberReading}
use gpuid.Exporters.Postgres.{
  Row, row_of, set_default_if_empty, Database, WriteError, copy_rows, commit_copy, close_copy,
  flush_copy, after_rows, copy_in, end_tx, write,
}

-- The rows that a batch asks for.
unfoldable pub rows_of : ℕ → List (Option SerialNumberReading) → List Row
rows_of now [] = []
rows_of now (none ∷ records) = rows_of now records
rows_of now (some r ∷ records) =
    record {
      cluster = r.cluster;
      node = r.node;
      machine = r.machine;
      source = r.source;
      chassis = if is_empty r.chassis then codes "unknown" else r.chassis;
      gpu = r.gpu;
      read_time = r.time;
      created_at = now;
    }
    ∷ rows_of now records

-- What a database with transactions is documented to do, seen through the rows that the table holds
-- and those that the open transaction has buffered. Nobody else writes meanwhile. A commit that
-- fails may have been applied, and a rollback after it changes nothing.
pub record IsTransactional {W : Type 0} (db : Database W) : Type 0 where
  pub stored : W → List Row
  pub buffered : W → List Row
  pub begin_keeps : (w : W) → stored (db.begin_tx w).1 ≡ stored w
  pub begin_empties : (w : W) → (db.begin_tx w).0 ≡ false → buffered (db.begin_tx w).1 ≡ []
  pub prepare_keeps :
      (t : Text) (w : W)
      → (stored (db.prepare t w).1 ≡ stored w) × (buffered (db.prepare t w).1 ≡ buffered w)
  pub now_keeps : (w : W) → (stored (db.now w).1 ≡ stored w) × (buffered (db.now w).1 ≡ buffered w)
  pub exec_keeps : (r : Row) (w : W) → stored (db.exec_row r w).1 ≡ stored w
  pub exec_buffers :
      (r : Row) (w : W)
      → (db.exec_row r w).0 ≡ false
      → buffered (db.exec_row r w).1 ≡ buffered w ++ r ∷ []
  pub flush_keeps :
      (w : W) → (stored (db.flush w).1 ≡ stored w) × (buffered (db.flush w).1 ≡ buffered w)
  pub close_keeps :
      (w : W)
      → (stored (db.close_stmt w).1 ≡ stored w) × (buffered (db.close_stmt w).1 ≡ buffered w)
  pub commit_stores :
      (w : W) → (db.commit w).0 ≡ false → stored (db.commit w).1 ≡ stored w ++ buffered w
  pub commit_fails :
      (w : W)
      → (stored (db.commit w).1 ≡ stored w) ⊎ (stored (db.commit w).1 ≡ stored w ++ buffered w)
  pub rollback_keeps : (w : W) → stored (db.rollback w).1 ≡ stored w

module _ {W : Type 0} (db : Database W) (law : IsTransactional db) (table : Text) where
  open law use {stored, buffered}

  -- Nothing is stored yet, and without an error the rows are buffered.
  abbrev IsBuffered : List Row → W → Option WriteError × W → Type 0
  IsBuffered rows w r = (stored r.1 ≡ stored w) × (r.0 ≡ none → buffered r.1 ≡ buffered w ++ rows)

  copy_rows-IsBuffered :
      (now : ℕ) (records : List (Option SerialNumberReading)) (w : W)
      → IsBuffered (rows_of now records) w (copy_rows db table now records w)
  unfolding copy_rows rows_of row_of set_default_if_empty
  copy_rows-IsBuffered now [] w = (refl, λ _. sym (append-nil (buffered w)))
  copy_rows-IsBuffered now (none ∷ records) w = copy_rows-IsBuffered now records w
  copy_rows-IsBuffered now (some r ∷ records) w =
      let w' = (db.exec_row (row_of now r) w).1 in
      let keeps = law.exec_keeps (row_of now r) w in
      let ih = copy_rows-IsBuffered now records w' in
      elim (Bool-cases (db.exec_row (row_of now r) w).0) [
        | inl e ↦ rw e ((law.close_keeps w').0 ∙ keeps, λ h. absurd (cc h))
        | inr e ↦ rw e (
          ih.0 ∙ keeps,
          λ h.
              ih.1 h
              ∙ (ap (λ l. l ++ rows_of now records) (law.exec_buffers (row_of now r) w e)
                  ∙ append_assoc (buffered w) (row_of now r ∷ []) (rows_of now records)),
        )
      ]

  -- Without an error all rows are stored, and with one either all of them or none.
  abbrev pub IsAtomic : List Row → List Row → Option WriteError × W → Type 0
  IsAtomic before rows (none, w) = stored w ≡ before ++ rows
  IsAtomic before rows (some e, w) = (stored w ≡ before) ⊎ (stored w ≡ before ++ rows)

  commit_copy-IsAtomic : (w : W) → IsAtomic (stored w) (buffered w) (commit_copy db table w)
  unfolding commit_copy
  commit_copy-IsAtomic w = elim (Bool-cases (db.commit w).0) [
    | inl e ↦ rw e (law.commit_fails w)
    | inr e ↦ rw e (law.commit_stores w e)
  ]

  -- A step that keeps the rows, before steps that are atomic.
  after_keeping :
      (before rows : List Row) (w w' : W) (r : Option WriteError × W)
      → (stored w' ≡ stored w) × (buffered w' ≡ buffered w)
      → stored w ≡ before
      → buffered w ≡ rows
      → IsAtomic (stored w') (buffered w') r
      → IsAtomic before rows r
  after_keeping before rows w w' r (s, b) hs hb h =
      subst (λ l. IsAtomic l rows r) (s ∙ hs) (subst (λ l. IsAtomic (stored w') l r) (b ∙ hb) h)

  close_copy-IsAtomic : (w : W) → IsAtomic (stored w) (buffered w) (close_copy db table w)
  unfolding close_copy
  close_copy-IsAtomic w = elim (Bool-cases (db.close_stmt w).0) [
    | inl e ↦ rw e (inl (law.close_keeps w).0)
    | inr e ↦ rw e (
        after_keeping (stored w) (buffered w) w (db.close_stmt w).1 _ (law.close_keeps w) refl refl
          (commit_copy-IsAtomic (db.close_stmt w).1))
  ]

  flush_copy-IsAtomic : (w : W) → IsAtomic (stored w) (buffered w) (flush_copy db table w)
  unfolding flush_copy
  flush_copy-IsAtomic w =
      let w' = (db.flush w).1 in
      elim (Bool-cases (db.flush w).0) [
        | inl e ↦ rw e (inl ((law.close_keeps w').0 ∙ (law.flush_keeps w).0))
        | inr e ↦ rw e (
            after_keeping (stored w) (buffered w) w w' _ (law.flush_keeps w) refl refl
              (close_copy-IsAtomic w'))
      ]

  after_rows-IsAtomic :
      (before rows : List Row) (r : Option WriteError × W)
      → stored r.1 ≡ before
      → (r.0 ≡ none → buffered r.1 ≡ rows)
      → IsAtomic before rows (after_rows db table r)
  unfolding after_rows
  after_rows-IsAtomic before rows (some e, w) hs hb = inl hs
  after_rows-IsAtomic before rows (none, w) hs hb =
      after_keeping before rows w w _ (refl, refl) hs (hb refl) (flush_copy-IsAtomic w)

  -- The time that the rows are stamped with.
  unfoldable pub created_at : W → ℕ
  created_at w = (db.now (db.prepare table w).1).0

  copy_in-IsAtomic :
      (records : List (Option SerialNumberReading)) (w : W)
      → buffered w ≡ []
      → IsAtomic (stored w) (rows_of (created_at w) records) (copy_in db table records w)
  unfolding copy_in created_at
  copy_in-IsAtomic records w empty =
      let w1 = (db.prepare table w).1 in
      let w2 = (db.now w1).1 in
      let now = (db.now w1).0 in
      let prepared = law.prepare_keeps table w in
      let read = law.now_keeps w1 in
      let copied = copy_rows-IsBuffered now records w2 in
      elim (Bool-cases (db.prepare table w).0) [
        | inl e ↦ rw e (inl prepared.0)
        | inr e ↦ rw e (
            after_rows-IsAtomic (stored w) (rows_of now records) _
              (copied.0 ∙ (read.0 ∙ prepared.0))
              (λ h.
                copied.1 h ∙ ap (λ l. l ++ rows_of now records) (read.1 ∙ (prepared.1 ∙ empty))))
      ]

  end_tx-IsAtomic :
      (before rows : List Row) (r : Option WriteError × W)
      → IsAtomic before rows r
      → IsAtomic before rows (end_tx db table r)
  unfolding end_tx
  end_tx-IsAtomic before rows (none, w) h = h
  end_tx-IsAtomic before rows (some e, w) h = rw (law.rollback_keeps w) h

  -- Write is all or nothing: without an error the table has gained one row for each record that is
  -- not nil, in order, all stamped with one time and with "unknown" for a chassis that is missing; with
  -- an error it has gained all these rows or none.
  pub write-IsAtomic :
      (records : List (Option SerialNumberReading)) (w : W)
      → (now : ℕ) × IsAtomic (stored w) (rows_of now records) (write db table records w)
  unfolding write rows_of
  write-IsAtomic [] w = (0, sym (append-nil (stored w)))
  write-IsAtomic (r ∷ records) w =
      let w' = (db.begin_tx w).1 in
      let begun = law.begin_keeps w in
      elim (Bool-cases (db.begin_tx w).0) [
        | inl e ↦ (0, rw e (inl begun))
        | inr e ↦ (
          created_at w',
          rw e (
              end_tx-IsAtomic (stored w) _ _ (
                subst
                  (λ l.
                    IsAtomic l (rows_of (created_at w') (r ∷ records))
                      (copy_in db table (r ∷ records) w'))
                  begun (copy_in-IsAtomic (r ∷ records) w' (law.begin_empties w e)))),
        )
      ]
