-- ===== src/Exporters/Postgres/Connection/Leaks.antt =====
-- That New leaves no database open if it fails.
use gpuid.Base.{
  ℕ, ◌+◌, ◌<◌, ◌≡◌, refl, ap, ◌∙◌, arith, Bool, true, false, Bool-cases, inl, inr, List, [], ◌∷◌,
  Option, none, some, Result, ok, err, Text, ℤ,
}
use gpuid.Exporters.Postgres.{Config, SettingsError, validate, load_config_from_env}
use gpuid.Exporters.Postgres.Connection.{
  Driver, Exporter, NewError, SchemaError, pool, connection_string, create_table_query,
  index_queries, create_indexes, initialize_schema, after_schema, migrate, connect, after_open,
  new_valid, new,
}

-- How many databases are open in a world: only Open and Close change that.
pub record Counted {D W : Type 0} (sql : Driver D W) (opened : W → ℕ) : Type 0 where
  pub open_counts :
      (s : Text) (w : W) (db : D)
      → (sql.open_db s w).0 ≡ some db
      → opened (sql.open_db s w).1 ≡ opened w + 1
  pub open_fails :
      (s : Text) (w : W) → (sql.open_db s w).0 ≡ none → opened (sql.open_db s w).1 ≡ opened w
  pub pool_keeps : (db : D) (w : W) → opened (sql.set_pool pool db w) ≡ opened w
  pub ping_keeps : (db : D) (w : W) → opened (sql.ping db w).1 ≡ opened w
  pub exec_keeps : (q : Text) (db : D) (w : W) → opened (sql.exec q db w).1 ≡ opened w
  pub close_counts : (db : D) (w : W) → 0 < opened w → opened (sql.close_db db w).1 + 1 ≡ opened w

abbrev pub made : {D : Type 0} → Result NewError (Exporter D) → ℕ
made (ok e) = 1
made (err e) = 0

module _ {D W : Type 0} (sql : Driver D W) (opened : W → ℕ) (laws : Counted sql opened) where
  open laws use {open_counts, open_fails, pool_keeps, ping_keeps, exec_keeps, close_counts}

  create_indexes-keeps :
      (db : D) (queries : List Text) (w : W) → opened (create_indexes sql db queries w).1 ≡ opened w
  unfolding create_indexes
  create_indexes-keeps db [] w = refl
  create_indexes-keeps db (q ∷ queries) w = elim (Bool-cases (sql.exec q db w).0) [
    | inl e ↦ rw (e, create_indexes) (exec_keeps q db w)
    | inr e ↦
        rw (e, create_indexes)
          (create_indexes-keeps db queries (sql.exec q db w).1 ∙ exec_keeps q db w)
  ]

  initialize_schema-keeps :
      (db : D) (table : Text) (w : W) → opened (initialize_schema sql db table w).1 ≡ opened w
  unfolding initialize_schema
  initialize_schema-keeps db table w =
      elim (Bool-cases (sql.exec (create_table_query table) db w).0) [
        | inl e ↦ rw e (exec_keeps _ db w)
        | inr e ↦ rw e (create_indexes-keeps db (index_queries table) _ ∙ exec_keeps _ db w)
      ]

  -- With the database open, New ends with it open and returned, or closed.
  abbrev Ends : ℕ → Result NewError (Exporter D) × W → Type 0
  Ends before r = opened r.1 ≡ before + made r.0

  after_schema-Ends :
      (db : D) (e : Exporter D) (r : Option SchemaError × W) (before : ℕ)
      → opened r.1 ≡ before + 1
      → Ends before (after_schema sql db e r)
  unfolding after_schema
  after_schema-Ends db e (none, w) before h = h
  after_schema-Ends db e (some x, w) before h = omega (arith, close_counts db w (omega arith))

  migrate-Ends :
      (asked : Bool) (db : D) (e : Exporter D) (w : W) (before : ℕ)
      → opened w ≡ before + 1
      → Ends before (migrate sql asked db e w)
  unfolding migrate
  migrate-Ends true db e w before h =
      after_schema-Ends db e (initialize_schema sql db e.config.table w) before
        (initialize_schema-keeps db e.config.table w ∙ h)
  migrate-Ends false db e w before h = h

  connect-Ends :
      (db : D) (e : Exporter D) (w : W) (before : ℕ)
      → opened w ≡ before + 1
      → Ends before (connect sql db e w)
  unfolding connect
  connect-Ends db e w before h =
      let w' = sql.set_pool pool db w in
      let open' : opened (sql.ping db w').1 ≡ before + 1 = ping_keeps db w' ∙ pool_keeps db w ∙ h in
      elim (Bool-cases (sql.ping db w').0) [
        | inl failed ↦
            rw failed
              (omega (arith, open', close_counts db (sql.ping db w').1 (omega (arith, open'))))
        | inr up ↦ rw up (migrate-Ends e.auto_migrate db e _ before open')
      ]

  after_open-Ends :
      (config : Config) (auto_migrate : Bool) (r : Option D × W) (w : W)
      → sql.open_db (connection_string config) w ≡ r
      → Ends (opened w) (after_open sql config auto_migrate r)
  unfolding after_open
  after_open-Ends config auto_migrate (none, w') w h =
      omega
        (arith, open_fails (connection_string config) w (ap (λ r. r.0) h), ap (λ r. opened r.1) h)
  after_open-Ends config auto_migrate (some db, w') w h = connect-Ends db _ w' (opened w) (
      omega (
        arith,
        open_counts (connection_string config) w db (ap (λ r. r.0) h),
        ap (λ r. opened r.1) h,
      ))

  new_valid-Ends :
      (x : Option SettingsError) (config : Config) (auto_migrate : Bool) (w : W)
      → Ends (opened w) (new_valid sql x config auto_migrate w)
  unfolding new_valid
  new_valid-Ends (some e) config auto_migrate w = omega arith
  new_valid-Ends none config auto_migrate w = after_open-Ends config auto_migrate _ w refl

  -- Whatever fails in New of the postgres exporter, a bad configuration, the connection, the ping
  -- or the schema, no database is left open by it; if New succeeds, it has opened exactly one.
  pub new-Ends :
      (parse : Text → Option ℤ) (env : Text → Text) (w : W)
      → opened (new sql parse env w).1 ≡ opened w + made (new sql parse env w).0
  unfolding new
  new-Ends parse env w = new_valid-Ends (validate (load_config_from_env parse env)) _ _ w
