-- ===== src/Exporters/Postgres/Connection.antt =====
-- New, Close and Health of the postgres exporter, its connection string and its schema. The calls of
-- database/sql are parameters, over the state W of the world.
pub mod Split
pub mod Leaks
use gpuid.Base.{
  ℕ, ◌+◌, ◌*◌, ◌≡◌, Bool, true, false, List, [], ◌∷◌, ◌++◌, map, ltb, leb, ◌&&◌, if◌then◌else◌,
  Option, none, some, Result, ok, err, Text, codes, text_eq, ℤ, pos, negsuc, decimal,
}
use gpuid.Exporters.Postgres.{Config, SettingsError, validate, load_config_from_env}

-- %d
abbrev pub print_int : ℤ → Text
print_int (pos n) = decimal n
print_int (negsuc n) = b'-' ∷ decimal (n + 1)

-- ConnectionString
unfoldable pub connection_string : Config → Text
connection_string c =
    (codes "host=" ++ c.host)
    ++ b' '
      ∷ ((codes "port=" ++ print_int c.port)
          ++ b' '
            ∷ ((codes "dbname=" ++ c.database)
                ++ b' '
                  ∷ ((codes "user=" ++ c.user)
                      ++ b' '
                        ∷ ((codes "password=" ++ c.password)
                            ++ b' ' ∷ (codes "sslmode=" ++ c.ssl_mode)))))

-- The limits of the connection pool; the lifetime in nanoseconds.
pub record Pool : Type 0 where
  pub max_open : ℕ
  pub max_idle : ℕ
  pub max_lifetime : ℕ

abbrev pub pool : Pool
pool = record { max_open = 25; max_idle = 5; max_lifetime = 300 * 1_000_000_000 }

-- sql.Open, the setters of the pool, PingContext, ExecContext and Close of a database D; `none` and
-- `true` are errors.
pub record Driver (D W : Type 0) : Type 0 where
  pub open_db : Text → W → Option D × W
  pub set_pool : Pool → D → W → W
  pub ping : D → W → Bool × W
  pub exec : Text → D → W → Bool × W
  pub close_db : D → W → Bool × W

pub record Exporter (D : Type 0) : Type 0 where
  pub db : Option D
  pub config : Config
  pub auto_migrate : Bool

pub data SchemaError : Type 0 where
  create_failed index_failed : SchemaError

pub data NewError : Type 0 where
  not_valid : SettingsError → NewError
  open_failed ping_failed : NewError
  schema_failed : SchemaError → NewError

-- The columns of the table.
abbrev columns : List Text
columns =
    codes "id BIGSERIAL PRIMARY KEY,"
    ∷ codes "cluster VARCHAR(255) NOT NULL,"
    ∷ codes "node VARCHAR(255) NOT NULL,"
    ∷ codes "machine VARCHAR(255) NOT NULL,"
    ∷ codes "source VARCHAR(255) NOT NULL,"
    ∷ codes "chassis VARCHAR(255) NOT NULL,"
    ∷ codes "gpu VARCHAR(255) NOT NULL,"
    ∷ codes "read_time TIMESTAMP WITH TIME ZONE NOT NULL,"
    ∷ codes "created_at TIMESTAMP WITH TIME ZONE NOT NULL DEFAULT NOW(),"
    ∷ codes "UNIQUE(cluster, node, machine, source, chassis, gpu, read_time)"
    ∷ []

-- Each on a line of its own, behind three tabs.
abbrev column_lines : List Text → Text
column_lines [] = []
column_lines (c ∷ rest) = (10 ∷ 9 ∷ 9 ∷ 9 ∷ c) ++ column_lines rest

-- createTableQuery
unfoldable pub create_table_query : Text → Text
create_table_query table =
    (10 ∷ 9 ∷ 9 ∷ codes "CREATE TABLE IF NOT EXISTS ")
    ++ table
    ++ codes " ("
    ++ column_lines columns
    ++ 10 ∷ 9 ∷ 9 ∷ codes ")"

-- CREATE INDEX on one column
abbrev index_query : Text → Text → Text
index_query table column =
    codes "CREATE INDEX IF NOT EXISTS idx_"
    ++ table
    ++ codes "_"
    ++ column
    ++ codes " ON "
    ++ table
    ++ codes " ("
    ++ column
    ++ codes ")"

-- indexQueries
unfoldable pub index_queries : Text → List Text
index_queries table =
    map (index_query table)
      (codes "cluster" ∷ codes "node" ∷ codes "read_time" ∷ codes "created_at" ∷ [])

-- strings.EqualFold(s, "true"): none of these letters folds to a letter outside ASCII.
abbrev ascii_lower : ℕ → ℕ
ascii_lower c = if leb b'A' c && leb c b'Z' then c + 32 else c

abbrev pub is_true : Text → Bool
is_true s = text_eq (map ascii_lower s) (codes "true")

module _ {D W : Type 0} (sql : Driver D W) where
  -- the loop over the index queries
  unfoldable pub create_indexes : D → List Text → W → Option SchemaError × W
  create_indexes db [] w = (none, w)
  create_indexes db (q ∷ queries) w =
      let (failed, w') = sql.exec q db w in
      let rest = create_indexes db queries w' in if failed then (some index_failed, w') else rest

  -- initializeSchema
  unfoldable pub initialize_schema : D → Text → W → Option SchemaError × W
  initialize_schema db table w =
      let (failed, w') = sql.exec (create_table_query table) db w in
      if failed then (some create_failed, w') else create_indexes db (index_queries table) w'

  unfoldable pub after_schema :
      D → Exporter D → Option SchemaError × W → Result NewError (Exporter D) × W
  after_schema db e (none, w) = (ok e, w)
  after_schema db e (some x, w) = (err (schema_failed x), (sql.close_db db w).1)

  -- if exporter.autoMigrate, with the test passed on
  unfoldable pub migrate : Bool → D → Exporter D → W → Result NewError (Exporter D) × W
  migrate true db e w = after_schema db e (initialize_schema db e.config.table w)
  migrate false db e w = (ok e, w)

  unfoldable pub connect : D → Exporter D → W → Result NewError (Exporter D) × W
  connect db e w =
      let (failed, w') = sql.ping db (sql.set_pool pool db w) in
      if failed then (err ping_failed, (sql.close_db db w').1) else migrate e.auto_migrate db e w'

  unfoldable pub after_open : Config → Bool → Option D × W → Result NewError (Exporter D) × W
  after_open config auto_migrate (none, w) = (err open_failed, w)
  after_open config auto_migrate (some db, w) =
      connect db (record { db = some db; config = config; auto_migrate = auto_migrate }) w

  unfoldable pub new_valid :
      Option SettingsError → Config → Bool → W → Result NewError (Exporter D) × W
  new_valid (some e) config auto_migrate w = (err (not_valid e), w)
  new_valid none config auto_migrate w =
      after_open config auto_migrate (sql.open_db (connection_string config) w)

  -- New, over strconv.Atoi and os.Getenv
  unfoldable pub new : (Text → Option ℤ) → (Text → Text) → W → Result NewError (Exporter D) × W
  new parse env w =
      let config = load_config_from_env parse env in
      new_valid (validate config) config (is_true (env (codes "POSTGRES_AUTO_MIGRATE"))) w

  -- Close
  unfoldable pub close : Exporter D → W → Bool × W
  close e w = elim e.db [ none ↦ (false, w) | some db ↦ sql.close_db db w ]

  -- Health
  unfoldable pub health : Exporter D → W → Bool × W
  health e w = elim e.db [ none ↦ (true, w) | some db ↦ sql.ping db w ]
