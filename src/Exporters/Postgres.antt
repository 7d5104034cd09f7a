-- ===== src/Exporters/Postgres.antt =====
-- pkg/exporters/postgres/exporter.go: the configuration, and the transaction of Write.
pub mod Atomic
pub mod Settings
pub mod Connection
use gpuid.Base.{
  ℕ, ◌≡◌, ◌⊎◌, Bool, true, false, not, ◌&&◌, ◌||◌, List, [], ◌∷◌, ◌++◌, leb, ◌==◌, if◌then◌else◌,
  every, Option, none, some, Text, codes, is_empty, ℤ, pos, ltb_ℤ, leb_ℤ,
}
use gpuid.Gpu.Reading.{SerialNumberReading}
use gpuid.Exporters.Env.{get_env}

pub record Config : Type 0 where
  pub host : Text
  pub port : ℤ
  pub database : Text
  pub user : Text
  pub password : Text
  pub ssl_mode : Text
  pub table : Text

pub data SettingsError : Type 0 where
  host_required database_required user_required password_required : SettingsError
  bad_port no_table bad_table : SettingsError

-- [a-zA-Z_]
abbrev is_name_start : ℕ → Bool
is_name_start c = (leb b'a' c && leb c b'z') || (leb b'A' c && leb c b'Z') || c == b'_'

-- [a-zA-Z0-9_]
abbrev is_name_char : ℕ → Bool
is_name_char c = is_name_start c || (leb b'0' c && leb c b'9')

-- tableNameRegex
unfoldable pub table_name_regex : Text → Bool
table_name_regex [] = false
table_name_regex (c ∷ s) = is_name_start c && every is_name_char s

-- Validate
unfoldable pub validate : Config → Option SettingsError
validate c =
    if is_empty c.host
    then some host_required
    else if is_empty c.database
    then some database_required
    else if is_empty c.user
    then some user_required
    else if is_empty c.password
    then some password_required
    else if leb_ℤ c.port (pos 0) || ltb_ℤ (pos 65535) c.port
    then some bad_port
    else if is_empty c.table
    then some no_table
    else if not (table_name_regex c.table)
    then some bad_table
    else none

-- getEnvAsInt, over strconv.Atoi: a text that is no number is passed over
unfoldable pub get_env_as_int : (Text → Option ℤ) → (Text → Text) → Text → ℤ → ℤ
get_env_as_int parse env key default =
    if is_empty (env key) then default else elim (parse (env key)) [ none ↦ default | some n ↦ n ]

unfoldable pub load_config_from_env : (Text → Option ℤ) → (Text → Text) → Config
unfolding get_env get_env_as_int
load_config_from_env parse env = record {
  host = get_env env (codes "POSTGRES_HOST") [];
  port = get_env_as_int parse env (codes "POSTGRES_PORT") (pos 5432);
  database = get_env env (codes "POSTGRES_DB") [];
  user = get_env env (codes "POSTGRES_USER") [];
  password = env (codes "POSTGRES_PASSWORD");
  ssl_mode = get_env env (codes "POSTGRES_SSLMODE") (codes "require");
  table = get_env env (codes "POSTGRES_TABLE") (codes "gpu");
}

-- setDefaultIfEmpty
unfoldable pub set_default_if_empty : Text → Text → Text
set_default_if_empty value default = if is_empty value then default else value

-- The columns of a row that is copied.
pub record Row : Type 0 where
  pub cluster : Text
  pub node : Text
  pub machine : Text
  pub source : Text
  pub chassis : Text
  pub gpu : Text
  pub read_time : ℕ
  pub created_at : ℕ

unfoldable pub row_of : ℕ → SerialNumberReading → Row
unfolding set_default_if_empty
row_of now r = record {
  cluster = r.cluster;
  node = r.node;
  machine = r.machine;
  source = r.source;
  chassis = set_default_if_empty r.chassis (codes "unknown");
  gpu = r.gpu;
  read_time = r.time;
  created_at = now;
}

-- The calls of database/sql on a transaction, over the state W of the database. `true` is an error.
pub record Database (W : Type 0) : Type 0 where
  pub begin_tx : W → Bool × W
  -- PrepareContext of pq.CopyIn on a table
  pub prepare : Text → W → Bool × W
  pub exec_row : Row → W → Bool × W
  -- ExecContext with no arguments
  pub flush : W → Bool × W
  pub close_stmt : W → Bool × W
  pub commit : W → Bool × W
  pub rollback : W → Bool × W
  pub now : W → ℕ × W

pub data WriteError : Type 0 where
  begin_failed prepare_failed row_failed flush_failed close_failed commit_failed : WriteError

module _ {W : Type 0} (db : Database W) (table : Text) where
  -- The loop over the records; nil records are skipped.
  unfoldable pub copy_rows : ℕ → List (Option SerialNumberReading) → W → Option WriteError × W
  copy_rows now [] w = (none, w)
  copy_rows now (none ∷ records) w = copy_rows now records w
  copy_rows now (some r ∷ records) w =
      let (failed, w') = db.exec_row (row_of now r) w in
      let rest = copy_rows now records w' in
      if failed then (some row_failed, (db.close_stmt w').1) else rest

  unfoldable pub commit_copy : W → Option WriteError × W
  commit_copy w =
      let (failed, w') = db.commit w in (if failed then some commit_failed else none, w')

  unfoldable pub close_copy : W → Option WriteError × W
  close_copy w =
      let (failed, w') = db.close_stmt w in
      if failed then (some close_failed, w') else commit_copy w'

  unfoldable pub flush_copy : W → Option WriteError × W
  flush_copy w =
      let (failed, w') = db.flush w in
      if failed then (some flush_failed, (db.close_stmt w').1) else close_copy w'

  -- what follows the loop
  unfoldable pub after_rows : Option WriteError × W → Option WriteError × W
  after_rows (some e, w) = (some e, w)
  after_rows (none, w) = flush_copy w

  unfoldable pub copy_in : List (Option SerialNumberReading) → W → Option WriteError × W
  copy_in records w =
      let (failed, w') = db.prepare table w in
      let (now, w'') = db.now w' in
      if failed then (some prepare_failed, w') else after_rows (copy_rows now records w'')

  -- The deferred call: whatever is not committed is rolled back.
  unfoldable pub end_tx : Option WriteError × W → Option WriteError × W
  end_tx (none, w) = (none, w)
  end_tx (some e, w) = (some e, (db.rollback w).1)

  -- Write
  unfoldable pub write : List (Option SerialNumberReading) → W → Option WriteError × W
  write [] w = (none, w)
  write (r ∷ records) w =
      let (failed, w') = db.begin_tx w in
      if failed then (some begin_failed, w') else end_tx (copy_in (r ∷ records) w')
