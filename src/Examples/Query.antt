-- ===== src/Examples/Query.antt =====
-- The report of a pod with two GPUs, and the database of the postgres exporter.
use gpuid.Base.{
  ℕ, suc, ◌+◌, ◌-◌, ◌≡◌, refl, arith, true, false, [], ◌∷◌, ◌++◌, map, Option, none, some, Text,
  codes, split, pos, text_eq, if◌then◌else◌,
}
use gpuid.Gpu.Xml.{
  Element, element, Elements, nil, cons, each_of, text_of, text_from, kids_of, append,
}
use gpuid.Gpu.Query.{Executor, query_smi, reported, IsQueried, query_smi-IsQueried}
use gpuid.Exporters.Postgres.{Config}
use gpuid.Exporters.Postgres.Connection.{Driver, connection_string, new, print_int}
use gpuid.Exporters.Postgres.Connection.Split.{HasNoSpaces, split-connection_string}
use gpuid.Exporters.Postgres.Connection.Leaks.{Counted, made, new-Ends}

abbrev leaf : Text → Text → Element
leaf name text = element name text nil

abbrev gpu_element : Text → Text → Element
gpu_element serial chassis = element (codes "gpu") [] (
    cons (leaf (codes "serial") serial) (
      cons
        (element (codes "platformInfo") []
          (cons (leaf (codes "chassis_serial_number") chassis) nil))
        nil))

abbrev kids : Elements
kids = cons (leaf (codes "timestamp") (codes "now")) (
    cons (gpu_element (codes "g1") (codes "c1")) (cons (gpu_element (codes "g0") (codes "c1")) nil))

-- The command prints the text "x", which is the report, and a warning.
abbrev executor : Executor Text ℕ
executor = record {
  new_executor = λ pod container w. (false, suc w);
  stream = λ pod container w.
      (record { stdout = codes "x"; stderr = codes "driver mismatch"; failed = none }, suc w);
}

abbrev xml : Text → Option Element
xml s = if text_eq s (codes "x") then some (element (codes "nvidia_smi_log") [] kids) else none

reported_test :
    map reported (each_of (codes "gpu") kids)
    ≡ record { serial = codes "g1"; chassis_serial_number = codes "c1" }
      ∷ record { serial = codes "g0"; chassis_serial_number = codes "c1" }
      ∷ []
unfolding each_of text_of text_from kids_of append text_eq
reported_test = refl

query_smi-IsQueried_example :
    IsQueried executor xml
      (codes "p")
      (codes "c")
      0
      (query_smi executor xml (codes "p") (codes "c") 0)
query_smi-IsQueried_example = query_smi-IsQueried executor xml (codes "p") (codes "c") 0

abbrev config : Config
config = record {
  host = codes "db";
  port = pos 5432;
  database = codes "gpuid";
  user = codes "writer";
  password = codes "s3cret";
  ssl_mode = codes "require";
  table = codes "gpu";
}

config-HasNoSpaces : HasNoSpaces config
config-HasNoSpaces = record {
  in_host = refl;
  in_database = refl;
  in_user = refl;
  in_password = refl;
  in_ssl_mode = refl;
}

split-connection_string_example :
    split (connection_string config) b' '
    ≡ (codes "host=" ++ config.host)
      ∷ (codes "port=" ++ print_int config.port)
      ∷ (codes "dbname=" ++ config.database)
      ∷ (codes "user=" ++ config.user)
      ∷ (codes "password=" ++ config.password)
      ∷ (codes "sslmode=" ++ config.ssl_mode)
      ∷ []
split-connection_string_example = split-connection_string config config-HasNoSpaces

-- The world is the number of open databases; none answers.
abbrev sql : Driver ℕ ℕ
sql = record {
  open_db = λ s w. (some 0, w + 1);
  set_pool = λ p db w. w;
  ping = λ db w. (true, w);
  exec = λ q db w. (false, w);
  close_db = λ db w. (false, w - 1);
}

sql-Counted : Counted sql (λ w. w)
sql-Counted = record {
  open_counts = λ s w db h. refl;
  open_fails = λ s w h. cc h;
  pool_keeps = λ db w. refl;
  ping_keeps = λ db w. refl;
  exec_keeps = λ q db w. refl;
  close_counts = λ db w h. omega arith;
}

abbrev known : Text → Text
known k = if text_eq k (codes "POSTGRES_PORT") then [] else codes "a"

new-Ends_example : (new sql (λ s. none) known 2).1 ≡ 2 + made (new sql (λ s. none) known 2).0
new-Ends_example = new-Ends sql (λ w. w) sql-Counted (λ s. none) known 2
