-- ===== src/Exporters/Postgres/Settings.antt =====
-- What Validate of the postgres exporter accepts.
use gpuid.Base.{◌≡◌, ◌↔◌, refl, true, false, arith, none, Text, is_empty, pos, ◌≤ℤ◌, ◌<ℤ◌, [], ◌∷◌}
use gpuid.Exporters.Postgres.{Config, validate, table_name_regex}

pub record IsUsable (c : Config) : Type 0 where
  pub has_host : is_empty c.host ≡ false
  pub has_database : is_empty c.database ≡ false
  pub has_user : is_empty c.user ≡ false
  pub has_password : is_empty c.password ≡ false
  pub port_positive : pos 0 <ℤ c.port
  pub port_bounded : c.port ≤ℤ pos 65535
  pub table_safe : table_name_regex c.table ≡ true

table-not_empty : (s : Text) → table_name_regex s ≡ true → is_empty s ≡ false
unfolding table_name_regex
table-not_empty [] h = cc
table-not_empty (c ∷ s) h = refl

-- Validate accepts a configuration exactly if host, database, user and password are there, the port
-- is between 1 and 65535, and the table is a plain SQL name.
pub validate-IsUsable : (c : Config) → (validate c ≡ none) ↔ IsUsable c
unfolding validate
validate-IsUsable c = (
  λ h. record {
    has_host = ground arith;
    has_database = ground arith;
    has_user = ground arith;
    has_password = ground arith;
    port_positive = ground arith;
    port_bounded = ground arith;
    table_safe = ground arith;
  },
  λ h. ground (arith, table-not_empty c.table h.table_safe),
)
