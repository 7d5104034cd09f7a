-- ===== src/Runner/Export/Select.antt =====
-- GetExporter, Close and Health of pkg/runner/export.go. The constructors of the backends are
-- parameters; a duration is an int64 of nanoseconds.
pub mod Kinds
use gpuid.Base.{
  ℕ, ◌*◌, ◌≡◌, refl, ap, Bool, true, false, List, [], ◌∷◌, arith, if◌then◌else◌, Option, none, some,
  Result, ok, err, Text, codes, text_eq, text_eq_iff, is_blank, ℤ, pos, leb_ℤ, ◌<ℤ◌, Bool-cases,
  inl, inr, ◌⊎◌, trim_space, trim_start, trim_end, is_space,
}

pub record ExporterConfig : Type 0 where
  pub kind : Text
  pub batch_size : ℤ
  pub retry_count : ℤ
  pub timeout : ℤ

-- ExporterTypeStdout and its like
pub data Kind : Type 0 where
  stdout s3 postgres http : Kind

unfoldable pub name_of : Kind → Text
name_of stdout = codes "stdout"
name_of s3 = codes "s3"
name_of postgres = codes "postgres"
name_of http = codes "http"

-- The defaults of the optional fields.
unfoldable pub with_defaults : ExporterConfig → ExporterConfig
with_defaults c = record {
  kind = if is_blank c.kind then codes "stdout" else c.kind;
  batch_size = if leb_ℤ c.batch_size (pos 0) then pos 10 else c.batch_size;
  retry_count = if leb_ℤ c.retry_count (pos 0) then pos 2 else c.retry_count;
  timeout = if leb_ℤ c.timeout (pos 0) then pos (30 * 1_000_000_000) else c.timeout;
}

pub data SelectError : Type 0 where
  s3_failed postgres_failed http_failed : SelectError
  unknown_type : Text → SelectError

-- The constructors, over the state W of the world; `none` is an error.
pub record Makers (B W : Type 0) : Type 0 where
  pub new_stdout : B
  pub new_s3 : W → Option B × W
  pub new_postgres : W → Option B × W
  pub new_http : W → Option B × W

-- Exporter
pub record Selected (B : Type 0) : Type 0 where
  pub config : ExporterConfig
  pub backend : B

module _ {B W : Type 0} (makers : Makers B W) where
  unfoldable pub select_made :
      ExporterConfig → SelectError → Option B × W → Result SelectError (Selected B) × W
  select_made c e (none, w) = (err e, w)
  select_made c e (some b, w) = (ok (record { config = c; backend = b }), w)

  -- the switch
  unfoldable pub select_backend : ExporterConfig → W → Result SelectError (Selected B) × W
  unfolding select_made name_of
  select_backend c w =
      if text_eq c.kind (name_of stdout)
      then (ok (record { config = c; backend = makers.new_stdout }), w)
      else if text_eq c.kind (name_of s3)
      then select_made c s3_failed (makers.new_s3 w)
      else if text_eq c.kind (name_of postgres)
      then select_made c postgres_failed (makers.new_postgres w)
      else if text_eq c.kind (name_of http)
      then select_made c http_failed (makers.new_http w)
      else (err (unknown_type c.kind), w)

  -- GetExporter
  unfoldable pub get_exporter : ExporterConfig → W → Result SelectError (Selected B) × W
  unfolding with_defaults select_backend
  get_exporter c w = select_backend (with_defaults c) w

-- Close and Health of an exporter that may be nil, given those of the backend; true is an error.
unfoldable pub close : {B W : Type 0} → (B → W → Bool × W) → Option (Selected B) → W → Bool × W
close close_backend none w = (false, w)
close close_backend (some e) w = close_backend e.backend w

unfoldable pub health : {B W : Type 0} → (B → W → Bool × W) → Option (Selected B) → W → Bool × W
health check_backend none w = (true, w)
health check_backend (some e) w = check_backend e.backend w
