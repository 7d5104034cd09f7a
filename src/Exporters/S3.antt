-- ===== src/Exporters/S3.antt =====
-- pkg/exporters/s3/exporter.go. encoding/csv and the S3 client are parameters.
pub mod Keys
pub mod Upload
use gpuid.Base.{
  ℕ, zero, suc, ◌-◌, Bool, true, false, List, [], ◌∷◌, ◌++◌, if◌then◌else◌, Option, none, some,
  Text, codes, is_empty, is_blank, has_prefix, decimal, pad, length, set, Result, ok, err,
}
use gpuid.Gpu.Reading.{SerialNumberReading, slice}
use gpuid.Exporters.Env.{get_env}

pub record Exporter : Type 0 where
  pub bucket : Text
  pub prefix : Text
  pub region : Text
  pub partition_pattern : Text

pub data SettingsError : Type 0 where
  bucket_required region_required : SettingsError

-- Validate
unfoldable pub validate : Exporter → Option SettingsError
validate e =
    if is_blank e.bucket
    then some bucket_required
    else if is_blank e.region
    then some region_required
    else none

-- The part of New before the client is made.
unfoldable pub settings : (Text → Text) → Result SettingsError Exporter
unfolding get_env
settings env =
    let e : Exporter = record {
      bucket = get_env env (codes "S3_BUCKET") [];
      prefix = get_env env (codes "S3_PREFIX") [];
      region = get_env env (codes "S3_REGION") (codes "us-east-1");
      partition_pattern = get_env env (codes "S3_PARTITION_PATTERN") [];
    } in
    elim (validate e) [ none ↦ ok e | some x ↦ err x ]

pub data NewError : Type 0 where
  invalid_settings : SettingsError → NewError
  config_failed : NewError

-- the part of New behind Validate, over config.LoadDefaultConfig, which is given the region, and
-- s3.NewFromConfig
unfoldable pub after_settings :
    {A C W : Type 0}
    → (Text → W → Option A × W)
    → (A → C)
    → Result SettingsError Exporter
    → W
    → Result NewError (Exporter × C) × W
after_settings load from_config (err e) w = (err (invalid_settings e), w)
after_settings load from_config (ok e) w =
    let (config, w') = load e.region w in
    (elim config [ none ↦ err config_failed | some c ↦ ok (e, from_config c) ], w')

-- New
unfoldable pub new :
    {A C W : Type 0}
    → (Text → Text)
    → (Text → W → Option A × W)
    → (A → C)
    → W
    → Result NewError (Exporter × C) × W
unfolding settings after_settings
new env load from_config w = after_settings load from_config (settings env) w

-- strings.ReplaceAll(s, old, new) behind the next `skip` characters; `old` is not empty
unfoldable pub replace_from : Text → Text → ℕ → Text → Text
replace_from old new skip [] = []
replace_from old new (suc skip) (c ∷ s) = replace_from old new skip s
replace_from old new zero (c ∷ s) =
    let kept = replace_from old new 0 s in
    let behind = replace_from old new (length old - 1) s in
    if has_prefix (c ∷ s) old then new ++ behind else c ∷ kept

unfoldable pub replace_all : Text → Text → Text → Text
unfolding replace_from
replace_all s old new = replace_from old new 0 s

-- A time in UTC: its calendar fields, and its formats by time.Format.
pub record Stamp : Type 0 where
  pub year : ℕ
  pub month : ℕ
  pub day : ℕ
  pub hour : ℕ
  -- "20060102-150405.000"
  pub file_format : Text
  -- time.RFC3339
  pub rfc3339 : Text

abbrev pub default_pattern : Text
default_pattern = codes "year=%Y/month=%m/day=%d/hour=%H"

-- The pattern with its placeholders replaced, one after the other.
unfoldable pub fill_pattern : Text → Stamp → Text
unfolding replace_all
fill_pattern pattern t =
    replace_all
      (replace_all
        (replace_all (replace_all pattern (codes "%Y") (pad 4 (decimal t.year))) (codes "%m")
          (pad 2 (decimal t.month)))
        (codes "%d") (pad 2 (decimal t.day)))
      (codes "%H") (pad 2 (decimal t.hour))

-- generateS3Key
unfoldable pub generate_s3_key : Exporter → Stamp → Text
unfolding fill_pattern
generate_s3_key e t =
    let pattern = if is_empty e.partition_pattern then default_pattern else e.partition_pattern in
    let filename = t.file_format ++ codes ".csv" in
    if is_empty e.prefix
    then fill_pattern pattern t ++ (codes "/" ++ filename)
    else e.prefix ++ (codes "/" ++ (fill_pattern pattern t ++ (codes "/" ++ filename)))

pub record Put : Type 0 where
  pub bucket : Text
  pub key : Text
  pub body : Text
  pub content_type : Text
  pub metadata : List (Text × Text)

-- What the code asks of encoding/csv, package time and the S3 client, over the state W of the world.
pub record Client (W : Type 0) : Type 0 where
  -- one line; `none` is an error
  pub csv_line : List Text → Option Text
  -- Time.Format of the time of a reading
  pub format_time : ℕ → Text
  pub now : W → Stamp × W
  -- PutObject; true is an error
  pub put_object : Put → W → Bool × W
  -- HeadBucket; true is an error
  pub head_bucket : Text → W → Bool × W

pub data WriteError : Type 0 where
  csv_failed put_failed : WriteError

module _ {W : Type 0} (client : Client W) (e : Exporter) where
  -- The lines of the records behind those in the buffer; nil records are skipped. A write to a
  -- bytes.Buffer does not fail, so Flush has no error of its own.
  unfoldable pub csv_lines : List (Option SerialNumberReading) → Text → Option Text
  unfolding slice
  csv_lines [] buffer = some buffer
  csv_lines (none ∷ records) buffer = csv_lines records buffer
  csv_lines (some r ∷ records) buffer = elim (client.csv_line (slice client.format_time r)) [
    | none ↦ none
    | some line ↦ csv_lines records (buffer ++ line)
  ]

  -- the input of PutObject
  unfoldable pub put_input : List (Option SerialNumberReading) → Stamp → Text → Put
  unfolding generate_s3_key
  put_input records t body = record {
    bucket = e.bucket;
    key = generate_s3_key e t;
    body = body;
    content_type = codes "text/csv";
    metadata =
        (codes "source", codes "gpuid")
        ∷ (codes "record_count", decimal (length records))
        ∷ (codes "timestamp", t.rfc3339)
        ∷ (codes "format", codes "csv")
        ∷ (codes "columns", codes "cluster,node,machine,source,chassis,gpu,time")
        ∷ [];
  }

  unfoldable pub upload :
      List (Option SerialNumberReading) → Stamp → Option Text → W → Option WriteError × W
  upload records t none w = (some csv_failed, w)
  upload records t (some body) w =
      let (failed, w') = client.put_object (put_input records t body) w in
      (if failed then some put_failed else none, w')

  -- Write
  unfoldable pub write : List (Option SerialNumberReading) → W → Option WriteError × W
  write [] w = (none, w)
  write (r ∷ records) w =
      let (t, w') = client.now w in upload (r ∷ records) t (csv_lines (r ∷ records) []) w'

  -- Health
  unfoldable pub health : W → Bool × W
  health w = client.head_bucket e.bucket w
