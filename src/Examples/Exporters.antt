-- ===== src/Examples/Exporters.antt =====
-- The exporters and their selection.
use gpuid.Base.{
  ℕ, suc, ◌≡◌, refl, true, false, [], ◌∷◌, none, some, ok, codes, text_eq, is_blank, pos,
  trim_space, trim_start, trim_end, is_space,
}
use gpuid.Exporters.Http
use gpuid.Exporters.Http.{Client, check_status}
use gpuid.Exporters.Http.Delivery.{IsDelivered, write-IsDelivered}
use gpuid.Exporters.S3
use gpuid.Exporters.S3.{Stamp, generate_s3_key}
use gpuid.Exporters.S3.Upload.{IsUploaded, write-IsUploaded}
use gpuid.Examples.Gpu.{no_gpu}
use gpuid.Runner.Export.Select.{
  ExporterConfig, Makers, Selected, name_of, with_defaults, select_backend, select_made,
  get_exporter,
}

-- A server that answers every request with 204.
abbrev client : Client ℕ
client = record {
  marshal = λ records. some (codes "[null]");
  takes_url = λ url. true;
  timestamp = λ w. (codes "2025-01-01T00:00:00Z", suc w);
  send = λ request w. (some 204, suc w);
}

abbrev exporter : Http.Exporter
exporter = record { endpoint = codes "https://collector"; timeout = pos 5; auth_token = codes "t" }

delivered : (Http.write client exporter (none ∷ []) 0).0 ≡ none
unfolding Http.write Http.post_records check_status
delivered = refl

write-IsDelivered_example : IsDelivered client exporter (none ∷ []) 0
write-IsDelivered_example = write-IsDelivered client exporter none [] 0 delivered

abbrev store : S3.Exporter
store = record {
  bucket = codes "b";
  prefix = codes "gpus";
  region = codes "us-east-1";
  partition_pattern = [];
}

abbrev noon : Stamp
noon = record {
  year = 2025;
  month = 3;
  day = 9;
  hour = 12;
  file_format = codes "20250309-120000.000";
  rfc3339 = codes "2025-03-09T12:00:00Z";
}

-- Backends as numbers; postgres cannot be reached.
abbrev makers : Makers ℕ ℕ
makers = record {
  new_stdout = 1;
  new_s3 = λ w. (some 2, suc w);
  new_postgres = λ w. (none, suc w);
  new_http = λ w. (some 4, suc w);
}

abbrev wanted : ExporterConfig
wanted = record { kind = codes "s3"; batch_size = pos 0; retry_count = pos 7; timeout = pos 0 }

abbrev got : Selected ℕ
got = record {
  config = record wanted { batch_size = pos 10; timeout = pos 30_000_000_000 };
  backend = 2;
}

got_selected : (get_exporter makers wanted 0).0 ≡ ok got
unfolding get_exporter with_defaults select_backend select_made name_of text_eq is_blank trim_space
    trim_start trim_end is_space
got_selected = refl

-- An S3 client that takes everything, and writes every line alike.
abbrev bucket : S3.Client ℕ
bucket = record {
  csv_line = λ fields. some (codes "line;");
  format_time = λ t. codes "now";
  now = λ w. (noon, suc w);
  put_object = λ put w. (false, suc w);
  head_bucket = λ name w. (false, suc w);
}

uploaded : (S3.write bucket store (some no_gpu ∷ none ∷ []) 0).0 ≡ none
unfolding S3.write S3.upload S3.csv_lines
uploaded = refl

write-IsUploaded_example : IsUploaded bucket store (some no_gpu ∷ none ∷ []) 0
write-IsUploaded_example = write-IsUploaded bucket store (some no_gpu) (none ∷ []) 0 uploaded
