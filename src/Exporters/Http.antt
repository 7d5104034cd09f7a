-- ===== src/Exporters/Http.antt =====
-- pkg/exporters/http/exporter.go. The JSON encoding, the parsing of a URL and the client are
-- parameters.
pub mod Delivery
use gpuid.Base.{
  Result, ok, err, ℕ, Bool, true, false, not, ◌&&◌, ◌||◌, List, [], ◌∷◌, ◌++◌, ltb, leb,
  if◌then◌else◌, Option, none, some, Text, codes, is_empty, is_blank, has_prefix, decimal, length,
  set, ℤ, pos, leb_ℤ,
}
use gpuid.Gpu.Reading.{SerialNumberReading}
use gpuid.Exporters.Env.{get_env}

pub record Exporter : Type 0 where
  pub endpoint : Text
  pub timeout : ℤ
  pub auth_token : Text

pub data SettingsError : Type 0 where
  endpoint_required bad_scheme bad_timeout : SettingsError

-- Validate
unfoldable pub validate : Exporter → Option SettingsError
validate e =
    if is_blank e.endpoint
    then some endpoint_required
    else if not (has_prefix e.endpoint (codes "http://"))
        && not (has_prefix e.endpoint (codes "https://"))
    then some bad_scheme
    else if leb_ℤ e.timeout (pos 0)
    then some bad_timeout
    else none

-- parseDuration, over time.ParseDuration
unfoldable pub parse_duration : (Text → Option ℤ) → Text → ℤ → ℤ
parse_duration parse s default = elim (parse s) [ none ↦ default | some d ↦ d ]

-- DefaultTimeout: 30 seconds in nanoseconds
abbrev default_timeout : ℤ
default_timeout = pos 30_000_000_000

-- New
unfoldable pub new : (Text → Option ℤ) → (Text → Text) → Result SettingsError Exporter
unfolding get_env parse_duration
new parse env =
    let e : Exporter = record {
      endpoint = get_env env (codes "HTTP_ENDPOINT") [];
      timeout =
          parse_duration parse (get_env env (codes "HTTP_TIMEOUT") (codes "30s")) default_timeout;
      auth_token = get_env env (codes "HTTP_AUTH_TOKEN") [];
    } in
    elim (validate e) [ none ↦ ok e | some x ↦ err x ]

-- The headers that the code sets, by their canonical names.
abbrev Headers : Type 0
Headers = List (Text × Text)

pub data Method : Type 0 where
  post head : Method

pub record Request : Type 0 where
  pub method : Method
  pub url : Text
  pub body : Text
  pub headers : Headers

-- What the code asks of encoding/json, net/http and time, over the state W of the network.
pub record Client (W : Type 0) : Type 0 where
  -- json.Marshal; `none` is an error
  pub marshal : List (Option SerialNumberReading) → Option Text
  -- does http.NewRequestWithContext take the URL?
  pub takes_url : Text → Bool
  -- time.Now().UTC().Format(time.RFC3339)
  pub timestamp : W → Text × W
  -- Do; the status code, or `none` for an error
  pub send : Request → W → Option ℕ × W

pub data WriteError : Type 0 where
  marshal_failed request_failed send_failed : WriteError
  bad_status : ℕ → WriteError

-- The Authorization header, if there is a token.
unfoldable pub authorize : Exporter → Headers → Headers
authorize e headers =
    if is_empty e.auth_token
    then headers
    else set (codes "Authorization") (codes "Bearer " ++ e.auth_token) headers

unfoldable pub write_headers : Exporter → List (Option SerialNumberReading) → Text → Headers
unfolding authorize set
write_headers e records timestamp = authorize e (
    set (codes "X-Timestamp") timestamp (
      set (codes "X-Records-Count") (decimal (length records)) (
        set (codes "User-Agent") (codes "gpuid-http-exporter/1.0")
          (set (codes "Content-Type") (codes "application/json") []))))

-- The check of the status code, against the first one that is an error.
unfoldable pub check_status : ℕ → Option ℕ → Option WriteError
check_status limit none = some send_failed
check_status limit (some status) =
    if ltb status 200 || leb limit status then some (bad_status status) else none

unfoldable pub post_request : Exporter → List (Option SerialNumberReading) → Text → Text → Request
unfolding write_headers
post_request e records json timestamp = record {
  method = post;
  url = e.endpoint;
  body = json;
  headers = write_headers e records timestamp;
}

module _ {W : Type 0} (client : Client W) (e : Exporter) where
  unfoldable pub post_records : List (Option SerialNumberReading) → Text → W → Option WriteError × W
  post_records records json w =
      let (timestamp, w') = client.timestamp w in
      let (status, w'') = client.send (post_request e records json timestamp) w' in
      (check_status 300 status, w'')

  -- Write
  unfoldable pub write : List (Option SerialNumberReading) → W → Option WriteError × W
  write [] w = (none, w)
  write (r ∷ records) w = elim (client.marshal (r ∷ records)) [
    | none ↦ (some marshal_failed, w)
    | some json ↦
        if not (client.takes_url e.endpoint)
        then (some request_failed, w)
        else post_records (r ∷ records) json w
  ]

  -- Health
  unfoldable pub health : W → Option WriteError × W
  health w =
      if not (client.takes_url e.endpoint)
      then (some request_failed, w)
      else let (status, w') =
          client.send
            (record { method = head; url = e.endpoint; body = []; headers = authorize e [] }) w in
        (check_status 400 status, w')
