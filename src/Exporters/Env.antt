-- ===== src/Exporters/Env.antt =====
-- getEnv, of which each exporter has a copy.
use gpuid.Base.{Text, if◌then◌else◌, is_empty}

-- getEnv; os.Getenv is the empty text where there is no variable
unfoldable pub get_env : (Text → Text) → Text → Text → Text
get_env env key default = if is_empty (env key) then default else env key
