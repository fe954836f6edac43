-- ===== src/Utils/Config.antt =====
-- The readers of the environment of backend/internal/config/config.go, and `New` as far as it reads
-- them: `os.LookupEnv` is a map, and `strconv.Atoi`, the cases of `strings`, the escapes of net/url,
-- `net.JoinHostPort` and `strconv.Itoa` are parameters. The data directory and the log file are not
-- made. An integer is the text of it in digits.
use go_http_mqtt_boilerplate.Prelude.{
  Bool, false, Option, none, some, [], ◌∷◌, ◌++◌, Text, codes, Map, lookup, text_eq_inst, ◌==◌,
  ◌||◌, if◌then◌else◌,
}

pub data Level : Type 0 where
  debug info warn error : Level

pub record EnvLibrary : Type 1 where
  pub Int : Type 0
  pub of_digits : Text → Int
  pub atoi : Text → Option Int
  pub itoa : Int → Text
  pub to_lower : Text → Text
  pub to_upper : Text → Text
  pub query_escape : Text → Text
  pub path_escape : Text → Text
  pub join_host_port : Text → Text → Text

unfoldable pub get_string_env : Map Text → Text → Text → Text
get_string_env env key default_val = elim (lookup key env) [ none ↦ default_val | some val ↦ val ]

module _ (lib : EnvLibrary) (env : Map Text) where
  unfoldable pub get_bool_env : Text → Bool → Bool
  get_bool_env key default_val = elim (lookup key env) [
    | none ↦ default_val
    | some val ↦ lib.to_lower val == codes "true" || lib.to_lower val == codes "1"
  ]

  abbrev pub or_default : {A : Type 0} → A → Option A → A
  or_default default_val none = default_val
  or_default default_val (some a) = a

  unfoldable pub get_int_env : Text → lib.Int → lib.Int
  get_int_env key default_val = elim (lookup key env) [
    | none ↦ default_val
    | some val ↦ or_default default_val (lib.atoi val)
  ]

  unfoldable pub get_log_level_env : Text → Level → Level
  get_log_level_env key default_val = elim (lookup key env) [
    | none ↦ default_val
    | some val ↦
        if lib.to_upper val == codes "DEBUG"
        then debug
        else if lib.to_upper val == codes "INFO"
        then info
        else if lib.to_upper val == codes "WARN"
        then warn
        else if lib.to_upper val == codes "ERROR"
        then error
        else default_val
  ]

-- The fields that `New` reads from the environment; `log_to_file` chooses the log's output.
pub record Config (Int : Type 0) : Type 0 where
  pub port : Int
  pub generate : Bool
  pub data_dir : Text
  pub database : Text
  pub log_level : Level
  pub log_to_file : Bool
  pub mqtt_broker : Text
  pub mqtt_client_id : Text
  pub mqtt_username : Text
  pub mqtt_password : Text

module _ (lib : EnvLibrary) (env : Map Text) where
  -- the connection string of PostgreSQL
  unfoldable pub connection_string : Text
  unfolding get_string_env get_int_env
  connection_string =
      codes "postgresql://"
      ++ lib.query_escape (get_string_env env (codes "DB_USER") (codes "postgres"))
      ++ b':' ∷ lib.query_escape (get_string_env env (codes "DB_PASSWORD") (codes "postgres"))
      ++ b'@'
        ∷ lib.join_host_port (get_string_env env (codes "DB_HOST") (codes "localhost"))
            (lib.itoa (get_int_env lib env (codes "DB_PORT") (lib.of_digits (codes "5432"))))
      ++ b'/' ∷ lib.path_escape (get_string_env env (codes "DB_NAME") (codes "postgres"))
      ++ codes "?sslmode="
      ++ lib.query_escape (get_string_env env (codes "DB_SSLMODE") (codes "disable"))

  unfoldable pub new_config : Config lib.Int
  unfolding get_string_env get_bool_env get_int_env get_log_level_env connection_string
  new_config = record {
    port = get_int_env lib env (codes "PORT") (lib.of_digits (codes "8080"));
    generate = get_bool_env lib env (codes "GENERATE") false;
    data_dir = get_string_env env (codes "DATA_DIR") (codes "data");
    database = connection_string;
    log_level = get_log_level_env lib env (codes "LOG_LEVEL") info;
    log_to_file = get_bool_env lib env (codes "LOG_TO_FILE") false;
    mqtt_broker = get_string_env env (codes "MQTT_BROKER") (codes "tcp://127.0.0.1:1883");
    mqtt_client_id =
        get_string_env env (codes "MQTT_CLIENT_ID") (codes "http-mqtt-boilerplate-server");
    mqtt_username = get_string_env env (codes "MQTT_USERNAME") [];
    mqtt_password = get_string_env env (codes "MQTT_PASSWORD") [];
  }
