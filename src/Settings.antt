-- ===== src/Settings.antt =====
-- internal/config/config.go: the settings of the node, from the environment.
mod Tests
use nde.Prelude.{
  ℕ, ◌+◌, ◌-◌, ◌*◌, ◌/◌, ◌%◌, ◌^◌, ◌≤◌, String, Bool, true, false, ◌||◌, Option, none, some, ◌==◌,
  ◌≡◌, refl, arith, text_key, if◌then◌else◌, ltb, ap, ◌∙◌, Bool-cases, inl, inr,
}
use nde.Models.{ℤ, pos, negsuc}
use nde.Text.{to_lower}
use nde.Text.Decimal.{decimal}
use nde.Text.Integer.{itoa, atoi, atoi-itoa, IsInt64, decimal-some_text, some_text}

-- A time.Duration is its nanoseconds. `auth_generation_algorithm` is the text of an AuthAlgorithm.
pub record Config : Type 0 where
  pub service_address : String
  pub service_port : ℤ
  pub insecure : Bool
  pub log_format : String
  pub log_level : String
  pub xray_enabled : Bool
  pub xray_executable_path : String
  pub xray_assets_path : String
  pub xray_config_path : String
  pub xray_vless_reality_flow : String
  pub xray_restart_on_failure : Bool
  pub xray_restart_failure_interval : ℤ
  pub xray_health_check_enabled : Bool
  pub xray_health_check_interval : ℤ
  pub xray_health_check_timeout : ℤ
  pub xray_health_check_failures : ℤ
  pub xray_health_restart_cooldown : ℤ
  pub sing_box_enabled : Bool
  pub sing_box_executable_path : String
  pub sing_box_config_path : String
  pub sing_box_restart_on_failure : Bool
  pub sing_box_restart_failure_interval : ℤ
  pub sing_box_user_modification_interval : ℤ
  pub sing_box_health_check_enabled : Bool
  pub sing_box_health_check_interval : ℤ
  pub sing_box_health_check_timeout : ℤ
  pub sing_box_health_check_failures : ℤ
  pub hysteria_enabled : Bool
  pub hysteria_executable_path : String
  pub hysteria_config_path : String
  pub hysteria_restart_on_failure : Bool
  pub hysteria_restart_failure_interval : ℤ
  pub hysteria_health_check_enabled : Bool
  pub hysteria_health_check_interval : ℤ
  pub hysteria_health_check_timeout : ℤ
  pub hysteria_health_check_failures : ℤ
  pub ssl_cert_file : String
  pub ssl_key_file : String
  pub ssl_client_cert_file : String
  pub debug : Bool
  pub auth_generation_algorithm : String

-- The 64 bits of an int, and the int of 64 bits.
unfoldable pub to_word : ℤ → ℕ
to_word (pos n) = n % 2 ^ 64
to_word (negsuc n) = 2 ^ 64 - 1 - n % 2 ^ 64

unfoldable pub of_word : ℕ → ℤ
of_word w = if ltb w (2 ^ 63) then pos w else negsuc (2 ^ 64 - 1 - w)

-- `time.Duration(n) * time.Second`, which wraps around.
unfoldable pub seconds : ℤ → ℤ
unfolding to_word of_word
seconds n = of_word (to_word n * 1000000000 % 2 ^ 64)

-- os.Getenv, when godotenv has read its file: "" where a variable is not set.
module _ (environment : String → String) where
  unfoldable pub getenv : String → String → String
  getenv key fallback = if environment key == "" then fallback else environment key

  unfoldable pub getenv_bool : String → Bool → Bool
  unfolding to_lower
  getenv_bool key fallback =
      let v = to_lower (environment key) in
      if environment key == ""
      then fallback
      else if v == "1" || v == "true" || v == "yes" || v == "y" || v == "on"
      then true
      else if v == "0" || v == "false" || v == "no" || v == "n" || v == "off"
      then false
      else fallback

  unfoldable pub getenv_int : String → ℤ → ℤ
  unfolding atoi
  getenv_int key fallback =
      if environment key == ""
      then fallback
      else elim (atoi (environment key)) [ none ↦ fallback | some n ↦ n ]

  -- `Load`
  unfoldable pub load : Config
  unfolding getenv getenv_bool getenv_int seconds to_lower
  load = record {
    service_address = getenv "SERVICE_ADDRESS" "0.0.0.0";
    service_port = getenv_int "SERVICE_PORT" (pos 53042);
    insecure = getenv_bool "INSECURE" false;
    log_format = to_lower (getenv "LOG_FORMAT" "pretty");
    log_level = to_lower (getenv "LOG_LEVEL" "");
    xray_enabled = getenv_bool "XRAY_ENABLED" true;
    xray_executable_path = getenv "XRAY_EXECUTABLE_PATH" "/usr/bin/xray";
    xray_assets_path = getenv "XRAY_ASSETS_PATH" "/usr/share/xray";
    xray_config_path = getenv "XRAY_CONFIG_PATH" "/etc/xray/config.json";
    xray_vless_reality_flow = getenv "XRAY_VLESS_REALITY_FLOW" "xtls-rprx-vision";
    xray_restart_on_failure = getenv_bool "XRAY_RESTART_ON_FAILURE" true;
    xray_restart_failure_interval = seconds (getenv_int "XRAY_RESTART_ON_FAILURE_INTERVAL" (pos 3));
    xray_health_check_enabled = getenv_bool "XRAY_HEALTH_CHECK_ENABLED" true;
    xray_health_check_interval = seconds (getenv_int "XRAY_HEALTH_CHECK_INTERVAL" (pos 5));
    xray_health_check_timeout = seconds (getenv_int "XRAY_HEALTH_CHECK_TIMEOUT" (pos 5));
    xray_health_check_failures = getenv_int "XRAY_HEALTH_CHECK_FAILURE_THRESHOLD" (pos 5);
    xray_health_restart_cooldown = seconds (getenv_int "XRAY_HEALTH_RESTART_COOLDOWN_SEC" (pos 90));
    sing_box_enabled = getenv_bool "SING_BOX_ENABLED" false;
    sing_box_executable_path = getenv "SING_BOX_EXECUTABLE_PATH" "/usr/bin/sing-box";
    sing_box_config_path = getenv "SING_BOX_CONFIG_PATH" "/etc/sing-box/config.json";
    sing_box_restart_on_failure = getenv_bool "SING_BOX_RESTART_ON_FAILURE" true;
    sing_box_restart_failure_interval =
        seconds (getenv_int "SING_BOX_RESTART_ON_FAILURE_INTERVAL" (pos 3));
    sing_box_user_modification_interval =
        seconds (getenv_int "SING_BOX_USER_MODIFICATION_INTERVAL" (pos 30));
    sing_box_health_check_enabled = getenv_bool "SING_BOX_HEALTH_CHECK_ENABLED" true;
    sing_box_health_check_interval = seconds (getenv_int "SING_BOX_HEALTH_CHECK_INTERVAL" (pos 5));
    sing_box_health_check_timeout = seconds (getenv_int "SING_BOX_HEALTH_CHECK_TIMEOUT" (pos 2));
    sing_box_health_check_failures = getenv_int "SING_BOX_HEALTH_CHECK_FAILURE_THRESHOLD" (pos 3);
    hysteria_enabled = getenv_bool "HYSTERIA_ENABLED" false;
    hysteria_executable_path = getenv "HYSTERIA_EXECUTABLE_PATH" "/usr/bin/hysteria";
    hysteria_config_path = getenv "HYSTERIA_CONFIG_PATH" "/etc/hysteria/config.yaml";
    hysteria_restart_on_failure = getenv_bool "HYSTERIA_RESTART_ON_FAILURE" true;
    hysteria_restart_failure_interval =
        seconds (getenv_int "HYSTERIA_RESTART_ON_FAILURE_INTERVAL" (pos 3));
    hysteria_health_check_enabled = getenv_bool "HYSTERIA_HEALTH_CHECK_ENABLED" true;
    hysteria_health_check_interval = seconds (getenv_int "HYSTERIA_HEALTH_CHECK_INTERVAL" (pos 5));
    hysteria_health_check_timeout = seconds (getenv_int "HYSTERIA_HEALTH_CHECK_TIMEOUT" (pos 2));
    hysteria_health_check_failures = getenv_int "HYSTERIA_HEALTH_CHECK_FAILURE_THRESHOLD" (pos 3);
    ssl_cert_file = getenv "SSL_CERT_FILE" "./ssl_cert.pem";
    ssl_key_file = getenv "SSL_KEY_FILE" "./ssl_key.pem";
    ssl_client_cert_file = getenv "SSL_CLIENT_CERT_FILE" "";
    debug = getenv_bool "DEBUG" false;
    auth_generation_algorithm = getenv "AUTH_GENERATION_ALGORITHM" "xxh128";
  }

-- Seconds whose nanoseconds fit 64 bits: some 292 years both ways.
abbrev pub IsShort : ℤ → Type 0
IsShort (pos n) = n ≤ 9223372036
IsShort (negsuc n) = n + 1 ≤ 9223372036

abbrev pub nanoseconds : ℤ → ℤ
nanoseconds (pos n) = pos (n * 1000000000)
nanoseconds (negsuc n) = negsuc ((n + 1) * 1000000000 - 1)

seconds-nanoseconds : (z : ℤ) → IsShort z → seconds z ≡ nanoseconds z
unfolding seconds to_word of_word
seconds-nanoseconds (pos n) h = ground (arith, h)
seconds-nanoseconds (negsuc n) h =
    let small : n % 2 ^ 64 ≡ n = omega (arith, h) in
    let size = (n + 1) * 1000000000 in
    let word : (2 ^ 64 - 1 - n) * 1000000000 % 2 ^ 64 ≡ 2 ^ 64 - size = omega (arith, h) in
    rw (small, word) (ground (arith, h))

itoa-some_text : (z : ℤ) → (itoa z == "") ≡ false
unfolding itoa
itoa-some_text (pos n) = decimal-some_text n
itoa-some_text (negsuc n) = some_text "-" (decimal (n + 1))

IsShort-IsInt64 : (z : ℤ) → IsShort z → IsInt64 z
IsShort-IsInt64 (pos n) h = omega (arith, h)
IsShort-IsInt64 (negsuc n) h = omega (arith, h)

-- A setting in seconds that is written as a decimal number, of a size whose nanoseconds fit 64 bits,
-- is read as this number and becomes this number of seconds, whatever the default.
pub getenv_int-itoa :
    (environment : String → String) (key : String) (fallback z : ℤ)
    → environment key ≡ itoa z
    → IsShort z
    → (getenv_int environment key fallback ≡ z)
      × (seconds (getenv_int environment key fallback) ≡ nanoseconds z)
unfolding getenv_int
getenv_int-itoa environment key fallback z written short =
    let read : getenv_int environment key fallback ≡ z =
      rw (written, itoa-some_text z, atoi-itoa z (IsShort-IsInt64 z short)) refl in
    (read, ap seconds read ∙ seconds-nanoseconds z short)
