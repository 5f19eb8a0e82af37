-- ===== src/Logutil.antt =====
-- internal/logutil/redact.go and logutil.go: which keys of a log record are secret, and the level.
pub mod Pretty
pub mod Hidden
mod Tests
use nde.Prelude.{String, Bool, true, false, ◌||◌, Option, none, some, ◌==◌, text_key, if◌then◌else◌}
use nde.Models.{ℤ, pos, negsuc}
use nde.Text.{to_lower, trim_space, contains_text}

-- `redactedValue`
abbrev pub redacted_value : String
redacted_value = "[REDACTED]"

-- `isSensitiveKey`
unfoldable pub is_sensitive_key : String → Bool
unfolding to_lower trim_space contains_text
is_sensitive_key key =
    let k = to_lower (trim_space key) in
    let word =
      k == "password"
      || k == "passwd"
      || k == "token"
      || k == "secret"
      || k == "authorization"
      || k == "api_key"
      || k == "apikey"
      || k == "private_key" in
    let part =
      contains_text k "password"
      || contains_text k "token"
      || contains_text k "secret"
      || contains_text k "private_key"
      || contains_text k "authorization" in
    if k == "" then false else word || part

-- `sanitizeValueByKey`
unfoldable pub sanitize_value_by_key : String → String → String
unfolding is_sensitive_key
sanitize_value_by_key key value = if is_sensitive_key key then redacted_value else value

-- `parseLevel`; slog has -4 for debug, 0 for info, 4 for warnings and 8 for errors.
unfoldable pub parse_level : Bool → String → ℤ
unfolding to_lower trim_space
parse_level debug level_name =
    let name = to_lower (trim_space level_name) in
    if name == "debug"
    then negsuc 3
    else if name == "info"
    then pos 0
    else if name == "warn" || name == "warning"
    then pos 4
    else if name == "error"
    then pos 8
    else if debug
    then negsuc 3
    else pos 0

pub data Format : Type 0 where
  json : Format
  text : Format
  pretty : Format

-- `buildHandler`
unfoldable pub build_handler : String → Format
unfolding to_lower trim_space
build_handler format =
    let name = to_lower (trim_space format) in
    if name == "json" then json else if name == "text" then text else pretty

-- `Configure`: the handler, its least level, and whether `redactAttr` is given to it. The format is
-- compared as it was given.
unfoldable pub configure : Bool → String → String → Format × ℤ × Bool
unfolding build_handler parse_level
configure debug format level_name = (
  build_handler format,
  parse_level debug level_name,
  (if format == "pretty" then false else true),
)
