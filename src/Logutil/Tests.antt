-- ===== src/Logutil/Tests.antt =====
-- Concrete lines of internal/logutil.
use nde.Prelude.{String, false, [], ◌≡◌, refl, text_key}
use nde.Models.{pos}
use nde.Logutil.{is_sensitive_key}
use nde.Logutil.Pretty.{
  string, int64, leaf, group, Attrs, nil, cons, PrettyHandler, LogRecord, handle, group_prefix,
}
use nde.Logutil.Hidden.{mask, handle_hides}

abbrev handler : PrettyHandler
handler = record { attrs = cons (leaf "component" (string "backend.xray")) nil; groups = [] }

abbrev request : String → Attrs
request secret =
    cons (leaf "port" (int64 (pos 4000)))
      (cons (group "auth" (cons (leaf "Password" (string secret)) nil)) nil)

abbrev event : String → LogRecord
event secret = record {
  timestamp = "now";
  level = "INFO";
  message = "connected";
  attrs = request secret;
}

handle_hides_example : handle handler (event "hunter2") ≡ handle handler (event "swordfish")
unfolding mask is_sensitive_key group_prefix
handle_hides_example =
    handle_hides handler (event "swordfish") handler.attrs (request "hunter2") refl refl

line_of_event :
    handle handler (event "hunter2")
    ≡ "now - INFO - marznode.backends.xray: connected | port: 4000 | auth.Password: [REDACTED]\n"
unfolding handle
line_of_event = refl

-- A word that is secret as a whole key is not so behind a group.
qualified_word : is_sensitive_key "auth.passwd" ≡ false
unfolding is_sensitive_key
qualified_word = refl
