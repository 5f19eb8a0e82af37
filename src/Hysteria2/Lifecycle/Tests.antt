-- ===== src/Hysteria2/Lifecycle/Tests.antt =====
-- A concrete restart of internal/backend/hysteria2/backend.go.
use nde.Prelude.{inl, inr, none, some, [], ◌≡◌, refl, text_key}
use nde.Models.{pos, str, Fields, end, field}
use nde.Backend.{failed}
use nde.Storage.{new_memory}
use nde.Hysteria2.Config.{port_of}
use nde.Hysteria2.Lifecycle.{Outside, Backend, returned, start, stop, restart}
use nde.Hysteria2.Lifecycle.Running.{Started, restart-Started}

abbrev operator_config : Fields
operator_config = field "listen" (str ":8443") end

abbrev outside : Outside
outside = record {
  World = Unit {0};
  parse = λ text. inr (some operator_config);
  render = λ cfg. inr "listen: :8443";
  read_file = λ w path. inl (failed "no file");
  read_config = λ w. inr "file";
  write_config = λ w text. (none, w);
  find_free_port = λ w. (inr (pos 4000), w);
  random_hex = λ w. (inr "00", w);
  listen = λ w port. w;
  shut_down = λ w port. w;
  run_proxy = λ w text. (none, w);
  stop_proxy = λ w. (none, w);
}

abbrev stopped : Backend outside
stopped = record {
  users_by_pass = [];
  inbounds = [];
  server = none;
  stats_port = pos 0;
  stats_secret = "";
  raw_config = "";
  store = new_memory;
  world = tt;
}

-- It starts, so the statement says what runs.
restarts : (restart outside stopped "").0 ≡ returned none
unfolding restart stop start
restarts = refl

restart-Started_example : Started outside stopped (restart outside stopped "")
restart-Started_example = restart-Started outside stopped ""

-- The port is what stands behind the last colon, if that is a number.
ports : (port_of "[::]:8443" ≡ pos 8443) × (port_of ":" ≡ pos 443)
unfolding port_of
ports = (refl, refl)
