-- ===== src/Singbox/Lifecycle/Tests.antt =====
-- A concrete restart of internal/backend/singbox/backend.go, with a user in the storage.
use nde.Prelude.{false, inl, inr, none, some, [], ◌∷◌, ◌≡◌, refl, text_key, ◌==◌, if◌then◌else◌}
use nde.Models.{pos, str, slice, obj, nil, cons, Fields, end, field, User}
use nde.Backend.{Error, failed}
use nde.Storage.{Memory, new_memory, update_user_inbounds}
use nde.Auth.{Packages, auth_plain}
use nde.Singbox.Files.{Outside}
use nde.Singbox.Lifecycle.{Backend, returned, stop, start, restart}

abbrev packages : Packages Error
packages = record {
  hash128 = λ seed. (0, 0);
  hex_encode = λ bytes. "";
  parse = λ seed. inr seed;
  from_bytes = λ bytes. inr "";
}

abbrev operator_config : Fields
operator_config =
    field "inbounds"
      (slice (cons (obj (field "tag" (str "in") (field "type" (str "trojan") end))) nil)) end

abbrev outside : Outside
outside = record {
  World = Unit {0};
  parse = λ text. inr (some operator_config);
  config_path = "config.json";
  full_config_path = "config.json.full";
  read_file = λ w path. if path == "config.json" then inr "file" else inl (failed "no file");
  write_file = λ w path text. (none, w);
  marshal = λ value. inr "{}";
  find_free_port = λ w. (inr (pos 4000), w);
  public_key = λ w key. "";
  run_proxy = λ w path. (none, w);
  stop_proxy = λ w. (none, w);
  reload = λ w. (none, w);
}

abbrev user : User
user = record { id = 7; username = "u"; key = "k"; inbounds = [] }

abbrev store : Memory
store =
    update_user_inbounds new_memory user
      (record { tag = "in"; protocol = "trojan"; config = end } ∷ [])

-- A backend that was not started.
abbrev stopped : Backend outside
stopped = record {
  updates = record { runtime_cfg = none; config_dirty = false };
  inbounds = [];
  by_tag = [];
  stats = none;
  raw_config = "";
  store = store;
  world = tt;
}

-- It starts, so the second part of the statement speaks of it.
restarts : (restart outside packages auth_plain stopped "file").0 ≡ returned none
unfolding restart stop start update_user_inbounds new_memory
restarts = refl
