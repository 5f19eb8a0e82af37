-- ===== src/Singbox/Updates/Tests.antt =====
-- A concrete change of internal/backend/singbox/backend.go, with a tick whose reload fails.
use nde.Prelude.{ℕ, zero, suc, false, inl, inr, Option, none, some, List, [], ◌∷◌, ◌≡◌, refl}
use nde.Models.{pos, Fields, end}
use nde.Backend.{Error, failed}
use nde.Auth.{Packages, auth_plain}
use nde.Singbox.Config
use nde.Singbox.Files.{Outside, save_config}
use nde.Singbox.Updates.{Updates, Event, removes, ticks, happens, run, remove_user, update_tick}
use nde.Singbox.Updates.Loaded.{IsLoaded, InSync, run-loaded}

abbrev packages : Packages Error
packages = record {
  hash128 = λ seed. (0, 0);
  hex_encode = λ bytes. "";
  parse = λ seed. inr seed;
  from_bytes = λ bytes. inr "";
}

abbrev reload_next : ℕ → Option Error × ℕ
reload_next zero = (none, 0)
reload_next (suc n) = (some (failed "no such process"), n)

-- The world is the number of reloads that fail.
abbrev outside : Outside
outside = record {
  World = ℕ;
  config_path = "config.json";
  full_config_path = "config.json.full";
  parse = λ text. inr (some end);
  read_file = λ w path. inl (failed "no file");
  write_file = λ w path text. (none, w);
  marshal = λ value. inr "{}";
  find_free_port = λ w. (inr (pos 4000), w);
  public_key = λ w key. "";
  run_proxy = λ w path. (none, w);
  stop_proxy = λ w. (none, w);
  reload = reload_next;
}

abbrev started : ℕ × Updates
started = (1, record { runtime_cfg = some end; config_dirty = false })

started-InSync : InSync outside started
unfolding save_config
started-InSync = λ cfg on clean. record {
  json = "{}";
  before = 1;
  written = 1;
  marshalled = refl;
  saved = refl;
  taken = inl refl;
}

abbrev events : List (Event outside packages auth_plain)
events =
    removes (record { id = 7; username = "u"; key = "k"; inbounds = [] })
      (record { tag = "in"; protocol = "trojan"; config = end })
    ∷ ticks
    ∷ []

-- After the tick whose reload failed.
abbrev waiting : ℕ × Updates
waiting = run outside packages auth_plain events started

abbrev changed : Fields
changed =
    Config.remove_user end (record { id = 7; username = "u"; key = "k"; inbounds = [] })
      (record { tag = "in"; protocol = "trojan"; config = end })

run-loaded_example :
    InSync outside waiting
    × ((update_tick outside waiting.0 waiting.1).1.config_dirty ≡ false)
    × IsLoaded outside (update_tick outside waiting.0 waiting.1).0 changed
unfolding run happens remove_user update_tick save_config
run-loaded_example =
    run-loaded outside packages auth_plain events started changed "{}" 0 0 started-InSync refl refl
      refl refl
