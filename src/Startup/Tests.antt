-- ===== src/Startup/Tests.antt =====
-- A concrete start of cmd/marznode/main.go, with all three backends.
use nde.Prelude.{
  String, true, false, ◌||◌, inl, inr, none, some, ◌≡◌, refl, text_key, ◌==◌, if◌then◌else◌,
}
use nde.Models.{pos, str, slice, obj, nil, cons, Fields, end, field}
use nde.Backend.{Error, failed}
use nde.Storage.{new_memory}
use nde.Storage.Lookups.{registered}
use nde.Auth.{Packages}
use nde.Settings.{Config, load}
use nde.Xray
use nde.Hysteria2
use nde.Singbox
use nde.Startup.{Node, new_xray, new_hysteria2, new_singbox, algorithm_of, start_node}
use nde.Startup.Registered.{offers, start_node-registered}

abbrev packages : Packages Error
packages = record {
  hash128 = λ seed. (0, 0);
  hex_encode = λ bytes. "";
  parse = λ seed. inr seed;
  from_bytes = λ bytes. inr "";
}

abbrev one_inbound : String → Fields
one_inbound tag =
    field "inbounds"
      (slice (
        cons
          (obj (
            field "tag" (str tag)
              (field "protocol" (str "trojan") (field "type" (str "trojan") end))))
          nil))
      end

abbrev xray_outside : Xray.Lifecycle.Outside
xray_outside = record {
  World = Unit {0};
  parse = λ text. inr (some (one_inbound "x"));
  read_file = λ w path. inl (failed "no file");
  read_config = λ w. inr "file";
  write_config = λ w text. (none, w);
  marshal = λ value. inr "{}";
  find_free_port = λ w. (inr (pos 4000), w);
  public_key = λ w key. none;
  run_proxy = λ w json. (none, w);
  stop_proxy = λ w. (none, w);
  probe = λ w. (none, w);
  wait = λ w delay. (none, w);
  await_worker = λ w. (true, w);
  now = λ w. 5;
}

abbrev hysteria2_outside : Hysteria2.Lifecycle.Outside
hysteria2_outside = record {
  World = Unit {0};
  parse = λ text. inr (some end);
  render = λ cfg. inr "";
  read_file = λ w path. inl (failed "no file");
  read_config = λ w. inr "file";
  write_config = λ w text. (none, w);
  find_free_port = λ w. (inr (pos 4001), w);
  random_hex = λ w. (inr "00", w);
  listen = λ w port. w;
  shut_down = λ w port. w;
  run_proxy = λ w text. (none, w);
  stop_proxy = λ w. (none, w);
}

abbrev singbox_outside : Singbox.Files.Outside
singbox_outside = record {
  World = Unit {0};
  parse = λ text. inr (some (one_inbound "s"));
  read_file = λ w path. if path == "config.json" then inr "file" else inl (failed "no file");
  config_path = "config.json";
  full_config_path = "config.json.full";
  write_file = λ w path text. (none, w);
  marshal = λ value. inr "{}";
  find_free_port = λ w. (inr (pos 4002), w);
  public_key = λ w key. "";
  run_proxy = λ w path. (none, w);
  reload = λ w. (none, w);
  stop_proxy = λ w. (none, w);
}

abbrev settings : Config
settings =
    load (λ name. if name == "HYSTERIA_ENABLED" || name == "SING_BOX_ENABLED" then "yes" else "")

abbrev xray : Xray.Lifecycle.Backend xray_outside
xray = (Xray.Lifecycle.start xray_outside (new_xray xray_outside settings new_memory tt) "").1

abbrev hysteria2 : Hysteria2.Lifecycle.Backend hysteria2_outside
hysteria2 =
    (Hysteria2.Lifecycle.start hysteria2_outside (new_hysteria2 hysteria2_outside xray.store tt)
      "").1

abbrev sing_box : Singbox.Lifecycle.Backend singbox_outside
sing_box =
    (Singbox.Lifecycle.start singbox_outside packages (algorithm_of settings)
      (new_singbox singbox_outside hysteria2.store tt) "").1

abbrev node : Node xray_outside hysteria2_outside singbox_outside
node = record {
  xray = some xray;
  hysteria2 = some hysteria2;
  sing_box = some sing_box;
  store = sing_box.store;
}

starts :
    start_node xray_outside hysteria2_outside singbox_outside packages settings tt tt tt ≡ some node
unfolding start_node load
starts = refl

start_node-registered_example :
    registered node.store "s"
    ≡ offers xray_outside hysteria2_outside singbox_outside packages node "s"
start_node-registered_example =
    start_node-registered xray_outside hysteria2_outside singbox_outside packages settings tt tt tt
      node "s" starts

registers_all :
    (registered node.store "x" ≡ true)
    × (registered node.store "hysteria2" ≡ true)
    × (registered node.store "s" ≡ true)
    × (registered node.store "t" ≡ false)
unfolding start_node load registered
registers_all = (refl, refl, refl, refl)
