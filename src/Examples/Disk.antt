-- ===== src/Examples/Disk.antt =====
-- A host with a disk: what is written to a file is read from it.
use netrunner.Prelude.{
  ℕ, ◌<>◌, String, true, false, List, [], ◌∷◌, none, some, if◌then◌else◌, is_some,
}
use netrunner.Prelude.Action.{Result, ok, external, result_of}
use netrunner.Prelude.Dict.{Dict, lookup, insert}
use netrunner.Host.{Host, Stat}
use netrunner.Local.Ports.{u16}
use netrunner.Examples.Demo.{demo_keys, unmarshal_demo}

abbrev read_from : String → Dict String → Result String × Dict String
unfolding lookup
read_from path files = (result_of (lookup path files) (external "read"), files)

-- A directory is there if it has a file network.json.
abbrev stat_dir : String → Dict String → Stat × Dict String
unfolding lookup
stat_dir path files =
    (if is_some (lookup (path <> "/network.json") files) then Stat.present else Stat.absent, files)

unfoldable pub disk : Host
unfolding insert read_from stat_dir
disk = record {
  World = Dict String;
  keys = demo_keys;
  Process = ℕ;
  new_process = λ binary args w. (ok 0, w);
  stop_process = λ p w. (p, w);
  node_version_output = λ binary w. (ok "lux/1.10.0", w);
  version_match = λ output. some "1.10.0";
  older = λ a b. false;
  new_cert_and_key = λ w. (ok ("cert", "key"), w);
  new_signing_key = λ w. (ok "signer", w);
  base64_decode = λ text. some text;
  node_id_of = λ key cert. some "NodeID-1";
  Beacons = List String;
  no_beacons = [];
  add_beacon = λ id port beacons. some (id ∷ beacons);
  remove_beacon = λ id beacons. [];
  ips_arg = λ beacons. "";
  ids_arg = λ beacons. "";
  padded_id = λ text. text;
  local_id = 1337;
  network_name = λ id. "local";
  unmarshal = unmarshal_demo;
  marshal = λ m. "config";
  marshal_value = λ v. "";
  float_to_u16 = λ bits. u16 bits;
  float_to_u32 = λ bits. bits;
  float_to_int = λ bits. bits;
  show_value = λ v. "value";
  Peer = String;
  attach_peer = λ ip port id w. (ok "peer", w);
  peer_id = λ p. p;
  send = λ p bytes op w. (true, w);
  stat = stat_dir;
  mkdir_all = λ path w. (ok tt, w);
  timestamp = λ w. ("now", w);
  mkdir = λ path w. (ok true, w);
  create_and_write = λ path contents w. (ok tt, insert path contents w);
  read_file = read_from;
  read_optional = λ path w. (ok none, w);
  remove_all = λ path w. (ok tt, w);
  copy_dir = λ source target w. (ok tt, w);
  glob = λ pattern w. (ok [], w);
  join = λ dir file. dir <> "/" <> file;
  dir = λ path. "plugins";
  base = λ path. path;
  temp_dir = "tmp";
  home_dir = "home";
  parse_time = λ text. none;
  now = λ w. (0, w);
  pid = 1;
  is_free_port = λ port w. (true, w);
  port_tries = 3;
  rand_intn = λ n w. (0, w);
}
