-- ===== src/Config/Tests.antt =====
-- A configuration with one trusted peer, and the theorem on it.
use grizol.Prelude.{◌≡◌, refl, true, false, none, some, [], ◌∷◌, ◌++◌, All, arith}
use grizol.Prelude.Int.{pos}
use grizol.Prelude.Outcome.{ok}
use grizol.Prelude.Bytes.{Bytes}
use grizol.DeviceId.{
  DeviceId, codepoint32, luhn32, luhnify, chunkify, trim_end, chunkify_expected, to_text,
}
use grizol.DeviceId.Luhn.{IsDigit}
use grizol.DeviceId.Text.{Encodes, padding}
use grizol.Requests.{contains}
use grizol.Config.{device_id_eq, Environment, ProtoConfig, GrizolConfig, from_proto}
use grizol.Config.Peers.{Named, from_proto-trusted_peers}

abbrev peer_digits : Bytes
peer_digits =
    80 ∷ 53 ∷ 54 ∷ 73 ∷ 79 ∷ 73 ∷ 55 ∷ 77 ∷ 90 ∷ 74 ∷ 78 ∷ 85 ∷ 50 ∷ 73 ∷ 81 ∷ 71 ∷ 68 ∷ 82 ∷ 69
    ∷ 89 ∷ 68 ∷ 77 ∷ 50 ∷ 77 ∷ 71 ∷ 84 ∷ 77 ∷ 71 ∷ 76 ∷ 51 ∷ 66 ∷ 88 ∷ 78 ∷ 80 ∷ 81 ∷ 54 ∷ 87 ∷ 53
    ∷ 66 ∷ 84 ∷ 66 ∷ 66 ∷ 90 ∷ 52 ∷ 84 ∷ 74 ∷ 88 ∷ 90 ∷ 87 ∷ 73 ∷ 67 ∷ 81 ∷ []

abbrev peer_text : Bytes
peer_text =
    80 ∷ 53 ∷ 54 ∷ 73 ∷ 79 ∷ 73 ∷ 55 ∷ 45 ∷ 77 ∷ 90 ∷ 74 ∷ 78 ∷ 85 ∷ 50 ∷ 89 ∷ 45 ∷ 73 ∷ 81 ∷ 71
    ∷ 68 ∷ 82 ∷ 69 ∷ 89 ∷ 45 ∷ 68 ∷ 77 ∷ 50 ∷ 77 ∷ 71 ∷ 84 ∷ 73 ∷ 45 ∷ 77 ∷ 71 ∷ 76 ∷ 51 ∷ 66 ∷ 88
    ∷ 78 ∷ 45 ∷ 80 ∷ 81 ∷ 54 ∷ 87 ∷ 53 ∷ 66 ∷ 77 ∷ 45 ∷ 84 ∷ 66 ∷ 66 ∷ 90 ∷ 52 ∷ 84 ∷ 74 ∷ 45 ∷ 88
    ∷ 90 ∷ 87 ∷ 73 ∷ 67 ∷ 81 ∷ 50 ∷ []

abbrev peer : DeviceId
peer = record {
  id =
      1 ∷ 2 ∷ 3 ∷ 4 ∷ 5 ∷ 6 ∷ 7 ∷ 8 ∷ 9 ∷ 10 ∷ 11 ∷ 12 ∷ 13 ∷ 14 ∷ 15 ∷ 16 ∷ 17 ∷ 18 ∷ 19 ∷ 20 ∷ 21
      ∷ 22 ∷ 23 ∷ 24 ∷ 25 ∷ 26 ∷ 27 ∷ 28 ∷ 29 ∷ 30 ∷ 31 ∷ 32 ∷ [];
}

abbrev environment : Environment
environment = record {
  parse_size = λ _. some 5000;
  read_certificate = λ _. ok peer;
  euid = 1000;
  egid = 1000;
  base32 = record { encode = λ _. peer_digits ++ padding; decode = λ _. some peer.id };
}

abbrev proto_config : ProtoConfig
proto_config = record {
  name = [];
  address = [];
  cert = 99 ∷ [];
  key = 107 ∷ [];
  trusted_peers = peer_text ∷ [];
  base_dir = [];
  db_url = [];
  storage_strategy = pos 1;
  rclone_config = [];
  remote_base_dir = [];
  mountpoint = [];
  read_cache_dir = [];
  read_cache_size = 53 ∷ 107 ∷ [];
  fuse_refresh_rate_ms = none;
  max_pending_requests = some 20;
  max_total_pending_requests_size = [];
  fuse_inmem = false;
}

peer_digits-IsDigit : All IsDigit peer_digits
peer_digits-IsDigit = ground arith

peer-Encodes : Encodes environment.base32 peer peer_digits
peer-Encodes = record {
  encoded = refl;
  decoded = refl;
  digit_count = refl;
  all_digits = peer_digits-IsDigit;
  byte_count = refl;
}

peer_shown : to_text environment.base32 peer ≡ ok peer_text
unfolding to_text trim_end luhnify luhn32 codepoint32 chunkify chunkify_expected
peer_shown = refl

abbrev named_peer : Named environment.base32
named_peer = record {
  id = peer;
  digits = peer_digits;
  text = peer_text;
  encodes = peer-Encodes;
  shown = peer_shown;
}

from_proto-trusted_peers_example :
    (g : GrizolConfig) × (from_proto environment proto_config ≡ ok g)
    × All (λ n. contains n.id g.trusted_peers ≡ true) (named_peer ∷ [])
from_proto-trusted_peers_example =
    from_proto-trusted_peers environment proto_config (named_peer ∷ []) 5000 1000000000 peer refl
      refl refl refl
