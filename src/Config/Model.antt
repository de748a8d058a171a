-- ===== src/Config/Model.antt =====
-- WireGuardConfig of internal/domain/config.go. Go strings are texts of code points.
use wireguide_plus.Common.{
  ℕ, List, [], Option, none, String, Bool, true, false, ◌||◌, not, is_empty,
}
use wireguide_plus.Common.Int.{ℤ, pos}
use wireguide_plus.Common.Text.{Text}

-- ExtraKeys: a Go map.
abbrev pub ExtraKeys : Type 0
ExtraKeys = List (Text × Text)

pub record InterfaceConfig : Type 0 where
  pub private_key : Text
  pub address : List Text
  pub dns : List Text
  pub mtu : ℤ
  pub listen_port : ℤ
  pub table : Text
  pub fw_mark : Text
  pub pre_up : Text
  pub post_up : Text
  pub pre_down : Text
  pub post_down : Text
  pub extra_keys : ExtraKeys
  pub jc : ℤ
  pub jmin : ℤ
  pub jmax : ℤ
  pub s1 : ℤ
  pub s2 : ℤ
  pub s3 : ℤ
  pub s4 : ℤ
  pub h1 : Text
  pub h2 : Text
  pub h3 : Text
  pub h4 : Text

pub record PeerConfig : Type 0 where
  pub public_key : Text
  pub preshared_key : Text
  pub endpoint : Text
  pub allowed_ips : List Text
  pub persistent_keepalive : Option ℤ
  pub extra_keys : ExtraKeys

pub data Protocol : Type 0 where
  unset wireguard amneziawg : Protocol
  other : String → Protocol

pub record WireGuardConfig : Type 0 where
  pub name : Text
  pub interface : InterfaceConfig
  pub peers : List PeerConfig
  pub protocol : Protocol
  pub enable_scripts : Bool
  pub bind_if_index : ℤ
  pub bind_if_name : Text

abbrev pub empty_interface : InterfaceConfig
empty_interface = record {
  private_key = [];
  address = [];
  dns = [];
  mtu = pos 0;
  listen_port = pos 0;
  table = [];
  fw_mark = [];
  pre_up = [];
  post_up = [];
  pre_down = [];
  post_down = [];
  extra_keys = [];
  jc = pos 0;
  jmin = pos 0;
  jmax = pos 0;
  s1 = pos 0;
  s2 = pos 0;
  s3 = pos 0;
  s4 = pos 0;
  h1 = [];
  h2 = [];
  h3 = [];
  h4 = [];
}

abbrev pub empty_peer : PeerConfig
empty_peer = record {
  public_key = [];
  preshared_key = [];
  endpoint = [];
  allowed_ips = [];
  persistent_keepalive = none;
  extra_keys = [];
}

abbrev pub empty_config : WireGuardConfig
empty_config = record {
  name = [];
  interface = empty_interface;
  peers = [];
  protocol = Protocol.unset;
  enable_scripts = false;
  bind_if_index = pos 0;
  bind_if_name = [];
}

abbrev pub is_zero : ℤ → Bool
is_zero (pos ℕ.zero) = true
is_zero _ = false

-- IsAmneziaWG
unfoldable pub is_amnezia_wg : InterfaceConfig → Bool
is_amnezia_wg c =
    not (is_zero c.jc)
    || not (is_zero c.jmin)
    || not (is_zero c.jmax)
    || not (is_zero c.s1)
    || not (is_zero c.s2)
    || not (is_zero c.s3)
    || not (is_zero c.s4)
    || not (is_empty c.h1)
    || not (is_empty c.h2)
    || not (is_empty c.h3)
    || not (is_empty c.h4)
