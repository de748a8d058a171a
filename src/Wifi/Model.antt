-- ===== src/Wifi/Model.antt =====
-- internal/wifi/automation.go: the rule model and the network context. A string type with named
-- constants is a data type with a constructor for each constant and one for any other string.
-- What the Go standard library answers about addresses and case, and the machine's clock, is the
-- record `Platform`; addresses stand in their To4 form.
use wireguide_plus.Common.{ℕ, List, Option, String, Bool, ◌==◌, ◌&&◌, ◌/◌, ◌^◌, ◌-◌}
use wireguide_plus.Common.Int.{ℤ}
use wireguide_plus.Common.Text.{Text}

pub data Action : Type 0 where
  connect disconnect : Action
  other : String → Action

pub data CondType : Type 0 where
  ssid wifi subnet network gateway_ip interface ethernet time none_match : CondType
  unknown : String → CondType

pub record Condition : Type 0 where
  pub kind : CondType
  pub ssid : String
  pub subnet : String
  pub gateway_mac : String
  pub gateway_ip : String
  pub interface_name : String
  pub start : String
  pub end : String
  pub days : List ℤ
  pub label : String

pub record Rule : Type 0 where
  pub when : List Condition
  pub match : String
  pub action : Action

-- The two maps, as association lists.
pub record Automation : Type 0 where
  pub defaults : List (String × Action)
  pub per_tunnel : List (String × List Rule)

pub record InterfaceInfo : Type 0 where
  pub name : String
  pub is_wifi : Bool
  pub active : Bool

-- net.IP in its shortest form: `width` is 32 or 128.
pub record Ip : Type 0 where
  pub width : ℕ
  pub addr : ℕ

-- net.IPNet
pub record IpNet : Type 0 where
  pub width : ℕ
  pub addr : ℕ
  pub bits : ℕ

-- (*net.IPNet).Contains: the two agree in the first `bits` bits.
unfoldable pub contains_ip : IpNet → Ip → Bool
contains_ip n ip =
    (n.width == ip.width)
    && ((n.addr / 2 ^ (n.width - n.bits)) == (ip.addr / 2 ^ (n.width - n.bits)))

-- The weekday (0 is Sunday), the hour and the minute of a time.Time.
pub record Moment : Type 0 where
  pub weekday : ℕ
  pub hour : ℕ
  pub minute : ℕ

-- `now` is `none` for the zero time.Time.
pub record NetworkContext : Type 0 where
  pub ssid : String
  pub physical_ips : List Ip
  pub gateway_mac : String
  pub gateway_ip : String
  pub interfaces : List InterfaceInfo
  pub now : Option Moment

-- net.ParseCIDR, net.ParseIP, strings.EqualFold and time.Now.
pub record Platform : Type 0 where
  pub parse_cidr : Text → Option IpNet
  pub parse_ip : Text → Option Ip
  pub equal_fold : Text → Text → Bool
  pub wall_clock : Moment

pub data DesiredState : Type 0 where
  unmanaged connect disconnect : DesiredState
