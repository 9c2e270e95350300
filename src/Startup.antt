-- ===== src/Startup.antt =====
-- main.go, and NewWebRTCTransportConfig of internal/sfu/sfu.go: which configuration the program starts
-- with. The file, viper and pion's setting engine are arguments; `none` is a panic.
pub mod Ports
mod Tests
use mini_sfu.Base.{
  ℕ, Bool, true, false, ◌||◌, not, Option, none, some, List, [], ◌∷◌, ◌==◌, ltb, sub16, length,
  if◌then◌else◌,
}

-- `sdpSemantics`, a string of the configuration
pub data SemanticsName : Type 0 where
  name_plan_b name_unified_plan_with_fallback other_name : SemanticsName

-- `Config`, less `Router`; the ports are of 16 bits.
pub record Config : Type 0 where
  pub ice_lite : Bool
  pub nat1_to1_ips : List ℕ
  pub ice_port_range : List ℕ
  pub sdp_semantics : SemanticsName

-- What `os.Stat`, `viper.ReadInConfig` and `Unmarshal` make of the file.
pub data File : Type 0 where
  no_file unreadable undecodable : File
  decoded : Config → File

-- The second condition of `load` on the ports; with one port the index is out of range.
unfoldable pub is_too_narrow : List ℕ → Option Bool
is_too_narrow [] = some false
is_too_narrow (a ∷ []) = none
is_too_narrow (a ∷ b ∷ rest) = some (ltb (sub16 b a) 100)

-- `load` after the file has been decoded
unfoldable pub load_ports : List ℕ → Option Bool
load_ports ports =
    if ltb 2 (length ports)
    then some false
    else elim (is_too_narrow ports) [ none ↦ none | some narrow ↦ some (not narrow) ]

-- `load`
unfoldable pub load : File → Option Bool
load no_file = some false
load unreadable = some false
load undecodable = some false
load (decoded conf) = load_ports conf.ice_port_range

-- `parse`; the argument is whether there is a `-h`.
pub parse : File → Bool → Option Bool
parse file help = elim (load file) [
  | none ↦ none
  | some false ↦ some false
  | some true ↦ some (not help)
]

pub data Semantics : Type 0 where
  unified_plan unified_plan_with_fallback plan_b : Semantics

-- What the setting engine and the configuration of a connection are given: the ports are those of
-- `SetEphemeralUDPPortRange`, if it is called.
pub record Settings : Type 0 where
  pub udp_ports : Option (ℕ × ℕ)
  pub lite : Bool
  pub nat1_to1_ips : List ℕ
  pub semantics : Semantics

-- `icePortStart` and `icePortEnd`
unfoldable pub ice_ports : List ℕ → ℕ × ℕ
ice_ports (a ∷ b ∷ []) = (a, b)
ice_ports _ = (0, 0)

-- the switch on `SDPSemantics`
pub semantics_of : SemanticsName → Semantics
semantics_of name_plan_b = plan_b
semantics_of name_unified_plan_with_fallback = unified_plan_with_fallback
semantics_of other_name = unified_plan

unfoldable pub settings : Config → Option (ℕ × ℕ) → Settings
settings c ports = record {
  udp_ports = ports;
  lite = c.ice_lite;
  nat1_to1_ips = c.nat1_to1_ips;
  semantics = semantics_of c.sdp_semantics;
}

-- `NewWebRTCTransportConfig`; the argument says whether `SetEphemeralUDPPortRange` takes the ports.
unfoldable pub new_web_rtc_transport_config : (ℕ → ℕ → Bool) → Config → Option Settings
new_web_rtc_transport_config takes c =
    let (start, end_) = ice_ports c.ice_port_range in
    if not (start == 0) || not (end_ == 0)
    then if takes start end_ then some (settings c (some (start, end_))) else none
    else some (settings c none)

-- What `main` comes to before it listens: it exits, or it has the settings of `NewSFU`.
pub data Started : Type 0 where
  exits : Started
  starts : Settings → Started

pub configured : (ℕ → ℕ → Bool) → File → Option Started
configured takes (decoded conf) = elim (new_web_rtc_transport_config takes conf) [
  | none ↦ none
  | some s ↦ some (starts s)
]
configured takes _ = some exits

-- `main`
pub start : (ℕ → ℕ → Bool) → File → Bool → Option Started
start takes file help = elim (parse file help) [
  | none ↦ none
  | some false ↦ some exits
  | some true ↦ configured takes file
]
