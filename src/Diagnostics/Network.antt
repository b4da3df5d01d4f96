-- ===== src/Diagnostics/Network.antt =====
-- main/diagnostics.c, lines 409-518: the state of the network that the diagnostics keep. What the SDK
-- answers for the link and for the addresses is an argument, `none` if it fails; the recorded event is
-- a result. An address is a number of 32 bits.
use esp32_p4_bacnet_switches.Base.{
  ℕ, suc, ◌+◌, ◌-◌, ◌<◌, ◌≡◌, refl, Bool, true, false, not, ◌&&◌, List, [], ◌∷◌, Option, none, some,
  ltb, ◌==◌, if◌then◌else◌, replicate, as_u32, arith,
}

-- `diagnostics_network_snapshot_t`, and `last_acquired_ipv4_address`.
pub record NetworkState : Type 0 where
  pub link_up : Bool
  pub speed_mbps : ℕ
  pub full_duplex : Bool
  pub autonegotiation : Bool
  pub mac : List ℕ
  pub link_up_count : ℕ
  pub link_down_count : ℕ
  pub reconnect_count : ℕ
  pub ip_acquisition_count : ℕ
  pub ip_changed_count : ℕ
  pub ip_acquired_uptime_ms : ℕ
  pub ipv4_address : ℕ
  pub ipv4_netmask : ℕ
  pub ipv4_gateway : ℕ
  pub ipv4_dns : List ℕ
  pub dhcp_status : ℕ
  pub last_acquired_ipv4_address : ℕ

-- What `memset` leaves.
abbrev pub no_network : NetworkState
no_network = record {
  link_up = false;
  speed_mbps = 0;
  full_duplex = false;
  autonegotiation = false;
  mac = replicate 6 0;
  link_up_count = 0;
  link_down_count = 0;
  reconnect_count = 0;
  ip_acquisition_count = 0;
  ip_changed_count = 0;
  ip_acquired_uptime_ms = 0;
  ipv4_address = 0;
  ipv4_netmask = 0;
  ipv4_gateway = 0;
  ipv4_dns = replicate 3 0;
  dhcp_status = 0;
  last_acquired_ipv4_address = 0;
}

-- The answers of `esp_eth_ioctl`: whether the speed is 100 Mbit/s, and the others.
pub record LinkFacts : Type 0 where
  pub is_fast : Option Bool
  pub is_full_duplex : Option Bool
  pub has_autonegotiation : Option Bool
  pub mac_address : Option (List ℕ)

abbrev or_keep {ℓ} : {A : Type ℓ} → Option A → A → A
or_keep none kept = kept
or_keep (some new) kept = new

abbrev speed_of : Option Bool → ℕ → ℕ
speed_of none kept = kept
speed_of (some true) kept = 100
speed_of (some false) kept = 10

abbrev note_facts : NetworkState → Option LinkFacts → NetworkState
note_facts s none = s
note_facts s (some facts) = record s {
  speed_mbps = speed_of facts.is_fast s.speed_mbps;
  full_duplex = or_keep facts.is_full_duplex s.full_duplex;
  autonegotiation = or_keep facts.has_autonegotiation s.autonegotiation;
  mac = or_keep facts.mac_address s.mac;
}

abbrev pub without_addresses : NetworkState → NetworkState
without_addresses s = record s {
  ipv4_address = 0;
  ipv4_netmask = 0;
  ipv4_gateway = 0;
  ipv4_dns = replicate 3 0;
}

-- The facts are `none` without an Ethernet handle. The state, and whether the loss is recorded.
unfoldable pub ethernet_link_changed : NetworkState → Bool → Option LinkFacts → NetworkState × Bool
ethernet_link_changed s true facts =
    let count = as_u32 (s.link_up_count + 1) in
    (
      note_facts
          (record s {
            link_up = true;
            link_up_count = count;
            reconnect_count = if ltb 0 count then count - 1 else 0;
          })
          facts,
      false,
    )
ethernet_link_changed s false facts = (
  without_addresses
      (record s { link_up = false; link_down_count = as_u32 (s.link_down_count + 1) }),
  true,
)

-- The answer for each server, `none` if there is none of version 4.
abbrev dns_of : List (Option ℕ) → List ℕ
dns_of [] = []
dns_of (server ∷ servers) = or_keep server 0 ∷ dns_of servers

unfoldable pub ip_acquired :
    NetworkState → ℕ → ℕ → ℕ → List (Option ℕ) → ℕ → Option ℕ → NetworkState
ip_acquired s address netmask gateway servers uptime_ms status = record s {
  ip_changed_count =
      if not (s.last_acquired_ipv4_address == 0) && not (s.last_acquired_ipv4_address == address)
      then as_u32 (s.ip_changed_count + 1)
      else s.ip_changed_count;
  last_acquired_ipv4_address = address;
  ipv4_address = address;
  ipv4_netmask = netmask;
  ipv4_gateway = gateway;
  ipv4_dns = dns_of servers;
  ip_acquisition_count = as_u32 (s.ip_acquisition_count + 1);
  ip_acquired_uptime_ms = uptime_ms;
  dhcp_status = or_keep status s.dhcp_status;
}

-- `diagnostics_ip_lost`, which also records the loss.
unfoldable pub ip_lost : NetworkState → NetworkState
ip_lost s = without_addresses s

-- One event of the network.
pub data NetworkEvent : Type 0 where
  link_changed : Bool → Option LinkFacts → NetworkEvent
  acquired : ℕ → ℕ → ℕ → List (Option ℕ) → ℕ → Option ℕ → NetworkEvent
  lost : NetworkEvent

abbrev pub network_step : NetworkState → NetworkEvent → NetworkState
network_step s (link_changed up facts) = (ethernet_link_changed s up facts).0
network_step s (acquired address netmask gateway servers uptime_ms status) =
    ip_acquired s address netmask gateway servers uptime_ms status
network_step s lost = ip_lost s

-- The state after these events, the oldest first.
abbrev pub network_after : NetworkState → List NetworkEvent → NetworkState
network_after s [] = s
network_after s (event ∷ events) = network_after (network_step s event) events

-- How often the link came up.
abbrev ups : List NetworkEvent → ℕ
ups [] = 0
ups (link_changed true facts ∷ events) = suc (ups events)
ups (link_changed false facts ∷ events) = ups events
ups (acquired address netmask gateway servers uptime_ms status ∷ events) = ups events
ups (lost ∷ events) = ups events

abbrev HasCounted : NetworkState → ℕ → Type 0
HasCounted s n = (s.link_up_count ≡ n) × (s.reconnect_count ≡ n - 1)

up-HasCounted :
    (s : NetworkState) (facts : Option LinkFacts) (n : ℕ)
    → HasCounted s n
    → n + 1 < 4294967296
    → HasCounted (ethernet_link_changed s true facts).0 (n + 1)
unfolding ethernet_link_changed
up-HasCounted s none n (up, again) few = (ground arith, ground arith)
up-HasCounted s (some facts) n (up, again) few = (ground arith, ground arith)

after-HasCounted :
    (s : NetworkState) (events : List NetworkEvent) (n : ℕ)
    → HasCounted s n
    → n + ups events < 4294967296
    → HasCounted (network_after s events) (n + ups events)
unfolding ethernet_link_changed ip_acquired ip_lost
after-HasCounted s [] n (up, again) few = (omega (arith, up), omega (arith, again))
after-HasCounted s (link_changed true facts ∷ events) n counted few =
    let sum : n + suc (ups events) ≡ (n + 1) + ups events = omega arith in
    rw sum (
      after-HasCounted (ethernet_link_changed s true facts).0 events (n + 1)
        (up-HasCounted s facts n counted (omega arith)) (omega arith))
after-HasCounted s (link_changed false facts ∷ events) n counted few =
    after-HasCounted (ethernet_link_changed s false facts).0 events n counted few
after-HasCounted s (acquired address netmask gateway servers uptime_ms status ∷ events) n counted
      few =
    after-HasCounted (ip_acquired s address netmask gateway servers uptime_ms status) events n
      counted few
after-HasCounted s (lost ∷ events) n counted few = after-HasCounted (ip_lost s) events n counted few

-- The link came up so often, and again so often less one.
pub network_after-reconnects :
    (events : List NetworkEvent)
    → ups events < 4294967296
    → let s = network_after no_network events in
      (s.link_up_count ≡ ups events) × (s.reconnect_count ≡ ups events - 1)
network_after-reconnects events few =
    let start : 0 + ups events ≡ ups events = omega arith in
    rw start at (after-HasCounted no_network events 0 (refl, omega arith) (omega arith))
