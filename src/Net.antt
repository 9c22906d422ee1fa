-- ===== src/Net.antt =====
-- lib/net_onboarding/include/net_onboarding/Platform.h and NetOnboarding.h: the Wi-Fi and the
-- storage behind the onboarding, its state, its identity and its status LED, of which the functions
-- are in src/NetOnboarding.cpp. The build for the device is modelled, where `ARDUINO` is defined.
-- An operation reads the clock once: what it calls sees the same `now`. What the Wi-Fi reports
-- changes between two operations, by an event of its own in Net/Calls. The texts hold no zero byte.
pub mod Operations
pub mod Calls
pub mod Portal
pub mod Diagram
pub mod Leds
pub mod Settle
pub mod StubPlatform
use kinetic_mirror_matrix_es.Prelude.{
  ℕ, ◌+◌, ◌-◌, ◌/◌, ◌%◌, Bool, true, false, not, List, [], ◌∷◌, ◌++◌, Option, some, none, take,
  get_or, leb, ltb, sub32, if◌then◌else◌,
}
use kinetic_mirror_matrix_es.Prelude.Int.{ℤ, pos, negsuc, ltb_ℤ}
use kinetic_mirror_matrix_es.Text.{Bytes, codes}

pub record WifiScanResult : Type 0 where
  pub ssid : Bytes
  pub rssi : ℤ
  pub channel : ℤ
  pub secure : Bool

-- `IWifi` and `INvs`, with what the factories make. `set_mode_sta w` is `w` after the call.
pub record Platform : Type 1 where
  pub Wifi : Type 0
  pub make_wifi : Wifi
  pub persistent : Wifi → Bool → Wifi
  pub set_mode_off : Wifi → Wifi
  pub set_mode_sta : Wifi → Wifi
  pub set_mode_ap : Wifi → Wifi
  pub set_mode_ap_sta : Wifi → Wifi
  pub disconnect : Wifi → Bool → Wifi
  pub begin_sta : Wifi → Bytes → Bytes → Wifi
  pub sta_connected : Wifi → Bool
  pub sta_rssi : Wifi → ℤ
  pub sta_local_ip : Wifi → Bytes
  pub soft_ap_start : Wifi → Bytes → Option Bytes → Wifi
  pub soft_ap_ip : Wifi → Bytes
  pub mac_address : Wifi → List ℕ
  pub ap_default_password : Wifi → Option Bytes
  pub ap_ssid_prefix : Wifi → Option Bytes
  pub scan_networks : Wifi → ℤ → Bool → Wifi × List WifiScanResult
  pub Nvs : Type 0
  pub make_nvs : Nvs
  pub begin : Nvs → Bytes → Bool → Nvs × Bool
  pub put_string : Nvs → Bytes → Bytes → Nvs × Bool
  pub get_string : Nvs → Bytes → Bytes → Bytes
  pub remove : Nvs → Bytes → Nvs
  pub end : Nvs → Nvs

pub data State : Type 0 where
  ap_active connecting connected : State

pub record Status : Type 0 where
  pub state : State
  pub rssi_dbm : ℤ
  pub ip : Bytes
  pub ssid : Bytes
  pub mac : Bytes
  pub ap_ssid : Bytes

pub data LedPattern : Type 0 where
  off solid blink_slow blink_fast : LedPattern

-- The members for the LED. `level` is what `digitalWrite` last wrote to the pin: true is HIGH.
pub record Led : Type 0 where
  pub configured : Bool
  pub pin : ℤ
  pub active_low : Bool
  pub pattern : LedPattern
  pub last_toggle_ms : ℕ
  pub logical_on : Bool
  pub level : Option Bool

pub record NetOnboarding (p : Platform) : Type 0 where
  pub st : Status
  pub connect_timeout_ms : ℕ
  pub connecting_since_ms : ℕ
  pub wifi : Option p.Wifi
  pub nvs : Option p.Nvs
  pub last_ssid : Bytes
  pub led : Led

abbrev pub no_ip : Bytes
no_ip = codes "0.0.0.0"

-- `snprintf (out, size, "%s", text)`: what fits, with the zero byte that ends it.
abbrev pub fit : ℕ → Bytes → Bytes
fit size text = take (size - 1) text

abbrev pub initial_led : Led
initial_led = record {
  configured = false;
  pin = negsuc 0;
  active_low = false;
  pattern = off;
  last_toggle_ms = 0;
  logical_on = false;
  level = none;
}

abbrev pub initial : (p : Platform) → NetOnboarding p
initial p = record {
  st = record {
    state = ap_active;
    rssi_dbm = pos 0;
    ip = no_ip;
    ssid = [];
    mac = [];
    ap_ssid = [];
  };
  connect_timeout_ms = 10000;
  connecting_since_ms = 0;
  wifi = none;
  nvs = none;
  last_ssid = [];
  led = initial_led;
}

-- `%02X`
abbrev hex_digit : ℕ → ℕ
hex_digit n = if ltb n 10 then b'0' + n else b'A' + (n - 10)

abbrev hex_byte : ℕ → Bytes
hex_byte n = hex_digit (n / 16 % 16) ∷ hex_digit (n % 16) ∷ []

abbrev prefix_or_default : Option Bytes → Bytes
prefix_or_default none = codes "AP-"
prefix_or_default (some prefix) = prefix

abbrev mac_byte : List ℕ → ℕ → Bytes
mac_byte mac i = hex_byte (get_or mac i 0)

module _ (p : Platform) where
  open p use {Wifi, mac_address, ap_ssid_prefix}

  unfoldable pub build_ap_ssid : Option Wifi → Bytes
  build_ap_ssid none = codes "SOFTAP"
  build_ap_ssid (some w) =
      let mac = mac_address w in
      fit 32 (
        prefix_or_default (ap_ssid_prefix w)
        ++ (mac_byte mac 3 ++ (mac_byte mac 4 ++ mac_byte mac 5)))

  unfoldable mac_text : List ℕ → Bytes
  mac_text mac =
      mac_byte mac 0
      ++ (b':' ∷ mac_byte mac 1
          ++ (b':' ∷ mac_byte mac 2
              ++ (b':' ∷ mac_byte mac 3 ++ (b':' ∷ mac_byte mac 4 ++ (b':' ∷ mac_byte mac 5)))))

  unfoldable pub update_identity : Option Wifi → Status → Status
  unfolding build_ap_ssid mac_text
  update_identity none st = record st { mac = []; ap_ssid = [] }
  update_identity (some w) st = record st {
    mac = fit 18 (mac_text (mac_address w));
    ap_ssid = fit 32 (build_ap_ssid (some w));
  }

-- The LED for a state of the network.
abbrev pub pattern_of : State → LedPattern
pattern_of ap_active = blink_fast
pattern_of connecting = blink_slow
pattern_of connected = solid

abbrev pub same_pattern : LedPattern → LedPattern → Bool
same_pattern off off = true
same_pattern solid solid = true
same_pattern blink_slow blink_slow = true
same_pattern blink_fast blink_fast = true
same_pattern _ _ = false

unfoldable pub apply_led_state : Bool → Led → Led
apply_led_state on l =
    if l.configured
    then record l { logical_on = on; level = some (if l.active_low then not on else on) }
    else record l { logical_on = on }

abbrev is_off : LedPattern → Bool
is_off off = true
is_off _ = false

unfoldable pub refresh_led_pattern : State → ℕ → Led → Led
unfolding apply_led_state
refresh_led_pattern state now l =
    if not l.configured
    then l
    else if same_pattern (pattern_of state) l.pattern
    then l
    else apply_led_state (not (is_off (pattern_of state)))
        (record l { pattern = pattern_of state; last_toggle_ms = now })

abbrev interval : LedPattern → ℕ
interval blink_fast = 125
interval _ = 400

unfoldable pub blink : ℕ → Led → Led
unfolding apply_led_state
blink now l =
    if leb (interval l.pattern) (sub32 now l.last_toggle_ms)
    then apply_led_state (not l.logical_on) (record l { last_toggle_ms = now })
    else l

unfoldable pub update_led : ℕ → Led → Led
unfolding apply_led_state blink
update_led now l = if not l.configured then l else elim l.pattern [
  | off ↦ apply_led_state false l
  | solid ↦ apply_led_state true l
  | blink_slow ↦ blink now l
  | blink_fast ↦ blink now l
]

-- `pinMode` and a first write of "off" where there is a pin.
unfoldable pub configure_led : ℤ → Bool → State → ℕ → Led → Led
unfolding apply_led_state refresh_led_pattern
configure_led pin active_low state now l =
    let l' : Led = record {
      configured = not (ltb_ℤ pin (pos 0));
      pin = pin;
      active_low = active_low;
      pattern = off;
      last_toggle_ms = now;
      logical_on = false;
      level = l.level;
    } in
    refresh_led_pattern state now (if l'.configured then apply_led_state false l' else l')
