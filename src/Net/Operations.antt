-- ===== src/Net/Operations.antt =====
-- lib/net_onboarding/src/NetOnboarding.cpp: the transitions between the states, and the operations.
use kinetic_mirror_matrix_es.Prelude.{
  ℕ, Bool, true, false, not, ◌&&◌, List, [], Option, some, none, leb, sub32, if◌then◌else◌,
}
use kinetic_mirror_matrix_es.Prelude.Int.{ℤ, pos}
use kinetic_mirror_matrix_es.Text.{Bytes, codes, is_empty}
use kinetic_mirror_matrix_es.Net.{
  NetOnboarding, Platform, State, Status, WifiScanResult, ap_active, build_ap_ssid, configure_led,
  connected, connecting, fit, no_ip, refresh_led_pattern, update_identity, update_led,
}

module _ (p : Platform) where
  open p use {
    Wifi, Nvs, make_wifi, make_nvs, set_mode_off, set_mode_sta, set_mode_ap, set_mode_ap_sta,
    disconnect, begin_sta, sta_connected, sta_rssi, sta_local_ip, soft_ap_start, soft_ap_ip,
    ap_default_password, scan_networks, put_string, get_string,
  }

  abbrev pub or_made : Option Nvs → Nvs
  or_made none = make_nvs
  or_made (some s) = s

  abbrev pub or_made_wifi : Option Wifi → Wifi
  or_made_wifi none = make_wifi
  or_made_wifi (some w) = w

  -- The last two calls of each transition: the identity, and the LED.
  unfoldable pub settle : ℕ → NetOnboarding p → NetOnboarding p
  unfolding update_identity refresh_led_pattern
  settle now n = record n {
    st = update_identity p n.wifi n.st;
    led = refresh_led_pattern n.st.state now n.led;
  }

  abbrev clear_status : State → Bytes → Status → Status
  clear_status state ssid st = record st {
    state = state;
    rssi_dbm = pos 0;
    ip = no_ip;
    ssid = ssid;
  }

  abbrev start_ap : Wifi → Wifi
  start_ap w =
      let w' = set_mode_ap (set_mode_off w) in
      soft_ap_start w' (build_ap_ssid p (some w')) (ap_default_password w')

  abbrev ap_status : Wifi → Status → Status
  ap_status w st = record st {
    ssid = fit 33 (build_ap_ssid p (some (set_mode_ap (set_mode_off w))));
    ip = soft_ap_ip (start_ap w);
  }

  -- What the transition assigns before `settle`.
  unfoldable pub in_ap_mode : NetOnboarding p → NetOnboarding p
  unfolding build_ap_ssid
  in_ap_mode n =
      let st = clear_status ap_active [] n.st in
      elim n.wifi [
        | none ↦ record n { st = st }
        | some w ↦ record n { st = ap_status w st; wifi = some (start_ap w) }
      ]

  unfoldable pub enter_ap_mode : ℕ → NetOnboarding p → NetOnboarding p
  unfolding settle in_ap_mode
  enter_ap_mode now n = settle now (in_ap_mode n)

  abbrev start_sta : Bytes → Bytes → Wifi → Wifi
  start_sta ssid pass w = begin_sta (disconnect (set_mode_sta (set_mode_off w)) true) ssid pass

  abbrev after_start : Bytes → Bytes → Option Wifi → Option Wifi
  after_start ssid pass none = none
  after_start ssid pass (some w) = some (start_sta ssid pass w)

  abbrev pub in_connecting : Bytes → Bytes → ℕ → NetOnboarding p → NetOnboarding p
  in_connecting ssid pass now n = record n {
    st = clear_status connecting (fit 33 ssid) n.st;
    last_ssid = ssid;
    connecting_since_ms = now;
    wifi = after_start ssid pass n.wifi;
  }

  unfoldable pub enter_connecting : Bytes → Bytes → ℕ → NetOnboarding p → NetOnboarding p
  unfolding settle
  enter_connecting ssid pass now n = settle now (in_connecting ssid pass now n)

  abbrev sta_status : Option Wifi → Status → Status
  sta_status none st = st
  sta_status (some w) st = record st { rssi_dbm = sta_rssi w; ip = sta_local_ip w }

  abbrev pub in_connected : NetOnboarding p → NetOnboarding p
  in_connected n = record n {
    st = sta_status n.wifi (clear_status connected (fit 33 n.last_ssid) n.st);
  }

  unfoldable pub enter_connected : ℕ → NetOnboarding p → NetOnboarding p
  unfolding settle
  enter_connected now n = settle now (in_connected n)

  -- The three helpers of the storage; each opens the namespace `net`.
  unfoldable pub save_credentials : Bytes → Bytes → NetOnboarding p → NetOnboarding p × Bool
  save_credentials ssid pass n =
      let (s, opened) = p.begin (or_made n.nvs) (codes "net") false in
      if not opened
      then (record n { nvs = some s }, false)
      else (let (s1, ok1) = put_string s (codes "ssid") ssid in
          let (s2, ok2) = put_string s1 (codes "psk") pass in
          (
            record n { nvs = some (p.end s2); last_ssid = if ok1 then ssid else n.last_ssid },
            ok1 && ok2,
          ))

  unfoldable pub load_credentials : NetOnboarding p → NetOnboarding p × Option (Bytes × Bytes)
  load_credentials n =
      let (s, opened) = p.begin (or_made n.nvs) (codes "net") true in
      if not opened
      then (record n { nvs = some s }, none)
      else (let ssid = get_string s (codes "ssid") [] in
          let pass = get_string s (codes "psk") [] in
          (
            record n { nvs = some (p.end s); last_ssid = ssid },
            (if is_empty ssid then none else some (ssid, pass)),
          ))

  unfoldable pub clear_credentials : NetOnboarding p → NetOnboarding p
  clear_credentials n =
      let (s, opened) = p.begin (or_made n.nvs) (codes "net") false in
      record n {
        nvs =
            some (if opened then p.end (p.remove (p.remove s (codes "ssid")) (codes "psk")) else s);
        last_ssid = [];
      }

  abbrev pub made : NetOnboarding p → NetOnboarding p
  made n = record n {
    nvs = some (or_made n.nvs);
    wifi = some (set_mode_sta (set_mode_off (p.persistent (or_made_wifi n.wifi) false)));
  }

  -- `begin`, without the web server of the portal, which it starts last.
  unfoldable pub begin : ℕ → ℕ → NetOnboarding p → NetOnboarding p
  unfolding load_credentials enter_connecting enter_ap_mode
  begin timeout_ms now n =
      let (m, found) = load_credentials (made (record n { connect_timeout_ms = timeout_ms })) in
      elim found [
        | none ↦ enter_ap_mode now m
        | some (ssid, pass) ↦ enter_connecting ssid pass now m
      ]

  abbrev pub link_up : NetOnboarding p → Bool
  link_up n = elim n.wifi [ none ↦ false | some w ↦ sta_connected w ]

  abbrev with_led : ℕ → NetOnboarding p → NetOnboarding p
  with_led now n = record n { led = update_led now n.led }

  -- A link that is lost while the network is connected.
  unfoldable pub check_link : ℕ → NetOnboarding p → NetOnboarding p
  unfolding enter_ap_mode
  check_link now n = if not (link_up n) then enter_ap_mode now n else n

  -- `loop`, by the state at its start.
  unfoldable pub loop_in : State → ℕ → NetOnboarding p → NetOnboarding p
  unfolding enter_ap_mode enter_connected check_link update_led
  loop_in ap_active now n = with_led now n
  loop_in connecting now n =
      if leb n.connect_timeout_ms (sub32 now n.connecting_since_ms)
      then enter_ap_mode now n
      else if link_up n
      then enter_connected now n
      else with_led now n
  loop_in connected now n = with_led now (check_link now n)

  unfoldable pub loop : ℕ → NetOnboarding p → NetOnboarding p
  unfolding loop_in
  loop now n = loop_in n.st.state now n

  unfoldable pub configure_status_led : ℤ → Bool → ℕ → NetOnboarding p → NetOnboarding p
  unfolding configure_led
  configure_status_led pin active_low now n = record n {
    led = configure_led pin active_low n.st.state now n.led;
  }

  unfoldable pub set_credentials : Bytes → Bytes → ℕ → NetOnboarding p → NetOnboarding p × Bool
  unfolding save_credentials enter_connecting
  set_credentials ssid pass now n =
      let (m, saved) = save_credentials ssid pass n in
      if saved then (enter_connecting ssid pass now m, true) else (m, false)

  unfoldable pub reset_credentials : ℕ → NetOnboarding p → NetOnboarding p
  unfolding clear_credentials enter_ap_mode
  reset_credentials now n = enter_ap_mode now (clear_credentials n)

  abbrev is_ap : State → Bool
  is_ap ap_active = true
  is_ap _ = false

  -- The results, none in a state other than that of the access point.
  unfoldable pub scan : ℤ → Bool → NetOnboarding p → NetOnboarding p × List WifiScanResult
  scan max_results hidden n =
      let w = or_made_wifi n.wifi in
      if not (is_ap n.st.state)
      then (record n { wifi = some w }, [])
      else (let (w', found) = scan_networks (set_mode_ap_sta w) max_results hidden in
          (record n { wifi = some w' }, found))

  unfoldable pub ap_password : NetOnboarding p → Bytes
  ap_password n = elim n.wifi [
    | none ↦ []
    | some w ↦ elim (ap_default_password w) [ none ↦ [] | some text ↦ fit 65 text ]
  ]

  abbrev pub set_connect_timeout_ms : ℕ → NetOnboarding p → NetOnboarding p
  set_connect_timeout_ms ms n = record n { connect_timeout_ms = ms }
