-- ===== src/Net/Portal.antt =====
-- lib/net_onboarding/src/NetOnboarding.cpp: the handlers of the portal's web API. A reply is its
-- status with what the JSON document holds; the parsing of a body and the web server are libraries.
pub mod Guards
use kinetic_mirror_matrix_es.Prelude.{
  ℕ, Bool, true, false, not, ◌&&◌, ◌||◌, List, Option, some, none, length, ltb, ◌==◌, if◌then◌else◌,
}
use kinetic_mirror_matrix_es.Prelude.Int.{ℤ, pos}
use kinetic_mirror_matrix_es.Text.{Bytes, codes}
use kinetic_mirror_matrix_es.Net.{
  NetOnboarding, Platform, State, WifiScanResult, ap_active, connected, connecting,
}
use kinetic_mirror_matrix_es.Transport.Events.{starts_with}
use kinetic_mirror_matrix_es.Net.Operations.{ap_password, reset_credentials, scan, set_credentials}

pub record StatusBody : Type 0 where
  pub state : State
  pub ssid : Bytes
  pub ip : Bytes
  -- `null` is `none`.
  pub rssi : Option ℤ
  pub mac : Bytes
  pub ap_ssid : Bytes
  pub ap_password : Bytes

pub data Body : Type 0 where
  error_body : Bytes → Body
  status_body : StatusBody → Body
  scan_body : List WifiScanResult → Body
  connecting_body : Body
  reset_body : Bytes → Bytes → Body
  text_body : Bytes → Body

pub record Reply : Type 0 where
  pub status : ℕ
  pub body : Body

abbrev pub send_json_error : ℕ → Bytes → Reply
send_json_error status code = record { status = status; body = error_body code }

abbrev pub send_json : Body → Reply
send_json body = record { status = 200; body = body }

abbrev pub is_connected : State → Bool
is_connected connected = true
is_connected _ = false

abbrev pub is_busy : State → Bool
is_busy connecting = true
is_busy _ = false

abbrev is_ap : State → Bool
is_ap ap_active = true
is_ap _ = false

module _ (p : Platform) where
  unfoldable pub handle_api_status : NetOnboarding p → Reply
  unfolding ap_password
  handle_api_status n = send_json (
      status_body (record {
        state = n.st.state;
        ssid = n.st.ssid;
        ip = n.st.ip;
        rssi = if is_connected n.st.state then some n.st.rssi_dbm else none;
        mac = n.st.mac;
        ap_ssid = n.st.ap_ssid;
        ap_password = ap_password p n;
      }))

  -- With the default limit of 12 results, hidden networks included.
  unfoldable pub handle_api_scan : NetOnboarding p → Reply × NetOnboarding p
  unfolding scan
  handle_api_scan n =
      if not (is_ap n.st.state)
      then (send_json_error 409 (codes "scan-ap-only"), n)
      else (let (m, found) = scan p (pos 12) true n in (send_json (scan_body found), m))

  unfoldable pub handle_api_wifi_logic :
      Bytes → Bytes → ℕ → NetOnboarding p → Reply × NetOnboarding p
  unfolding set_credentials
  handle_api_wifi_logic ssid pass now n =
      if is_busy n.st.state
      then (send_json_error 409 (codes "busy"), n)
      else if length ssid == 0 || ltb 32 (length ssid)
      then (send_json_error 400 (codes "invalid-ssid"), n)
      else if ltb 0 (length pass) && ltb (length pass) 8
      then (send_json_error 400 (codes "pass-too-short"), n)
      else if ltb 0 (length pass) && ltb 63 (length pass)
      then (send_json_error 400 (codes "invalid-pass"), n)
      else (let (m, saved) = set_credentials p ssid pass now n in
          if saved
          then (send_json connecting_body, m)
          else (send_json_error 500 (codes "persist-failed"), m))

  unfoldable pub handle_api_reset : ℕ → NetOnboarding p → Reply × NetOnboarding p
  unfolding reset_credentials ap_password
  handle_api_reset now n =
      if is_busy n.st.state
      then (send_json_error 409 (codes "busy"), n)
      else (let m = reset_credentials p now n in
          (send_json (reset_body m.st.ap_ssid (ap_password p m)), m))

-- `startsWith ("/api/")`
abbrev is_api : Bytes → Bool
is_api uri = starts_with (codes "/api/") uri

unfoldable pub handle_not_found : Bytes → Reply
unfolding starts_with
handle_not_found uri =
    if is_api uri
    then send_json_error 404 (codes "not-found")
    else record { status = 404; body = text_body (codes "Not Found") }
