-- ===== src/Tests/NetTests.antt =====
-- The onboarding on the platform of the native build, at concrete inputs.
use kinetic_mirror_matrix_es.Prelude.{
  ℕ, ◌≡◌, ◌≤◌, refl, true, false, List, [], ◌∷◌, ◌++◌, some, arith, take, length,
}
use kinetic_mirror_matrix_es.Prelude.Int.{pos}
use kinetic_mirror_matrix_es.Text.{Bytes, codes}
use kinetic_mirror_matrix_es.Net.{
  NetOnboarding, ap_active, build_ap_ssid, connected, connecting, initial, no_ip,
}
use kinetic_mirror_matrix_es.Net.Calls.{Call, begins, configures, links, loops, run, sets}
use kinetic_mirror_matrix_es.Net.Operations.{
  begin, configure_status_led, load_credentials, loop, save_credentials, set_credentials,
}
use kinetic_mirror_matrix_es.Net.Leds.{Shows, run-initial-Shows}
use kinetic_mirror_matrix_es.Net.Diagram.{inputs, reach, run-reach}
use kinetic_mirror_matrix_es.Net.Settle.{is_connecting, loops-settle, run_loops}
use kinetic_mirror_matrix_es.Net.Portal.{handle_api_wifi_logic, is_busy}
use kinetic_mirror_matrix_es.Net.Portal.Guards.{PassFits, wifi-accepted}
use kinetic_mirror_matrix_es.Net.StubPlatform.{get_string, load-save, put_string, stub_platform}

abbrev home : Bytes
home = codes "home"

abbrev secret : Bytes
secret = codes "longsecret"

abbrev fresh : NetOnboarding stub_platform
fresh = initial stub_platform

unfoldable up : stub_platform.Wifi
unfolding stub_platform
up = record stub_platform.make_wifi { is_up = true }

-- The attempt ends connected; then the link is lost.
abbrev calls : List (Call stub_platform)
calls =
    configures (pos 2) true 0
    ∷ begins 10000 5
    ∷ sets home secret 100
    ∷ links up
    ∷ loops 500
    ∷ links stub_platform.make_wifi
    ∷ loops 600
    ∷ []

ap_name : build_ap_ssid stub_platform (some stub_platform.make_wifi) ≡ codes "Mirror-56789A"
unfolding build_ap_ssid stub_platform
ap_name = refl

linked : (run stub_platform (take 5 calls) fresh).st.state ≡ connected
unfolding begin set_credentials loop stub_platform get_string put_string configure_status_led up
linked = refl

link_lost : (run stub_platform calls fresh).st.state ≡ ap_active
unfolding begin set_credentials loop stub_platform get_string put_string configure_status_led up
link_lost = refl

run-initial-Shows_example : Shows stub_platform (run stub_platform calls fresh)
run-initial-Shows_example = run-initial-Shows stub_platform calls

run-reach_example :
    (run stub_platform calls fresh).st.state ≡ reach (inputs stub_platform calls fresh) ap_active
run-reach_example = run-reach stub_platform calls fresh

-- An attempt that started at 100.
abbrev trying : NetOnboarding stub_platform
trying = record fresh {
  st = record {
    state = connecting;
    rssi_dbm = pos 0;
    ip = no_ip;
    ssid = home;
    mac = [];
    ap_ssid = [];
  };
  connecting_since_ms = 100;
  wifi = some stub_platform.make_wifi;
}

abbrev polled : List (stub_platform.Wifi × ℕ)
polled = (stub_platform.make_wifi, 500) ∷ (stub_platform.make_wifi, 900) ∷ []

loops-settle_example :
    is_connecting
      (run_loops stub_platform (polled ++ ((stub_platform.make_wifi, 10100) ∷ [])) trying).st.state
    ≡ false
loops-settle_example =
    loops-settle stub_platform 10100 stub_platform.make_wifi polled trying (omega arith)

answered : (handle_api_wifi_logic stub_platform home secret 7 fresh).0.status ≡ 200
unfolding handle_api_wifi_logic set_credentials stub_platform put_string
answered = refl

wifi-accepted_example :
    (is_busy ap_active ≡ false)
    × (1 ≤ length home)
    × (length home ≤ 32)
    × PassFits stub_platform secret
    × ((handle_api_wifi_logic stub_platform home secret 7 fresh).1.st.state ≡ connecting)
wifi-accepted_example = wifi-accepted stub_platform home secret 7 fresh answered

load-save_example :
    (load_credentials stub_platform (save_credentials stub_platform home secret fresh).0).1
    ≡ some (home, secret)
load-save_example = load-save home secret fresh refl (omega arith) (omega arith)
