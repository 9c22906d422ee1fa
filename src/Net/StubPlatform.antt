-- ===== src/Net/StubPlatform.antt =====
-- lib/net_onboarding/src/PlatformStub.cpp: the Wi-Fi and the storage of the native build. A key or
-- a value that is a null pointer does not occur in the modelled calls.
use kinetic_mirror_matrix_es.Prelude.{
  ℕ, ◌≡◌, ◌≤◌, refl, zero, suc, ap, Bool, true, false, ◌&&◌, List, [], ◌∷◌, some, arith, length,
  ltb, take, if◌then◌else◌,
}
use kinetic_mirror_matrix_es.Prelude.Int.{ℤ, pos, negsuc, pos_part, ltb_ℤ}
use kinetic_mirror_matrix_es.Text.{Bytes, codes, eq_bytes, is_empty}
use kinetic_mirror_matrix_es.Net.{NetOnboarding, Platform, WifiScanResult, fit}
use kinetic_mirror_matrix_es.Net.Operations.{load_credentials, save_credentials}

pub record StubWifi : Type 0 where
  pub mode : ℕ
  pub is_up : Bool
  pub ssid : Bytes

pub record StubNvs : Type 0 where
  pub ssid : Bytes
  pub psk : Bytes

abbrev network : Bytes → ℤ → ℤ → Bool → WifiScanResult
network ssid rssi channel secure = record {
  ssid = ssid;
  rssi = rssi;
  channel = channel;
  secure = secure;
}

abbrev nearby : List WifiScanResult
nearby =
    network (codes "Home-2G") (negsuc 41) (pos 1) true
    ∷ network (codes "Cafe-WiFi") (negsuc 69) (pos 6) false
    ∷ network (codes "Office-IoT") (negsuc 54) (pos 11) true
    ∷ network (codes "Printer-Setup") (negsuc 79) (pos 3) false
    ∷ []

-- `std::sort` by falling strength.
insert_by_rssi : WifiScanResult → List WifiScanResult → List WifiScanResult
insert_by_rssi x [] = x ∷ []
insert_by_rssi x (y ∷ ys) =
    let rest = insert_by_rssi x ys in if ltb_ℤ x.rssi y.rssi then y ∷ rest else x ∷ y ∷ ys

sort_by_rssi : List WifiScanResult → List WifiScanResult
unfolding insert_by_rssi
sort_by_rssi [] = []
sort_by_rssi (x ∷ xs) = insert_by_rssi x (sort_by_rssi xs)

-- The first results, where the limit is positive and below their number.
unfoldable pub limited : ℤ → List WifiScanResult → List WifiScanResult
limited max_results found =
    if ltb 0 (pos_part max_results) && ltb (pos_part max_results) (length found)
    then take (pos_part max_results) found
    else found

unfoldable pub put_string : StubNvs → Bytes → Bytes → StubNvs × Bool
put_string s key value =
    if eq_bytes key (codes "ssid")
    then (record s { ssid = fit 33 value }, true)
    else if eq_bytes key (codes "psk")
    then (record s { psk = fit 65 value }, true)
    else (s, false)

unfoldable pub get_string : StubNvs → Bytes → Bytes → Bytes
get_string s key default =
    if eq_bytes key (codes "ssid")
    then s.ssid
    else if eq_bytes key (codes "psk")
    then s.psk
    else default

unfoldable pub remove : StubNvs → Bytes → StubNvs
remove s key =
    if eq_bytes key (codes "ssid")
    then record s { ssid = [] }
    else if eq_bytes key (codes "psk")
    then record s { psk = [] }
    else s

unfoldable pub stub_platform : Platform
unfolding limited sort_by_rssi
stub_platform = record {
  Wifi = StubWifi;
  make_wifi = record { mode = 0; is_up = false; ssid = codes "Mirror-TEST" };
  persistent = λ w enable. w;
  set_mode_off = λ w. record w { mode = 0 };
  set_mode_sta = λ w. record w { mode = 1 };
  set_mode_ap = λ w. record w { mode = 2 };
  set_mode_ap_sta = λ w. record w { mode = 3 };
  disconnect = λ w erase. record w { is_up = false };
  begin_sta = λ w ssid pass. w;
  sta_connected = λ w. w.is_up;
  sta_rssi = λ w. negsuc 47;
  sta_local_ip = λ w. codes "10.0.0.2";
  soft_ap_start = λ w ssid pass. record w { ssid = ssid };
  soft_ap_ip = λ w. codes "192.168.4.1";
  mac_address = λ w. 2 ∷ 18 ∷ 52 ∷ 86 ∷ 120 ∷ 154 ∷ [];
  ap_default_password = λ w. some (codes "stub-pass");
  ap_ssid_prefix = λ w. some (codes "Mirror-");
  scan_networks = λ w max_results hidden. (w, limited max_results (sort_by_rssi nearby));
  Nvs = StubNvs;
  make_nvs = record { ssid = []; psk = [] };
  begin = λ s name read_only. (s, true);
  put_string = put_string;
  get_string = get_string;
  remove = remove;
  end = λ s. s;
}

take-all : (n : ℕ) (s : Bytes) → length s ≤ n → take n s ≡ s
take-all zero [] h = refl
take-all zero (c ∷ s) h = absurd (omega arith)
take-all (suc n) [] h = refl
take-all (suc n) (c ∷ s) h = ap {B = Bytes} (λ t. c ∷ t) (take-all n s (omega arith))

-- Credentials that fit, a name of 1 to 32 bytes and a password of 64 at most, are loaded as they
-- were saved.
pub load-save :
    (ssid pass : Bytes) (n : NetOnboarding stub_platform)
    → is_empty ssid ≡ false
    → length ssid ≤ 32
    → length pass ≤ 64
    → (load_credentials stub_platform (save_credentials stub_platform ssid pass n).0).1
      ≡ some (ssid, pass)
unfolding load_credentials save_credentials put_string get_string stub_platform
load-save ssid pass n some_name fits_name fits_pass =
    rw (take-all 32 ssid fits_name, take-all 64 pass fits_pass) (rw some_name refl)
