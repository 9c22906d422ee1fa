-- ===== src/Net/Calls.antt =====
-- The calls that the program makes of the onboarding, with the time of each, and runs of them.
use kinetic_mirror_matrix_es.Prelude.{ℕ, Bool, List, [], ◌∷◌, Option, none, some}
use kinetic_mirror_matrix_es.Prelude.Int.{ℤ}
use kinetic_mirror_matrix_es.Text.{Bytes}
use kinetic_mirror_matrix_es.Net.{NetOnboarding, Platform}
use kinetic_mirror_matrix_es.Net.Operations.{
  begin, configure_status_led, loop, reset_credentials, scan, set_connect_timeout_ms,
  set_credentials,
}

-- `links w`: between two calls of the program the Wi-Fi has changed by itself, to `w`.
pub data Call (p : Platform) : Type 0 where
  begins : ℕ → ℕ → Call p
  loops : ℕ → Call p
  configures : ℤ → Bool → ℕ → Call p
  sets : Bytes → Bytes → ℕ → Call p
  resets : ℕ → Call p
  scans : ℤ → Bool → Call p
  times : ℕ → Call p
  links : p.Wifi → Call p

module _ (p : Platform) where
  -- A Wi-Fi that was never made does not change.
  abbrev wifi_at : p.Wifi → Option p.Wifi → Option p.Wifi
  wifi_at w none = none
  wifi_at w (some v) = some w

  abbrev pub relink : p.Wifi → NetOnboarding p → NetOnboarding p
  relink w n = record n { wifi = wifi_at w n.wifi }

  abbrev pub step : Call p → NetOnboarding p → NetOnboarding p
  step (begins timeout now) n = begin p timeout now n
  step (loops now) n = loop p now n
  step (configures pin low now) n = configure_status_led p pin low now n
  step (sets ssid pass now) n = (set_credentials p ssid pass now n).0
  step (resets now) n = reset_credentials p now n
  step (scans most hidden) n = (scan p most hidden n).0
  step (times ms) n = set_connect_timeout_ms p ms n
  step (links w) n = relink w n

  abbrev pub run : List (Call p) → NetOnboarding p → NetOnboarding p
  run [] n = n
  run (c ∷ cs) n = run cs (step c n)
