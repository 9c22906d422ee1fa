-- ===== src/Net/Leds.antt =====
-- The status LED shows the state of the network, whatever the calls.
use kinetic_mirror_matrix_es.Prelude.{
  ℕ, ◌≡◌, refl, ap, ◌∙◌, Bool, true, false, not, ◌&&◌, ◌||◌, List, [], ◌∷◌, Option, some, none,
  arith, leb, sub32, Bool-cases, Option-cases, inl, inr,
}
use kinetic_mirror_matrix_es.Prelude.Int.{ℤ}
use kinetic_mirror_matrix_es.Text.{Bytes}
use kinetic_mirror_matrix_es.Net.{
  Led, LedPattern, NetOnboarding, Platform, State, ap_active, apply_led_state, blink, configure_led,
  connected, connecting, initial, pattern_of, refresh_led_pattern, same_pattern, solid,
  update_identity, update_led,
}
use kinetic_mirror_matrix_es.Net.Calls.{
  Call, begins, configures, links, loops, resets, run, scans, sets, step, times,
}
use kinetic_mirror_matrix_es.Net.Operations.{
  begin, check_link, configure_status_led, enter_ap_mode, enter_connected, enter_connecting,
  in_ap_mode, in_connected, in_connecting, link_up, load_credentials, loop, made, loop_in,
  reset_credentials, clear_credentials, save_credentials, scan, set_credentials, settle,
}

-- What is on the pin, for the LED's polarity.
abbrev pub level_shows : Bool → Bool → Option Bool → Bool
level_shows low on none = false
level_shows true true (some v) = not v
level_shows true false (some v) = v
level_shows false true (some v) = v
level_shows false false (some v) = not v

abbrev pub lit : LedPattern → Bool → Bool
lit solid on = on
lit _ on = true

-- A LED without a pin shows nothing. Else its pattern is the one of the state, it is on where the
-- pattern is solid, and the pin has the level for it.
abbrev pub led_shows : State → Led → Bool
led_shows state l =
    not l.configured
    || (same_pattern (pattern_of state) l.pattern
        && lit l.pattern l.logical_on
        && level_shows l.active_low l.logical_on l.level)

apply-level :
    (on : Bool) (l : Led)
    → (l.configured ≡ true)
    → level_shows
        (apply_led_state on l).active_low
        (apply_led_state on l).logical_on
        (apply_led_state on l).level
      ≡ true
unfolding apply_led_state
apply-level on l c = ground arith

refresh-shows :
    (s t : State) (now : ℕ) (l : Led)
    → led_shows s l ≡ true
    → led_shows t (refresh_led_pattern t now l) ≡ true
unfolding refresh_led_pattern apply_led_state
refresh-shows s t now l h = ground arith

update-shows :
    (s : State) (now : ℕ) (l : Led) → led_shows s l ≡ true → led_shows s (update_led now l) ≡ true
unfolding update_led blink apply_led_state
update-shows s now l h = ground arith

configure-shows :
    (pin : ℤ) (low : Bool) (s : State) (now : ℕ) (l : Led)
    → led_shows s (configure_led pin low s now l) ≡ true
unfolding configure_led refresh_led_pattern apply_led_state
configure-shows pin low s now l = ground arith

module _ (p : Platform) where
  abbrev pub Shows : NetOnboarding p → Type 0
  Shows n = led_shows n.st.state n.led ≡ true

  pub settle-state : (now : ℕ) (n : NetOnboarding p) → (settle p now n).st.state ≡ n.st.state
  unfolding settle update_identity
  settle-state now n = elim (Option-cases n.wifi) [
    | inl dark ↦ rw (dark, update_identity) refl
    | inr (w, up) ↦ rw (up, update_identity) refl
  ]

  settle-led :
      (now : ℕ) (n : NetOnboarding p)
      → (settle p now n).led ≡ refresh_led_pattern n.st.state now n.led
  unfolding settle
  settle-led now n = refl

  settle-Shows :
      (s : State) (now : ℕ) (n : NetOnboarding p)
      → led_shows s n.led ≡ true
      → Shows (settle p now n)
  settle-Shows s now n h =
      rw (settle-state now n, settle-led now n) (refresh-shows s n.st.state now n.led h)

  enter_ap-Shows :
      (s : State) (now : ℕ) (n : NetOnboarding p)
      → led_shows s n.led ≡ true
      → Shows (enter_ap_mode p now n)
  unfolding enter_ap_mode in_ap_mode
  enter_ap-Shows s now n h = elim (Option-cases n.wifi) [
    | inl dark ↦
        let same : (in_ap_mode p n).led ≡ n.led = rw (dark, in_ap_mode) refl in
        settle-Shows s now (in_ap_mode p n) (ap (led_shows s) same ∙ h)
    | inr (w, up) ↦
        let same : (in_ap_mode p n).led ≡ n.led = rw (up, in_ap_mode) refl in
        settle-Shows s now (in_ap_mode p n) (ap (led_shows s) same ∙ h)
  ]

  enter_connecting-Shows :
      (s : State) (ssid pass : Bytes) (now : ℕ) (n : NetOnboarding p)
      → led_shows s n.led ≡ true
      → Shows (enter_connecting p ssid pass now n)
  unfolding enter_connecting
  enter_connecting-Shows s ssid pass now n h =
      settle-Shows s now (in_connecting p ssid pass now n) h

  enter_connected-Shows :
      (s : State) (now : ℕ) (n : NetOnboarding p)
      → led_shows s n.led ≡ true
      → Shows (enter_connected p now n)
  unfolding enter_connected
  enter_connected-Shows s now n h = settle-Shows s now (in_connected p n) h

  pub save-led :
      (ssid pass : Bytes) (n : NetOnboarding p)
      → ((save_credentials p ssid pass n).0.led ≡ n.led)
        × ((save_credentials p ssid pass n).0.st ≡ n.st)
  unfolding save_credentials
  save-led ssid pass n = ground arith

  pub load-led :
      (n : NetOnboarding p)
      → ((load_credentials p n).0.led ≡ n.led) × ((load_credentials p n).0.st ≡ n.st)
  unfolding load_credentials
  load-led n = ground arith

  check_link-Shows : (now : ℕ) (n : NetOnboarding p) → Shows n → Shows (check_link p now n)
  unfolding check_link
  check_link-Shows now n h = elim (Bool-cases (link_up p n)) [
    | inl up ↦ rw (up, check_link) h
    | inr down ↦ rw (down, check_link) (enter_ap-Shows n.st.state now n h)
  ]

  loop_in-Shows :
      (s : State) (now : ℕ) (n : NetOnboarding p)
      → n.st.state ≡ s
      → Shows n
      → Shows (loop_in p s now n)
  unfolding loop_in
  loop_in-Shows ap_active now n e h = update-shows n.st.state now n.led h
  loop_in-Shows connecting now n e h =
      elim (Bool-cases (leb n.connect_timeout_ms (sub32 now n.connecting_since_ms))) [
        | inl late ↦ rw (late, loop_in) (enter_ap-Shows n.st.state now n h)
        | inr early ↦ elim (Bool-cases (link_up p n)) [
          | inl up ↦ rw (early, up, loop_in) (enter_connected-Shows n.st.state now n h)
          | inr down ↦ rw (early, down, loop_in) (update-shows n.st.state now n.led h)
        ]
      ]
  loop_in-Shows connected now n e h =
      let m = check_link p now n in update-shows m.st.state now m.led (check_link-Shows now n h)

  begin-Shows : (timeout now : ℕ) (n : NetOnboarding p) → Shows n → Shows (begin p timeout now n)
  unfolding begin
  begin-Shows timeout now n h =
      let m = load_credentials p (made p (record n { connect_timeout_ms = timeout })) in
      let kept = load-led (made p (record n { connect_timeout_ms = timeout })) in
      let ok : led_shows n.st.state m.0.led ≡ true = ap (led_shows n.st.state) kept.0 ∙ h in
      elim (Option-cases m.1) [
        | inl new ↦ rw (new, begin) (enter_ap-Shows n.st.state now m.0 ok)
        | inr (found, e) ↦
            rw (e, begin) (enter_connecting-Shows n.st.state found.0 found.1 now m.0 ok)
      ]

  set-Shows :
      (ssid pass : Bytes) (now : ℕ) (n : NetOnboarding p)
      → Shows n
      → Shows (set_credentials p ssid pass now n).0
  unfolding set_credentials
  set-Shows ssid pass now n h =
      let m = save_credentials p ssid pass n in
      let kept = save-led ssid pass n in
      let ok : led_shows n.st.state m.0.led ≡ true = ap (led_shows n.st.state) kept.0 ∙ h in
      elim (Bool-cases m.1) [
        | inl saved ↦
            rw (saved, set_credentials) (enter_connecting-Shows n.st.state ssid pass now m.0 ok)
        | inr lost ↦ rw (lost, set_credentials) (ap (λ t. led_shows t.state m.0.led) kept.1 ∙ ok)
      ]

  pub scan-led :
      (most : ℤ) (hidden : Bool) (n : NetOnboarding p)
      → ((scan p most hidden n).0.led ≡ n.led) × ((scan p most hidden n).0.st ≡ n.st)
  unfolding scan
  scan-led most hidden n = ground arith

  step-Shows : (c : Call p) (n : NetOnboarding p) → Shows n → Shows (step p c n)
  unfolding loop configure_status_led reset_credentials clear_credentials
  step-Shows (begins timeout now) n h = begin-Shows timeout now n h
  step-Shows (loops now) n h = loop_in-Shows n.st.state now n refl h
  step-Shows (configures pin low now) n h = configure-shows pin low n.st.state now n.led
  step-Shows (sets ssid pass now) n h = set-Shows ssid pass now n h
  step-Shows (resets now) n h = enter_ap-Shows n.st.state now (clear_credentials p n) h
  step-Shows (scans most hidden) n h =
      let kept = scan-led most hidden n in
      ap (λ l. led_shows (scan p most hidden n).0.st.state l) kept.0
      ∙ ap (λ t. led_shows t.state n.led) kept.1
      ∙ h
  step-Shows (times ms) n h = h
  step-Shows (links w) n h = h

  run-Shows : (cs : List (Call p)) (n : NetOnboarding p) → Shows n → Shows (run p cs n)
  run-Shows [] n h = h
  run-Shows (c ∷ cs) n h = run-Shows cs (step p c n) (step-Shows c n h)

  -- Whatever the calls, their order and their times, and however the Wi-Fi changes between them, the
  -- LED shows the state of the network: if it has a pin, its pattern is the one of the state, it is
  -- on while the network is connected, and the pin has the level for it and for its polarity.
  pub run-initial-Shows : (cs : List (Call p)) → Shows (run p cs (initial p))
  run-initial-Shows cs = run-Shows cs (initial p) refl
