-- ===== src/Net/Diagram.antt =====
-- The state diagram of the onboarding, which forgets all but the state, and that the code follows it.
use kinetic_mirror_matrix_es.Prelude.{
  ℕ, Bool, true, false, Option, none, some, ◌≡◌, refl, sym, ap, ◌∙◌, List, [], ◌∷◌, leb, sub32,
  Bool-cases, Option-cases, inl, inr,
}
use kinetic_mirror_matrix_es.Text.{Bytes}
use kinetic_mirror_matrix_es.Net.{NetOnboarding, Platform, State, ap_active, connected, connecting}
use kinetic_mirror_matrix_es.Net.Calls.{
  Call, begins, configures, links, loops, resets, run, scans, sets, step, times,
}
use kinetic_mirror_matrix_es.Net.Leds.{save-led, scan-led, settle-state}
use kinetic_mirror_matrix_es.Net.Operations.{
  begin, check_link, clear_credentials, configure_status_led, enter_ap_mode, enter_connected,
  enter_connecting, in_ap_mode, in_connected, in_connecting, link_up, load_credentials, loop,
  loop_in, made, reset_credentials, save_credentials, set_credentials,
}

-- What a call meets: stored credentials, a timeout that is over and a link that is up, credentials
-- that could be saved; or nothing that counts.
pub data Input : Type 0 where
  starts : (found : Bool) → Input
  polls : (late up : Bool) → Input
  tries : (saved : Bool) → Input
  forgets other : Input

-- The edges of the diagram.
abbrev pub next_state : Input → State → State
next_state (starts true) s = connecting
next_state (starts false) s = ap_active
next_state (polls late up) ap_active = ap_active
next_state (polls true up) connecting = ap_active
next_state (polls false true) connecting = connected
next_state (polls false false) connecting = connecting
next_state (polls late true) connected = connected
next_state (polls late false) connected = ap_active
next_state (tries true) s = connecting
next_state (tries false) s = s
next_state forgets s = ap_active
next_state other s = s

abbrev pub reach : List Input → State → State
reach [] s = s
reach (i ∷ is) s = reach is (next_state i s)

abbrev has_value {ℓ} : {A : Type ℓ} → Option A → Bool
has_value none = false
has_value (some x) = true

module _ (p : Platform) where
  pub enter_ap-state :
      (now : ℕ) (n : NetOnboarding p) → (enter_ap_mode p now n).st.state ≡ ap_active
  unfolding enter_ap_mode in_ap_mode
  enter_ap-state now n = settle-state p now (in_ap_mode p n) ∙ (elim (Option-cases n.wifi) [
    | inl dark ↦ rw (dark, in_ap_mode) refl
    | inr (w, up) ↦ rw (up, in_ap_mode) refl
  ])

  pub enter_connecting-state :
      (ssid pass : Bytes) (now : ℕ) (n : NetOnboarding p)
      → (enter_connecting p ssid pass now n).st.state ≡ connecting
  unfolding enter_connecting
  enter_connecting-state ssid pass now n = settle-state p now (in_connecting p ssid pass now n)

  pub enter_connected-state :
      (now : ℕ) (n : NetOnboarding p) → (enter_connected p now n).st.state ≡ connected
  unfolding enter_connected
  enter_connected-state now n =
      settle-state p now (in_connected p n) ∙ (elim (Option-cases n.wifi) [
        | inl dark ↦ rw (dark, in_connected) refl
        | inr (w, up) ↦ rw (up, in_connected) refl
      ])

  -- The credentials that `begin` finds.
  abbrev stored_credentials : ℕ → NetOnboarding p → Option (Bytes × Bytes)
  stored_credentials timeout n =
      (load_credentials p (made p (record n { connect_timeout_ms = timeout }))).1

  abbrev is_late : ℕ → NetOnboarding p → Bool
  is_late now n = leb n.connect_timeout_ms (sub32 now n.connecting_since_ms)

  abbrev pub input : Call p → NetOnboarding p → Input
  input (begins timeout now) n = starts (has_value (stored_credentials timeout n))
  input (loops now) n = polls (is_late now n) (link_up p n)
  input (configures pin low now) n = other
  input (sets ssid pass now) n = tries (save_credentials p ssid pass n).1
  input (resets now) n = forgets
  input (scans most hidden) n = other
  input (times ms) n = other
  input (links w) n = other

  -- What the calls of a run meet, one after the other.
  abbrev pub inputs : List (Call p) → NetOnboarding p → List Input
  inputs [] n = []
  inputs (c ∷ cs) n = input c n ∷ inputs cs (step p c n)

  begin-next_state :
      (timeout now : ℕ) (n : NetOnboarding p)
      → (begin p timeout now n).st.state
        ≡ next_state (starts (has_value (stored_credentials timeout n))) n.st.state
  unfolding begin
  begin-next_state timeout now n =
      let m = load_credentials p (made p (record n { connect_timeout_ms = timeout })) in
      elim (Option-cases m.1) [
        | inl new ↦
            rw (new, begin) (enter_ap-state now m.0)
            ∙ sym (ap (λ o. next_state (starts (has_value o)) n.st.state) new)
        | inr (found, e) ↦
            rw (e, begin) (enter_connecting-state found.0 found.1 now m.0)
            ∙ sym (ap (λ o. next_state (starts (has_value o)) n.st.state) e)
      ]

  loop_in-next_state :
      (s : State) (now : ℕ) (n : NetOnboarding p)
      → n.st.state ≡ s
      → (loop_in p s now n).st.state ≡ next_state (polls (is_late now n) (link_up p n)) s
  unfolding loop_in check_link
  loop_in-next_state ap_active now n e = e
  loop_in-next_state connecting now n e = elim (Bool-cases (is_late now n)) [
    | inl late ↦ rw (late, loop_in) (enter_ap-state now n)
    | inr early ↦ elim (Bool-cases (link_up p n)) [
      | inl up ↦ rw (early, up, loop_in) (enter_connected-state now n)
      | inr down ↦ rw (early, down, loop_in) e
    ]
  ]
  loop_in-next_state connected now n e = elim (Bool-cases (link_up p n)) [
    | inl up ↦ rw (up, loop_in, check_link) e
    | inr down ↦ rw (down, loop_in, check_link) (enter_ap-state now n)
  ]

  set-next_state :
      (ssid pass : Bytes) (now : ℕ) (n : NetOnboarding p)
      → (set_credentials p ssid pass now n).0.st.state
        ≡ next_state (tries (save_credentials p ssid pass n).1) n.st.state
  unfolding set_credentials
  set-next_state ssid pass now n =
      let m = save_credentials p ssid pass n in
      elim (Bool-cases m.1) [
        | inl saved ↦ rw (saved, set_credentials) (enter_connecting-state ssid pass now m.0)
        | inr lost ↦ rw (lost, set_credentials) (ap (λ t. t.state) (save-led p ssid pass n).1)
      ]

  step-next_state :
      (c : Call p) (n : NetOnboarding p) → (step p c n).st.state ≡ next_state (input c n) n.st.state
  unfolding loop configure_status_led reset_credentials
  step-next_state (begins timeout now) n = begin-next_state timeout now n
  step-next_state (loops now) n = loop_in-next_state n.st.state now n refl
  step-next_state (configures pin low now) n = refl
  step-next_state (sets ssid pass now) n = set-next_state ssid pass now n
  step-next_state (resets now) n = enter_ap-state now (clear_credentials p n)
  step-next_state (scans most hidden) n = ap (λ t. t.state) (scan-led p most hidden n).1
  step-next_state (times ms) n = refl
  step-next_state (links w) n = refl

  -- Refinement: over any calls of the onboarding, and however the Wi-Fi changes between them, the
  -- state is the one that the diagram reaches. In it, `begin` starts an attempt where it finds
  -- credentials, else the access point; a loop gives an attempt up where its timeout is over, ends
  -- it connected where it is not and the link is up, and falls back to the access point where the
  -- link of a connected node is down; new credentials start an attempt where they were saved;
  -- a reset starts the access point; and no other call changes the state.
  pub run-reach :
      (cs : List (Call p)) (n : NetOnboarding p)
      → (run p cs n).st.state ≡ reach (inputs cs n) n.st.state
  run-reach [] n = refl
  run-reach (c ∷ cs) n =
      run-reach cs (step p c n) ∙ ap (reach (inputs cs (step p c n))) (step-next_state c n)
