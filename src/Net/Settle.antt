-- ===== src/Net/Settle.antt =====
-- An attempt to connect comes to an end.
use kinetic_mirror_matrix_es.Prelude.{
  ℕ, ◌≡◌, refl, ap, ◌∙◌, Bool, true, false, List, [], ◌∷◌, ◌++◌, ◌⊎◌, ◌≤◌, arith, leb, sub32,
  Bool-cases, inl, inr,
}
use kinetic_mirror_matrix_es.Net.{NetOnboarding, Platform, State, ap_active, connected, connecting}
use kinetic_mirror_matrix_es.Net.Calls.{relink}
use kinetic_mirror_matrix_es.Net.Diagram.{enter_ap-state, enter_connected-state}
use kinetic_mirror_matrix_es.Net.Operations.{check_link, link_up, loop, loop_in}

abbrev pub is_connecting : State → Bool
is_connecting connecting = true
is_connecting _ = false

module _ (p : Platform) where
  -- Calls of `loop`, each with the Wi-Fi as it has come to be by then, and the time.
  abbrev pub run_loops : List (p.Wifi × ℕ) → NetOnboarding p → NetOnboarding p
  run_loops [] n = n
  run_loops ((w, t) ∷ ts) n = run_loops ts (loop p t (relink p w n))

  -- The attempt is over, or it is the same one.
  abbrev Waits : ℕ → ℕ → NetOnboarding p → Type 0
  Waits since timeout n =
      (is_connecting n.st.state ≡ false)
      ⊎ ((n.connecting_since_ms ≡ since) × (n.connect_timeout_ms ≡ timeout))

  loop_in-over :
      (s : State) (now : ℕ) (n : NetOnboarding p)
      → n.st.state ≡ s
      → is_connecting s ≡ false
      → is_connecting (loop_in p s now n).st.state ≡ false
  unfolding loop_in check_link
  loop_in-over ap_active now n e h = ap is_connecting e
  loop_in-over connecting now n e h = cc
  loop_in-over connected now n e h = elim (Bool-cases (link_up p n)) [
    | inl up ↦ rw (up, loop_in, check_link) (ap is_connecting e)
    | inr down ↦ rw (down, loop_in, check_link) (ap is_connecting (enter_ap-state p now n))
  ]

  loop_in-late :
      (s : State) (now : ℕ) (n : NetOnboarding p)
      → n.st.state ≡ s
      → leb n.connect_timeout_ms (sub32 now n.connecting_since_ms) ≡ true
      → is_connecting (loop_in p s now n).st.state ≡ false
  unfolding loop_in
  loop_in-late ap_active now n e late = loop_in-over ap_active now n e refl
  loop_in-late connected now n e late = loop_in-over connected now n e refl
  loop_in-late connecting now n e late =
      rw (late, loop_in) (ap is_connecting (enter_ap-state p now n))

  loop_in-Waits :
      (s : State) (now : ℕ) (n : NetOnboarding p)
      → n.st.state ≡ s
      → Waits n.connecting_since_ms n.connect_timeout_ms (loop_in p s now n)
  unfolding loop_in
  loop_in-Waits ap_active now n e = inr (refl, refl)
  loop_in-Waits connected now n e = inl (loop_in-over connected now n e refl)
  loop_in-Waits connecting now n e =
      elim (Bool-cases (leb n.connect_timeout_ms (sub32 now n.connecting_since_ms))) [
        | inl late ↦ inl (loop_in-late connecting now n e late)
        | inr early ↦ elim (Bool-cases (link_up p n)) [
          | inl up ↦
              inl (rw (early, up, loop_in) (ap is_connecting (enter_connected-state p now n)))
          | inr down ↦ inr (rw (early, down, loop_in) (refl, refl))
        ]
      ]

  loop-Waits :
      (since timeout now : ℕ) (n : NetOnboarding p)
      → Waits since timeout n
      → Waits since timeout (loop p now n)
  unfolding loop
  loop-Waits since timeout now n (inl over) = inl (loop_in-over n.st.state now n refl over)
  loop-Waits since timeout now n (inr (s, t)) = elim (loop_in-Waits n.st.state now n refl) [
    | inl over ↦ inl over
    | inr (s', t') ↦ inr (s' ∙ s, t' ∙ t)
  ]

  late-over :
      (since timeout t : ℕ) (n : NetOnboarding p)
      → leb timeout (sub32 t since) ≡ true
      → Waits since timeout n
      → is_connecting (loop p t n).st.state ≡ false
  unfolding loop
  late-over since timeout t n late (inl over) = loop_in-over n.st.state t n refl over
  late-over since timeout t n late (inr (s, k)) = loop_in-late n.st.state t n refl (rw (s, k) late)

  loops-over :
      (since timeout t : ℕ) (w : p.Wifi) (ts : List (p.Wifi × ℕ)) (n : NetOnboarding p)
      → leb timeout (sub32 t since) ≡ true
      → Waits since timeout n
      → is_connecting (run_loops (ts ++ ((w, t) ∷ [])) n).st.state ≡ false
  loops-over since timeout t w [] n late h = late-over since timeout t (relink p w n) late h
  loops-over since timeout t w ((v, u) ∷ ts) n late h =
      loops-over since timeout t w ts (loop p u (relink p v n)) late
        (loop-Waits since timeout u (relink p v n) h)

  -- Liveness: however the Wi-Fi changes before each loop, and however often the loop runs in between, the first time
  -- that it runs when the timeout is over, in 32-bit time since the start of the attempt, the
  -- onboarding no longer tries to connect.
  pub loops-settle :
      (t : ℕ) (w : p.Wifi) (ts : List (p.Wifi × ℕ)) (n : NetOnboarding p)
      → n.connect_timeout_ms ≤ sub32 t n.connecting_since_ms
      → is_connecting (run_loops (ts ++ ((w, t) ∷ [])) n).st.state ≡ false
  loops-settle t w ts n late =
      loops-over n.connecting_since_ms n.connect_timeout_ms t w ts n (ground arith)
        (inr (refl, refl))
