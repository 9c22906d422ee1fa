-- ===== src/Net/Portal/Guards.antt =====
-- What the portal accepts.
use kinetic_mirror_matrix_es.Prelude.{
  ℕ, ◌≡◌, ◌≤◌, ◌⊎◌, inl, inr, true, false, ◌&&◌, ◌||◌, arith, length, ltb, ◌==◌, Bool-cases,
}
use kinetic_mirror_matrix_es.Text.{Bytes}
use kinetic_mirror_matrix_es.Net.{NetOnboarding, Platform, connecting}
use kinetic_mirror_matrix_es.Net.Diagram.{enter_connecting-state}
use kinetic_mirror_matrix_es.Net.Operations.{save_credentials, set_credentials}
use kinetic_mirror_matrix_es.Net.Portal.{handle_api_wifi_logic, is_busy}

module _ (p : Platform) where
  set_credentials-connects :
      (ssid pass : Bytes) (now : ℕ) (n : NetOnboarding p)
      → (set_credentials p ssid pass now n).1 ≡ true
      → (set_credentials p ssid pass now n).0.st.state ≡ connecting
  unfolding set_credentials
  set_credentials-connects ssid pass now n ok =
      elim (Bool-cases (save_credentials p ssid pass n).1) [
        | inl saved ↦
            rw (saved, set_credentials)
              (enter_connecting-state p ssid pass now (save_credentials p ssid pass n).0)
        | inr lost ↦ let bad : false ≡ true = rw (lost, set_credentials) at ok in cc
      ]

  abbrev pub PassFits : Bytes → Type 0
  PassFits pass = (length pass ≡ 0) ⊎ ((8 ≤ length pass) × (length pass ≤ 63))

  pass_fits :
      (pass : Bytes)
      → (ltb 0 (length pass) && ltb (length pass) 8) ≡ false
      → (ltb 0 (length pass) && ltb 63 (length pass)) ≡ false
      → PassFits pass
  pass_fits pass a b = ground arith

  -- A request for `/api/wifi` that is answered with the status 200: no attempt was under way, the
  -- name of the network has 1 to 32 bytes, the password none or 8 to 63, and an attempt has begun.
  pub wifi-accepted :
      (ssid pass : Bytes) (now : ℕ) (n : NetOnboarding p)
      → (handle_api_wifi_logic p ssid pass now n).0.status ≡ 200
      → (is_busy n.st.state ≡ false)
        × (1 ≤ length ssid)
        × (length ssid ≤ 32)
        × PassFits pass
        × ((handle_api_wifi_logic p ssid pass now n).1.st.state ≡ connecting)
  unfolding handle_api_wifi_logic
  wifi-accepted ssid pass now n ok = elim (Bool-cases (is_busy n.st.state)) [
    | inl busy ↦ absurd (omega (arith, (rw (busy, handle_api_wifi_logic) at ok)))
    | inr free ↦ elim (Bool-cases (length ssid == 0 || ltb 32 (length ssid))) [
      | inl long ↦ absurd (omega (arith, (rw (free, long, handle_api_wifi_logic) at ok)))
      | inr fits ↦ elim (Bool-cases (ltb 0 (length pass) && ltb (length pass) 8)) [
        | inl short ↦ absurd (omega (arith, (rw (free, fits, short, handle_api_wifi_logic) at ok)))
        | inr least ↦ elim (Bool-cases (ltb 0 (length pass) && ltb 63 (length pass))) [
          | inl long ↦
              absurd (omega (arith, (rw (free, fits, least, long, handle_api_wifi_logic) at ok)))
          | inr most ↦ elim (Bool-cases (set_credentials p ssid pass now n).1) [
            | inr lost ↦
                absurd
                  (omega (arith, (rw (free, fits, least, most, lost, handle_api_wifi_logic) at ok)))
            | inl saved ↦ (
              free,
              ground arith,
              ground arith,
              pass_fits pass least most,
              rw (free, fits, least, most, saved, handle_api_wifi_logic)
                  (set_credentials-connects ssid pass now n saved),
            )
          ]
        ]
      ]
    ]
  ]
