-- ===== src/Handlers/MqttConfig/Reported.antt =====
-- lib/MotorControl/src/command/CommandHandlers.cpp, `MqttConfigCommandHandler::execute`: its answers
-- and the settings.
use kinetic_mirror_matrix_es.Prelude.{
  ℕ, ◌≡◌, ◌⊎◌, inl, inr, refl, sym, ap, List, [], ◌∷◌, some, Bool-cases, Option-cases,
}
use kinetic_mirror_matrix_es.ConfigStore.{
  ConfigStore, ConfigUpdate, apply_update, current_config, ensure_loaded_locked, fault, set_error,
}
use kinetic_mirror_matrix_es.ConfigStore.Checks.{
  ensure_loaded-twice, apply_loaded-accepts, apply_loaded-refuses, updated,
}
use kinetic_mirror_matrix_es.Controller.{MotorController}
use kinetic_mirror_matrix_es.Text.{Bytes, codes, eq_bytes, is_empty, to_upper_copy, trim}
use kinetic_mirror_matrix_es.Transport.{Field, make_error_line}
use kinetic_mirror_matrix_es.Handlers.{Context, issue, make_result_with_line}
use kinetic_mirror_matrix_es.Handlers.Query.{make_done_fields}
use kinetic_mirror_matrix_es.Handlers.MqttConfig.{
  Built, Outcome, build_update, built, config_fields, execute_config, faulty, refuse_config,
  report_config, run_config, set_config, split_args,
}

current-loaded :
    (s : ConfigStore) → (current_config (ensure_loaded_locked s)).1 ≡ (current_config s).1
unfolding current_config
current-loaded s = ap (λ t. t.current) (ensure_loaded-twice s)

module _ (ctl : MotorController) where
  -- An error line, and the settings as they were.
  pub record Refused (msg_id : Bytes) (store : ConfigStore) (o : Outcome ctl) : Type 0 where
    pub code : Bytes
    pub reason : Bytes
    pub fields : List Field
    pub line : o.0.0.lines ≡ make_error_line msg_id code reason fields ∷ []
    pub same : (current_config o.1).1 ≡ (current_config store).1

  -- A DONE line with the settings that are in use.
  pub record Done (msg_id : Bytes) (x : Context ctl) (o : Outcome ctl) : Type 0 where
    pub reply :
        o.0 ≡ make_done_fields ctl (codes "MQTT") msg_id (config_fields (current_config o.1).1) x

  refuse-Refused :
      (msg_id code reason : Bytes) (fields : List Field) (x : Context ctl) (s store : ConfigStore)
      → (current_config s).1 ≡ (current_config store).1
      → Refused msg_id store (refuse_config ctl msg_id code reason fields x s)
  unfolding make_result_with_line
  refuse-Refused msg_id code reason fields x s store h = record {
    code = code;
    reason = reason;
    fields = fields;
    line = refl;
    same = h;
  }

  report-Done :
      (msg_id : Bytes) (x : Context ctl) (store : ConfigStore)
      → Done msg_id x (report_config ctl msg_id x store)
  unfolding report_config current_config
  report-Done msg_id x store = record {
    reply =
        ap (λ cfg. make_done_fields ctl (codes "MQTT") msg_id (config_fields cfg) x)
          (sym (current-loaded store));
  }

  set_config-Answers :
      (b : Built ConfigUpdate) (msg_id : Bytes) (x : Context ctl) (store : ConfigStore)
      → Refused msg_id store (set_config ctl b msg_id x store)
        ⊎ Done msg_id x (set_config ctl b msg_id x store)
  unfolding set_config apply_update set_error
  set_config-Answers (faulty f) msg_id x store =
      inl (refuse-Refused msg_id _ f.reason f.fields x store store refl)
  set_config-Answers (built u) msg_id x store = elim (Option-cases (fault u)) [
    | inl ok ↦
        rw (apply_loaded-accepts (ensure_loaded_locked store) u (some []) ok)
          (inr (report-Done msg_id x (updated (ensure_loaded_locked store) u)))
    | inr (msg, bad) ↦ rw (apply_loaded-refuses (ensure_loaded_locked store) u (some []) msg bad) (
        inl
          (refuse-Refused msg_id _ _ _ x (ensure_loaded_locked store) store (current-loaded store)))
  ]

  -- Every MQTT command is answered in one of two ways: by one error line, with the settings as
  -- they were, or by one DONE line that shows the settings in use after the command.
  pub execute_config-answers :
      (next_id : ℕ → Bytes) (args : Bytes) (x : Context ctl) (store : ConfigStore)
      → Refused (next_id x.issued) store (execute_config ctl next_id args x store)
        ⊎ Done (next_id x.issued) (issue ctl x) (execute_config ctl next_id args x store)
  unfolding execute_config
  execute_config-answers next_id args x store = elim (Bool-cases (is_empty (trim args))) [
    | inl none_given ↦
        rw none_given (inl (refuse-Refused (next_id x.issued) _ _ _ (issue ctl x) store store refl))
    | inr given ↦ rw given (run (split_args (trim args)).0 (split_args (trim args)).1)
  ]
    where
      run :
          (sub tail : Bytes)
          → Refused
              (next_id x.issued)
              store
              (run_config ctl sub tail (next_id x.issued) (issue ctl x) store)
            ⊎ Done
                (next_id x.issued)
                (issue ctl x)
                (run_config ctl sub tail (next_id x.issued) (issue ctl x) store)
      run sub tail = elim (Bool-cases (eq_bytes (to_upper_copy sub) (codes "GET_CONFIG"))) [
        | inl get ↦ elim (Bool-cases (is_empty tail)) [
          | inl plain ↦ rw (get, plain) (inr (report-Done _ (issue ctl x) store))
          | inr more ↦
              rw (get, more)
                (inl (refuse-Refused (next_id x.issued) _ _ _ (issue ctl x) store store refl))
        ]
        | inr other ↦ elim (Bool-cases (eq_bytes (to_upper_copy sub) (codes "SET_CONFIG"))) [
          | inl set ↦
              rw (other, set)
                (set_config-Answers (build_update tail) (next_id x.issued) (issue ctl x) store)
          | inr unknown ↦
              rw (other, unknown)
                (inl (refuse-Refused (next_id x.issued) _ _ _ (issue ctl x) store store refl))
        ]
      ]
