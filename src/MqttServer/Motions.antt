-- ===== src/MqttServer/Motions.antt =====
-- The commands that wait for their motors.
use mathlib.Core.List.{append_assoc, append-nil}
use kinetic_mirror_matrix_es.Prelude.{
  ℕ, ◌≡◌, sym, ap, ◌∙◌, Bool, List, [], ◌∷◌, ◌++◌, map, if◌then◌else◌, Bool-cases, inl, inr, arith,
}
use kinetic_mirror_matrix_es.Motor.{MotorState}
use kinetic_mirror_matrix_es.MqttServer.{Payloads, Pending, Server, record_completed}
use kinetic_mirror_matrix_es.MqttServer.Dispatch.{
  complete_pending, finalize_completed, finalize_from, pending_payload,
}

-- The pending commands with motors that move, and the others.
abbrev pub waiting_on : (ℕ → Bool) → List Pending → List Pending
waiting_on moving [] = []
waiting_on moving (q ∷ qs) =
    let rest = waiting_on moving qs in if moving q.mask then q ∷ rest else rest

abbrev pub ended : (ℕ → Bool) → List Pending → List Pending
ended moving [] = []
ended moving (q ∷ qs) = let rest = ended moving qs in if moving q.mask then rest else q ∷ rest

module _ (p : Payloads) (moving : ℕ → Bool) (states : List MotorState) where
  complete-rest :
      (q : Pending) (s : Server)
      → ((complete_pending p states q s).pending ≡ s.pending)
        × ((complete_pending p states q s).published
            ≡ s.published ++ pending_payload p states q ∷ [])
  unfolding complete_pending record_completed
  complete-rest q s = ground arith

  finalize_from-parts :
      (qs : List Pending) (s : Server)
      → ((finalize_from p moving states qs s).pending ≡ s.pending ++ waiting_on moving qs)
        × ((finalize_from p moving states qs s).published
            ≡ s.published ++ map (pending_payload p states) (ended moving qs))
  unfolding finalize_from
  finalize_from-parts [] s = (sym (append-nil s.pending), sym (append-nil s.published))
  finalize_from-parts (q ∷ qs) s = elim (Bool-cases (moving q.mask)) [
    | inl y ↦
        (let (w, d) = finalize_from-parts qs (record s { pending = s.pending ++ q ∷ [] }) in
          rw (finalize_from, y) (w ∙ append_assoc s.pending (q ∷ []) (waiting_on moving qs), d))
    | inr n ↦
        (let (w, d) = finalize_from-parts qs (complete_pending p states q s) in
          let (k, l) = complete-rest q s in
          rw (finalize_from, n)
            (
              w ∙ ap (λ ps. ps ++ waiting_on moving qs) k,
              d
                  ∙ (ap (λ ps. ps ++ map (pending_payload p states) (ended moving qs)) l
                      ∙ append_assoc s.published (pending_payload p states q ∷ [])
                          (map (pending_payload p states) (ended moving qs))),
            ))
  ]

  -- The commands whose motors still move wait on, in their order, and for each other pending
  -- command one completion is published, in their order, and nothing else.
  pub finalize_completed-parts :
      (s : Server)
      → ((finalize_completed p moving states s).pending ≡ waiting_on moving s.pending)
        × ((finalize_completed p moving states s).published
            ≡ s.published ++ map (pending_payload p states) (ended moving s.pending))
  unfolding finalize_completed
  finalize_completed-parts s = finalize_from-parts s.pending (record s { pending = [] })
