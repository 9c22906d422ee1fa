-- ===== src/MessageIds.antt =====
-- lib/transport/src/MessageId.cpp: the ids of messages. The generator is a parameter, the sequence
-- of the texts that it returns; the mutex and the UUID factory are left out.
use kinetic_mirror_matrix_es.Prelude.{
  ℕ, zero, suc, ◌+◌, ◌≤◌, ◌≡◌, refl, ◌∙◌, ap, subst, Bool, true, false, not, ◌&&◌, Option, none,
  some, arith, [], if◌then◌else◌, Bool-cases, inl, inr,
}
use kinetic_mirror_matrix_es.Text.{Bytes, eq_bytes, is_empty}

-- `drawn` counts the calls of the generator.
pub record Ids : Type 0 where
  pub drawn : ℕ
  pub active_id : Bytes
  pub last_issued_id : Bytes

and_false : (a b : Bool) → b ≡ false → (a && b) ≡ false
and_false a b e = ground arith

taken : {A : Type 0} {t : Bool} (x y : A) → t ≡ false → (if t then x else y) ≡ y
taken x y e = rw e refl

again : {A : Type 0} {t : Bool} (x y : A) → t ≡ true → (if t then x else y) ≡ x
again x y e = rw e refl

module _ (generator : ℕ → Bytes) where
  -- The `do` loop; `none` where the fuel is spent.
  unfoldable pub draw_other : ℕ → Bytes → ℕ → Option ℕ
  draw_other zero active n = none
  draw_other (suc fuel) active n =
      let rest = draw_other fuel active (suc n) in
      if not (is_empty active) && eq_bytes (generator n) active then rest else some n

  -- The id that was issued last is drawn again once.
  unfoldable pub issue_id : ℕ → Ids → Bytes × Ids
  issue_id n s =
      let m =
        if not (is_empty s.last_issued_id) && eq_bytes (generator n) s.last_issued_id
        then suc n
        else n in
      (generator m, record s { drawn = suc m; last_issued_id = generator m })

  unfoldable pub next : ℕ → Ids → Option (Bytes × Ids)
  unfolding draw_other issue_id
  next fuel s = elim (draw_other fuel s.active_id s.drawn) [
    | none ↦ none
    | some n ↦ some (issue_id n s)
  ]

  abbrev pub set_active : Bytes → Ids → Ids
  set_active msg_id s = record s { active_id = msg_id }

  abbrev pub has_active : Ids → Bool
  has_active s = not (is_empty s.active_id)

  abbrev pub clear_active : Ids → Ids
  clear_active s = record s { active_id = [] }

  draw-ends :
      (k : ℕ) (active : Bytes) (n : ℕ)
      → eq_bytes (generator (n + k)) active ≡ false
      → (m : ℕ) × (draw_other (suc k) active n ≡ some m) × (m ≤ n + k)
  unfolding draw_other
  draw-ends zero active n h =
      let e : (eq_bytes (generator n) active ≡ false) =
        subst (λ i. eq_bytes (generator i) active ≡ false) (omega arith) h in
      (n, taken none (some n) (and_false _ _ e), omega arith)
  draw-ends (suc k) active n h =
      elim (Bool-cases (not (is_empty active) && eq_bytes (generator n) active)) [
        | inl y ↦
            (let (m, e, l) =
                draw-ends k active (suc n)
                  (subst (λ i. eq_bytes (generator i) active ≡ false) (omega arith) h) in
              (m, again _ (some n) y ∙ e, omega (arith, l)))
        | inr z ↦ (n, taken _ (some n) z, omega arith)
      ]

  -- If one of the next k + 1 texts of the generator is not the active id, the loop of `Next` ends
  -- within k + 1 rounds: with that fuel there is an id, it is the text that the generator returned
  -- last and the one that is kept as issued last, the generator is called at most k + 2 times, and
  -- the active id stays.
  pub next-ends :
      (k : ℕ) (s : Ids)
      → eq_bytes (generator (s.drawn + k)) s.active_id ≡ false
      → (m : ℕ) × (next (suc k) s
          ≡ some (generator m, record s { drawn = suc m; last_issued_id = generator m }))
        × (m ≤ s.drawn + k + 1)
  unfolding next issue_id
  next-ends k s h =
      let (n, e, l) = draw-ends k s.active_id s.drawn h in
      let m =
        if not (is_empty s.last_issued_id) && eq_bytes (generator n) s.last_issued_id
        then suc n
        else n in
      (m, ap (λ o. elim o [ none ↦ none | some i ↦ some (issue_id i s) ]) e, ground (arith, l))
