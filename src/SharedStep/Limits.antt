-- ===== src/SharedStep/Limits.antt =====
-- The speed of the ramp and of the generator.
use kinetic_mirror_matrix_es.Prelude.{ℕ, ltb, if◌then◌else◌}

abbrev max : ℕ → ℕ → ℕ
max a b = if ltb a b then b else a
