-- ===== src/Motor/Mask.antt =====
-- Loops `for (i = 0; i < count_; ++i) if (mask & maskForId(i)) ...` over the motors of an array,
-- and their laws. Index i of a mask is its bit i.
use kinetic_mirror_matrix_es.Prelude.{
  ℕ, zero, suc, ◌+◌, ◌/◌, ◌%◌, ◌^◌, ◌≡◌, refl, ap, sym, ◌∙◌, Bool, true, false, ◌&&◌, ◌||◌, List,
  [], ◌∷◌, Option, none, some, arith, length, get_elem?, Bool-cases, inl, inr, ◌==◌, if◌then◌else◌,
}
use mathlib.Core.Option
use mathlib.Core.List.{map}
use mathlib.Core.Bool.{false≢true}

unfoldable pub selected : ℕ → ℕ → Bool
selected mask i = mask / 2 ^ i % 2 == 1

module _ {A : Type 0} where
  -- The assignments of a loop body to the motors that the mask selects, from index i on.
  unfoldable pub update_masked : ℕ → ℕ → (A → A) → List A → List A
  update_masked i mask f [] = []
  update_masked i mask f (x ∷ xs) =
      (if selected mask i then f x else x) ∷ update_masked (suc i) mask f xs

  -- `return true` from within such a loop.
  unfoldable pub any_masked : ℕ → ℕ → (A → Bool) → List A → Bool
  any_masked i mask p [] = false
  any_masked i mask p (x ∷ xs) = selected mask i && p x || any_masked (suc i) mask p xs

  pub length-update_masked :
      (i mask : ℕ) (f : A → A) (xs : List A) → length (update_masked i mask f xs) ≡ length xs
  unfolding update_masked
  length-update_masked i mask f [] = refl
  length-update_masked i mask f (x ∷ xs) = ap suc (length-update_masked (suc i) mask f xs)

  pub get_elem?-update_masked :
      (i mask : ℕ) (f : A → A) (xs : List A) (j : ℕ)
      → get_elem? (update_masked i mask f xs) j
        ≡ (if selected mask (i + j) then Option.map f (get_elem? xs j) else get_elem? xs j)
  unfolding update_masked
  get_elem?-update_masked i mask f [] j = ground arith
  get_elem?-update_masked i mask f (x ∷ xs) zero =
      let here : i + 0 ≡ i = omega arith in rw here (ground arith)
  get_elem?-update_masked i mask f (x ∷ xs) (suc j) =
      let there : i + suc j ≡ suc i + j = omega arith in
      rw there (get_elem?-update_masked (suc i) mask f xs j)

  pub any_masked-at :
      (i mask : ℕ) (p : A → Bool) (xs : List A) (j : ℕ) {x : A}
      → any_masked i mask p xs ≡ false
      → get_elem? xs j ≡ some x
      → selected mask (i + j) ≡ true
      → p x ≡ false
  unfolding any_masked
  any_masked-at i mask p [] j n e s = cc
  any_masked-at i mask p (x ∷ xs) zero {x = y} n e s =
      let here : i + 0 ≡ i = omega arith in
      let hit : selected mask i ≡ true = rw here at s in ground arith
  any_masked-at i mask p (x ∷ xs) (suc j) n e s =
      let there : i + suc j ≡ suc i + j = omega arith in
      any_masked-at (suc i) mask p xs j (ground arith) e (rw there at s)

pub get_elem?-map :
    {A B : Type 0} (f : A → B) (xs : List A) (j : ℕ)
    → get_elem? (map f xs) j ≡ Option.map f (get_elem? xs j)
get_elem?-map f [] j = refl
get_elem?-map f (x ∷ xs) zero = refl
get_elem?-map f (x ∷ xs) (suc j) = get_elem?-map f xs j

pub map-eq-some :
    {A B : Type 0} (f : A → B) (o : Option A) {b : B}
    → Option.map f o ≡ some b
    → (a : A) × (o ≡ some a) × (f a ≡ b)
map-eq-some f none e = cc
map-eq-some f (some a) e = (a, refl, ground arith)

pub any_masked-find :
    {A : Type 0} (i mask : ℕ) (p : A → Bool) (xs : List A)
    → any_masked i mask p xs ≡ true
    → (j : ℕ) × (x : A) × (get_elem? xs j ≡ some x) × (selected mask (i + j) ≡ true) × (p x ≡ true)
unfolding any_masked
any_masked-find i mask p [] e = absurd (false≢true e)
any_masked-find i mask p (x ∷ xs) e = elim (Bool-cases (selected mask i && p x)) [
  | inl hit ↦
      (0, x, refl, (let here : i + 0 ≡ i = omega arith in rw here (ground arith)), ground arith)
  | inr miss ↦
      let (j, y, at, sel, holds) = any_masked-find (suc i) mask p xs (ground arith) in
      let there : i + suc j ≡ suc i + j = omega arith in (suc j, y, at, rw there sel, holds)
]

-- The laws for a loop over the whole array.
pub get_elem?-update :
    {A : Type 0} (mask : ℕ) (f : A → A) (xs : List A) (j : ℕ)
    → get_elem? (update_masked 0 mask f xs) j
      ≡ (if selected mask j then Option.map f (get_elem? xs j) else get_elem? xs j)
get_elem?-update mask f xs j =
    let e : 0 + j ≡ j = omega arith in rw e at (get_elem?-update_masked 0 mask f xs j)

pub any-at :
    {A : Type 0} (mask : ℕ) (p : A → Bool) (xs : List A) (j : ℕ) {x : A}
    → any_masked 0 mask p xs ≡ false
    → get_elem? xs j ≡ some x
    → selected mask j ≡ true
    → p x ≡ false
any-at mask p xs j n e s =
    let here : 0 + j ≡ j = omega arith in any_masked-at 0 mask p xs j n e (rw here s)

-- Some selected element passes the test.
abbrev pub Hit : {A : Type 0} → ℕ → (A → Bool) → List A → Type 0
Hit {A} mask p xs =
    (j : ℕ) × (x : A) × (get_elem? xs j ≡ some x) × (selected mask j ≡ true) × (p x ≡ true)

pub any-find :
    {A : Type 0} (mask : ℕ) (p : A → Bool) (xs : List A)
    → any_masked 0 mask p xs ≡ true
    → Hit mask p xs
any-find mask p xs e =
    let (j, x, at, s, holds) = any_masked-find 0 mask p xs e in
    let here : 0 + j ≡ j = omega arith in (j, x, at, rw here at s, holds)

pub any-Hit :
    {A : Type 0} (mask : ℕ) (p : A → Bool) (xs : List A)
    → Hit mask p xs
    → any_masked 0 mask p xs ≡ true
any-Hit mask p xs (j, x, at, s, holds) = elim (Bool-cases (any_masked 0 mask p xs)) [
  | inl e ↦ e
  | inr e ↦ absurd (false≢true (sym (any-at mask p xs j e at s) ∙ holds))
]

pub any_masked-none :
    {A : Type 0} (i mask : ℕ) (xs : List A) → any_masked i mask (λ _. false) xs ≡ false
unfolding any_masked
any_masked-none i mask [] = refl
any_masked-none i mask (x ∷ xs) = ground (arith, any_masked-none (suc i) mask xs)

-- A property of every element of a list.
abbrev pub All {ℓ} : {A : Type 0} → (A → Type ℓ) → List A → Type ℓ
All P [] = Unit
All P (x ∷ xs) = P x × All P xs

pub All-update_masked :
    {A : Type 0} (P : A → Type 0) (i mask : ℕ) (f : A → A) (ok : A → Bool) (xs : List A)
    → ((x : A) → P x → ok x ≡ false → P (f x))
    → any_masked i mask ok xs ≡ false
    → All P xs
    → All P (update_masked i mask f xs)
unfolding update_masked any_masked
All-update_masked P i mask f ok [] keep n h = tt
All-update_masked P i mask f ok (x ∷ xs) keep n h = elim (Bool-cases (selected mask i)) [
  | inl hit ↦
      rw hit (
        keep x h.0 (ground arith),
        All-update_masked P (suc i) mask f ok xs keep (ground arith) h.1,
      )
  | inr miss ↦ rw miss (h.0, All-update_masked P (suc i) mask f ok xs keep (ground arith) h.1)
]

pub All-map :
    {A B : Type 0} (P : A → Type 0) (Q : B → Type 0) (f : A → B) (xs : List A)
    → ((x : A) → P x → Q (f x))
    → All P xs
    → All Q (map f xs)
All-map P Q f [] keep h = tt
All-map P Q f (x ∷ xs) keep h = (keep x h.0, All-map P Q f xs keep h.1)
