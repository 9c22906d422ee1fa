-- ===== src/Text/Trim.antt =====
-- What `Trim` removes.
use kinetic_mirror_matrix_es.Prelude.{
  ◌≡◌, refl, sym, ap, subst, ◌∙◌, Bool, true, false, ◌&&◌, [], ◌∷◌, ◌++◌, arith, Bool-cases, inl,
  inr, if◌then◌else◌,
}
use mathlib.Core.Bool.{false≢true}
use kinetic_mirror_matrix_es.Text.{Bytes, is_empty, is_space, drop_spaces, drop_last_spaces, trim}

-- Only white space.
abbrev pub Blank : Bytes → Type 0
Blank [] = Unit
Blank (c ∷ s) = (is_space c ≡ true) × Blank s

abbrev pub starts_blank : Bytes → Bool
starts_blank [] = false
starts_blank (c ∷ s) = is_space c

abbrev pub ends_blank : Bytes → Bool
ends_blank [] = false
ends_blank (c ∷ s) = if is_empty s then is_space c else ends_blank s

drop_spaces-split :
    (s : Bytes)
    → (l : Bytes) × Blank l × (s ≡ l ++ drop_spaces s) × (starts_blank (drop_spaces s) ≡ false)
unfolding drop_spaces
drop_spaces-split [] = ([], tt, refl, refl)
drop_spaces-split (c ∷ s) = elim (Bool-cases (is_space c)) [
  | inr letter ↦ rw (letter, drop_spaces) ([], tt, refl, letter)
  | inl space ↦
      let (l, blank, whole, start) = drop_spaces-split s in
      (
        c ∷ l,
        (space, blank),
        rw (space, drop_spaces) (ap {B = Bytes} (λ r. c ∷ r) whole),
        rw (space, drop_spaces) start,
      )
]

pub empty-nil : (s : Bytes) → is_empty s ≡ true → s ≡ []
empty-nil [] e = refl
empty-nil (c ∷ s) e = absurd (false≢true e)

drop_last_spaces-split :
    (s : Bytes)
    → (r : Bytes) × Blank r
      × (s ≡ drop_last_spaces s ++ r)
      × (ends_blank (drop_last_spaces s) ≡ false)
unfolding drop_last_spaces
drop_last_spaces-split [] = ([], tt, refl, refl)
drop_last_spaces-split (c ∷ s) =
    let (r, blank, whole, end) = drop_last_spaces-split s in
    elim (Bool-cases (is_empty (drop_last_spaces s) && is_space c)) [
      | inl last ↦
          let gone = empty-nil (drop_last_spaces s) (ground arith) in
          let all = whole ∙ ap (λ t. t ++ r) gone in
          (
            c ∷ s,
            (ground arith, subst Blank (sym all) blank),
            rw (last, drop_last_spaces) refl,
            rw (last, drop_last_spaces) refl,
          )
      | inr inner ↦ (
        r,
        blank,
        rw (inner, drop_last_spaces) (ap {B = Bytes} (λ t. c ∷ t) whole),
        rw (inner, drop_last_spaces) (ground arith),
      )
    ]

starts-append :
    (s t : Bytes) → is_empty s ≡ false → starts_blank (s ++ t) ≡ false → starts_blank s ≡ false
starts-append [] t n h = refl
starts-append (c ∷ s) t n h = h

-- A text is white space, then what `Trim` gives, then white space; and what it gives neither
-- starts nor ends with white space.
pub trim-split :
    (s : Bytes)
    → (l : Bytes) × (r : Bytes) × Blank l
      × Blank r
      × (s ≡ l ++ (trim s ++ r))
      × (starts_blank (trim s) ≡ false)
      × (ends_blank (trim s) ≡ false)
unfolding trim
trim-split s =
    let (l, blank_l, whole_l, start) = drop_spaces-split s in
    let (r, blank_r, whole_r, end) = drop_last_spaces-split (drop_spaces s) in
    (
      l,
      r,
      blank_l,
      blank_r,
      whole_l ∙ ap (λ t. l ++ t) whole_r,
      elim (Bool-cases (is_empty (trim s))) [
        | inl blank ↦ ap starts_blank (empty-nil (trim s) blank)
        | inr text ↦ starts-append (trim s) r text (ap starts_blank (sym whole_r) ∙ start)
      ],
      end,
    )
