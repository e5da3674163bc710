-- ===== src/Database/Rows.antt =====
-- The rows of a table, whatever their order.
pub mod Same
pub mod Laws
use mkrepo.Base.{Bool, true, false, ◌≡◌, ◌≢◌, refl, sym, ap, ◌∙◌, ◌↔◌, ◌⊎◌, inl, inr}
use mkrepo.Base.{Option, none, some, List, [], ◌∷◌, arith, All, Elem, any, find, without, update}
use mkrepo.Base.{Bool-cases, Option-cases, if◌then◌else◌}
use mathlib.Core.Path.{subst}
use mkrepo.Database.Effects.{Elem-without_iff, find_sound}

module _ {A : Type 0} where
  abbrev pub SameItems : List A → List A → Type 0
  SameItems xs ys = (x : A) → Elem x xs ↔ Elem x ys

  pub SameItems-cons : (y : A) (xs ys : List A) → SameItems xs ys → SameItems (y ∷ xs) (y ∷ ys)
  SameItems-cons y xs ys same x = ground (arith, same x)

  module _ (p : A → Bool) where
    any_of_Elem : (x : A) (xs : List A) → Elem x xs → p x ≡ true → any p xs ≡ true
    any_of_Elem x [] e h = elim e [ ]
    any_of_Elem x (y ∷ ys) e h = elim e [
      | inl same ↦ let k = subst (λ z. p z ≡ true) same h in ground arith
      | inr later ↦ let k = any_of_Elem x ys later h in ground arith
    ]

    Elem_of_any : (xs : List A) → any p xs ≡ true → (x : A) × Elem x xs × (p x ≡ true)
    Elem_of_any [] h = cc
    Elem_of_any (y ∷ ys) h = elim (Bool-cases (p y)) [
      | inl hit ↦ (y, inl refl, hit)
      | inr miss ↦ let (x, e, t) = Elem_of_any ys (rw miss at h) in (x, inr e, t)
    ]

    any-true : (xs ys : List A) → SameItems xs ys → any p xs ≡ true → any p ys ≡ true
    any-true xs ys same h = let (x, e, t) = Elem_of_any xs h in any_of_Elem x ys ((same x).0 e) t

    pub any-SameItems : (xs ys : List A) → SameItems xs ys → any p xs ≡ any p ys
    any-SameItems xs ys same =
        let forth = any-true xs ys same in
        let back = any-true ys xs (λ x. ((same x).1, (same x).0)) in
        elim (Bool-cases (any p xs)) [
          | inl held ↦ held ∙ sym (forth held)
          | inr never ↦ elim (Bool-cases (any p ys)) [
            | inl held ↦ back held ∙ sym held
            | inr also ↦ never ∙ sym also
          ]
        ]

    -- The test selects one item at most.
    abbrev pub SelectsOne : List A → Type 0
    SelectsOne xs = (x y : A) → Elem x xs → Elem y xs → p x ≡ true → p y ≡ true → x ≡ y

    find_of_any : (xs : List A) → any p xs ≡ true → (x : A) × (find p xs ≡ some x)
    find_of_any [] h = cc
    find_of_any (y ∷ ys) h = elim (Bool-cases (p y)) [
      | inl hit ↦ (y, rw hit refl)
      | inr miss ↦ let (x, e) = find_of_any ys (rw miss at h) in (x, rw miss e)
    ]

    find_of_none : (xs : List A) → any p xs ≡ false → find p xs ≡ none
    find_of_none [] h = refl
    find_of_none (y ∷ ys) h = ground (arith, find_of_none ys)

    pub find-SameItems : (xs ys : List A) → SameItems xs ys → SelectsOne xs → find p xs ≡ find p ys
    find-SameItems xs ys same one = elim (Bool-cases (any p xs)) [
      | inl held ↦
          let (x, found) = find_of_any xs held in
          let (y, also) = find_of_any ys (sym (any-SameItems xs ys same) ∙ held) in
          let (ex, px) = find_sound p xs found in
          let (ey, py) = find_sound p ys also in
          found ∙ ap some (one x y ex ((same y).1 ey) px py) ∙ sym also
      | inr never ↦
          find_of_none xs never ∙ sym (find_of_none ys (sym (any-SameItems xs ys same) ∙ never))
    ]

    pub SameItems-without :
        (xs ys : List A) → SameItems xs ys → SameItems (without p xs) (without p ys)
    SameItems-without xs ys same x =
        ground (arith, same x, Elem-without_iff p x xs, Elem-without_iff p x ys)

    module _ (f : A → A) where
      updated : A → A
      updated x = if p x then f x else x

      Elem-update : (x : A) (xs : List A) → Elem x xs → Elem (updated x) (update p f xs)
      unfolding updated
      Elem-update x [] e = elim e [ ]
      Elem-update x (y ∷ ys) e = elim e [
        | inl same ↦ inl (ap (λ z. if p z then f z else z) same)
        | inr later ↦ inr (Elem-update x ys later)
      ]

      Elem_of_update :
          (y : A) (xs : List A) → Elem y (update p f xs) → (x : A) × Elem x xs × (y ≡ updated x)
      unfolding updated
      Elem_of_update y [] e = elim e [ ]
      Elem_of_update y (x ∷ xs) e = elim e [
        | inl same ↦ (x, inl refl, same)
        | inr later ↦ let (z, ez, made) = Elem_of_update y xs later in (z, inr ez, made)
      ]

      moved :
          (xs ys : List A)
          → SameItems xs ys
          → (y : A) → Elem y (update p f xs)
          → Elem y (update p f ys)
      moved xs ys same y e =
          let (x, ex, made) = Elem_of_update y xs e in
          subst (λ z. Elem z (update p f ys)) (sym made) (Elem-update x ys ((same x).0 ex))

      pub SameItems-update :
          (xs ys : List A) → SameItems xs ys → SameItems (update p f xs) (update p f ys)
      SameItems-update xs ys same y =
          (moved xs ys same y, moved ys xs (λ x. ((same x).1, (same x).0)) y)
