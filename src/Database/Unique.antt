-- ===== src/Database/Unique.antt =====
-- Keys that no two rows share, and how the walks over a table keep them.
use mkrepo.Base.{Bool, false, ◌≡◌, ◌≢◌, ◌∙◌, inl, inr, List, [], ◌∷◌, arith, All}
use mkrepo.Base.{any, without, update, Bool-cases}

module _ {A K : Type 0} (key : A → K) where
  abbrev pub Unique : List A → Type 0
  Unique [] = Unit
  Unique (x ∷ xs) = All (λ y. key x ≢ key y) xs × Unique xs

module _ {A : Type 0} (P : A → Type 0) where
  pub All-without : (p : A → Bool) (xs : List A) → All P xs → All P (without p xs)
  All-without p [] h = tt
  All-without p (x ∷ xs) h = ground (arith, All-without p xs h.1)

  pub All-update :
      (p : A → Bool) (f : A → A) (xs : List A)
      → ((x : A) → P x → P (f x))
      → All P xs
      → All P (update p f xs)
  All-update p f [] keep h = tt
  All-update p f (x ∷ xs) keep h = ground (arith, keep x h.0, All-update p f xs keep h.1)

  pub All-any :
      (p : A → Bool) (xs : List A) → ((x : A) → p x ≡ false → P x) → any p xs ≡ false → All P xs
  All-any p [] f h = tt
  All-any p (x ∷ xs) f h = ground (arith, f x, All-any p xs f)

module _ {A K : Type 0} (key : A → K) where
  pub Unique-without : (p : A → Bool) (xs : List A) → Unique key xs → Unique key (without p xs)
  Unique-without p [] u = tt
  Unique-without p (x ∷ xs) u =
      ground (arith, Unique-without p xs u.1, All-without (λ y. key x ≢ key y) p xs u.0)

  pub Unique-update :
      (p : A → Bool) (f : A → A) (xs : List A)
      → ((x : A) → key (f x) ≡ key x)
      → Unique key xs
      → Unique key (update p f xs)
  Unique-update p f [] same u = tt
  Unique-update p f (x ∷ xs) same u = elim (Bool-cases (p x)) [
    | inl hit ↦ rw (hit, same x) (others, Unique-update p f xs same u.1)
    | inr miss ↦ rw miss (others, Unique-update p f xs same u.1)
  ]
    where
      others : All (λ y. key x ≢ key y) (update p f xs)
      others = All-update (λ y. key x ≢ key y) p f xs (λ y ne e. ne (e ∙ same y)) u.0
