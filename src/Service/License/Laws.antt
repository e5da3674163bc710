-- ===== src/Service/License/Laws.antt =====
-- Which files `AddLicense` writes.
use mathlib.Core.Path.{subst}
use mkrepo.Base.{String, ◌≡◌, refl, sym, ap, ◌↔◌, true, some, List, [], ◌∷◌}
use mkrepo.Base.{ok, Option-cases, Bool-cases, inl, inr, ok-injective}
use mkrepo.Base.Dict.{lookup}
use mkrepo.Service.Work.{World, History, Failure, perform, done, fail, write_memory, ◌>>=◌, >>=-ok}
use mkrepo.Service.License.{License, Licenses, found, add_one, add_all_of, add_license}

-- The files of the licenses, opened and filled one after the other.
abbrev pub written : List License → History → History
written [] h = h
written (license ∷ licenses) h = written licenses (write_memory license.target_file ∷ h)

module _ (licenses : Licenses) where
  -- The licenses are those of the keys, in their order.
  abbrev pub AreOf : List String → List License → Type 0
  AreOf [] [] = Unit
  AreOf [] (license ∷ rest) = ⊥
  AreOf (key ∷ keys) [] = ⊥
  AreOf (key ∷ keys) (license ∷ rest) = (lookup key licenses ≡ some license) × AreOf keys rest

module _ (world : World) where
  -- Each of the writes succeeds, after those before it.
  abbrev pub Succeed : History → List License → Type 0
  Succeed h [] = Unit
  Succeed h (license ∷ rest) =
      (world.succeeds h (write_memory license.target_file) ≡ true)
      × Succeed (write_memory license.target_file ∷ h) rest

module _ (world : World) (licenses : Licenses) where
  add_one-written :
      (key : String) (license : License) (h : History)
      → lookup key licenses ≡ some license
      → world.succeeds h (write_memory license.target_file) ≡ true
      → add_one world licenses key h ≡ (ok license, write_memory license.target_file ∷ h)
  unfolding add_one found perform done ◌>>=◌
  add_one-written key license h there fine = rw (there, found, fine)

  add_one-ok :
      (key : String) (license : License) (h h' : History)
      → add_one world licenses key h ≡ (ok license, h')
      → (lookup key licenses ≡ some license)
        × (world.succeeds h (write_memory license.target_file) ≡ true)
        × (h' ≡ write_memory license.target_file ∷ h)
  unfolding add_one found perform done fail ◌>>=◌
  add_one-ok key license h h' e = elim (Option-cases (lookup key licenses)) [
    | inl missing ↦ let k = rw (missing, found) at e in cc
    | inr (l, there) ↦ elim (Bool-cases (world.succeeds h (write_memory l.target_file))) [
      | inr refused ↦ let k = rw (there, found, refused) at e in cc
      | inl fine ↦
          let k = rw (there, found, fine) at e in
          let same = ok-injective {E = Failure} (ap (λ p. p.0) k) in
          subst
            (λ x.
              (lookup key licenses ≡ some x)
              × (world.succeeds h (write_memory x.target_file) ≡ true)
              × (h' ≡ write_memory x.target_file ∷ h))
            same (there, fine, sym (ap (λ p. p.1) k))
    ]
  ]

  add_all_of-ok :
      (keys : List String) (h h' : History)
      → add_all_of world licenses keys h ≡ (ok tt, h')
      → (all : List License) × AreOf licenses keys all × Succeed world h all × (h' ≡ written all h)
  unfolding add_all_of done
  add_all_of-ok [] h h' e = ([], tt, tt, sym (ap (λ p. p.1) e))
  add_all_of-ok (key ∷ keys) h h' e =
      let (license, h₁, one, more) = >>=-ok _ _ h e in
      let (there, fine, at) = add_one-ok key license h h₁ one in
      let (all, found_all, fine_all, at_end) = add_all_of-ok keys h₁ h' more in
      (
        license ∷ all,
        (there, found_all),
        (fine, subst (λ x. Succeed world x all) at fine_all),
        subst (λ x. h' ≡ written all x) at at_end,
      )

  add_all_of-written :
      (keys : List String) (all : List License) (h : History)
      → AreOf licenses keys all
      → Succeed world h all
      → add_all_of world licenses keys h ≡ (ok tt, written all h)
  unfolding add_all_of done ◌>>=◌
  add_all_of-written [] [] h are fine = refl
  add_all_of-written [] (license ∷ all) h are fine = absurd are
  add_all_of-written (key ∷ keys) [] h are fine = absurd are
  add_all_of-written (key ∷ keys) (license ∷ all) h (there, are) (fine, fine_all) =
      rw (add_one-written key license h there fine)
        (add_all_of-written keys all (write_memory license.target_file ∷ h) are fine_all)

  -- `AddLicense` succeeds exactly if the license and all those of its `with` list are configured and
  -- each of their files can be written, and it then writes exactly these files, that of the license
  -- first and the others in the order of the list. What the others name in their own `with` lists
  -- is not followed, so it ends whatever the configuration, also where licenses name each other.
  pub add_license_iff :
      (key : String) (h h' : History)
      → (add_license world licenses key h ≡ (ok tt, h')) ↔ (
          (license : License) × (others : List License) × (lookup key licenses ≡ some license)
          × AreOf licenses license.with_licenses others
          × Succeed world h (license ∷ others)
          × (h' ≡ written (license ∷ others) h))
  unfolding add_license ◌>>=◌
  add_license_iff key h h' = (
    λ e.
        let (license, h₁, one, more) =
          >>=-ok (add_one world licenses key)
            (λ license. add_all_of world licenses license.with_licenses) h e in
        let (there, fine, at) = add_one-ok key license h h₁ one in
        let (others, are, fine_all, at_end) = add_all_of-ok license.with_licenses h₁ h' more in
        (
          license,
          others,
          there,
          are,
          (fine, subst (λ x. Succeed world x others) at fine_all),
          subst (λ x. h' ≡ written others x) at at_end,
        ),
    λ (license, others, there, are, (fine, fine_all), at_end).
        rw (add_one-written key license h there fine) (
          rw at_end (
            add_all_of-written license.with_licenses others (write_memory license.target_file ∷ h)
              are fine_all)),
  )
