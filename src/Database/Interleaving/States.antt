-- ===== src/Database/Interleaving/States.antt =====
-- An OAuth2 state is used at most once for each time it was created.
use mkrepo.Base.{◌+◌, ◌≤◌, String, Bool, true, false, ◌≡◌, refl, ap, inl, inr, some, List, [], ◌∷◌}
use mkrepo.Base.{
  arith, eq_iff, any, find, without, if◌then◌else◌, ◌==◌, ltb, Bool-cases, Option-cases,
}
use mkrepo.Database.{OAuth2State, Account, Session, Tables, has_state, has_id, has_session_id}
use mkrepo.Database.{is_account, create_oauth2_state, get_and_delete_oauth2_state, upsert_account}
use mkrepo.Database.{delete_expired_oauth2_states, update_account, delete_account, create_session}
use mkrepo.Database.{update_session, delete_session, delete_expired_sessions}
use mkrepo.Database.Steps.{Leaves, Step, Reach, here, next, get_account_session-same}
use mkrepo.Database.Steps.{creates_state, takes_state, drops_states, upserts, updates, deletes}
use mkrepo.Database.Steps.{
  creates_session, updates_session, deletes_session, reads_session, drops_sessions,
}
use mkrepo.Database.Interleaving.{creates, takes, creations, uses, present}

any_of_find :
    {A : Type 0} (p : A → Bool) (xs : List A) {x : A} → find p xs ≡ some x → any p xs ≡ true
any_of_find p [] h = cc
any_of_find p (y ∷ ys) h = elim (Bool-cases (p y)) [
  | inl hit ↦ rw hit refl
  | inr miss ↦ rw miss (any_of_find p ys (rw miss at h))
]

any-without_self : {A : Type 0} (p : A → Bool) (xs : List A) → any p (without p xs) ≡ false
any-without_self p [] = refl
any-without_self p (x ∷ xs) = ground (arith, any-without_self p xs)

any-without :
    {A : Type 0} (q p : A → Bool) (xs : List A) → any q (without p xs) ≡ true → any q xs ≡ true
any-without q p [] h = h
any-without q p (x ∷ xs) h = ground (arith, any-without q p xs)

pub upsert_account-states :
    (a : Account) (t t' : Tables)
    → Leaves (upsert_account a t) t'
    → t.oauth2_states ≡ t'.oauth2_states
unfolding upsert_account
upsert_account-states a t t' h =
    elim (Option-cases (find (is_account a.provider a.provider_account_id) t.accounts)) [
      | inr (old, known) ↦ ap (λ x. x.oauth2_states) (rw (known, upsert_account) at h)
      | inl unknown ↦ elim (Bool-cases (any (has_id a.id) t.accounts)) [
        | inl there ↦ absurd (rw (unknown, there, upsert_account) at h)
        | inr new ↦ ap (λ x. x.oauth2_states) (rw (unknown, new, upsert_account) at h)
      ]
    ]

pub create_session-states :
    (s : Session) (t t' : Tables)
    → Leaves (create_session s t) t'
    → t.oauth2_states ≡ t'.oauth2_states
unfolding create_session
create_session-states s t t' h = elim (Bool-cases (any (has_session_id s.id) t.sessions)) [
  | inl there ↦ absurd (rw there at h)
  | inr new ↦ elim (Bool-cases (any (has_id s.account_id) t.accounts)) [
    | inl owner ↦ ap (λ x. x.oauth2_states) (rw (new, owner) at h)
    | inr nobody ↦ absurd (rw (new, nobody) at h)
  ]
]

module _ (state : String) where
  -- A statement that leaves the states alone.
  present_same :
      (t t' : Tables)
      → t.oauth2_states ≡ t'.oauth2_states
      → 0 + present state t' ≤ 0 + present state t
  present_same t t' same = ground (arith, ap (any (has_state state)) same)

  present-without :
      (p : OAuth2State → Bool) (t : Tables) {t' : Tables}
      → record t { oauth2_states = without p t.oauth2_states } ≡ t'
      → 0 + present state t' ≤ 0 + present state t
  present-without p t {t'} h =
      rw (← h) (ground (arith, any-without (has_state state) p t.oauth2_states))

  create_oauth2_state-present :
      (r : OAuth2State) (t t' : Tables)
      → Leaves (create_oauth2_state r t) t'
      → 0 + present state t' ≤ (if r.state == state then 1 else 0) + present state t
  unfolding create_oauth2_state
  create_oauth2_state-present r t t' h =
      elim (Bool-cases (any (has_state r.state) t.oauth2_states)) [
        | inl there ↦ absurd (rw there at h)
        | inr new ↦ rw (← (rw new at h)) (ground arith)
      ]

  get_and_delete_oauth2_state-present :
      (taken : String) (t t' : Tables)
      → Leaves (get_and_delete_oauth2_state taken t) t'
      → (if taken == state then 1 else 0) + present state t' ≤ 0 + present state t
  unfolding get_and_delete_oauth2_state
  get_and_delete_oauth2_state-present taken t t' h =
      elim (Option-cases (find (has_state taken) t.oauth2_states)) [
        | inl missing ↦ absurd (rw (missing, get_and_delete_oauth2_state) at h)
        | inr (r, there) ↦
            rw (← (rw (there, get_and_delete_oauth2_state) at h))
              (elim (Bool-cases (taken == state)) [
                | inl same ↦ ground (
                  arith,
                  eq_iff taken state,
                  any_of_find (has_state taken) t.oauth2_states there,
                  any-without_self (has_state taken) t.oauth2_states,
                )
                | inr other ↦
                    ground (arith, any-without (has_state state) (has_state taken) t.oauth2_states)
              ])
      ]

  Step-present :
      {t u : Tables} (st : Step t u)
      → takes state st + present state u ≤ creates state st + present state t
  Step-present {t} {u} (creates_state r h) = create_oauth2_state-present r t u h
  Step-present {t} {u} (takes_state taken h) = get_and_delete_oauth2_state-present taken t u h
  Step-present {t} {u} (drops_states now h) =
      unfold delete_expired_oauth2_states in present-without (λ r. ltb r.expires_at now) t h
  Step-present {t} {u} (upserts a h) = present_same t u (upsert_account-states a t u h)
  Step-present {t} {u} (updates arg h) =
      unfold update_account in present_same t u (ap (λ x. x.oauth2_states) h)
  Step-present {t} {u} (deletes id h) =
      unfold delete_account in present_same t u (ap (λ x. x.oauth2_states) h)
  Step-present {t} {u} (creates_session s h) = present_same t u (create_session-states s t u h)
  Step-present {t} {u} (updates_session arg h) =
      unfold update_session in present_same t u (ap (λ x. x.oauth2_states) h)
  Step-present {t} {u} (deletes_session id h) =
      unfold delete_session in present_same t u (ap (λ x. x.oauth2_states) h)
  Step-present {t} {u} (reads_session id h) =
      present_same t u (ap (λ x. x.oauth2_states) (get_account_session-same id t u h))
  Step-present {t} {u} (drops_sessions now h) =
      unfold delete_expired_sessions in present_same t u (ap (λ x. x.oauth2_states) h)

  -- However the statements of many requests interleave, an OAuth2 state is taken no more often than it
  -- was created, counting the one that may be there at first, and less often if one is left at the
  -- end.
  pub uses_bounded :
      {s t : Tables} (r : Reach s t)
      → uses state r + present state t ≤ creations state r + present state s
  uses_bounded here = ground arith
  uses_bounded (next r st) = let h = uses_bounded r in let k = Step-present st in ground arith
