-- ===== src/Database/Steps.antt =====
-- The statements as steps between tables, and that no sequence of them breaks a constraint.
use mkrepo.Base.{ℕ, String, ◌≡◌, refl, ◌≢◌, inl, inr, Option, none, some}
use mkrepo.Base.{arith, eq_iff, any, find, Result, ok, err}
use mkrepo.Base.{Bool-cases, Option-cases}
use mkrepo.Database.{Account, OAuth2State, Session, Tables, DbError, has_state, has_id}
use mkrepo.Database.{has_session_id, is_account, create_oauth2_state}
use mkrepo.Database.{get_and_delete_oauth2_state, delete_expired_oauth2_states, upsert_account}
use mkrepo.Database.{
  take_profile, UpdateAccountParams, update_account, delete_account, create_session,
}
use mkrepo.Database.{UpdateSessionParams, update_session, delete_session, delete_expired_sessions}
use mkrepo.Database.Unique.{All-any}
use mathlib.Core.Path.{subst}
use mkrepo.Database.{get_account_session, join_account}
use mkrepo.Database.Constraints.{IsConsistent, without_states-IsConsistent}
use mkrepo.Database.Constraints.{without_sessions-IsConsistent, update_accounts-IsConsistent}
use mkrepo.Database.Constraints.{update_sessions-IsConsistent, delete_account-IsConsistent}
use mkrepo.Database.Constraints.{cons_session-IsConsistent, cons_account-IsConsistent}

-- What a successful statement leaves.
abbrev pub Leaves : {A : Type 0} → Result DbError (A × Tables) → Tables → Type 0
Leaves (ok (a, t)) t' = t ≡ t'
Leaves (err e) t' = ⊥

pub Leaves-ok :
    {A : Type 0} {r : Result DbError (A × Tables)} {a : A} {t : Tables} → r ≡ ok (a, t) → Leaves r t
Leaves-ok h = rw h refl

-- One of the statements succeeds and leaves the second tables.
pub data Step (t t' : Tables) : Type 0 where
  creates_state : (r : OAuth2State) → Leaves (create_oauth2_state r t) t' → Step t t'
  takes_state : (state : String) → Leaves (get_and_delete_oauth2_state state t) t' → Step t t'
  drops_states : (now : ℕ) → Leaves (delete_expired_oauth2_states now t) t' → Step t t'
  upserts : (a : Account) → Leaves (upsert_account a t) t' → Step t t'
  updates : (arg : UpdateAccountParams) → Leaves (update_account arg t) t' → Step t t'
  deletes : (id : String) → Leaves (delete_account id t) t' → Step t t'
  creates_session : (s : Session) → Leaves (create_session s t) t' → Step t t'
  updates_session : (arg : UpdateSessionParams) → Leaves (update_session arg t) t' → Step t t'
  deletes_session : (id : String) → Leaves (delete_session id t) t' → Step t t'
  reads_session : (id : String) → Leaves (get_account_session id t) t' → Step t t'
  drops_sessions : (now : ℕ) → Leaves (delete_expired_sessions now t) t' → Step t t'

create_oauth2_state-IsConsistent :
    (r : OAuth2State) (t t' : Tables)
    → IsConsistent t
    → Leaves (create_oauth2_state r t) t'
    → IsConsistent t'
unfolding create_oauth2_state
create_oauth2_state-IsConsistent r t t' c h =
    elim (Bool-cases (any (has_state r.state) t.oauth2_states)) [
      | inl there ↦ absurd (rw there at h)
      | inr new ↦ rw (← (rw new at h)) (record {
        unique_states = (
          All-any (λ y. r.state ≢ y.state) (has_state r.state) t.oauth2_states
              (λ y n e. ground (arith, eq_iff y.state r.state)) new,
          c.unique_states,
        );
        unique_ids = c.unique_ids;
        unique_accounts = c.unique_accounts;
        unique_sessions = c.unique_sessions;
        owned = c.owned;
      })
    ]

get_and_delete_oauth2_state-IsConsistent :
    (state : String) (t t' : Tables)
    → IsConsistent t
    → Leaves (get_and_delete_oauth2_state state t) t'
    → IsConsistent t'
unfolding get_and_delete_oauth2_state
get_and_delete_oauth2_state-IsConsistent state t t' c h =
    elim (Option-cases (find (has_state state) t.oauth2_states)) [
      | inl missing ↦ absurd (rw (missing, get_and_delete_oauth2_state) at h)
      | inr (r, there) ↦
          rw (← (rw (there, get_and_delete_oauth2_state) at h))
            (without_states-IsConsistent (has_state state) t c)
    ]

upsert_account-IsConsistent :
    (a : Account) (t t' : Tables)
    → IsConsistent t
    → Leaves (upsert_account a t) t'
    → IsConsistent t'
unfolding upsert_account
upsert_account-IsConsistent a t t' c h =
    elim (Option-cases (find (is_account a.provider a.provider_account_id) t.accounts)) [
      | inr (old, known) ↦
          rw (← (rw (known, upsert_account) at h)) (
            update_accounts-IsConsistent _ (take_profile a) t (λ b. refl) (λ b. refl) (λ b. refl) c)
      | inl unknown ↦ elim (Bool-cases (any (has_id a.id) t.accounts)) [
        | inl there ↦ absurd (rw (unknown, there, upsert_account) at h)
        | inr new ↦
            rw (← (rw (unknown, new, upsert_account) at h))
              (cons_account-IsConsistent a t unknown new c)
      ]
    ]

create_session-IsConsistent :
    (s : Session) (t t' : Tables)
    → IsConsistent t
    → Leaves (create_session s t) t'
    → IsConsistent t'
unfolding create_session
create_session-IsConsistent s t t' c h = elim (Bool-cases (any (has_session_id s.id) t.sessions)) [
  | inl there ↦ absurd (rw there at h)
  | inr new ↦ elim (Bool-cases (any (has_id s.account_id) t.accounts)) [
    | inl owner ↦ rw (← (rw (new, owner) at h)) (cons_session-IsConsistent s t new owner c)
    | inr nobody ↦ absurd (rw (new, nobody) at h)
  ]
]

join_account-same : (o : Option Session) (t t' : Tables) → Leaves (join_account o t) t' → t ≡ t'
unfolding join_account
join_account-same none t t' h = elim h [ ]
join_account-same (some s) t t' h = elim (Option-cases (find (has_id s.account_id) t.accounts)) [
  | inl missing ↦ absurd (rw (missing, join_account) at h)
  | inr (a, there) ↦ rw (there, join_account) at h
]

pub get_account_session-same :
    (id : String) (t t' : Tables) → Leaves (get_account_session id t) t' → t ≡ t'
unfolding get_account_session
get_account_session-same id t t' h = join_account-same (find (has_session_id id) t.sessions) t t' h

-- Every statement keeps the constraints, whatever its arguments.
pub Step-IsConsistent : {t t' : Tables} → Step t t' → IsConsistent t → IsConsistent t'
Step-IsConsistent {t} {t'} (creates_state r h) c = create_oauth2_state-IsConsistent r t t' c h
Step-IsConsistent {t} {t'} (takes_state state h) c =
    get_and_delete_oauth2_state-IsConsistent state t t' c h
Step-IsConsistent {t} {t'} (drops_states now h) c =
    unfold delete_expired_oauth2_states in rw (← h) (without_states-IsConsistent _ t c)
Step-IsConsistent {t} {t'} (upserts a h) c = upsert_account-IsConsistent a t t' c h
Step-IsConsistent {t} {t'} (updates arg h) c =
    unfold update_account in
    rw (← h) (update_accounts-IsConsistent _ _ t (λ a. refl) (λ a. refl) (λ a. refl) c)
Step-IsConsistent {t} {t'} (deletes id h) c =
    unfold delete_account in rw (← h) (delete_account-IsConsistent id t c)
Step-IsConsistent {t} {t'} (creates_session s h) c = create_session-IsConsistent s t t' c h
Step-IsConsistent {t} {t'} (updates_session arg h) c =
    unfold update_session in rw (← h) (update_sessions-IsConsistent _ _ t (λ s. refl) (λ s. refl) c)
Step-IsConsistent {t} {t'} (deletes_session id h) c =
    unfold delete_session in rw (← h) (without_sessions-IsConsistent _ t c)
Step-IsConsistent {t} {t'} (reads_session id h) c =
    subst IsConsistent (get_account_session-same id t t' h) c
Step-IsConsistent {t} {t'} (drops_sessions now h) c =
    unfold delete_expired_sessions in rw (← h) (without_sessions-IsConsistent _ t c)

-- Any number of successful statements, one after the other.
pub data Reach (s : Tables) : Tables → Type 0 where
  here : Reach s s
  next : {t u : Tables} → Reach s t → Step t u → Reach s u

pub Reach-trans : {s t u : Tables} → Reach s t → Reach t u → Reach s u
Reach-trans r here = r
Reach-trans r (next q st) = next (Reach-trans r q) st

-- No sequence of successful statements breaks a constraint of the schema: the keys stay unique, and
-- every session keeps its account.
pub Reach-IsConsistent : {s t : Tables} → Reach s t → IsConsistent s → IsConsistent t
Reach-IsConsistent here c = c
Reach-IsConsistent (next r st) c = Step-IsConsistent st (Reach-IsConsistent r c)
