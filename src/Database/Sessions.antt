-- ===== src/Database/Sessions.antt =====
-- The sessions as a function of their IDs, and what each statement means for it. The function forgets
-- the order of the rows and all that the other tables hold.
use mathlib.Core.Path.{fun_ext, subst}
use mkrepo.Base.{
  String, Bool, true, ◌≡◌, refl, ap, sym, ◌∙◌, ◌≢◌, inl, inr, Option, none, some, List, [], ◌∷◌,
}
use mkrepo.Base.{
  arith, eq_iff, All, any, find, without, update, ltb, ◌==◌, if◌then◌else◌, Bool-cases,
  Option-cases,
}
use mkrepo.Database.{
  Account, OAuth2State, Session, Tables, has_state, has_id, has_session_id, belongs_to, is_account,
}
use mkrepo.Database.{
  create_oauth2_state, get_and_delete_oauth2_state, delete_expired_oauth2_states, upsert_account,
}
use mkrepo.Database.{
  update_account, delete_account, create_session, update_session, delete_session, set_tokens,
}
use mkrepo.Database.{delete_expired_sessions, UpdateSessionParams}
use mkrepo.Database.Unique.{Unique}
use mkrepo.Database.Constraints.{IsConsistent}
use mkrepo.Database.Steps.{Leaves, Step, Reach, here, next, Reach-IsConsistent}
use mkrepo.Database.Steps.{creates_state, takes_state, drops_states, upserts, updates, deletes}
use mkrepo.Database.Steps.{
  creates_session, updates_session, deletes_session, reads_session, drops_sessions,
  get_account_session-same,
}

abbrev pub Store : Type 0
Store = String → Option Session

-- What a step means: nothing, a session that is opened, closed or given other tokens, or the end of
-- all sessions that a test selects.
pub data Change : Type 0 where
  keeps : Change
  opens : Session → Change
  closes : String → Change
  retokens : UpdateSessionParams → Change
  ends : (Session → Bool) → Change

abbrev pub reject : (Session → Bool) → Option Session → Option Session
reject p none = none
reject p (some s) = if p s then none else some s

abbrev pub map_session : (Session → Session) → Option Session → Option Session
map_session f none = none
map_session f (some s) = some (f s)

abbrev pub apply : Change → Store → Store
apply keeps f id = f id
apply (opens s) f id = if s.id == id then some s else f id
apply (closes closed) f id = if closed == id then none else f id
apply (retokens arg) f id = if arg.id == id then map_session (set_tokens arg) (f id) else f id
apply (ends p) f id = reject p (f id)

abbrev pub store : Tables → Store
store t id = find (has_session_id id) t.sessions

abbrev pub change : {t t' : Tables} → Step t t' → Change
change (creates_state r h) = keeps
change (takes_state state h) = keeps
change (drops_states now h) = keeps
change (upserts a h) = keeps
change (updates arg h) = keeps
change (deletes id h) = ends (belongs_to id)
change (creates_session s h) = opens s
change (updates_session arg h) = retokens arg
change (deletes_session id h) = closes id
change (reads_session id h) = keeps
change (drops_sessions now h) = ends (λ s. ltb s.expires_at now)

find_of_All :
    (id : String) (ss : List Session) → All (λ s. id ≢ s.id) ss → find (has_session_id id) ss ≡ none
find_of_All id [] h = refl
find_of_All id (s ∷ ss) h = ground (arith, eq_iff s.id id, find_of_All id ss)

reject_of_true : (p : Session → Bool) (s : Session) → p s ≡ true → reject p (some s) ≡ none
reject_of_true p s h = rw h

find-without_ends :
    (p : Session → Bool) (id : String) (ss : List Session)
    → Unique (λ s. s.id) ss
    → find (has_session_id id) (without p ss) ≡ reject p (find (has_session_id id) ss)
find-without_ends p id [] u = refl
find-without_ends p id (s ∷ ss) u = elim (Bool-cases (has_session_id id s)) [
  | inl hit ↦
      let same : s.id ≡ id = (eq_iff s.id id).0 hit in
      let gone : find (has_session_id id) ss ≡ none =
        find_of_All id ss (subst (λ k. All (λ y. k ≢ y.id) ss) same u.0) in
      elim (Bool-cases (p s)) [
        | inl ended ↦
            rw (ended, hit)
              (find-without_ends p id ss u.1 ∙ ap (reject p) gone ∙ sym (reject_of_true p s ended))
        | inr kept ↦ rw (kept, hit) (rw kept refl)
      ]
  | inr miss ↦ ground (arith, find-without_ends p id ss u.1)
]

find-without_closes :
    (closed id : String) (ss : List Session)
    → find (has_session_id id) (without (has_session_id closed) ss)
      ≡ (if closed == id then none else find (has_session_id id) ss)
find-without_closes closed id [] = ground arith
find-without_closes closed id (s ∷ ss) =
    ground (
      arith,
      eq_iff closed id,
      eq_iff s.id closed,
      eq_iff s.id id,
      find-without_closes closed id ss,
    )

find-update_retokens :
    (arg : UpdateSessionParams) (id : String) (ss : List Session)
    → find (has_session_id id) (update (has_session_id arg.id) (set_tokens arg) ss) ≡ (
        if arg.id == id
        then map_session (set_tokens arg) (find (has_session_id id) ss)
        else find (has_session_id id) ss)
find-update_retokens arg id [] = ground arith
find-update_retokens arg id (s ∷ ss) =
    ground
      (arith, eq_iff arg.id id, eq_iff s.id arg.id, eq_iff s.id id, find-update_retokens arg id ss)

-- The statements on the other tables leave the sessions alone.
create_oauth2_state-sessions :
    (r : OAuth2State) (t t' : Tables)
    → Leaves (create_oauth2_state r t) t'
    → t.sessions ≡ t'.sessions
unfolding create_oauth2_state
create_oauth2_state-sessions r t t' h =
    elim (Bool-cases (any (has_state r.state) t.oauth2_states)) [
      | inl there ↦ absurd (rw there at h)
      | inr new ↦ ap (λ x. x.sessions) (rw new at h)
    ]

get_and_delete_oauth2_state-sessions :
    (state : String) (t t' : Tables)
    → Leaves (get_and_delete_oauth2_state state t) t'
    → t.sessions ≡ t'.sessions
unfolding get_and_delete_oauth2_state
get_and_delete_oauth2_state-sessions state t t' h =
    elim (Option-cases (find (has_state state) t.oauth2_states)) [
      | inl missing ↦ absurd (rw (missing, get_and_delete_oauth2_state) at h)
      | inr (r, there) ↦ ap (λ x. x.sessions) (rw (there, get_and_delete_oauth2_state) at h)
    ]

upsert_account-sessions :
    (a : Account) (t t' : Tables) → Leaves (upsert_account a t) t' → t.sessions ≡ t'.sessions
unfolding upsert_account
upsert_account-sessions a t t' h =
    elim (Option-cases (find (is_account a.provider a.provider_account_id) t.accounts)) [
      | inr (old, known) ↦ ap (λ x. x.sessions) (rw (known, upsert_account) at h)
      | inl unknown ↦ elim (Bool-cases (any (has_id a.id) t.accounts)) [
        | inl there ↦ absurd (rw (unknown, there, upsert_account) at h)
        | inr new ↦ ap (λ x. x.sessions) (rw (unknown, new, upsert_account) at h)
      ]
    ]

store_of_sessions : (t t' : Tables) → t.sessions ≡ t'.sessions → store t' ≡ store t
store_of_sessions t t' same = fun_ext λ id. ap (find (has_session_id id)) (sym same)

store_of_tables : {t t' : Tables} {f : Store} → t ≡ t' → store t ≡ f → store t' ≡ f
store_of_tables same h = ap store (sym same) ∙ h

create_session-store :
    (s : Session) (t t' : Tables)
    → Leaves (create_session s t) t'
    → store t' ≡ apply (opens s) (store t)
unfolding create_session
create_session-store s t t' h = elim (Bool-cases (any (has_session_id s.id) t.sessions)) [
  | inl there ↦ absurd (rw there at h)
  | inr new ↦ elim (Bool-cases (any (has_id s.account_id) t.accounts)) [
    | inl owner ↦ store_of_tables (rw (new, owner) at h) refl
    | inr nobody ↦ absurd (rw (new, nobody) at h)
  ]
]

pub Step-refines :
    {t t' : Tables} (st : Step t t') → IsConsistent t → store t' ≡ apply (change st) (store t)
Step-refines {t} {t'} (creates_state r h) c =
    store_of_sessions t t' (create_oauth2_state-sessions r t t' h)
Step-refines {t} {t'} (takes_state state h) c =
    store_of_sessions t t' (get_and_delete_oauth2_state-sessions state t t' h)
Step-refines {t} {t'} (drops_states now h) c =
    unfold delete_expired_oauth2_states in store_of_sessions t t' (ap (λ x. x.sessions) h)
Step-refines {t} {t'} (upserts a h) c = store_of_sessions t t' (upsert_account-sessions a t t' h)
Step-refines {t} {t'} (updates arg h) c =
    unfold update_account in store_of_sessions t t' (ap (λ x. x.sessions) h)
Step-refines {t} (deletes id h) c =
    unfold delete_account in
    store_of_tables h
      (fun_ext λ k. find-without_ends (belongs_to id) k t.sessions c.unique_sessions)
Step-refines {t} {t'} (creates_session s h) c = create_session-store s t t' h
Step-refines {t} (updates_session arg h) c =
    unfold update_session in store_of_tables h (fun_ext λ k. find-update_retokens arg k t.sessions)
Step-refines {t} (deletes_session id h) c =
    unfold delete_session in store_of_tables h (fun_ext λ k. find-without_closes id k t.sessions)
Step-refines {t} {t'} (reads_session id h) c =
    store_of_sessions t t' (ap (λ x. x.sessions) (get_account_session-same id t t' h))
Step-refines {t} (drops_sessions now h) c =
    unfold delete_expired_sessions in
    store_of_tables h
      (fun_ext λ k. find-without_ends (λ s. ltb s.expires_at now) k t.sessions c.unique_sessions)

-- What a sequence of statements means, on the function alone.
abbrev pub replay : {s t : Tables} → Reach s t → Store → Store
replay here f = f
replay (next r st) f = apply (change st) (replay r f)

-- From consistent tables, what any sequence of successful statements leaves of the sessions is what
-- their meanings leave of a function from IDs to sessions: opening sets one ID, closing clears one,
-- new tokens change one, and the end of an account and the cleanup clear exactly the sessions that
-- belong to it or have expired.
pub Reach-refines : {s t : Tables} (r : Reach s t) → IsConsistent s → store t ≡ replay r (store s)
Reach-refines here c = refl
Reach-refines (next r st) c =
    Step-refines st (Reach-IsConsistent r c) ∙ ap (apply (change st)) (Reach-refines r c)
