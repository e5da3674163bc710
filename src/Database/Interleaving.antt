-- ===== src/Database/Interleaving.antt =====
-- What holds of the OAuth2 states and the sessions however the statements of many requests interleave.
pub mod States
pub mod Revoked
use mkrepo.Base.{ℕ, ◌+◌, String, ◌≡◌, ◌≢◌, any, if◌then◌else◌, ltb, ◌<◌, Option, some, find, ◌==◌}
use mkrepo.Database.{Tables, Session, has_state, has_session_id}
use mkrepo.Database.Steps.{Step, Reach, here, next}
use mkrepo.Database.Steps.{creates_state, takes_state, drops_states, upserts, updates, deletes}
use mkrepo.Database.Steps.{
  creates_session, updates_session, deletes_session, reads_session, drops_sessions,
}

-- How often a state is created and taken, and whether there is one.
module _ (state : String) where
  abbrev pub creates : {s t : Tables} → Step s t → ℕ
  creates (creates_state r h) = if r.state == state then 1 else 0
  creates other = 0

  abbrev pub takes : {s t : Tables} → Step s t → ℕ
  takes (takes_state taken h) = if taken == state then 1 else 0
  takes other = 0

  abbrev pub creations : {s t : Tables} → Reach s t → ℕ
  creations here = 0
  creations (next r st) = creations r + creates st

  abbrev pub uses : {s t : Tables} → Reach s t → ℕ
  uses here = 0
  uses (next r st) = uses r + takes st

  abbrev pub present : Tables → ℕ
  present t = if any (has_state state) t.oauth2_states then 1 else 0

-- A step opens the session with the ID.
abbrev pub Opens : String → {s t : Tables} → Step s t → Type 0
Opens id (creates_session s h) = s.id ≡ id
Opens id other = ⊥

-- No step of the sequence opens the session with the ID.
abbrev pub NeverOpens : String → {s t : Tables} → Reach s t → Type 0
NeverOpens id here = Unit
NeverOpens id (next r st) = NeverOpens id r × (Opens id st → ⊥)

-- A step takes the session with the ID away: it deletes it or the account it belongs to, or it cleans
-- up after it has expired.
abbrev pub Revokes : String → {s t : Tables} → Step s t → Type 0
Revokes id (deletes_session closed h) = closed ≡ id
Revokes id {s} (deletes account h) =
    (x : Session) × (find (has_session_id id) s.sessions ≡ some x) × (x.account_id ≡ account)
Revokes id {s} (drops_sessions now h) =
    (x : Session) × (find (has_session_id id) s.sessions ≡ some x) × (x.expires_at < now)
Revokes id other = ⊥
