-- ===== src/Database/Tests.antt =====
-- Runs of the statements, and the theorems on them at concrete rows.
use mkrepo.Base.{◌≤◌, ◌≡◌, refl, none, some, [], ◌∷◌, Elem}
use mkrepo.Base.{◌+◌, err, ok, ◌==◌, if◌then◌else◌, ◌↔◌}
use mkrepo.Database.{Account, OAuth2State, Session, Tables, empty_tables}
use mkrepo.Database.{
  create_oauth2_state, get_and_delete_oauth2_state, upsert_account, create_session, delete_session,
  get_account_session, no_rows,
}
use mkrepo.Database.Db.{healthy, cleanup, tick, done, garbage_collector}
use mkrepo.Database.Constraints.{IsConsistent, IsConsistent-empty}
use mkrepo.Database.Steps.{
  Step, Reach, here, next, creates_state, upserts, creates_session, deletes_session,
  Reach-IsConsistent,
}
use mkrepo.Database.Interleaving.{uses, creations, present, Revokes, NeverOpens}
use mkrepo.Database.Interleaving.States.{uses_bounded}
use mkrepo.Database.Interleaving.Revoked.{get_account_session_revoked}
use mkrepo.Database.Sessions.{store, replay, Reach-refines}
use mkrepo.Database.Db.Collected.{garbage_collector-collects}
use mkrepo.Base.{◌++◌, ◌≤◌, Elem}
use mkrepo.Database.Db.{healthy, tick, done, garbage_collector}
use mkrepo.Database.{OAuth2State, Session}
use mkrepo.Database.Effects.{cleanup_exact}
use mkrepo.Database.Crypto.{Gcm, Library}

abbrev login_state : OAuth2State
login_state = record { state = "xyz"; verifier = some "v"; expires_at = 20 }

abbrev ann : Account
ann = record {
  id = "1";
  provider = "github";
  provider_account_id = "77";
  email = "ann@x";
  username = "ann";
  display_name = "Ann";
  avatar_url = "";
}

abbrev opened : Session
opened = record {
  id = "s";
  access_token = "sealed";
  refresh_token = none;
  access_token_expires_at = none;
  expires_at = 30;
  account_id = "1";
}

abbrev with_state : Tables
with_state = record empty_tables { oauth2_states = login_state ∷ [] }

abbrev with_account : Tables
with_account = record with_state { accounts = ann ∷ [] }

abbrev full : Tables
full = record with_account { sessions = opened ∷ [] }

full_reached : Reach empty_tables full
unfolding create_oauth2_state upsert_account create_session
full_reached =
    next (next (next here (creates_state login_state refl)) (upserts ann refl))
      (creates_session opened refl)

taken_once :
    get_and_delete_oauth2_state "xyz" full ≡ ok (login_state, record full { oauth2_states = [] })
unfolding get_and_delete_oauth2_state
taken_once = refl

cleanup_exact_example :
    let db = (cleanup 25 25 (healthy full)).1 in
    ((cleanup 25 25 (healthy full)).0 ≡ ok tt)
    × ((r : OAuth2State)
        → Elem r db.tables.oauth2_states ↔ (Elem r full.oauth2_states × (25 ≤ r.expires_at)))
    × ((s : Session) → Elem s db.tables.sessions ↔ (Elem s full.sessions × (25 ≤ s.expires_at)))
    × (db.tables.accounts ≡ full.accounts)
cleanup_exact_example = cleanup_exact 25 25 full

full-IsConsistent : IsConsistent full
full-IsConsistent = Reach-IsConsistent full_reached IsConsistent-empty

abbrev emptied : Tables
emptied = record full { sessions = [] }

abbrev other_state : OAuth2State
other_state = record { state = "abc"; verifier = none; expires_at = 40 }

abbrev emptied_again : Tables
emptied_again = record emptied { oauth2_states = other_state ∷ login_state ∷ [] }

revoked_step : Step full emptied
unfolding delete_session
revoked_step = deletes_session "s" refl

after_revoked : Reach emptied emptied_again
unfolding create_oauth2_state
after_revoked = next here (creates_state other_state refl)

revoked_step-Revokes : Revokes "s" revoked_step
unfolding revoked_step
revoked_step-Revokes = refl

after_revoked-NeverOpens : NeverOpens "s" after_revoked
unfolding after_revoked
after_revoked-NeverOpens = (tt, λ e. e)

get_account_session_revoked_example : get_account_session "s" emptied_again ≡ err no_rows
get_account_session_revoked_example =
    get_account_session_revoked "s" revoked_step after_revoked full-IsConsistent
      revoked_step-Revokes after_revoked-NeverOpens

uses_bounded_example :
    uses "xyz" full_reached + present "xyz" full
    ≤ creations "xyz" full_reached + present "xyz" empty_tables
uses_bounded_example = uses_bounded "xyz" full_reached

-- A second login of the same account with a new name.
abbrev renamed : Account
renamed = record ann { id = "2"; username = "anna" }

renamed_run :
    upsert_account renamed full
    ≡ ok ("1", record full { accounts = record ann { username = "anna" } ∷ [] })
unfolding upsert_account
renamed_run = refl

created_run : create_session opened with_account ≡ ok (tt, full)
unfolding create_session
created_run = refl

-- A cipher that seals nothing, for the tests.
abbrev plain : Gcm
plain = record { nonce_size = 2; seal = λ nonce text. text; open_sealed = λ nonce text. some text }

abbrev one_key : Library Unit
one_key = record {
  new_cipher = λ key. if key == "key" then some tt else none;
  new_gcm = λ block. some plain;
}

Reach-refines_example : store full ≡ replay full_reached (store empty_tables)
Reach-refines_example = Reach-refines full_reached IsConsistent-empty

-- Two ticks and the end.
garbage_collector-collects_example :
    let db =
      garbage_collector ((tick 3 3 ∷ []) ++ (tick 50 60 ∷ done ∷ tick 70 70 ∷ [])) (healthy full) in
    ((s : Session) → Elem s db.tables.sessions → Elem s full.sessions × (60 ≤ s.expires_at))
    × ((r : OAuth2State)
        → Elem r db.tables.oauth2_states
        → Elem r full.oauth2_states × (50 ≤ r.expires_at))
garbage_collector-collects_example =
    garbage_collector-collects (tick 3 3 ∷ []) (done ∷ tick 70 70 ∷ []) 50 60 full tt
