-- ===== src/Database/Interleaving/Revoked.antt =====
-- A session that is taken away stays away.
use mkrepo.Base.{String, ◌≡◌, refl, ap, ◌∙◌, none, err}
use mkrepo.Base.{arith, eq_iff}
use mkrepo.Database.{Tables, no_rows, get_account_session, join_account}
use mkrepo.Database.Constraints.{IsConsistent}
use mkrepo.Database.Steps.{Step, Reach, here, next, Step-IsConsistent, Reach-IsConsistent}
use mkrepo.Database.Steps.{creates_state, takes_state, drops_states, upserts, updates, deletes}
use mkrepo.Database.Steps.{
  creates_session, updates_session, deletes_session, reads_session, drops_sessions,
}
use mkrepo.Database.Sessions.{Store, store, change, apply, Step-refines}
use mkrepo.Database.Interleaving.{Opens, NeverOpens, Revokes}

module _ (id : String) where
  change-Revokes :
      {s t : Tables} (st : Step s t) → Revokes id st → apply (change st) (store s) id ≡ none
  change-Revokes (creates_state r h) revokes = elim revokes [ ]
  change-Revokes (takes_state state h) revokes = elim revokes [ ]
  change-Revokes (drops_states now h) revokes = elim revokes [ ]
  change-Revokes (upserts a h) revokes = elim revokes [ ]
  change-Revokes (updates arg h) revokes = elim revokes [ ]
  change-Revokes (deletes account h) (x, found, owner) =
      rw found (ground (arith, eq_iff x.account_id account))
  change-Revokes (creates_session s h) revokes = elim revokes [ ]
  change-Revokes (updates_session arg h) revokes = elim revokes [ ]
  change-Revokes (deletes_session closed h) same = ground (arith, eq_iff closed id)
  change-Revokes (reads_session read h) revokes = elim revokes [ ]
  change-Revokes (drops_sessions now h) (x, found, expired) = rw found (ground arith)

  -- What is not there stays away, unless it is opened.
  change_closed :
      {s t : Tables} (st : Step s t) (f : Store)
      → (Opens id st → ⊥)
      → f id ≡ none
      → apply (change st) f id ≡ none
  change_closed (creates_state r h) f shut closed = closed
  change_closed (takes_state state h) f shut closed = closed
  change_closed (drops_states now h) f shut closed = closed
  change_closed (upserts a h) f shut closed = closed
  change_closed (updates arg h) f shut closed = closed
  change_closed (deletes account h) f shut closed = rw closed refl
  change_closed (creates_session s h) f shut closed = ground (arith, eq_iff s.id id)
  change_closed (updates_session arg h) f shut closed = rw closed (ground arith)
  change_closed (deletes_session closing h) f shut closed = ground arith
  change_closed (reads_session read h) f shut closed = closed
  change_closed (drops_sessions now h) f shut closed = rw closed refl

  pub Step-revoked :
      {s t : Tables} (st : Step s t) → IsConsistent s → Revokes id st → store t id ≡ none
  Step-revoked st c revokes = ap (λ f. f id) (Step-refines st c) ∙ change-Revokes st revokes

  pub Step-closed :
      {s t : Tables} (st : Step s t)
      → IsConsistent s
      → (Opens id st → ⊥)
      → store s id ≡ none
      → store t id ≡ none
  Step-closed st c shut closed = ap (λ f. f id) (Step-refines st c) ∙ change_closed st _ shut closed

  Reach-closed :
      {t u : Tables} (r : Reach t u)
      → IsConsistent t
      → NeverOpens id r
      → store t id ≡ none
      → store u id ≡ none
  Reach-closed here c never closed = closed
  Reach-closed (next r st) c (never, shut) closed =
      Step-closed st (Reach-IsConsistent r c) shut (Reach-closed r c never closed)

  pub get_account_session_of_closed :
      (t : Tables) → store t id ≡ none → get_account_session id t ≡ err no_rows
  unfolding get_account_session
  get_account_session_of_closed t closed = rw (closed, join_account)

  -- A session that was deleted, whose account was deleted or that was cleaned up after it expired is
  -- found by no later query, whatever the statements of other requests in between, as long as none of
  -- them opens a session with its ID. The tables are consistent when the session is taken away.
  pub get_account_session_revoked :
      {s t u : Tables} (st : Step s t) (r : Reach t u)
      → IsConsistent s
      → Revokes id st
      → NeverOpens id r
      → get_account_session id u ≡ err no_rows
  get_account_session_revoked {s} {t} {u} st r c revokes never =
      get_account_session_of_closed u
        (Reach-closed r (Step-IsConsistent st c) never (Step-revoked st c revokes))
