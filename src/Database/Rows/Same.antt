-- ===== src/Database/Rows/Same.antt =====
-- Tables that hold the same rows, and what of them is then the same.
use mkrepo.Base.{String, ◌≡◌, sym, ◌∙◌, List, Result, ok, err, eq_iff}
use mkrepo.Database.{Account, OAuth2State, Session, Tables, DbError, Statement}
use mkrepo.Database.{has_state, has_id, has_session_id, is_account}
use mkrepo.Database.Constraints.{IsConsistent}
use mkrepo.Database.Accounts.{same_row, is_account_iff}
use mkrepo.Database.Rows.{SameItems, SelectsOne}

-- The same rows in each table.
pub record SameRows (t u : Tables) : Type 0 where
  pub states : SameItems t.oauth2_states u.oauth2_states
  pub accounts : SameItems t.accounts u.accounts
  pub sessions : SameItems t.sessions u.sessions

-- The same answer, with the same rows behind it.
abbrev pub Alike : {A : Type 0} → Result DbError (A × Tables) → Result DbError (A × Tables) → Type 0
Alike (ok (a, t)) (ok (b, u)) = (a ≡ b) × SameRows t u
Alike (err e) (err f) = e ≡ f
Alike (ok x) (err f) = ⊥
Alike (err e) (ok y) = ⊥

pub record IsBlind {A : Type 0} (st : Statement A) : Type 0 where
  pub alike : (t u : Tables) → IsConsistent t → SameRows t u → Alike (st t) (st u)

pub has_state-SelectsOne :
    (state : String) (t : Tables) → IsConsistent t → SelectsOne (has_state state) t.oauth2_states
has_state-SelectsOne state t c x y ex ey px py =
    same_row (λ r. r.state) t.oauth2_states c.unique_states ex ey
      ((eq_iff x.state state).0 px ∙ sym ((eq_iff y.state state).0 py))

pub has_id-SelectsOne :
    (id : String) (t : Tables) → IsConsistent t → SelectsOne (has_id id) t.accounts
has_id-SelectsOne id t c x y ex ey px py =
    same_row (λ a. a.id) t.accounts c.unique_ids ex ey
      ((eq_iff x.id id).0 px ∙ sym ((eq_iff y.id id).0 py))

pub has_session_id-SelectsOne :
    (id : String) (t : Tables) → IsConsistent t → SelectsOne (has_session_id id) t.sessions
has_session_id-SelectsOne id t c x y ex ey px py =
    same_row (λ s. s.id) t.sessions c.unique_sessions ex ey
      ((eq_iff x.id id).0 px ∙ sym ((eq_iff y.id id).0 py))

pub is_account-SelectsOne :
    (provider paid : String) (t : Tables)
    → IsConsistent t
    → SelectsOne (is_account provider paid) t.accounts
is_account-SelectsOne provider paid t c x y ex ey px py =
    let (p, q) = is_account_iff provider paid x px in
    let (p', q') = is_account_iff provider paid y py in
    same_row {K = String × String} (λ a. (a.provider, a.provider_account_id)) t.accounts
      c.unique_accounts ex ey (λ i. ((p ∙ sym p') i, (q ∙ sym q') i))

module _ {t u : Tables} (same : SameRows t u) where
  pub with_states :
      {xs ys : List OAuth2State}
      → SameItems xs ys
      → SameRows (record t { oauth2_states = xs }) (record u { oauth2_states = ys })
  with_states changed = record {
    states = changed;
    accounts = same.accounts;
    sessions = same.sessions;
  }

  pub with_accounts :
      {xs ys : List Account}
      → SameItems xs ys
      → SameRows (record t { accounts = xs }) (record u { accounts = ys })
  with_accounts changed = record {
    states = same.states;
    accounts = changed;
    sessions = same.sessions;
  }

  pub with_sessions :
      {xs ys : List Session}
      → SameItems xs ys
      → SameRows (record t { sessions = xs }) (record u { sessions = ys })
  with_sessions changed = record {
    states = same.states;
    accounts = same.accounts;
    sessions = changed;
  }
