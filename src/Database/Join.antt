-- ===== src/Database/Join.antt =====
-- The join of `GetAccountSession`.
use mkrepo.Base.{String, ◌≡◌, refl, ap, Option, none, some, Elem, find, ok}
use mkrepo.Base.{Option-cases, inl, inr, eq_iff, ok-injective}
use mkrepo.Database.{Account, Session, Tables, GetAccountSessionRow, joined, get_account_session}
use mkrepo.Database.{has_session_id, has_id, join_account}
use mkrepo.Database.Effects.{find_sound}

-- The rows that the join brings together.
pub record Joins (t : Tables) (id : String) (row : GetAccountSessionRow) : Type 0 where
  pub session : Session
  pub account : Account
  pub session_there : Elem session t.sessions
  pub session_id : session.id ≡ id
  pub account_there : Elem account t.accounts
  pub owner : account.id ≡ session.account_id
  pub made : joined account session ≡ row

join_account-Joins :
    (id : String) (t t' : Tables) (o : Option Session) (row : GetAccountSessionRow)
    → find (has_session_id id) t.sessions ≡ o
    → join_account o t ≡ ok (row, t')
    → Joins t id row
unfolding join_account
join_account-Joins id t t' none row found h = cc
join_account-Joins id t t' (some s) row found h =
    elim (Option-cases (find (has_id s.account_id) t.accounts)) [
      | inl missing ↦ cc (rw (missing, join_account) at h)
      | inr (a, there) ↦
          let (elem, same) = find_sound (has_session_id id) t.sessions found in
          let (owner, own) = find_sound (has_id s.account_id) t.accounts there in
          record {
            session = s;
            account = a;
            session_there = elem;
            session_id = (eq_iff s.id id).0 same;
            account_there = owner;
            owner = (eq_iff a.id s.account_id).0 own;
            made = ap (λ q. q.0) (ok-injective (rw (there, join_account) at h));
          }
    ]

pub get_account_session-Joins :
    (id : String) (t t' : Tables) (row : GetAccountSessionRow)
    → get_account_session id t ≡ ok (row, t')
    → Joins t id row
unfolding get_account_session
get_account_session-Joins id t t' row h =
    join_account-Joins id t t' (find (has_session_id id) t.sessions) row refl h
