-- ===== src/Database/Rows/Laws.antt =====
-- No statement tells tables apart that hold the same rows.
use mkrepo.Base.{String, ℕ, refl, sym, ◌∙◌, inl, inr}
use mkrepo.Base.{find, any, ltb}
use mkrepo.Base.{Option-cases, Bool-cases}
use mkrepo.Database.{
  Account, OAuth2State, Session, has_state, has_id, has_session_id, belongs_to, is_account,
  take_profile, set_profile, set_tokens, UpdateAccountParams, UpdateSessionParams,
}
use mkrepo.Database.{
  create_oauth2_state, get_and_delete_oauth2_state, delete_expired_oauth2_states, join_account,
  get_account_session, upsert_account, update_account, delete_account, create_session,
  update_session, delete_session, delete_expired_sessions,
}
use mkrepo.Database.Rows.{
  SameItems-cons, SameItems-without, SameItems-update, any-SameItems, find-SameItems,
}
use mkrepo.Database.Rows.Same.{
  IsBlind, has_state-SelectsOne, has_id-SelectsOne, has_session_id-SelectsOne,
  is_account-SelectsOne, with_states, with_accounts, with_sessions,
}

pub create_oauth2_state-IsBlind : (r : OAuth2State) → IsBlind (create_oauth2_state r)
unfolding create_oauth2_state
create_oauth2_state-IsBlind r = record {
  alike = λ t u c same.
      let there = any-SameItems (has_state r.state) _ _ same.states in
      elim (Bool-cases (any (has_state r.state) t.oauth2_states)) [
        | inl known ↦ rw (known, sym there ∙ known, create_oauth2_state) refl
        | inr new ↦
            rw (new, sym there ∙ new, create_oauth2_state)
              (refl, with_states same (SameItems-cons r _ _ same.states))
      ];
}

pub get_and_delete_oauth2_state-IsBlind :
    (state : String) → IsBlind (get_and_delete_oauth2_state state)
unfolding get_and_delete_oauth2_state
get_and_delete_oauth2_state-IsBlind state = record {
  alike = λ t u c same.
      let found =
        find-SameItems (has_state state) t.oauth2_states u.oauth2_states same.states
          (has_state-SelectsOne state t c) in
      elim (Option-cases (find (has_state state) t.oauth2_states)) [
        | inl missing ↦ rw (missing, sym found ∙ missing, get_and_delete_oauth2_state) refl
        | inr (r, there) ↦
            rw (there, sym found ∙ there, get_and_delete_oauth2_state)
              (refl, with_states same (SameItems-without (has_state state) _ _ same.states))
      ];
}

pub get_account_session-IsBlind : (id : String) → IsBlind (get_account_session id)
unfolding get_account_session join_account
get_account_session-IsBlind id = record {
  alike = λ t u c same.
      let found =
        find-SameItems (has_session_id id) t.sessions u.sessions same.sessions
          (has_session_id-SelectsOne id t c) in
      elim (Option-cases (find (has_session_id id) t.sessions)) [
        | inl missing ↦ rw (missing, sym found ∙ missing, get_account_session, join_account) refl
        | inr (s, there) ↦
            let owner =
              find-SameItems (has_id s.account_id) t.accounts u.accounts same.accounts
                (has_id-SelectsOne s.account_id t c) in
            elim (Option-cases (find (has_id s.account_id) t.accounts)) [
              | inl missing ↦
                  rw
                    (
                      there,
                      sym found ∙ there,
                      get_account_session,
                      join_account,
                      missing,
                      sym owner ∙ missing,
                    )
                    refl
              | inr (a, owned) ↦
                  rw
                    (
                      there,
                      sym found ∙ there,
                      get_account_session,
                      join_account,
                      owned,
                      sym owner ∙ owned,
                    )
                    (refl, same)
            ]
      ];
}

pub upsert_account-IsBlind : (row : Account) → IsBlind (upsert_account row)
unfolding upsert_account
upsert_account-IsBlind row = record {
  alike = λ t u c same.
      let known = is_account row.provider row.provider_account_id in
      let found =
        find-SameItems known t.accounts u.accounts same.accounts
          (is_account-SelectsOne row.provider row.provider_account_id t c) in
      let used = any-SameItems (has_id row.id) _ _ same.accounts in
      elim (Option-cases (find known t.accounts)) [
        | inr (old, there) ↦
            rw (there, sym found ∙ there, upsert_account)
              (
                refl,
                with_accounts same (SameItems-update known (take_profile row) _ _ same.accounts),
              )
        | inl missing ↦ elim (Bool-cases (any (has_id row.id) t.accounts)) [
          | inl taken ↦
              rw (missing, sym found ∙ missing, taken, sym used ∙ taken, upsert_account) refl
          | inr free ↦
              rw (missing, sym found ∙ missing, free, sym used ∙ free, upsert_account)
                (refl, with_accounts same (SameItems-cons row _ _ same.accounts))
        ]
      ];
}

pub create_session-IsBlind : (s : Session) → IsBlind (create_session s)
unfolding create_session
create_session-IsBlind s = record {
  alike = λ t u c same.
      let there = any-SameItems (has_session_id s.id) _ _ same.sessions in
      let owned = any-SameItems (has_id s.account_id) _ _ same.accounts in
      elim (Bool-cases (any (has_session_id s.id) t.sessions)) [
        | inl known ↦ rw (known, sym there ∙ known, create_session) refl
        | inr new ↦ elim (Bool-cases (any (has_id s.account_id) t.accounts)) [
          | inl owner ↦
              rw (new, sym there ∙ new, owner, sym owned ∙ owner, create_session)
                (refl, with_sessions same (SameItems-cons s _ _ same.sessions))
          | inr lost ↦ rw (new, sym there ∙ new, lost, sym owned ∙ lost, create_session) refl
        ]
      ];
}

pub update_account-IsBlind : (arg : UpdateAccountParams) → IsBlind (update_account arg)
unfolding update_account
update_account-IsBlind arg = record {
  alike = λ t u c same. (
    refl,
    with_accounts same (SameItems-update (has_id arg.id) (set_profile arg) _ _ same.accounts),
  );
}

pub delete_account-IsBlind : (id : String) → IsBlind (delete_account id)
unfolding delete_account
delete_account-IsBlind id = record {
  alike = λ t u c same. (
    refl,
    with_sessions (with_accounts same (SameItems-without (has_id id) _ _ same.accounts))
        (SameItems-without (belongs_to id) _ _ same.sessions),
  );
}

pub update_session-IsBlind : (arg : UpdateSessionParams) → IsBlind (update_session arg)
unfolding update_session
update_session-IsBlind arg = record {
  alike = λ t u c same. (
    refl,
    with_sessions same
        (SameItems-update (has_session_id arg.id) (set_tokens arg) _ _ same.sessions),
  );
}

pub delete_session-IsBlind : (id : String) → IsBlind (delete_session id)
unfolding delete_session
delete_session-IsBlind id = record {
  alike = λ t u c same.
      (refl, with_sessions same (SameItems-without (has_session_id id) _ _ same.sessions));
}

pub delete_expired_oauth2_states-IsBlind : (now : ℕ) → IsBlind (delete_expired_oauth2_states now)
unfolding delete_expired_oauth2_states
delete_expired_oauth2_states-IsBlind now = record {
  alike = λ t u c same.
      (refl, with_states same (SameItems-without (λ r. ltb r.expires_at now) _ _ same.states));
}

pub delete_expired_sessions-IsBlind : (now : ℕ) → IsBlind (delete_expired_sessions now)
unfolding delete_expired_sessions
delete_expired_sessions-IsBlind now = record {
  alike = λ t u c same.
      (refl, with_sessions same (SameItems-without (λ s. ltb s.expires_at now) _ _ same.sessions));
}
