-- ===== src/Handler/Session/Renewal.antt =====
-- `authenticateSession` when the provider has replaced the access token.
use mathlib.Core.Path.{subst}
use mkrepo.Base.{
  String, Bool, ◌≡◌, ◌≢◌, refl, ap, sym, ◌≤◌, some, ok, false, List, [], ◌∷◌, Option, inl, inr,
}
use mkrepo.Base.{some-injective, arith, eq_iff, ltb, ◌==◌, find, update, Bool-cases}
use mkrepo.Base.Dict.{lookup}
use mkrepo.Provider.{Token, User, Client}
use mkrepo.Provider.Registry.{Provider, oauth2_config, new_client}
use mkrepo.Database.{
  Account, Session, Tables, joined, get_account_session, join_account, has_session_id, has_id,
}
use mkrepo.Database.{
  update_account, update_session, set_profile, set_tokens, UpdateAccountParams, UpdateSessionParams,
}
use mkrepo.Database.Db.{healthy}
use mkrepo.Database.Db.Laws.{run-healthy}
use mkrepo.Database.Effects.{find_sound}
use mkrepo.Handler.{Env}
use mkrepo.Handler.Action.{◌>>=◌}
use mkrepo.Handler.Session.{Inputs, account_of, authenticate_session, renew, expiry_of}
use mkrepo.Handler.Tokens.{encrypt_tokens, decrypt_tokens}

-- A row that is found is found again after an update that keeps the test, with the update.
find-update :
    {A : Type 0} (p : A → Bool) (f : A → A) (xs : List A) {x : A}
    → ((y : A) → p (f y) ≡ p y)
    → find p xs ≡ some x
    → find p (update p f xs) ≡ some (f x)
find-update p f [] keeps there = cc
find-update p f (y ∷ xs) keeps there = elim (Bool-cases (p y)) [
  | inl hit ↦ rw (hit, keeps y, hit) (ap some (ap f (some-injective (rw hit at there))))
  | inr miss ↦ rw (miss, miss) (find-update p f xs keeps (rw miss at there))
]

abbrev pub profile_of : Account → User → UpdateAccountParams
profile_of a user = record {
  id = a.id;
  username = user.username;
  email = user.email;
  display_name = user.display_name;
  avatar_url = user.avatar_url;
}

abbrev pub tokens_of : Session → String × Option String → Token → UpdateSessionParams
tokens_of s stored fresh = record {
  id = s.id;
  access_token = stored.0;
  refresh_token = stored.1;
  access_token_expires_at = some fresh.expiry;
}

-- The tables after the renewal.
abbrev pub renewed : Account → Session → User → String × Option String → Token → Tables → Tables
renewed a s user stored fresh t = record t {
  accounts = update (has_id a.id) (set_profile (profile_of a user)) t.accounts;
  sessions = update (has_session_id s.id) (set_tokens (tokens_of s stored fresh)) t.sessions;
}

module _ (t : Tables) (id : String) (a : Account) (s : Session)
    (session_there : find (has_session_id id) t.sessions ≡ some s)
    (account_there : find (has_id s.account_id) t.accounts ≡ some a) where
  joined_row : get_account_session id t ≡ ok (joined a s, t)
  unfolding get_account_session join_account
  joined_row = rw (session_there, join_account, account_there) refl

  joined_again :
      (user : User) (stored : String × Option String) (fresh : Token)
      → let t' = renewed a s user stored fresh t in
        get_account_session id t'
        ≡ ok (
          joined (set_profile (profile_of a user) a) (set_tokens (tokens_of s stored fresh) s),
          t',
        )
  unfolding get_account_session join_account
  joined_again user stored fresh =
      let tokens = tokens_of s stored fresh in
      let profile = profile_of a user in
      let same : s.id ≡ id =
        (eq_iff s.id id).0 (find_sound (has_session_id id) t.sessions session_there).1 in
      let owner : a.id ≡ s.account_id =
        (eq_iff a.id s.account_id).0
          (find_sound (has_id s.account_id) t.accounts account_there).1 in
      let found_session =
        subst
          (λ k.
            find (has_session_id id) (update (has_session_id k) (set_tokens tokens) t.sessions)
            ≡ some (set_tokens tokens s))
          (sym same)
          (find-update (has_session_id id) (set_tokens tokens) t.sessions (λ y. refl)
            session_there) in
      let found_account =
        subst
          (λ k.
            find (has_id s.account_id) (update (has_id k) (set_profile profile) t.accounts)
            ≡ some (set_profile profile a))
          (sym owner)
          (find-update (has_id s.account_id) (set_profile profile) t.accounts (λ y. refl)
            account_there) in
      rw (found_session, join_account, found_account) refl

  module _ {Block : Type 0} (env : Env Block) (inputs : Inputs) (pr : Provider)
      (access refresh : String) (fresh : Token) (stored : String × Option String) (client : Client)
      (user : User) where
    -- The two statements of the renewal.
    renew_lem :
        encrypt_tokens env.library env.encryption_key inputs.random_access inputs.random_refresh
            fresh.access_token fresh.refresh_token
          ≡ ok stored
        → new_client env.sdk pr fresh ≡ ok client
        → client.get_user ≡ ok user
        → renew env inputs (joined a s) pr fresh (healthy t)
          ≡ (ok tt, healthy (renewed a s user stored fresh t))
    unfolding renew ◌>>=◌ update_account update_session
    renew_lem encrypted connected got =
        let profile = profile_of a user in
        let between : Tables = record t {
          accounts = update (has_id a.id) (set_profile profile) t.accounts;
        } in
        rw
          (
            encrypted,
            connected,
            got,
            run-healthy (update_account profile) t {t' = between} refl,
            run-healthy (update_session (tokens_of s stored fresh)) between refl,
          )
          refl

    -- Without faults, when the provider has replaced the access token of a session that is found,
    -- has not expired and can be decrypted, the profile is fetched with the new token, and the
    -- account and the session are brought up to date. The account that is returned has the new token
    -- and the profile from before; what the session is read as afterwards has the new profile and
    -- the new tokens.
    pub authenticate_session-renewed :
        inputs.now ≤ s.expires_at
        → lookup a.provider env.providers ≡ some pr
        → decrypt_tokens env.library env.encryption_key s.access_token s.refresh_token
          ≡ ok (access, refresh)
        → env.token_source (oauth2_config env.endpoints pr) (record {
          access_token = access;
          refresh_token = refresh;
          expiry = expiry_of s.access_token_expires_at;
        })
          ≡ some fresh
        → fresh.access_token ≢ access
        → encrypt_tokens env.library env.encryption_key inputs.random_access inputs.random_refresh
            fresh.access_token fresh.refresh_token
          ≡ ok stored
        → new_client env.sdk pr fresh ≡ ok client
        → client.get_user ≡ ok user
        → let t' = renewed a s user stored fresh t in
          (authenticate_session env inputs id (healthy t)
            ≡ (ok (account_of (joined a s) fresh), healthy t'))
          × (get_account_session id t'
              ≡ ok (
                joined
                    (set_profile (profile_of a user) a)
                    (set_tokens (tokens_of s stored fresh) s),
                t',
              ))
    unfolding authenticate_session ◌>>=◌
    authenticate_session-renewed live known decrypted sourced changed encrypted connected got =
        let not_expired : ltb s.expires_at inputs.now ≡ false = ground arith in
        let other_text : (fresh.access_token == access) ≡ false =
          ground (arith, eq_iff fresh.access_token access) in
        (
          rw
              (
                run-healthy (get_account_session id) t joined_row,
                not_expired,
                known,
                decrypted,
                sourced,
                other_text,
                renew_lem encrypted connected got,
              )
              refl,
          joined_again user stored fresh,
        )
