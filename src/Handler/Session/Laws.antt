-- ===== src/Handler/Session/Laws.antt =====
-- When `authenticateSession` succeeds, and what it returns.
use mathlib.Core.Path.{subst}
use mkrepo.Base.{String, ◌≡◌, refl, ◌≤◌, some, ok}
use mkrepo.Base.{arith, eq_iff, ltb, ◌==◌}
use mkrepo.Base.Dict.{lookup}
use mkrepo.Provider.Registry.{Provider}
use mkrepo.Database.{Tables, GetAccountSessionRow, get_account_session}
use mkrepo.Database.Db.{Db}
use mkrepo.Database.Join.{Joins, get_account_session-Joins}
use mkrepo.Base.{or_err-ok}
use mkrepo.Handler.{Env, Account}
use mkrepo.Handler.Action.{>>=-eq-ok, query-ok, lift-ok, pure-ok}
use mkrepo.Handler.Session.{Inputs, unknown_provider, account_of, authenticate_session, expiry_of}
use mkrepo.Handler.Action.{◌>>=◌}
use mkrepo.Handler.Tokens.{decrypt_tokens}
use mkrepo.Provider.{Token}
use mkrepo.Provider.Registry.{oauth2_config}
use mkrepo.Database.Db.{healthy}
use mkrepo.Database.Db.Laws.{run-healthy}
use mkrepo.Base.{false, true}

module _ {Block : Type 0} (env : Env Block) (inputs : Inputs) where
  -- Whatever the faults and the remote services, a session is authenticated only if it is in the
  -- tables under the cookie's ID, has not expired and belongs to an account of a known provider;
  -- what is returned is that account.
  pub authenticate_session_sound :
      (id : String) (db : Db) {account : Account} {db' : Db}
      → authenticate_session env inputs id db ≡ (ok account, db')
      → (row : GetAccountSessionRow) × Joins db.tables id row
        × (inputs.now ≤ row.expires_at)
        × ((pr : Provider) × (lookup row.provider env.providers ≡ some pr))
        × (account ≡ account_of row account.token)
  unfolding authenticate_session
  authenticate_session_sound id db h =
      let (row, db₁, read, h₁) = >>=-eq-ok _ _ db h in
      let (u, db₂, live, h₂) = >>=-eq-ok _ _ db₁ h₁ in
      let (pr, db₃, known, h₃) = >>=-eq-ok _ _ db₂ h₂ in
      let (tokens, db₄, decrypted, h₄) = >>=-eq-ok _ _ db₃ h₃ in
      let (token, db₅, fresh, h₅) = >>=-eq-ok _ _ db₄ h₄ in
      let (v, db₆, renewed, h₆) = >>=-eq-ok _ _ db₅ h₅ in
      (
        row,
        get_account_session-Joins id db.tables db₁.tables row (query-ok _ _ db read),
        ground (arith, (lift-ok _ db₁ live).0),
        (
          pr,
          or_err-ok (lookup row.provider env.providers) unknown_provider (lift-ok _ db₂ known).0,
        ),
        subst (λ x. x ≡ account_of row x.token) (pure-ok _ db₆ h₆).0 refl,
      )

  -- Without faults, and while the provider does not replace the access token, a session that is
  -- found, has not expired and can be decrypted is authenticated, and the tables stay as they are.
  pub authenticate_session_unchanged :
      (id : String) (t : Tables) (row : GetAccountSessionRow) (pr : Provider)
      (access refresh : String) (fresh : Token)
      → get_account_session id t ≡ ok (row, t)
      → inputs.now ≤ row.expires_at
      → lookup row.provider env.providers ≡ some pr
      → decrypt_tokens env.library env.encryption_key row.access_token row.refresh_token
        ≡ ok (access, refresh)
      → env.token_source (oauth2_config env.endpoints pr) (record {
        access_token = access;
        refresh_token = refresh;
        expiry = expiry_of row.access_token_expires_at;
      })
        ≡ some fresh
      → fresh.access_token ≡ access
      → authenticate_session env inputs id (healthy t) ≡ (ok (account_of row fresh), healthy t)
  unfolding authenticate_session ◌>>=◌
  authenticate_session_unchanged id t row pr access refresh fresh read live known decrypted sourced
        same =
      let not_expired : ltb row.expires_at inputs.now ≡ false = ground arith in
      let same_text : (fresh.access_token == access) ≡ true =
        (eq_iff fresh.access_token access).1 same in
      rw (run-healthy _ t read, not_expired, known, decrypted, sourced, same_text)
