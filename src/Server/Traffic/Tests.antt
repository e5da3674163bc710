-- ===== src/Server/Traffic/Tests.antt =====
-- A logout, and what comes after it.
use mkrepo.Base.{◌≡◌, ◌≢◌, refl, inl, inr, String, none, arith, eq_iff, ok, List, [], ◌∷◌}
use mkrepo.Base.Dict.{lookup, insert}
use mkrepo.Database.{delete_session, delete_account, get_account_session, join_account}
use mkrepo.Database.Crypto.{decrypt}
use mkrepo.Database.Db.{healthy, run}
use mkrepo.Provider.Registry.{new_providers_from_config}
use mkrepo.Handler.{Account, Request}
use mkrepo.Handler.Action.{◌>>=◌}
use mkrepo.Handler.Tokens.{decrypt_tokens}
use mkrepo.Handler.Session.{authenticate_session, renew}
use mkrepo.Handler.Samples.{
  env, later, callback_inputs, session, bearer, logged_in, logged_in-IsConsistent,
}
use mkrepo.Server.{Site, RequestInputs, new_server}
use mkrepo.Server.Samples.{site, inputs, post, get_logout}
use mkrepo.Server.Traffic.{Event, serves, collects, traffic}
use mkrepo.Database.{OAuth2State, Tables}
use mkrepo.Database.Constraints.{IsConsistent}
use mkrepo.Database.Rows.Same.{SameRows}
use mkrepo.Server.Traffic.Blind.{new_server-traffic_blind}
use mkrepo.Server.Traffic.Refused.{IsRefused}
use mkrepo.Server.Traffic.Deleted.{new_server_account_deleted}
use mkrepo.Server.Traffic.LoggedOut.{new_server_logged_out}

abbrev other_inputs : RequestInputs
other_inputs = record inputs { callback = record callback_inputs { session_id = "t" } }

-- Another time: the token source does not answer any more.
abbrev revoking : Site Unit Unit
revoking = record site { env = record env { token_source = λ c token. none } }

abbrev events : List (Event Unit Unit)
events = serves revoking other_inputs post ∷ collects 10 11 ∷ []

deleted :
    (run (delete_session "s") (authenticate_session env later "s" (healthy logged_in)).1).0 ≡ ok tt
unfolding run delete_session authenticate_session renew ◌>>=◌ get_account_session join_account
    lookup insert new_providers_from_config decrypt_tokens decrypt
deleted = refl

another_id : other_inputs.callback.session_id ≢ "s"
another_id = ground (arith, eq_iff "t" "s")

new_server_logged_out_example :
    let run₁ = new_server site inputs get_logout (healthy logged_in) [] in
    let (db₂, h₂) = traffic events run₁.db run₁.history in
    IsRefused revoking other_inputs post db₂ h₂ "s"
new_server_logged_out_example =
    new_server_logged_out site revoking inputs other_inputs get_logout post (healthy logged_in) []
      "s" events logged_in-IsConsistent (unfold lookup in refl) (inl refl) refl deleted
      (another_id, tt) (unfold lookup in refl)

abbrev get_delete : Request
get_delete = record get_logout { path = "/auth/delete-account"; uri = "/auth/delete-account" }

abbrev ann : Account
ann = record {
  id = "1";
  provider_key = "github";
  provider_account_id = "77";
  email = "a@x";
  username = "ann";
  display_name = "Ann";
  avatar_url = "";
  token = bearer;
}

authenticated : authenticate_session env later "s" (healthy logged_in) ≡ (ok ann, healthy logged_in)
unfolding run authenticate_session renew ◌>>=◌ get_account_session join_account lookup insert
    new_providers_from_config decrypt_tokens decrypt
authenticated = refl

account_deleted : (run (delete_account "1") (healthy logged_in)).0 ≡ ok tt
unfolding run delete_account
account_deleted = refl

new_server_account_deleted_example :
    let run₁ = new_server site inputs get_delete (healthy logged_in) [] in
    let (db₂, h₂) = traffic events run₁.db run₁.history in
    IsRefused revoking other_inputs post db₂ h₂ "s"
new_server_account_deleted_example =
    new_server_account_deleted site revoking inputs other_inputs get_delete post (healthy logged_in)
      (healthy logged_in) [] "s" ann session events logged_in-IsConsistent (unfold lookup in refl)
      authenticated (inl refl) refl account_deleted refl refl (another_id, tt)
      (unfold lookup in refl)

-- Two logins that were begun, whose states stand in one order or the other.
abbrev begun : String → OAuth2State
begun state = record { state = state; verifier = none; expires_at = 900 }

abbrev two_states : String → String → Tables
two_states a b = record logged_in { oauth2_states = begun a ∷ begun b ∷ [] }

two_states-IsConsistent : (a b : String) → a ≢ b → IsConsistent (two_states a b)
two_states-IsConsistent a b other = record {
  unique_states = ((other, tt), (tt, tt));
  unique_ids = (tt, tt);
  unique_accounts = (tt, tt);
  unique_sessions = (tt, tt);
  owned = (inl refl, tt);
}

two_states-SameRows : SameRows (two_states "x" "y") (two_states "y" "x")
two_states-SameRows = record {
  states = λ r. (
    λ e. elim e [
      | inl first ↦ inr (inl first)
      | inr (inl second) ↦ inl second
      | inr (inr none_left) ↦ absurd none_left
    ],
    λ e. elim e [
      | inl first ↦ inr (inl first)
      | inr (inl second) ↦ inl second
      | inr (inr none_left) ↦ absurd none_left
    ],
  );
  accounts = λ r. (λ e. e, λ e. e);
  sessions = λ r. (λ e. e, λ e. e);
}

new_server-traffic_blind_example :
    let (d, k) = traffic events (healthy (two_states "x" "y")) [] in
    let (d', k') = traffic events (healthy (two_states "y" "x")) [] in
    let run = new_server site inputs get_delete d k in
    let run' = new_server site inputs get_delete d' k' in
    (run.answer ≡ run'.answer)
    × (run.history ≡ run'.history)
    × SameRows run.db.tables run'.db.tables
new_server-traffic_blind_example =
    new_server-traffic_blind events site inputs get_delete (healthy (two_states "x" "y"))
      (healthy (two_states "y" "x")) []
      (two_states-IsConsistent "x" "y" (ground (arith, eq_iff "x" "y")))
      (two_states-IsConsistent "y" "x" (ground (arith, eq_iff "y" "x"))) two_states-SameRows refl
