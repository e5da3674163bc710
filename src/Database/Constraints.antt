-- ===== src/Database/Constraints.antt =====
-- The constraints of sql/schema.sql, and that every kind of change that a statement makes to a table
-- keeps them.
use mkrepo.Base.{String, Bool, true, false, ◌≡◌, refl, ◌≢◌, ap, inr, none}
use mkrepo.Base.{List, [], ◌∷◌, map, arith, eq_iff, All, Elem, any, find, without, update}
use mkrepo.Database.{Account, OAuth2State, Session, Tables, empty_tables, has_id}
use mkrepo.Database.{has_session_id, belongs_to, is_account}
use mkrepo.Database.Unique.{Unique, All-without, All-update, All-any, Unique-without, Unique-update}

abbrev pub ids : List Account → List String
ids = map (λ a. a.id)

-- `PRIMARY KEY`, `UNIQUE (provider, provider_account_id)` and `REFERENCES account (id)`.
pub record IsConsistent (t : Tables) : Type 0 where
  pub unique_states : Unique (λ r. r.state) t.oauth2_states
  pub unique_ids : Unique (λ a. a.id) t.accounts
  pub unique_accounts :
      Unique {K = String × String} (λ a. (a.provider, a.provider_account_id)) t.accounts
  pub unique_sessions : Unique (λ s. s.id) t.sessions
  pub owned : All (λ s. Elem s.account_id (ids t.accounts)) t.sessions

pub IsConsistent-empty : IsConsistent empty_tables
IsConsistent-empty = record {
  unique_states = tt;
  unique_ids = tt;
  unique_accounts = tt;
  unique_sessions = tt;
  owned = tt;
}

-- The account of a row that stays, stays.
Elem-without :
    (id j : String) (rows : List Account)
    → j ≢ id
    → Elem j (ids rows)
    → Elem j (ids (without (has_id id) rows))
Elem-without id j [] ne e = e
Elem-without id j (a ∷ rows) ne e = ground (arith, eq_iff a.id id, Elem-without id j rows ne)

ids-update :
    (p : Account → Bool) (f : Account → Account) (rows : List Account)
    → ((a : Account) → (f a).id ≡ a.id)
    → ids (update p f rows) ≡ ids rows
ids-update p f [] same = refl
ids-update p f (a ∷ rows) same = ground (arith, same a, ids-update p f rows same)

Elem-any : (id : String) (rows : List Account) → any (has_id id) rows ≡ true → Elem id (ids rows)
Elem-any id [] h = cc
Elem-any id (a ∷ rows) h = ground (arith, eq_iff a.id id, Elem-any id rows)

owned-without :
    (id : String) (rows : List Account) (ss : List Session)
    → All (λ s. Elem s.account_id (ids rows)) ss
    → All (λ s. Elem s.account_id (ids (without (has_id id) rows))) (without (belongs_to id) ss)
owned-without id rows [] h = tt
owned-without id rows (s ∷ ss) h =
    ground (
      arith,
      eq_iff s.account_id id,
      Elem-without id s.account_id rows,
      owned-without id rows ss h.1,
    )

owned-cons :
    (id : String) (js : List String) (ss : List Session)
    → All (λ s. Elem s.account_id js) ss
    → All (λ s. Elem s.account_id (id ∷ js)) ss
owned-cons id js [] h = tt
owned-cons id js (s ∷ ss) h = (inr h.0, owned-cons id js ss h.1)

pub without_states-IsConsistent :
    (p : OAuth2State → Bool) (t : Tables)
    → IsConsistent t
    → IsConsistent (record t { oauth2_states = without p t.oauth2_states })
without_states-IsConsistent p t c = record {
  unique_states = Unique-without (λ r. r.state) p t.oauth2_states c.unique_states;
  unique_ids = c.unique_ids;
  unique_accounts = c.unique_accounts;
  unique_sessions = c.unique_sessions;
  owned = c.owned;
}

pub without_sessions-IsConsistent :
    (p : Session → Bool) (t : Tables)
    → IsConsistent t
    → IsConsistent (record t { sessions = without p t.sessions })
without_sessions-IsConsistent p t c = record {
  unique_states = c.unique_states;
  unique_ids = c.unique_ids;
  unique_accounts = c.unique_accounts;
  unique_sessions = Unique-without (λ s. s.id) p t.sessions c.unique_sessions;
  owned = All-without (λ s. Elem s.account_id (ids t.accounts)) p t.sessions c.owned;
}

pub update_accounts-IsConsistent :
    (p : Account → Bool) (f : Account → Account) (t : Tables)
    → ((a : Account) → (f a).id ≡ a.id)
    → ((a : Account) → (f a).provider ≡ a.provider)
    → ((a : Account) → (f a).provider_account_id ≡ a.provider_account_id)
    → IsConsistent t
    → IsConsistent (record t { accounts = update p f t.accounts })
update_accounts-IsConsistent p f t i q k c = record {
  unique_states = c.unique_states;
  unique_ids = Unique-update (λ a. a.id) p f t.accounts i c.unique_ids;
  unique_accounts =
      Unique-update {K = String × String} (λ a. (a.provider, a.provider_account_id)) p f t.accounts
        (λ a. λ j. (q a j, k a j)) c.unique_accounts;
  unique_sessions = c.unique_sessions;
  owned = rw (ids-update p f t.accounts i) c.owned;
}

pub update_sessions-IsConsistent :
    (p : Session → Bool) (f : Session → Session) (t : Tables)
    → ((s : Session) → (f s).id ≡ s.id)
    → ((s : Session) → (f s).account_id ≡ s.account_id)
    → IsConsistent t
    → IsConsistent (record t { sessions = update p f t.sessions })
update_sessions-IsConsistent p f t i a c = record {
  unique_states = c.unique_states;
  unique_ids = c.unique_ids;
  unique_accounts = c.unique_accounts;
  unique_sessions = Unique-update (λ s. s.id) p f t.sessions i c.unique_sessions;
  owned =
      All-update (λ s. Elem s.account_id (ids t.accounts)) p f t.sessions (λ s e. rw (a s) e)
        c.owned;
}

pub delete_account-IsConsistent :
    (id : String) (t : Tables)
    → IsConsistent t
    → IsConsistent (record t {
      accounts = without (has_id id) t.accounts;
      sessions = without (belongs_to id) t.sessions;
    })
delete_account-IsConsistent id t c = record {
  unique_states = c.unique_states;
  unique_ids = Unique-without (λ a. a.id) (has_id id) t.accounts c.unique_ids;
  unique_accounts =
      Unique-without {K = String × String} (λ a. (a.provider, a.provider_account_id)) (has_id id)
        t.accounts c.unique_accounts;
  unique_sessions = Unique-without (λ s. s.id) (belongs_to id) t.sessions c.unique_sessions;
  owned = owned-without id t.accounts t.sessions c.owned;
}

pub cons_session-IsConsistent :
    (s : Session) (t : Tables)
    → any (has_session_id s.id) t.sessions ≡ false
    → any (has_id s.account_id) t.accounts ≡ true
    → IsConsistent t
    → IsConsistent (record t { sessions = s ∷ t.sessions })
cons_session-IsConsistent s t new there c = record {
  unique_states = c.unique_states;
  unique_ids = c.unique_ids;
  unique_accounts = c.unique_accounts;
  unique_sessions = (
    All-any (λ y. s.id ≢ y.id) (has_session_id s.id) t.sessions
        (λ y n e. ground (arith, eq_iff y.id s.id)) new,
    c.unique_sessions,
  );
  owned = (Elem-any s.account_id t.accounts there, c.owned);
}

pub any_of_find : {A : Type 0} (p : A → Bool) (xs : List A) → find p xs ≡ none → any p xs ≡ false
any_of_find p [] h = refl
any_of_find p (x ∷ xs) h = ground (arith, any_of_find p xs)

pub cons_account-IsConsistent :
    (a : Account) (t : Tables)
    → find (is_account a.provider a.provider_account_id) t.accounts ≡ none
    → any (has_id a.id) t.accounts ≡ false
    → IsConsistent t
    → IsConsistent (record t { accounts = a ∷ t.accounts })
cons_account-IsConsistent a t unknown new c = record {
  unique_states = c.unique_states;
  unique_ids = (
    All-any (λ y. a.id ≢ y.id) (has_id a.id) t.accounts (λ y n e. ground (arith, eq_iff y.id a.id))
        new,
    c.unique_ids,
  );
  unique_accounts = (
    All-any
        (λ y.
          ◌≢◌ {A = String × String} (a.provider, a.provider_account_id)
            (y.provider, y.provider_account_id))
        (is_account a.provider a.provider_account_id) t.accounts
        (λ y n e.
          let p : a.provider ≡ y.provider = ap (λ (k : String × String). k.0) e in
          let q : a.provider_account_id ≡ y.provider_account_id =
            ap (λ (k : String × String). k.1) e in
          ground (
            arith,
            eq_iff y.provider a.provider,
            eq_iff y.provider_account_id a.provider_account_id,
          ))
        (any_of_find _ t.accounts unknown),
    c.unique_accounts,
  );
  unique_sessions = c.unique_sessions;
  owned = owned-cons a.id (ids t.accounts) t.sessions c.owned;
}
