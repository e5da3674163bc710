-- ===== src/Database/Accounts.antt =====
-- The account that `UpsertAccount` leaves, and the session that `CreateSession` opens for it.
use mathlib.Core.Path.{subst}
use mkrepo.Base.{none}
use mkrepo.Base.{String, Bool, true, ◌≡◌, refl, ◌≢◌, ◌∙◌, sym, ap, some, List, [], ◌∷◌, inl, inr}
use mkrepo.Base.{All, Elem, any, find, update, ok, ok-injective, Bool-cases, Option-cases, arith}
use mkrepo.Base.{eq_iff, eq_refl}
use mkrepo.Database.{Account, Session, Tables, joined, get_account_session, has_session_id, has_id}
use mkrepo.Database.{join_account, is_account, upsert_account, take_profile, create_session}
use mkrepo.Database.Unique.{Unique}
use mkrepo.Database.Effects.{find_sound}

pub all_at : {A : Type 0} (P : A → Type 0) (xs : List A) {x : A} → All P xs → Elem x xs → P x
all_at P [] h e = elim e [ ]
all_at P (y ∷ ys) h (inl same) = subst P (sym same) h.0
all_at P (y ∷ ys) h (inr later) = all_at P ys h.1 later

-- Rows with the same key are the same row.
pub same_row :
    {A K : Type 0} (key : A → K) (xs : List A) {a b : A}
    → Unique key xs
    → Elem a xs
    → Elem b xs
    → key a ≡ key b
    → a ≡ b
same_row key [] u e f h = elim e [ ]
same_row key (x ∷ xs) u (inl p) (inl q) h = p ∙ sym q
same_row key (x ∷ xs) {b} u (inl p) (inr f) h =
    absurd (all_at (λ y. key x ≢ key y) xs u.0 f (ap key (sym p) ∙ h))
same_row key (x ∷ xs) u (inr e) (inl q) h =
    absurd (all_at (λ y. key x ≢ key y) xs u.0 e (ap key (sym q) ∙ sym h))
same_row key (x ∷ xs) u (inr e) (inr f) h = same_row key xs u.1 e f h

Elem-update :
    {A : Type 0} (p : A → Bool) (f : A → A) (xs : List A) {x : A}
    → Elem x xs
    → p x ≡ true
    → Elem (f x) (update p f xs)
Elem-update p f [] e h = elim e [ ]
Elem-update p f (y ∷ ys) (inl same) h = inl (rw (← same) (rw h))
Elem-update p f (y ∷ ys) (inr later) h = inr (Elem-update p f ys later h)

pub is_account_iff :
    (provider paid : String) (a : Account)
    → is_account provider paid a ≡ true
    → (a.provider ≡ provider) × (a.provider_account_id ≡ paid)
is_account_iff provider paid a h =
    ground (arith, eq_iff a.provider provider, eq_iff a.provider_account_id paid)

-- The e-mail of the row after an upsert: a known account keeps its own.
abbrev pub email_after : Account → Tables → String
email_after row t = elim (find (is_account row.provider row.provider_account_id) t.accounts) [
  | none ↦ row.email
  | some old ↦ old.email
]

-- The row that an upsert leaves under the ID that it returns: the provider's account that was
-- given, with the user name, the display name and the avatar that were given, and an e-mail.
pub record IsUpserted (row : Account) (id email : String) (t : Tables) : Type 0 where
  pub account : Account
  pub there : Elem account t.accounts
  pub same_id : account.id ≡ id
  pub same_provider : account.provider ≡ row.provider
  pub same_account : account.provider_account_id ≡ row.provider_account_id
  pub same_username : account.username ≡ row.username
  pub same_display_name : account.display_name ≡ row.display_name
  pub same_avatar_url : account.avatar_url ≡ row.avatar_url
  pub same_email : account.email ≡ email

-- A successful upsert leaves under the ID that it returns a row of the provider's account that was
-- given, with the user name, the display name and the avatar that were given. The e-mail is the given
-- one for an account that was not known, and else stays.
pub upsert_account-IsUpserted :
    (row : Account) (t t' : Tables) (id : String)
    → upsert_account row t ≡ ok (id, t')
    → IsUpserted row id (email_after row t) t'
unfolding upsert_account
upsert_account-IsUpserted row t t' id h =
    elim (Option-cases (find (is_account row.provider row.provider_account_id) t.accounts)) [
      | inr (old, known) ↦
          let e = ok-injective (rw (known, upsert_account) at h) in
          let (elem, same) = find_sound _ t.accounts known in
          let (p, q) = is_account_iff row.provider row.provider_account_id old same in
          subst (λ r. IsUpserted row r.0 (email_after row t) r.1) e
            (record {
              account = take_profile row old;
              there = Elem-update _ (take_profile row) t.accounts elem same;
              same_id = refl;
              same_provider = p;
              same_account = q;
              same_username = refl;
              same_display_name = refl;
              same_avatar_url = refl;
              same_email = rw (known, email_after) refl;
            })
      | inl unknown ↦ elim (Bool-cases (any (has_id row.id) t.accounts)) [
        | inl taken ↦ cc (rw (unknown, taken, upsert_account) at h)
        | inr new ↦
            subst (λ r. IsUpserted row r.0 (email_after row t) r.1)
              (ok-injective (rw (unknown, new, upsert_account) at h))
              (record {
                account = row;
                there = inl refl;
                same_id = refl;
                same_provider = refl;
                same_account = refl;
                same_username = refl;
                same_display_name = refl;
                same_avatar_url = refl;
                same_email = rw (unknown, email_after) refl;
              })
      ]
    ]

find_of_any :
    (id : String) (rows : List Account)
    → any (has_id id) rows ≡ true
    → (a : Account) × (find (has_id id) rows ≡ some a)
find_of_any id [] h = cc
find_of_any id (a ∷ rows) h = elim (Bool-cases (has_id id a)) [
  | inl hit ↦ (a, rw hit)
  | inr miss ↦ rw miss (find_of_any id rows (rw miss at h))
]

-- A session that was created is found under its ID, joined with the row of its account.
pub get_account_session-create_session :
    (s : Session) (t t' : Tables)
    → create_session s t ≡ ok (tt, t')
    → (a : Account) × Elem a t.accounts
      × (a.id ≡ s.account_id)
      × (get_account_session s.id t' ≡ ok (joined a s, t'))
unfolding create_session get_account_session
get_account_session-create_session s t t' h =
    elim (Bool-cases (any (has_session_id s.id) t.sessions)) [
      | inl taken ↦ cc (rw (taken, create_session) at h)
      | inr new ↦ elim (Bool-cases (any (has_id s.account_id) t.accounts)) [
        | inr nobody ↦ cc (rw (new, nobody, create_session) at h)
        | inl owned ↦
            let (a, found) = find_of_any s.account_id t.accounts owned in
            let (elem, same) = find_sound (has_id s.account_id) t.accounts found in
            (
              a,
              elem,
              (eq_iff a.id s.account_id).0 same,
              subst (λ r. get_account_session s.id r ≡ ok (joined a s, r))
                  (ap (λ q. q.1) (ok-injective (rw (new, owned, create_session) at h)))
                  (rw (eq_refl, found, join_account)),
            )
      ]
    ]
