-- ===== src/Database/Effects.antt =====
-- What the statements and the cleanup do to the rows, seen row by row.
use mkrepo.Base.{ℕ, String, Bool, true, false, ◌≡◌, refl, ◌↔◌, inl, inr, none, some}
use mkrepo.Base.{List, [], ◌∷◌, arith, eq_iff, Elem, find, without, ok, err}
use mkrepo.Base.{Bool-cases, Option-cases, ltb, ◌≤◌}
use mkrepo.Database.{OAuth2State, Session, Tables, no_rows, has_state}
use mkrepo.Database.{get_and_delete_oauth2_state}
use mkrepo.Database.{delete_expired_oauth2_states, delete_expired_sessions}
use mathlib.Core.Path.{subst}
use mkrepo.Base.{ok-injective}
use mkrepo.Database.Db.{Db, healthy, cleanup, Signal, tick, done, garbage_collector}

-- Some row stays exactly if the test does not select it.
pub Elem-without_iff :
    {A : Type 0} (p : A → Bool) (x : A) (xs : List A)
    → Elem x (without p xs) ↔ (Elem x xs × (p x ≡ false))
Elem-without_iff p x [] = (λ e. elim e [ ], λ e. elim e.0 [ ])
Elem-without_iff p x (y ∷ ys) = ground (arith, Elem-without_iff p x ys)

pub find-without_self : {A : Type 0} (p : A → Bool) (xs : List A) → find p (without p xs) ≡ none
find-without_self p [] = refl
find-without_self p (x ∷ xs) = ground (arith, find-without_self p xs)

pub find_sound :
    {A : Type 0} (p : A → Bool) (xs : List A) {x : A}
    → find p xs ≡ some x
    → Elem x xs × (p x ≡ true)
find_sound p [] h = cc
find_sound p (y ∷ ys) {x} h = elim (Bool-cases (p y)) [
  | inl hit ↦ ground arith
  | inr miss ↦ let (e, t) = find_sound p ys (rw miss at h) in (inr e, t)
]

-- An OAuth2 state is taken once: the row that comes back was there under that very state, a second
-- call finds none, and the accounts and the sessions are left alone.
pub get_and_delete_oauth2_state_once :
    (state : String) (t t' : Tables) (r : OAuth2State)
    → get_and_delete_oauth2_state state t ≡ ok (r, t')
    → Elem r t.oauth2_states
      × (r.state ≡ state)
      × (get_and_delete_oauth2_state state t' ≡ err no_rows)
      × (t'.accounts ≡ t.accounts)
      × (t'.sessions ≡ t.sessions)
unfolding get_and_delete_oauth2_state
get_and_delete_oauth2_state_once state t t' r h =
    elim (Option-cases (find (has_state state) t.oauth2_states)) [
      | inl missing ↦ cc (rw (missing, get_and_delete_oauth2_state) at h)
      | inr (r', there) ↦
          let e = ok-injective (rw (there, get_and_delete_oauth2_state) at h) in
          let (elem, same) = find_sound (has_state state) t.oauth2_states there in
          subst
            (λ q.
              Elem q.0 t.oauth2_states
              × (q.0.state ≡ state)
              × (get_and_delete_oauth2_state state q.1 ≡ err no_rows)
              × (q.1.accounts ≡ t.accounts)
              × (q.1.sessions ≡ t.sessions))
            e
            (
              elem,
              (eq_iff r'.state state).0 same,
              rw (find-without_self (has_state state) t.oauth2_states, get_and_delete_oauth2_state),
              refl,
              refl,
            )
    ]

not_before : (a b : ℕ) → (ltb a b ≡ false) ↔ (b ≤ a)
not_before a b = ground arith

-- On a connection without faults the rows that a cleanup leaves are exactly those that have not
-- expired, the states at the time of the first statement and the sessions at that of the second;
-- the accounts stay.
pub cleanup_exact :
    (now later : ℕ) (t : Tables)
    → let db = (cleanup now later (healthy t)).1 in
      ((cleanup now later (healthy t)).0 ≡ ok tt)
      × ((r : OAuth2State)
          → Elem r db.tables.oauth2_states ↔ (Elem r t.oauth2_states × (now ≤ r.expires_at)))
      × ((s : Session) → Elem s db.tables.sessions ↔ (Elem s t.sessions × (later ≤ s.expires_at)))
      × (db.tables.accounts ≡ t.accounts)
unfolding cleanup delete_expired_oauth2_states delete_expired_sessions
cleanup_exact now later t = (
  refl,
  λ r. ground (
    arith,
    Elem-without_iff (λ (x : OAuth2State). ltb x.expires_at now) r t.oauth2_states,
    not_before r.expires_at now,
  ),
  λ s. ground (
    arith,
    Elem-without_iff (λ (x : Session). ltb x.expires_at later) s t.sessions,
    not_before s.expires_at later,
  ),
  refl,
)

-- The collector's ticks do not pass a time.
abbrev pub Before : ℕ → List Signal → Type 0
Before time [] = Unit
Before time (tick now later ∷ signals) = (later ≤ time) × Before time signals
Before time (done ∷ signals) = Unit

stays :
    (later : ℕ) (t : Tables) (s : Session)
    → later ≤ s.expires_at
    → Elem s t.sessions
    → Elem s (without (λ x. ltb x.expires_at later) t.sessions)
stays later t s live e =
    (Elem-without_iff (λ x. ltb x.expires_at later) s t.sessions).1
      (e, (not_before s.expires_at later).1 live)

cleanup-keeps :
    (now later : ℕ) (faults : List Bool) (t : Tables) (s : Session)
    → later ≤ s.expires_at
    → Elem s t.sessions
    → Elem s (cleanup now later (record { tables = t; faults = faults })).1.tables.sessions
unfolding cleanup delete_expired_oauth2_states delete_expired_sessions
cleanup-keeps now later [] t s live e = stays later t s live e
cleanup-keeps now later (true ∷ fs) t s live e = e
cleanup-keeps now later (false ∷ []) t s live e = stays later t s live e
cleanup-keeps now later (false ∷ true ∷ fs) t s live e = e
cleanup-keeps now later (false ∷ false ∷ fs) t s live e = stays later t s live e

-- Whatever the faults, the collector keeps a session that has not expired at any of its ticks.
pub garbage_collector-keeps :
    (signals : List Signal) (db : Db) (s : Session)
    → Before s.expires_at signals
    → Elem s db.tables.sessions
    → Elem s (garbage_collector signals db).tables.sessions
unfolding garbage_collector
garbage_collector-keeps [] db s b e = e
garbage_collector-keeps (tick now later ∷ signals) db s b e =
    garbage_collector-keeps signals (cleanup now later db).1 s b.1
      (cleanup-keeps now later db.faults db.tables s b.0 e)
garbage_collector-keeps (done ∷ signals) db s b e = e
