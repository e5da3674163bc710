-- ===== src/Database/Db/Collected.antt =====
-- `GarbageCollector` of internal/database/database.go, seen as what it collects.
use mkrepo.Base.{ℕ, ◌≤◌, true, false, Bool, List, [], ◌∷◌, ◌++◌, Elem, without}
use mkrepo.Database.{OAuth2State, Session, Tables, delete_expired_oauth2_states}
use mkrepo.Database.{delete_expired_sessions}
use mkrepo.Database.Db.{Db, healthy, cleanup, Signal, tick, done, garbage_collector}
use mkrepo.Database.Effects.{cleanup_exact, Elem-without_iff}

-- No signal is the end of the context.
abbrev pub AllTicks : List Signal → Type 0
AllTicks [] = Unit
AllTicks (tick now later ∷ signals) = AllTicks signals
AllTicks (done ∷ signals) = ⊥

-- Every session and every state of the one is in the other.
abbrev Within : Tables → Tables → Type 0
Within t' t =
    ((s : Session) → Elem s t'.sessions → Elem s t.sessions)
    × ((r : OAuth2State) → Elem r t'.oauth2_states → Elem r t.oauth2_states)

Within-trans : (t'' t' t : Tables) → Within t'' t' → Within t' t → Within t'' t
Within-trans t'' t' t (s, r) (s', r') = (λ x e. s' x (s x e), λ x e. r' x (r x e))

kept : {A : Type 0} (p : A → Bool) (x : A) (xs : List A) → Elem x (without p xs) → Elem x xs
kept p x xs e = ((Elem-without_iff p x xs).0 e).0

cleanup-Within :
    (now later : ℕ) (faults : List Bool) (t : Tables)
    → Within (cleanup now later (record { tables = t; faults = faults })).1.tables t
unfolding cleanup delete_expired_oauth2_states delete_expired_sessions
cleanup-Within now later [] t = (λ x e. kept _ x _ e, λ x e. kept _ x _ e)
cleanup-Within now later (true ∷ fs) t = (λ x e. e, λ x e. e)
cleanup-Within now later (false ∷ []) t = (λ x e. kept _ x _ e, λ x e. kept _ x _ e)
cleanup-Within now later (false ∷ true ∷ fs) t = (λ x e. e, λ x e. kept _ x _ e)
cleanup-Within now later (false ∷ false ∷ fs) t = (λ x e. kept _ x _ e, λ x e. kept _ x _ e)

-- Whatever the signals and the faults, the collector adds nothing.
garbage_collector-Within :
    (signals : List Signal) (db : Db) → Within (garbage_collector signals db).tables db.tables
unfolding garbage_collector
garbage_collector-Within [] db = (λ x e. e, λ x e. e)
garbage_collector-Within (tick now later ∷ signals) db =
    let next = (cleanup now later db).1 in
    Within-trans (garbage_collector signals next).tables next.tables db.tables
      (garbage_collector-Within signals next) (cleanup-Within now later db.faults db.tables)
garbage_collector-Within (done ∷ signals) db = (λ x e. e, λ x e. e)

-- On a connection without faults, once a tick has come, with only ticks before it and whatever
-- signals after it, every session that is left was there and had not expired at the time of the
-- tick's second statement, and every state that is left was there and had not expired at the time
-- of its first.
pub garbage_collector-collects :
    (before after : List Signal) (now later : ℕ) (t : Tables)
    → AllTicks before
    → let db = garbage_collector (before ++ (tick now later ∷ after)) (healthy t) in
      ((s : Session) → Elem s db.tables.sessions → Elem s t.sessions × (later ≤ s.expires_at))
      × ((r : OAuth2State)
          → Elem r db.tables.oauth2_states
          → Elem r t.oauth2_states × (now ≤ r.expires_at))
unfolding garbage_collector cleanup delete_expired_oauth2_states delete_expired_sessions
garbage_collector-collects [] after now later t ticks =
    let next = (cleanup now later (healthy t)).1 in
    let (s, r) = garbage_collector-Within after next in
    let (_, rs, ss, _) = cleanup_exact now later t in
    (λ x e. (ss x).0 (s x e), λ x e. (rs x).0 (r x e))
garbage_collector-collects (tick n l ∷ before) after now later t ticks =
    let t' = (cleanup n l (healthy t)).1.tables in
    let (s, r) = cleanup-Within n l [] t in
    let (ss, rs) = garbage_collector-collects before after now later t' ticks in
    (
      λ x e. let (there, live) = ss x e in (s x there, live),
      λ x e. let (there, live) = rs x e in (r x there, live),
    )
garbage_collector-collects (done ∷ before) after now later t ticks = elim ticks [ ]
