-- ===== src/Server/Serves.antt =====
-- What the handler of each route does, and so the multiplexer, whatever pattern it chooses.
use mathlib.Core.Path.{subst}
use mkrepo.Base.{String, ◌≡◌, refl, ◌⊎◌, inl, inr, Option, none, some, [], ◌∷◌}
use mkrepo.Base.{All, err, Option-cases, Bool-cases, ◌==◌, eq_iff, some-injective}
use mkrepo.Base.Dict.{Dict, lookup}
use mkrepo.Database.Db.{Db}
use mkrepo.Service.Work.{History, panic}
use mkrepo.Handler.{Account, Request, Response}
use mkrepo.Handler.Login.{login, logout, serve}
use mkrepo.Handler.Callback.{oauth2_callback}
use mkrepo.Handler.Middleware.{Handler, must_authenticate}
use mkrepo.Handler.Pages.{mkrepo_form}
use mkrepo.Handler.Make.Laws.{register_template_handler-NoPanic}
use mkrepo.Handler.Make.Abandoned.{IsGivenUp, panic-IsGivenUp}
use mkrepo.Server.{
  Serving, Site, RequestInputs, page, stored, guarded, routes, chosen, handled, dispatched,
  serve_mux,
}

pub lookup-All :
    {V : Type 0} (P : String → V → Type 0) (m : Dict V) (key : String) (value : V)
    → All (λ entry. P entry.0 entry.1) m
    → lookup key m ≡ some value
    → P key value
unfolding lookup
lookup-All P [] key value all found = cc
lookup-All P (entry ∷ m) key value (one, all) found = elim (Bool-cases (entry.0 == key)) [
  | inl same ↦
      subst (λ k. P k value) ((eq_iff entry.0 key).0 same)
        (subst (P entry.0) (some-injective (rw same at found)) one)
  | inr differ ↦ lookup-All P m key value all (rw differ at found)
]

module _ {Block Schema : Type 0} (site : Site Block Schema) (inputs : RequestInputs) where
  -- The account is one of a provider that is not configured.
  abbrev pub IsStray : Option Account → Type 0
  IsStray none = ⊥
  IsStray (some account) = lookup account.provider_key site.env.providers ≡ none

  -- The patterns whose handlers work with the service.
  abbrev pub Works : Option String → Type 0
  Works pattern = (pattern ≡ some "POST /new") ⊎ (pattern ≡ some "POST /templates")

  -- The request is a POST to /new whose creation panics, between the two histories.
  abbrev pub IsFatal : Option String → Request → Account → History → History → Type 0
  IsFatal pattern r account h h' =
      (pattern ≡ some "POST /new") × IsGivenUp site.env site.world site.service account r h h'

  -- What the handler of a pattern does: it calls the service only for an account and at two patterns,
  -- and panics only at one of them, or for a stray account.
  abbrev pub ServesAt : Request → Option String → Handler Serving → Type 0
  ServesAt r pattern handler =
      (account : Option Account) (db : Db) (h : History)
      → (((handler account r db h).history ≡ h)
          ⊎ (((a : Account) × (account ≡ some a)) × Works pattern))
        × ((handler account r db h).answer ≡ err panic
            → ((a : Account) × (account ≡ some a)
                × IsFatal pattern r a h (handler account r db h).history)
              ⊎ IsStray account)

  abbrev pub Serves : Option String → Handler Serving → Type 0
  Serves pattern handler = (r : Request) → ServesAt r pattern handler

  page-Serves : (pattern : Option String) (f : Request → Response) → Serves pattern (page f)
  page-Serves pattern f r account db h = (inl refl, λ e. cc)

  stored-Serves :
      (pattern : Option String) (f : Request → Db → Response × Db) → Serves pattern (stored f)
  stored-Serves pattern f r account db h = (inl refl, λ e. cc)

  guarded-Serves :
      (pattern : Option String) (f : Account → Request → Db → Serving)
      → ((a : Account) (r : Request) (db : Db) (h : History)
          → (((f a r db h).history ≡ h) ⊎ Works pattern)
            × ((f a r db h).answer ≡ err panic
                → IsFatal pattern r a h (f a r db h).history
                  ⊎ (lookup a.provider_key site.env.providers ≡ none)))
      → Serves pattern (guarded site inputs f)
  unfolding must_authenticate
  guarded-Serves pattern f serves r none db h = (inl refl, λ e. cc)
  guarded-Serves pattern f serves r (some a) db h =
      let (calls, panics) = serves a r db h in
      (
        elim calls [ inl same ↦ inl same | inr works ↦ inr ((a, refl), works) ],
        λ e. elim (panics e) [ inl made ↦ inl (a, refl, made) | inr stray ↦ inr stray ],
      )

  form-stray :
      (a : Account) (r : Request)
      → mkrepo_form site.env a r ≡ err panic
      → lookup a.provider_key site.env.providers ≡ none
  unfolding mkrepo_form
  form-stray a r e = elim (Option-cases (lookup a.provider_key site.env.providers)) [
    | inl missing ↦ missing
    | inr (pr, known) ↦ let k = rw known at e in cc
  ]

  routes-Serves : All (λ entry. Serves (some entry.0) entry.1) (routes site inputs)
  unfolding routes
  routes-Serves = (
    page-Serves _ _,
    (
      page-Serves _ _,
      (
        stored-Serves _ (λ r. serve (login site.env inputs.login r)),
        (
          stored-Serves _ logout,
          (
            stored-Serves _ (λ r. serve (oauth2_callback site.env inputs.callback r)),
            (
              guarded-Serves _ _ (λ a r db h. (inl refl, λ e. cc)),
              (
                guarded-Serves _ _ (λ a r db h. (inl refl, λ e. inr (form-stray a r e))),
                (
                  guarded-Serves _ _ (λ a r db h. (
                    inr (inl refl),
                    λ e. inl (refl, panic-IsGivenUp site.env site.world site.service a r h e),
                  )),
                  (
                    page-Serves _ _,
                    (
                      page-Serves _ _,
                      (
                        guarded-Serves _ _ (λ a r db h. (
                          inr (inr refl),
                          λ e. absurd (
                              register_template_handler-NoPanic site.world site.decode site.disk a r
                                h e),
                        )),
                        tt,
                      ),
                    ),
                  ),
                ),
              ),
            ),
          ),
        ),
      ),
    ),
  )

  handled-Serves :
      (pattern : String) (o : Option (Handler Serving))
      → lookup pattern (routes site inputs) ≡ o
      → Serves (some pattern) (handled site inputs o)
  unfolding handled
  handled-Serves pattern none found = page-Serves (some pattern) _
  handled-Serves pattern (some handler) found =
      lookup-All (λ key. Serves (some key)) (routes site inputs) pattern handler routes-Serves found

  dispatched-Serves : (pattern : Option String) → Serves pattern (dispatched site inputs pattern)
  unfolding dispatched
  dispatched-Serves none = page-Serves none _
  dispatched-Serves (some pattern) = handled-Serves pattern _ refl

  pub serve_mux-Serves : (r : Request) → ServesAt r (chosen site inputs r) (serve_mux site inputs)
  unfolding serve_mux
  serve_mux-Serves r account db h = dispatched-Serves (chosen site inputs r) r account db h
