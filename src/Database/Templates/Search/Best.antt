-- ===== src/Database/Templates/Search/Best.antt =====
-- `SearchTemplates` returns the best matches.
use mkrepo.Base.{ℕ, zero, suc, ◌≤◌, String, Bool, true, ◌≡◌, refl, ap, ◌⊎◌, inl, inr}
use mkrepo.Base.{some, List, [], ◌∷◌, All, Elem, length, take, ok}
use mkrepo.Base.{Bool-cases, Option-cases}
use mkrepo.Base.Take.{take-All, Elem-take, length-take}
use mkrepo.Database.Accounts.{all_at}
use mkrepo.Database.Templates.{Template, Tables, Postgres, last_version, versions_of}
use mkrepo.Database.Templates.Search.{SearchTemplatesRow, document, candidate, matching, order_by}
use mkrepo.Database.Templates.Search.{
  search_templates, NotBetter, IsOrdered, order_by-IsOrdered, Elem-order_by,
}

take-IsOrdered : (n : ℕ) (rows : List SearchTemplatesRow) → IsOrdered rows → IsOrdered (take n rows)
take-IsOrdered zero rows h = tt
take-IsOrdered (suc n) [] h = tt
take-IsOrdered (suc n) (r ∷ rows) h = (take-All (NotBetter r) n rows h.0, take-IsOrdered n rows h.1)

-- A row of an ordered list is among the first ones, or those are full and not worse than it.
first_or_NotBetter :
    (n : ℕ) (rows : List SearchTemplatesRow) (r : SearchTemplatesRow)
    → IsOrdered rows
    → Elem r rows
    → Elem r (take n rows) ⊎ ((length (take n rows) ≡ n) × All (λ s. NotBetter s r) (take n rows))
first_or_NotBetter zero rows r h e = inr (refl, tt)
first_or_NotBetter (suc n) [] r h e = elim e [ ]
first_or_NotBetter (suc n) (s ∷ rows) r h (inl same) = inl (inl same)
first_or_NotBetter (suc n) (s ∷ rows) r h (inr later) =
    elim (first_or_NotBetter n rows r h.1 later) [
      | inl first ↦ inl (inr first)
      | inr (full, better_ones) ↦
          inr (ap suc full, (all_at (NotBetter s) rows h.0 later, better_ones))
    ]

-- A template that the query matches, with its last version.
pub record Matches (pg : Postgres) (accepts : String → Bool) (t : Tables) (r : SearchTemplatesRow)
    : Type 0 where
  pub there : Elem r.template t.templates
  pub accepted : accepts (document r.template) ≡ true
  pub last : last_version pg (versions_of t r.template) ≡ some r.version

module _ (pg : Postgres) (accepts : String → Bool) (t : Tables) where
  matching_sound :
      (ts : List Template) (r : SearchTemplatesRow)
      → Elem r (matching pg accepts t ts)
      → Elem r.template ts
        × (accepts (document r.template) ≡ true)
        × (last_version pg (versions_of t r.template) ≡ some r.version)
  unfolding matching candidate
  matching_sound [] r e = elim e [ ]
  matching_sound (x ∷ ts) r e = elim (Bool-cases (accepts (document x))) [
    | inr no_match ↦
        let (there, rest, last) = matching_sound ts r (rw no_match at e) in (inr there, rest, last)
    | inl match ↦ elim (Option-cases (last_version pg (versions_of t x))) [
      | inl no_version ↦
          let (there, rest, last) = matching_sound ts r (rw (match, no_version) at e) in
          (inr there, rest, last)
      | inr (v, last) ↦ elim (rw (match, last) at e) [
        | inl same ↦ rw same (inl refl, match, last)
        | inr later ↦ let (there, rest, kept) = matching_sound ts r later in (inr there, rest, kept)
      ]
    ]
  ]

  matching_complete :
      (ts : List Template) (r : SearchTemplatesRow)
      → Elem r.template ts
      → accepts (document r.template) ≡ true
      → last_version pg (versions_of t r.template) ≡ some r.version
      → Elem r (matching pg accepts t ts)
  unfolding matching candidate
  matching_complete [] r e h last = elim e [ ]
  matching_complete (x ∷ ts) r (inl same) h last = rw (← same) (rw (h, last, candidate) (inl refl))
  matching_complete (x ∷ ts) r (inr later) h last =
      let rest = matching_complete ts r later h last in
      elim (Bool-cases (accepts (document x))) [
        | inr no_match ↦ rw no_match rest
        | inl match ↦ elim (Option-cases (last_version pg (versions_of t x))) [
          | inl no_version ↦ rw (match, no_version, candidate) rest
          | inr (v, found) ↦ rw (match, found, candidate) (inr rest)
        ]
      ]

  -- For a query that can be parsed, `SearchTemplates` returns at most ten matches of templates with
  -- their last versions, the built-in ones first and then by their stars. A match that is not among
  -- them is not better than any of them, and is left out only where there are ten.
  pub search_templates_best :
      (query : String)
      → pg.tsquery query ≡ some accepts
      → (rows : List SearchTemplatesRow) × (search_templates pg query t ≡ ok (rows, t))
        × (length rows ≤ 10)
        × IsOrdered rows
        × ((r : SearchTemplatesRow) → Elem r rows → Matches pg accepts t r)
        × ((r : SearchTemplatesRow)
            → Matches pg accepts t r
            → Elem r rows ⊎ ((length rows ≡ 10) × All (λ s. NotBetter s r) rows))
  unfolding search_templates
  search_templates_best query parsed =
      let all = order_by (matching pg accepts t t.templates) in
      let ordered = order_by-IsOrdered (matching pg accepts t t.templates) in
      (
        take 10 all,
        rw (parsed, search_templates) refl,
        length-take 10 all,
        take-IsOrdered 10 all ordered,
        λ r e.
            let (there, accepted, last) =
              matching_sound t.templates r
                ((Elem-order_by r (matching pg accepts t t.templates)).0 (Elem-take 10 all r e)) in
            record { there = there; accepted = accepted; last = last },
        λ r m. first_or_NotBetter 10 all r ordered (
            (Elem-order_by r (matching pg accepts t t.templates)).1
              (matching_complete t.templates r m.there m.accepted m.last)),
      )
