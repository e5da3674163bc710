-- ===== src/Database/Templates/Search.antt =====
-- `SearchTemplates`: the ten best of the templates that match.
pub mod Best
use mkrepo.Base.{
  ℕ, zero, suc, ◌≤◌, String, ◌<>◌, Bool, true, false, ◌≡◌, refl, ap, sym, ◌⊎◌, inl, inr, ◌↔◌,
}
use mkrepo.Base.{
  Option, none, some, List, [], ◌∷◌, arith, All, Elem, length, take, if◌then◌else◌, ltb, Result, ok,
  err,
}
use mkrepo.Base.{Bool-cases, Option-cases}
use mkrepo.Database.Templates.{
  Template, TemplateVersion, Tables, DbError, Statement, Postgres, invalid_query,
}
use mkrepo.Database.Templates.{last_version, versions_of}

-- A row is given by the two rows that it joins, of which the query selects eight columns.
pub record SearchTemplatesRow : Type 0 where
  pub template : Template
  pub version : TemplateVersion

-- The text that the column `search` is generated from.
abbrev pub document : Template → String
document t = t.name <> (" " <> t.full_name)

candidate : Template → Option TemplateVersion → List SearchTemplatesRow → List SearchTemplatesRow
candidate t none rows = rows
candidate t (some v) rows = record { template = t; version = v } ∷ rows

-- Each template that matches, with its last version.
unfoldable pub matching :
    Postgres → (String → Bool) → Tables → List Template → List SearchTemplatesRow
unfolding candidate
matching pg accepts tables [] = []
matching pg accepts tables (t ∷ ts) =
    let rest = matching pg accepts tables ts in
    if accepts (document t) then candidate t (last_version pg (versions_of tables t)) rest else rest

-- The first row comes before the second: `ORDER BY t.build_in DESC, t.stars DESC`.
abbrev pub better : SearchTemplatesRow → SearchTemplatesRow → Bool
better a b =
    if a.template.build_in
    then (if b.template.build_in then ltb b.template.stars a.template.stars else true)
    else (if b.template.build_in then false else ltb b.template.stars a.template.stars)

insert : SearchTemplatesRow → List SearchTemplatesRow → List SearchTemplatesRow
insert r [] = r ∷ []
insert r (s ∷ rows) = let rest = insert r rows in if better s r then s ∷ rest else r ∷ s ∷ rows

order_by : List SearchTemplatesRow → List SearchTemplatesRow
unfolding insert
order_by [] = []
order_by (r ∷ rows) = insert r (order_by rows)

unfoldable pub search_templates : Postgres → String → Statement (List SearchTemplatesRow)
unfolding order_by
search_templates pg query t = elim (pg.tsquery query) [
  | none ↦ err invalid_query
  | some accepts ↦ ok (take 10 (order_by (matching pg accepts t t.templates)), t)
]

-- No later row comes before an earlier one.
abbrev pub NotBetter : SearchTemplatesRow → SearchTemplatesRow → Type 0
NotBetter r s = better s r ≡ false

abbrev pub IsOrdered : List SearchTemplatesRow → Type 0
IsOrdered [] = Unit
IsOrdered (r ∷ rows) = All (NotBetter r) rows × IsOrdered rows

NotBetter-trans : (a b c : SearchTemplatesRow) → NotBetter a b → NotBetter b c → NotBetter a c
NotBetter-trans a b c h k = ground arith

better-NotBetter : (a b : SearchTemplatesRow) → better a b ≡ true → NotBetter a b
better-NotBetter a b h = ground arith

All-insert :
    (P : SearchTemplatesRow → Type 0) (r : SearchTemplatesRow) (rows : List SearchTemplatesRow)
    → P r
    → All P rows
    → All P (insert r rows)
unfolding insert
All-insert P r [] p h = (p, tt)
All-insert P r (s ∷ rows) p h = elim (Bool-cases (better s r)) [
  | inl first ↦ rw first (h.0, All-insert P r rows p h.1)
  | inr later ↦ rw later (p, h)
]

All-NotBetter :
    (r s : SearchTemplatesRow) (rows : List SearchTemplatesRow)
    → NotBetter r s
    → All (NotBetter s) rows
    → All (NotBetter r) rows
All-NotBetter r s [] h k = tt
All-NotBetter r s (t ∷ rows) h k = (NotBetter-trans r s t h k.0, All-NotBetter r s rows h k.1)

insert-IsOrdered :
    (r : SearchTemplatesRow) (rows : List SearchTemplatesRow)
    → IsOrdered rows
    → IsOrdered (insert r rows)
unfolding insert
insert-IsOrdered r [] h = (tt, tt)
insert-IsOrdered r (s ∷ rows) h = elim (Bool-cases (better s r)) [
  | inl first ↦ rw first (
    All-insert (NotBetter s) r rows (better-NotBetter s r first) h.0,
    insert-IsOrdered r rows h.1,
  )
  | inr later ↦ rw later ((later, All-NotBetter r s rows later h.0), h)
]

order_by-IsOrdered : (rows : List SearchTemplatesRow) → IsOrdered (order_by rows)
unfolding order_by
order_by-IsOrdered [] = tt
order_by-IsOrdered (r ∷ rows) = insert-IsOrdered r (order_by rows) (order_by-IsOrdered rows)

Elem-insert :
    (x r : SearchTemplatesRow) (rows : List SearchTemplatesRow)
    → Elem x (insert r rows) ↔ Elem x (r ∷ rows)
unfolding insert
Elem-insert x r [] = ground arith
Elem-insert x r (s ∷ rows) = ground (arith, Elem-insert x r rows)

Elem-order_by :
    (x : SearchTemplatesRow) (rows : List SearchTemplatesRow) → Elem x (order_by rows) ↔ Elem x rows
unfolding order_by
Elem-order_by x [] = (λ h. h, λ h. h)
Elem-order_by x (r ∷ rows) = ground (arith, Elem-insert x r (order_by rows), Elem-order_by x rows)
