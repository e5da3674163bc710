-- ===== src/Service/Work.antt =====
-- What internal/service does outside the program: the calls of the operating system, of the
-- in-memory file system, of the template engine and of git, in the order in which they are made.
pub mod Panics
pub mod Calls
use mkrepo.Base.{
  String, ◌≡◌, refl, sym, ap, Bool, true, false, Option, none, some, List, ◌∷◌, Result, ok, err,
}
use mkrepo.Base.{ok-injective}
use mkrepo.Provider.{CreateRepo}

pub data Effect : Type 0 where
  create_remote_repo : CreateRepo → Effect
  make_temp remove_all : String → Effect
  clone : String → String → Effect
  write_memory : String → Effect
  make_dirs create_file copy_file execute : String → Effect
  plain_init : String → Bool → Effect
  worktree add_all : Effect
  commit : String → String → Effect
  commit_object : Effect
  create_tag : String → Effect
  create_remote : String → Effect
  push : String → Effect

-- The calls that were made, the last one first.
abbrev pub History : Type 0
History = List Effect

-- `failed` is an error of a call outside; `panic` ends the handler; `beside url e` is an error that is
-- returned together with a URL.
pub data Failure : Type 0 where
  failed panic : Failure
  remote_refused : String → Failure
  license_not_found : String → Failure
  beside : String → Failure → Failure
  no_gitignore : String → Failure

-- What the calls answer may depend on all that was done before.
pub record World : Type 0 where
  pub succeeds : History → Effect → Bool
  pub temp_name : History → String

abbrev pub Work : Type 0 → Type 0
Work A = History → Result Failure A × History

abbrev answer : Bool → Result Failure Unit
answer true = ok tt
answer false = err failed

unfoldable pub perform : World → Effect → Work Unit
perform world e h = (answer (world.succeeds h e), e ∷ h)

-- `templateFile`: the file is opened in the in-memory file system, and the template executed into it.
abbrev pub template_file : World → String → Work Unit
template_file world file = perform world (write_memory file)

module _ {A : Type 0} where
  unfoldable pub done : A → Work A
  done a h = (ok a, h)

  unfoldable pub fail : Failure → Work A
  fail e h = (err e, h)

  -- The deferred call is made whatever the result, a panic included, and its error is only logged.
  unfoldable pub deferring : World → Effect → Work A → Work A
  deferring world e m h = let (r, h') = m h in (r, e ∷ h')

  -- A pointer that is nil panics.
  unfoldable pub deref : Option A → Work A
  unfolding done fail
  deref none = fail panic
  deref (some a) = done a

  pub deref-ok :
      (o : Option A) (h h' : History) {a : A} → deref o h ≡ (ok a, h') → (o ≡ some a) × (h' ≡ h)
  unfolding deref
  deref-ok none h h' e = cc
  deref-ok (some b) h h' e = (ap some (ok-injective (ap (λ p. p.0) e)), ap (λ p. p.1) (sym e))

module _ {A B : Type 0} where
  abbrev continue : Result Failure A → (A → Work B) → Work B
  continue (ok a) f h = f a h
  continue (err e) f h = (err e, h)

  infixl 5 ◌>>=◌ ◌>>◌
  unfoldable pub ◌>>=◌ : Work A → (A → Work B) → Work B
  m >>= f = λ h. let (r, h') = m h in continue r f h'

  abbrev pub ◌>>◌ : Work A → Work B → Work B
  m >> k = m >>= λ _. k

  continue-ok :
      (r : Result Failure A) (f : A → Work B) (h : History) {b : B} {h' : History}
      → continue r f h ≡ (ok b, h')
      → (a : A) × (r ≡ ok a) × (f a h ≡ (ok b, h'))
  continue-ok (ok a) f h e = (a, refl, e)
  continue-ok (err x) f h e = cc

  pub >>=-ok :
      (m : Work A) (f : A → Work B) (h : History) {b : B} {h' : History}
      → (m >>= f) h ≡ (ok b, h')
      → (a : A) × (h₁ : History) × (m h ≡ (ok a, h₁)) × (f a h₁ ≡ (ok b, h'))
  unfolding ◌>>=◌
  >>=-ok m f h e =
      let (a, made, rest) = continue-ok (m h).0 f (m h).1 e in
      (a, (m h).1, λ i. (made i, (m h).1), rest)

-- A call that succeeded stands at the head of the history.
pub perform-ok :
    (world : World) (e : Effect) (h h' : History) → perform world e h ≡ (ok tt, h') → h' ≡ e ∷ h
unfolding perform
perform-ok world e h h' made = ap (λ p. p.1) (sym made)
