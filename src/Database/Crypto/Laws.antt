-- ===== src/Database/Crypto/Laws.antt =====
-- What is encrypted is decrypted again.

use text.Mathlib.TextLemmas.{nil-append, cons-append}
use mkrepo.Base.{ℕ, ◌+◌, String, ◌<>◌, ◌≡◌, refl, ◌∙◌, ap, false, Option, some, arith, ltb}
use mathlib.Core.Path.{subst}
use mkrepo.Base.{Option-cases, inl, inr, sym, ok-injective}
use mkrepo.Base.{ok}
use mkrepo.Database.Crypto.{Gcm, Library, len, take, drop, gcm, encrypt, decrypt}

len-append : (s t : String) → len (s <> t) ≡ len s + len t
len-append String.[] t = rw nil-append (omega arith)
len-append (String.◌∷◌ c s) t = rw cons-append (omega (arith, len-append s t))

take-append : (s t : String) → take (len s) (s <> t) ≡ s
take-append String.[] t = refl
take-append (String.◌∷◌ c s) t = rw cons-append (ap (String.◌∷◌ c) (take-append s t))

drop-append : (s t : String) → drop (len s) (s <> t) ≡ t
drop-append String.[] t = nil-append t
drop-append (String.◌∷◌ c s) t = rw cons-append (drop-append s t)

-- What `crypto/cipher` documents: under a nonce of the right size `Open` undoes `Seal`.
pub record IsLawful (g : Gcm) : Type 0 where
  pub open_sealed-seal :
      (nonce text : String)
      → len nonce ≡ g.nonce_size
      → g.open_sealed nonce (g.seal nonce text) ≡ some text

-- What `io.ReadFull` documents: as many bytes as were asked for, or an error.
abbrev pub Fills : (ℕ → Option String) → Type 0
Fills random = (n : ℕ) (bytes : String) → random n ≡ some bytes → len bytes ≡ n

module _ {Block : Type 0} (library : Library Block) (key : String) {block : Block} {g : Gcm}
    (good_key : library.new_cipher key ≡ some block) (good_block : library.new_gcm block ≡ some g)
    (lawful : IsLawful g) where
  gcm_of_good : gcm library key ≡ ok g
  unfolding gcm
  gcm_of_good = rw (good_key, good_block)

  long_enough : (s t : String) → ltb (len (s <> t)) (len s) ≡ false
  long_enough s t = ground (arith, len-append s t)

  -- With a good key, a cipher that opens what it sealed and a random source that fills the nonce,
  -- every text is encrypted, and the result is decrypted to it.
  pub decrypt-encrypt :
      (random : ℕ → Option String) (nonce text : String)
      → random g.nonce_size ≡ some nonce
      → len nonce ≡ g.nonce_size
      → (encrypt library key random text ≡ ok (nonce <> g.seal nonce text))
        × (decrypt library key (nonce <> g.seal nonce text) ≡ ok text)
  decrypt-encrypt random nonce text read size = (
    unfold encrypt in rw (gcm_of_good, read),
    unfold decrypt in
        rw (
          gcm_of_good,
          ← size,
          long_enough,
          take-append,
          drop-append,
          lawful.open_sealed-seal nonce text size,
        ),
  )

  -- What was encrypted is decrypted to the text that went in.
  pub decrypt_of_encrypt :
      (random : ℕ → Option String) (text sealed : String)
      → Fills random
      → encrypt library key random text ≡ ok sealed
      → decrypt library key sealed ≡ ok text
  decrypt_of_encrypt random text sealed fills h = elim (Option-cases (random g.nonce_size)) [
    | inl none_read ↦ unfold encrypt in cc (rw (gcm_of_good, none_read, encrypt) at h)
    | inr (nonce, read) ↦
        let (e, d) = decrypt-encrypt random nonce text read (fills g.nonce_size nonce read) in
        subst (λ c. decrypt library key c ≡ ok text) (ok-injective (sym e ∙ h)) d
  ]
