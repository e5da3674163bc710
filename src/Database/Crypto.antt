-- ===== src/Database/Crypto.antt =====
-- internal/database/database.go: `Encrypt` and `Decrypt`. AES and GCM are the parameters `Library`
-- and `Gcm`, the random source is a function of the number of bytes that are read.
pub mod Laws
use mkrepo.Base.{
  ℕ, zero, suc, String, ◌<>◌, Bool, true, false, Option, none, some, ltb, Result, ok, err,
}
use mkrepo.Base.{◌>>=◌, ◌>>◌, or_err, refuse}

-- `cipher.AEAD` with no additional data; `open_sealed` is `Open`.
pub record Gcm : Type 0 where
  pub nonce_size : ℕ
  pub seal : String → String → String
  pub open_sealed : String → String → Option String

-- `aes.NewCipher` and `cipher.NewGCM`.
pub record Library (Block : Type 0) : Type 0 where
  pub new_cipher : String → Option Block
  pub new_gcm : Block → Option Gcm

pub data CryptoError : Type 0 where
  bad_key no_random too_short cannot_open : CryptoError

-- `len(data)`, `data[:n]` and `data[n:]` within its length.
abbrev pub len : String → ℕ
len String.[] = 0
len (String.◌∷◌ c s) = suc (len s)

abbrev pub take : ℕ → String → String
take zero s = ""
take (suc n) String.[] = ""
take (suc n) (String.◌∷◌ c s) = String.◌∷◌ c (take n s)

abbrev pub drop : ℕ → String → String
drop zero s = s
drop (suc n) String.[] = ""
drop (suc n) (String.◌∷◌ c s) = drop n s

module _ {Block : Type 0} (library : Library Block) (key : String) where
  gcm : Result CryptoError Gcm
  gcm = do block ← or_err (library.new_cipher key) bad_key; or_err (library.new_gcm block) bad_key

  -- The nonce stands in front of what is sealed.
  unfoldable pub encrypt : (ℕ → Option String) → String → Result CryptoError String
  unfolding gcm
  encrypt random text = do
    g ← gcm
    nonce ← or_err (random g.nonce_size) no_random
    ok (nonce <> g.seal nonce text)

  unfoldable pub decrypt : String → Result CryptoError String
  unfolding gcm
  decrypt text = do
    g ← gcm
    refuse (ltb (len text) g.nonce_size) too_short
    or_err (g.open_sealed (take g.nonce_size text) (drop g.nonce_size text)) cannot_open
