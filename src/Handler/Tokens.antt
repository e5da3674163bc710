-- ===== src/Handler/Tokens.antt =====
-- internal/handler/auth.go: `encryptTokens` and `decryptTokens`.
use mkrepo.Base.{ℕ, String, ◌<>◌, ◌≡◌, Option, none, some, ◌==◌, if◌then◌else◌, eq_iff, Result, ok}
use mkrepo.Base.{◌>>=◌, map_ok, inl, inr, Bool-cases}
use mkrepo.Database.Crypto.{CryptoError, Library, Gcm, len, encrypt, decrypt}
use mkrepo.Database.Crypto.Laws.{IsLawful, decrypt-encrypt}

module _ {Block : Type 0} (library : Library Block) (key : String) where
  -- An empty refresh token is stored as NULL.
  encrypt_refresh : (ℕ → Option String) → String → Result CryptoError (Option String)
  encrypt_refresh random refresh =
      if refresh == "" then ok none else map_ok some (encrypt library key random refresh)

  unfoldable pub encrypt_tokens :
      (ℕ → Option String)
      → (ℕ → Option String)
      → String
      → String
      → Result CryptoError (String × Option String)
  unfolding encrypt_refresh
  encrypt_tokens random_access random_refresh access refresh = do
    access_enc ← encrypt library key random_access access
    refresh_enc ← encrypt_refresh random_refresh refresh
    ok (access_enc, refresh_enc)

  decrypt_refresh : Option String → Result CryptoError String
  decrypt_refresh none = ok ""
  decrypt_refresh (some text) = decrypt library key text

  unfoldable pub decrypt_tokens : String → Option String → Result CryptoError (String × String)
  unfolding decrypt_refresh
  decrypt_tokens access_enc refresh_enc = do
    access ← decrypt library key access_enc
    refresh ← decrypt_refresh refresh_enc
    ok (access, refresh)

module _ {Block : Type 0} (library : Library Block) (key : String) {block : Block} {g : Gcm}
    (good_key : library.new_cipher key ≡ some block) (good_block : library.new_gcm block ≡ some g)
    (lawful : IsLawful g) where
  -- With a good key, a cipher that opens what it sealed and random sources that fill the nonces, a
  -- pair of tokens is encrypted, and is decrypted to the same pair, the empty refresh token
  -- included.
  pub decrypt_tokens-encrypt_tokens :
      (random_access random_refresh : ℕ → Option String) (na nr access refresh : String)
      → random_access g.nonce_size ≡ some na
      → len na ≡ g.nonce_size
      → random_refresh g.nonce_size ≡ some nr
      → len nr ≡ g.nonce_size
      → (stored : String × Option String) × (encrypt_tokens library key random_access random_refresh
            access refresh
          ≡ ok stored)
        × (decrypt_tokens library key stored.0 stored.1 ≡ ok (access, refresh))
  decrypt_tokens-encrypt_tokens random_access random_refresh na nr access refresh ra la rr lr =
      let (ea, da) =
        decrypt-encrypt library key good_key good_block lawful random_access na access ra la in
      let (er, dr) =
        decrypt-encrypt library key good_key good_block lawful random_refresh nr refresh rr lr in
      elim (Bool-cases (refresh == "")) [
        | inl empty ↦ (
          (na <> g.seal na access, none),
          unfold encrypt_tokens in rw (ea, empty),
          unfold decrypt_tokens in rw (da, (eq_iff refresh "").0 empty),
        )
        | inr full ↦ (
          (na <> g.seal na access, some (nr <> g.seal nr refresh)),
          unfold encrypt_tokens in rw (ea, full, er),
          unfold decrypt_tokens in rw (da, dr),
        )
      ]
