-- ===== src/Encryption/Ciphers.antt =====
-- What `encrypt` seals with a key of the cache is opened with the same key.
use job_queue.Prelude.{
  Settled-cases, returned_injective, ◌≡◌, ◌∙◌, refl, sym, subst, String, none, some, Option-cases,
  inl, inr, returned, threw,
}
use job_queue.JsMap
use job_queue.JsMap.{JsMap}
use job_queue.AccessControl.{Text}
use job_queue.Redis.{present, text_eq}
use job_queue.Encryption.{
  Algorithm, aes_256_gcm, aes_256_cbc, another, KeyConfig, EncryptedData, Data, Crypto, Manager,
  plaintext_of, parse_plaintext, encrypt_gcm, encrypt_cbc, encrypt_with, open_with, encrypt,
  decrypt_to_plaintext, decrypt,
}

threw_not : {A : Type 0} {a : A} {error : String} → threw error ≡ returned a → ⊥
threw_not h = cc

module _ (c : Crypto) where
  -- What is sealed with a configuration is opened with one of the same key.
  abbrev pub Opens : Text → KeyConfig → KeyConfig → EncryptedData → Type 0
  Opens p config found e =
      (open_with c e.algorithm e found ≡ returned p) × (e.key_id ≡ config.key_id)

  encrypt_gcm-Opens :
      (iv p : Text) (config found : KeyConfig) (e : EncryptedData)
      → c.IsEncodable p
      → config.algorithm ≡ aes_256_gcm
      → found.key ≡ config.key
      → encrypt_gcm c iv p (c.from_base64 config.key) config ≡ returned e
      → Opens p config found e
  unfolding open_with encrypt_gcm
  encrypt_gcm-Opens iv p config found e w alg same h =
      let key = c.from_base64 config.key in
      elim (Settled-cases (c.encrypt_gcm key iv p)) [
        | inr (error, failed) ↦
            absurd (threw_not {error = error} (sym (rw (failed, encrypt_gcm) refl) ∙ h))
        | inl (sealed, done) ↦
            let e0 : EncryptedData = record {
              ciphertext = c.to_base64 sealed.0;
              iv = c.to_base64 iv;
              tag = some (c.to_base64 sealed.1);
              key_id = config.key_id;
              algorithm = config.algorithm;
            } in
            subst (Opens p config found)
              (returned_injective (sym (rw (done, encrypt_gcm) refl) ∙ h))
              (
                subst (λ a. open_with c a e0 found ≡ returned p) (sym alg)
                    (rw
                      (
                        open_with,
                        same,
                        c.from-to_base64 sealed.0,
                        c.from-to_base64 iv,
                        c.from-to_base64 sealed.1,
                      )
                      (c.decrypt-encrypt_gcm key iv p sealed.0 sealed.1 w done)),
                refl,
              )
      ]

  encrypt_cbc-Opens :
      (iv p : Text) (config found : KeyConfig) (e : EncryptedData)
      → c.IsEncodable p
      → config.algorithm ≡ aes_256_cbc
      → found.key ≡ config.key
      → encrypt_cbc c iv p (c.from_base64 config.key) config ≡ returned e
      → Opens p config found e
  unfolding open_with encrypt_cbc
  encrypt_cbc-Opens iv p config found e w alg same h =
      let key = c.from_base64 config.key in
      elim (Settled-cases (c.encrypt_cbc key iv p)) [
        | inr (error, failed) ↦
            absurd (threw_not {error = error} (sym (rw (failed, encrypt_cbc) refl) ∙ h))
        | inl (sealed, done) ↦
            let e0 : EncryptedData = record {
              ciphertext = c.to_base64 sealed;
              iv = c.to_base64 iv;
              tag = none;
              key_id = config.key_id;
              algorithm = config.algorithm;
            } in
            subst (Opens p config found)
              (returned_injective (sym (rw (done, encrypt_cbc) refl) ∙ h))
              (
                subst (λ a. open_with c a e0 found ≡ returned p) (sym alg)
                    (rw (open_with, same, c.from-to_base64 sealed, c.from-to_base64 iv)
                      (c.decrypt-encrypt_cbc key iv p sealed w done)),
                refl,
              )
      ]

  pub encrypt_with-Opens :
      (iv p : Text) (a : Algorithm) (config found : KeyConfig) (e : EncryptedData)
      → c.IsEncodable p
      → config.algorithm ≡ a
      → found.key ≡ config.key
      → encrypt_with c iv a p config ≡ returned e
      → Opens p config found e
  unfolding encrypt_with
  encrypt_with-Opens iv p aes_256_gcm config found e w alg same h =
      encrypt_gcm-Opens iv p config found e w alg same h
  encrypt_with-Opens iv p aes_256_cbc config found e w alg same h =
      encrypt_cbc-Opens iv p config found e w alg same h
  encrypt_with-Opens iv p (another name) config found e w alg same h = absurd (threw_not h)

  module _ {S : Type 0} where
    -- The key that `encrypt` used
    pub encrypt_used :
        (iv : Text) (d : Data) (m : Manager S) (e : EncryptedData)
        → encrypt c iv d m ≡ returned e
        → (i : Text) × ((config : KeyConfig) × ((p : Text) × ((JsMap.get i m.keys_cache
                  ≡ some config)
                × (plaintext_of c d ≡ returned p)
                × (encrypt_with c iv config.algorithm p config ≡ returned e))))
    unfolding encrypt
    encrypt_used iv d m e h = elim (Option-cases (present m.active_key_id)) [
      | inl absent ↦
          absurd
            (threw_not {error = "encryption/no_active_key"} (sym (rw (absent, encrypt) refl) ∙ h))
      | inr (i, active) ↦ elim (Option-cases (JsMap.get i m.keys_cache)) [
        | inl absent ↦ absurd (
            threw_not {error = "encryption/key_not_found"}
              (sym (rw (active, absent, encrypt) refl) ∙ h))
        | inr (config, found) ↦ elim (Settled-cases (plaintext_of c d)) [
          | inr (error, failed) ↦
              absurd
                (threw_not {error = error} (sym (rw (active, found, failed, encrypt) refl) ∙ h))
          | inl (p, written) ↦ (
            i,
            (config, (p, (found, written, sym (rw (active, found, written, encrypt) refl) ∙ h))),
          )
        ]
      ]
    ]

    pub decrypt-found :
        (e : EncryptedData) (m : Manager S) (found : KeyConfig) (p : Text)
        → JsMap.get e.key_id m.keys_cache ≡ some found
        → open_with c e.algorithm e found ≡ returned p
        → decrypt c e m ≡ returned (parse_plaintext c p)
    unfolding decrypt decrypt_to_plaintext
    decrypt-found e m found p there opened = rw (there, opened, decrypt, decrypt_to_plaintext) refl
