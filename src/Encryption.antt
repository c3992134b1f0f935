-- ===== src/Encryption.antt =====
-- src/infrastructure/services/encryption.manager.ts and src/core/interfaces/encryption.interface.ts.
-- The ciphers of node:crypto, its random bytes and JSON are arguments. A method that logs an error and
-- throws it again, or rejects with it, just throws it. A configuration that the manager changes
-- stands only in its cache. When keys are made and when they expire, no code reads.
pub mod Keys
pub mod Ciphers
pub mod RoundTrip
pub mod Activation
pub mod Usage
mod Tests
use job_queue.Prelude.{
  ℕ, ◌≡◌, String, Bool, true, false, Option, none, some, List, [], ◌∷◌, ◌++◌, get_or, if◌then◌else◌,
  Settled, returned, threw,
}
use job_queue.JsMap
use job_queue.JsMap.{JsMap}
use job_queue.JobQueue.{Ref}
use job_queue.AccessControl.{Text, star}
use job_queue.Redis.{
  Action, bind_settled, ◌>>=◌, ◌>>◌, return, throw, modify, settle, or_return, caught, Redis, Json,
  present, text_eq,
}

-- `EncryptionAlgorithm`, and what else a configuration that was read as JSON may hold
pub data Algorithm : Type 0 where
  aes_256_gcm aes_256_cbc : Algorithm
  another : Ref → Algorithm

-- `EncryptionKeyConfig`
pub record KeyConfig : Type 0 where
  pub key_id : Text
  pub key : Text
  pub algorithm : Algorithm
  pub is_active : Bool

-- `EncryptedData`
pub record EncryptedData : Type 0 where
  pub ciphertext : Text
  pub iv : Text
  pub tag : Option Text
  pub key_id : Text
  pub algorithm : Algorithm

-- What is encrypted: a string, or another value, a reference
pub data Data : Type 0 where
  text : Text → Data
  value : Ref → Data

-- The ciphers, on lists of bytes, from UTF-8 and to it; base64; JSON. `IsEncodable` says of a string
-- that UTF-8 can encode it. `stringify` throws also where `JSON.stringify` gives `undefined`, which
-- no cipher takes (of the algorithms that are not supported, the source names the algorithm instead).
pub record Crypto : Type 1 where
  pub to_base64 : Text → Text
  pub from_base64 : Text → Text
  pub encrypt_gcm : (key iv plaintext : Text) → Settled (Text × Text)
  pub decrypt_gcm : (key iv tag ciphertext : Text) → Settled Text
  pub encrypt_cbc : (key iv plaintext : Text) → Settled Text
  pub decrypt_cbc : (key iv ciphertext : Text) → Settled Text
  pub stringify : Ref → Settled Text
  pub parse : Text → Settled Data
  pub IsEncodable : Text → Type 0
  pub from-to_base64 : (b : Text) → from_base64 (to_base64 b) ≡ b
  pub decrypt-encrypt_gcm :
      (key iv plaintext ciphertext tag : Text)
      → IsEncodable plaintext
      → encrypt_gcm key iv plaintext ≡ returned (ciphertext, tag)
      → decrypt_gcm key iv tag ciphertext ≡ returned plaintext
  pub decrypt-encrypt_cbc :
      (key iv plaintext ciphertext : Text)
      → IsEncodable plaintext
      → encrypt_cbc key iv plaintext ≡ returned ciphertext
      → decrypt_cbc key iv ciphertext ≡ returned plaintext

-- `EncryptionManager`, with the state of its Redis
pub record Manager (S : Type 0) : Type 0 where
  pub server : S
  pub active_key_id : Option Text
  pub keys_cache : JsMap Text KeyConfig

abbrev pub new : {S : Type 0} → S → Manager S
new server = record { server = server; active_key_id = none; keys_cache = [] }

abbrev pub on_server : {S A : Type 0} → Action S A → Action (Manager S) A
on_server act m = let (s, r) = act m.server in (record m { server = s }, r)

-- `keys.find((k) => k.isActive)`
abbrev pub find_active : List KeyConfig → Option KeyConfig
find_active [] = none
find_active (k ∷ ks) = let rest = find_active ks in if k.is_active then some k else rest

-- `tag ?? ''`
abbrev pub tag_of : Option Text → Text
tag_of tag = get_or tag []

module _ (c : Crypto) where
  -- `typeof data === 'string' ? data : JSON.stringify(data)`
  abbrev pub plaintext_of : Data → Settled Text
  plaintext_of (text t) = returned t
  plaintext_of (value v) = c.stringify v

  -- `parsePlaintext`
  unfoldable pub parse_plaintext : Text → Data
  parse_plaintext plaintext = elim (c.parse plaintext) [
    | returned data_read ↦ data_read
    | threw error ↦ text plaintext
  ]

  -- `encryptGCM`
  unfoldable pub encrypt_gcm : (iv plaintext key : Text) → KeyConfig → Settled EncryptedData
  encrypt_gcm iv plaintext key config = elim (c.encrypt_gcm key iv plaintext) [
    | threw error ↦ threw error
    | returned sealed ↦ returned record {
      ciphertext = c.to_base64 sealed.0;
      iv = c.to_base64 iv;
      tag = some (c.to_base64 sealed.1);
      key_id = config.key_id;
      algorithm = config.algorithm;
    }
  ]

  -- `encryptCBC`
  unfoldable pub encrypt_cbc : (iv plaintext key : Text) → KeyConfig → Settled EncryptedData
  encrypt_cbc iv plaintext key config = elim (c.encrypt_cbc key iv plaintext) [
    | threw error ↦ threw error
    | returned sealed ↦ returned record {
      ciphertext = c.to_base64 sealed;
      iv = c.to_base64 iv;
      tag = none;
      key_id = config.key_id;
      algorithm = config.algorithm;
    }
  ]

  -- `encrypt` once the key and the text are found
  unfoldable pub encrypt_with : (iv : Text) → Algorithm → Text → KeyConfig → Settled EncryptedData
  unfolding encrypt_gcm encrypt_cbc
  encrypt_with iv aes_256_gcm plaintext config =
      encrypt_gcm iv plaintext (c.from_base64 config.key) config
  encrypt_with iv aes_256_cbc plaintext config =
      encrypt_cbc iv plaintext (c.from_base64 config.key) config
  encrypt_with iv (another name) plaintext config = threw "encryption/unsupported_algorithm"

  -- `decryptToPlaintext` once the key is found
  unfoldable pub open_with : Algorithm → EncryptedData → KeyConfig → Settled Text
  open_with aes_256_gcm encrypted config =
      c.decrypt_gcm (c.from_base64 config.key) (c.from_base64 encrypted.iv)
        (c.from_base64 (tag_of encrypted.tag)) (c.from_base64 encrypted.ciphertext)
  open_with aes_256_cbc encrypted config =
      c.decrypt_cbc (c.from_base64 config.key) (c.from_base64 encrypted.iv)
        (c.from_base64 encrypted.ciphertext)
  open_with (another name) encrypted config = threw "encryption/unsupported_algorithm"

  module _ {S : Type 0} where
    -- `encrypt`, with the random bytes
    unfoldable pub encrypt : (iv : Text) → Data → Manager S → Settled EncryptedData
    unfolding encrypt_with
    encrypt iv data_given m = elim (present m.active_key_id) [
      | none ↦ threw "encryption/no_active_key"
      | some key_id ↦ elim (JsMap.get key_id m.keys_cache) [
        | none ↦ threw "encryption/key_not_found"
        | some config ↦ elim (plaintext_of data_given) [
          | threw error ↦ threw error
          | returned plaintext ↦ encrypt_with iv config.algorithm plaintext config
        ]
      ]
    ]

    -- `decryptToPlaintext`
    unfoldable pub decrypt_to_plaintext : EncryptedData → Manager S → Settled Text
    unfolding open_with
    decrypt_to_plaintext encrypted m = elim (JsMap.get encrypted.key_id m.keys_cache) [
      | none ↦ threw "encryption/key_not_found"
      | some config ↦ open_with encrypted.algorithm encrypted config
    ]

    -- `decrypt`
    unfoldable pub decrypt : EncryptedData → Manager S → Settled Data
    unfolding decrypt_to_plaintext parse_plaintext
    decrypt encrypted m = elim (decrypt_to_plaintext encrypted m) [
      | threw error ↦ threw error
      | returned plaintext ↦ returned (parse_plaintext plaintext)
    ]
