-- ===== src/Encryption/Tests.antt =====
-- A cipher that hides nothing, and two keys, the second of which takes over.
use job_queue.Prelude.{
  inl, Member, nat_beq, if◌then◌else◌, ◌≡◌, refl, true, false, some, List, [], ◌∷◌, Settled,
  returned, threw,
}
use job_queue.JsMap
use job_queue.JsMap.{JsMap}
use job_queue.AccessControl.{Text}
use job_queue.Redis.{Json, text_eq}
use job_queue.Redis.Memory.{memory}
use job_queue.Encryption.{
  aes_256_gcm, aes_256_cbc, KeyConfig, EncryptedData, Data, value, Crypto, new, encrypt,
  encrypt_with, encrypt_gcm, decrypt,
}
use job_queue.Encryption.Keys.{
  Outside, add_key, rotate_key, retire_key, get_keys, read_configs, initialize,
}
use job_queue.Encryption.RoundTrip.{
  to_rotate, to_deactivate, to_initialize, Op, perform, perform_all, decrypt-encrypt,
}
use job_queue.Encryption.Activation.{has_no_text, initialize-encrypt}

abbrev read : Text → Settled Data
read (v ∷ c ∷ []) = if nat_beq c 34 then returned (value v) else threw "SyntaxError"
read _ = threw "SyntaxError"

pub sealed_first :
    (p k a b : Text)
    → ◌≡◌ {A = Settled (Text × Text)} (returned (p, k)) (returned (a, b))
    → returned a ≡ returned p
sealed_first p k a b h = cc h

pub same_sealed : (p a : Text) → returned p ≡ returned a → returned a ≡ returned p
same_sealed p a h = cc h

abbrev plain_crypto : Crypto
plain_crypto = record {
  to_base64 = λ b. b;
  from_base64 = λ t. t;
  encrypt_gcm = λ key iv p. returned (p, key);
  decrypt_gcm = λ key iv tag sealed. returned sealed;
  encrypt_cbc = λ key iv p. returned p;
  decrypt_cbc = λ key iv sealed. returned sealed;
  stringify = λ v. returned (v ∷ 34 ∷ []);
  parse = read;
  IsEncodable = λ t. Unit;
  from-to_base64 = λ b. refl;
  decrypt-encrypt_gcm = λ key iv p a b w h. sealed_first p key a b h;
  decrypt-encrypt_cbc = λ key iv p a w h. same_sealed p a h;
}

abbrev first_key : KeyConfig
first_key = record { key_id = 1 ∷ []; key = 7 ∷ []; algorithm = aes_256_gcm; is_active = true }

abbrev second_key : KeyConfig
second_key = record { key_id = 2 ∷ []; key = 8 ∷ []; algorithm = aes_256_cbc; is_active = false }

-- A text form that writes every key as the first one: what Redis holds of them does not matter here.
abbrev lossy : Json KeyConfig
lossy = record {
  stringify = λ k. 1 ∷ [];
  parse = λ t. returned first_key;
  stored = λ k. first_key;
  present-stringify = λ k. refl;
  parse-stringify = λ k. refl;
}

abbrev outside : Outside (JsMap Text Text)
outside = record { redis = memory; key_prefix = 9 ∷ []; configs = lossy }

abbrev before : List Op
before = to_rotate first_key ∷ []

abbrev after : List Op
after = to_rotate second_key ∷ to_deactivate (1 ∷ []) ∷ to_initialize ∷ []

abbrev sealed_value : EncryptedData
sealed_value = record {
  ciphertext = 5 ∷ 34 ∷ [];
  iv = 3 ∷ [];
  tag = some (7 ∷ []);
  key_id = 1 ∷ [];
  algorithm = aes_256_gcm;
}

encrypt_test :
    encrypt plain_crypto (3 ∷ []) (value 5) (perform_all outside before (new []))
    ≡ returned sealed_value
unfolding encrypt encrypt_with encrypt_gcm perform_all perform rotate_key retire_key add_key
    JsMap.get JsMap.set
encrypt_test = refl

decrypt-encrypt_example :
    decrypt plain_crypto sealed_value
      (perform_all outside after (perform_all outside before (new [])))
    ≡ returned (value 5)
decrypt-encrypt_example =
    decrypt-encrypt plain_crypto outside before after [] (3 ∷ []) (value 5) (5 ∷ 34 ∷ [])
      sealed_value refl tt encrypt_test (refl, (tt, (tt, tt)))

-- A Redis that holds one key, which is active.
abbrev holding : JsMap Text Text
holding = (9 ∷ 58 ∷ 1 ∷ [], 1 ∷ []) ∷ []

held_test : (get_keys outside (new holding)).1 ≡ returned (first_key ∷ [])
unfolding get_keys read_configs JsMap.get
held_test = refl

initialize-encrypt_example :
    let m = (initialize outside (new holding)).0 in
    (k : KeyConfig) × (Member k (first_key ∷ [])
      × (k.is_active ≡ true)
      × (m.active_key_id ≡ some k.key_id)
      × (encrypt plain_crypto (3 ∷ []) (value 5) m
          ≡ threw (
              if has_no_text k.key_id
              then "encryption/no_active_key"
              else "encryption/key_not_found")))
initialize-encrypt_example =
    initialize-encrypt plain_crypto outside holding (3 ∷ []) (value 5) (first_key ∷ []) held_test
      (first_key, (inl refl, refl))
