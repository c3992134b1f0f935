-- ===== src/Encryption/RoundTrip.antt =====
-- Data that was encrypted is decrypted again, also after other keys have taken over.
use job_queue.Prelude.{
  ◌≡◌, ◌∙◌, refl, sym, ap, subst, false, Option, none, some, List, [], ◌∷◌, some_injective, All,
  All-map, ◌==◌, returned, threw, returned_injective,
}
use job_queue.JsMap
use job_queue.JsMap.{JsMap}
use job_queue.AccessControl.{Text}
use job_queue.Redis.{text_eq, IsThere}
use job_queue.Encryption.{
  KeyConfig, EncryptedData, Data, text, Crypto, Manager, new, plaintext_of, parse_plaintext,
  encrypt, encrypt_with, decrypt,
}
use job_queue.Encryption.Keys.{Outside, add_key, deactivate_key, rotate_key, remove_key, initialize}
use job_queue.Encryption.Usage.{
  Agrees, Keeps, add_key-Keeps, deactivate_key-Keeps, rotate_key-Keeps, remove_key-Keeps,
  initialize-Keeps,
}
use job_queue.Encryption.Ciphers.{encrypt_with-Opens, encrypt_used, decrypt-found}

-- The calls that change a manager.
pub data Op : Type 0 where
  to_add : KeyConfig → Op
  to_rotate : KeyConfig → Op
  to_deactivate : Text → Op
  to_remove : Text → Op
  to_initialize : Op

module _ {S : Type 0} (o : Outside S) where
  unfoldable pub perform : Op → Manager S → Manager S
  perform (to_add config) m = (add_key o config m).0
  perform (to_rotate config) m = (rotate_key o config m).0
  perform (to_deactivate key_id) m = (deactivate_key o key_id m).0
  perform (to_remove key_id) m = (remove_key o key_id m).0
  perform to_initialize m = (initialize o m).0

  unfoldable pub perform_all : List Op → Manager S → Manager S
  perform_all [] m = m
  perform_all (op ∷ ops) m = perform_all ops (perform op m)

-- A call that adds only keys that agree with `Q`, and given `T` does not remove the identifier.
abbrev pub Respects : Type 0 → (Text → Text → Type 0) → Text → Op → Type 0
Respects T Q id (to_add c) = Q c.key_id c.key
Respects T Q id (to_rotate c) = Q c.key_id c.key
Respects T Q id (to_deactivate k) = Unit
Respects T Q id (to_remove k) = T → (k == id) ≡ false
Respects T Q id to_initialize = Unit

module _ (T : Type 0) (Q : Text → Text → Type 0) {S : Type 0} (o : Outside S) (id : Text) where
  perform-Keeps :
      (op : Op) (m : Manager S)
      → Respects T Q id op
      → Keeps T Q id m.keys_cache
      → Keeps T Q id (perform o op m).keys_cache
  unfolding perform
  perform-Keeps (to_add c) m q h = add_key-Keeps T Q o id c m q h
  perform-Keeps (to_rotate c) m q h = rotate_key-Keeps T Q o id c m q h
  perform-Keeps (to_deactivate k) m q h = deactivate_key-Keeps T Q o id k m h
  perform-Keeps (to_remove k) m q h = remove_key-Keeps T Q o id k m q h
  perform-Keeps to_initialize m q h = initialize-Keeps T Q o id m h

  perform_all-Keeps :
      (ops : List Op) (m : Manager S)
      → All (Respects T Q id) ops
      → Keeps T Q id m.keys_cache
      → Keeps T Q id (perform_all o ops m).keys_cache
  unfolding perform_all
  perform_all-Keeps [] m qs h = h
  perform_all-Keeps (op ∷ ops) m (q, qs) h =
      perform_all-Keeps ops (perform o op m) qs (perform-Keeps op m q h)

abbrev AnyKey : Text → Text → Type 0
AnyKey i k = Unit

AnyKey-Respects : (id : Text) (ops : List Op) → All (Respects ⊥ AnyKey id) ops
AnyKey-Respects id [] = tt
AnyKey-Respects id (to_add c ∷ ops) = (tt, AnyKey-Respects id ops)
AnyKey-Respects id (to_rotate c ∷ ops) = (tt, AnyKey-Respects id ops)
AnyKey-Respects id (to_deactivate k ∷ ops) = (tt, AnyKey-Respects id ops)
AnyKey-Respects id (to_remove k ∷ ops) = (λ t. absurd t, AnyKey-Respects id ops)
AnyKey-Respects id (to_initialize ∷ ops) = (tt, AnyKey-Respects id ops)

empty-Agrees : Agrees AnyKey []
unfolding JsMap.get
empty-Agrees i c g = cc g

-- Every key of the cache stands under its identifier.
all_keyed :
    {S : Type 0} (o : Outside S) (ops : List Op) (s : S)
    → Agrees AnyKey (perform_all o ops (new s)).keys_cache
all_keyed o ops s =
    (perform_all-Keeps ⊥ AnyKey o [] ops (new s) (AnyKey-Respects [] ops)
      (empty-Agrees, λ t. absurd t)).0

-- A call that neither adds a key under an identifier nor removes it.
abbrev pub Spares : Text → Op → Type 0
Spares id (to_add c) = (c.key_id == id) ≡ false
Spares id (to_rotate c) = (c.key_id == id) ≡ false
Spares id (to_deactivate k) = Unit
Spares id (to_remove k) = (k == id) ≡ false
Spares id to_initialize = Unit

abbrev SameKey : Text → Text → Text → Text → Type 0
SameKey id key i k = i ≡ id → k ≡ key

other-SameKey : (id key i k : Text) → (i == id) ≡ false → SameKey id key i k
other-SameKey id key i k other e = cc (other, (text_eq.beq_iff i id).1 e)

Spares-Respects : (id key : Text) (op : Op) → Spares id op → Respects Unit (SameKey id key) id op
Spares-Respects id key (to_add c) h = other-SameKey id key c.key_id c.key h
Spares-Respects id key (to_rotate c) h = other-SameKey id key c.key_id c.key h
Spares-Respects id key (to_deactivate k) h = tt
Spares-Respects id key (to_remove k) h = λ t. h
Spares-Respects id key to_initialize h = tt

IsThere-some : {A : Type 0} (o : Option A) → IsThere o → (a : A) × (o ≡ some a)
IsThere-some none h = absurd h
IsThere-some (some a) h = (a, refl)

module _ (c : Crypto) where
  module _ {S : Type 0} where
    -- In a manager that any calls have led to, if `encrypt` succeeds on data, whose text is the string
    -- itself or its JSON, and UTF-8 can encode that text, then after any further calls that neither add a
    -- key under the identifier of the key used nor remove it, `decrypt` returns what that text stands for
    -- as JSON, or the text itself if it is no JSON; whatever Redis answers.
    pub decrypt-encrypt :
        (o : Outside S) (before after : List Op) (s : S) (iv : Text) (d : Data) (p : Text)
        (e : EncryptedData)
        → plaintext_of c d ≡ returned p
        → c.IsEncodable p
        → encrypt c iv d (perform_all o before (new s)) ≡ returned e
        → All (Spares e.key_id) after
        → decrypt c e (perform_all o after (perform_all o before (new s)))
          ≡ returned (elim (c.parse p) [ returned found ↦ found | threw error ↦ text p ])
    unfolding parse_plaintext
    decrypt-encrypt o before after s iv d p e written w h spared =
        let m = perform_all o before (new s) in
        let (i, used) = encrypt_used c iv d m e h in
        let (config, sealing) = used in
        let (q, facts) = sealing in
        let same_text : q ≡ p = returned_injective (sym facts.1 ∙ written) in
        let sealed : encrypt_with c iv config.algorithm p config ≡ returned e =
          subst (λ t. encrypt_with c iv config.algorithm t config ≡ returned e) same_text facts.2 in
        let keyed = all_keyed o before s in
        let id_is : e.key_id ≡ i =
          (encrypt_with-Opens c iv p config.algorithm config config e w refl refl sealed).1
          ∙ (keyed i config facts.0).0 in
        let kept =
          perform_all-Keeps Unit (SameKey e.key_id config.key) o e.key_id after m
            (All-map (Spares-Respects e.key_id config.key) after spared)
            (
              λ j k g. (
                (keyed j k g).0,
                λ same.
                    ap (λ (x : KeyConfig). x.key)
                      (some_injective
                        (sym g ∙ ap (λ x. JsMap.get x m.keys_cache) (same ∙ id_is) ∙ facts.0)),
              ),
              λ t. subst IsThere (sym (ap (λ x. JsMap.get x m.keys_cache) id_is ∙ facts.0)) tt,
            ) in
        let (found, there) = IsThere-some _ (kept.1 tt) in
        decrypt-found c e (perform_all o after m) found p there
          (encrypt_with-Opens c iv p config.algorithm config found e w refl
            ((kept.0 e.key_id found there).1 refl) sealed).0
