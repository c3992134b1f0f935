-- ===== src/Encryption/Activation.antt =====
-- What `initialize` makes of a new manager.
use job_queue.Prelude.{
  ◌≡◌, ◌∙◌, refl, sym, ap, Bool, true, false, none, some, List, [], ◌∷◌, returned, threw, Member,
  Bool-cases, Option-cases, inl, inr, arith, if◌then◌else◌,
}
use job_queue.JsMap
use job_queue.JsMap.{JsMap}
use job_queue.AccessControl.{Text}
use job_queue.Redis.{text_eq}
use job_queue.Encryption.{KeyConfig, Data, Crypto, Manager, new, encrypt, find_active}
use job_queue.Encryption.Keys.{Outside, get_keys, initialize}
use job_queue.Encryption.Usage.{Agrees, initialize-Keeps}

abbrev pub has_no_text : Text → Bool
has_no_text [] = true
has_no_text (c ∷ t) = false

true_not_false : true ≡ false → ⊥
true_not_false h = cc

encrypt_missing :
    (c : Crypto) {S : Type 0} (iv : Text) (d : Data) (id : Text) (m : Manager S)
    → m.active_key_id ≡ some id
    → JsMap.get id m.keys_cache ≡ none
    → encrypt c iv d m
      ≡ threw (if has_no_text id then "encryption/no_active_key" else "encryption/key_not_found")
unfolding encrypt
encrypt_missing c iv d [] m active absent = rw (active, encrypt) refl
encrypt_missing c iv d (x ∷ id) m active absent = rw (active, encrypt) (rw (absent, encrypt) refl)

abbrev NoKey : Text → Text → Type 0
NoKey i k = ⊥

empty-Agrees : Agrees NoKey []
unfolding JsMap.get
empty-Agrees i c g = cc g

-- One of the keys is marked as active.
abbrev pub HasActive : List KeyConfig → Type 0
HasActive keys = (k : KeyConfig) × (Member k keys × (k.is_active ≡ true))

-- The key that `find` takes is the first that is marked.
find_active-IsActive :
    (keys : List KeyConfig)
    → HasActive keys
    → (k : KeyConfig) × ((find_active keys ≡ some k) × Member k keys × (k.is_active ≡ true))
find_active-IsActive [] (k, (there, active)) = absurd there
find_active-IsActive (first ∷ keys) (k, (there, active)) = elim (Bool-cases first.is_active) [
  | inl marked ↦ (first, (rw marked refl, inl refl, marked))
  | inr other ↦ elim there [
    | inl same ↦
        absurd (true_not_false (sym active ∙ ap (λ (x : KeyConfig). x.is_active) same ∙ other))
    | inr later ↦
        let (found, facts) = find_active-IsActive keys (k, (later, active)) in
        (found, (rw other facts.0, inr facts.1, facts.2))
  ]
]

-- If Redis gives a new manager its keys and one of them is marked as active, then `initialize` makes
-- one that is marked the active key, but puts no key into the cache, so that `encrypt` of any data
-- throws that there is no such key, or that there is no active key if its identifier is empty.
pub initialize-encrypt :
    (c : Crypto) {S : Type 0} (o : Outside S) (s : S) (iv : Text) (d : Data) (keys : List KeyConfig)
    → (get_keys o (new s)).1 ≡ returned keys
    → HasActive keys
    → let m = (initialize o (new s)).0 in
      (k : KeyConfig) × (Member k keys
        × (k.is_active ≡ true)
        × (m.active_key_id ≡ some k.key_id)
        × (encrypt c iv d m
            ≡ threw (
                if has_no_text k.key_id
                then "encryption/no_active_key"
                else "encryption/key_not_found")))
unfolding encrypt initialize
initialize-encrypt c o s iv d keys h marked =
    let (k, facts) = find_active-IsActive keys marked in
    let m = (initialize o (new s)).0 in
    let kept = initialize-Keeps ⊥ NoKey o [] (new s) (empty-Agrees, λ t. absurd t) in
    let none_there : JsMap.get k.key_id m.keys_cache ≡ none =
      elim (Option-cases (JsMap.get k.key_id m.keys_cache)) [
        | inl absent ↦ absent
        | inr (config, found) ↦ absurd (kept.0 k.key_id config found).1
      ] in
    let active : m.active_key_id ≡ some k.key_id = ground (arith, h, facts.0) in
    (k, (facts.1, facts.2, active, encrypt_missing c iv d k.key_id m active none_there))
