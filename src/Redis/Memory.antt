-- ===== src/Redis/Memory.antt =====
-- A Redis in memory, which understands the patterns that end in their only `*`: it shows that what
-- `Answers` asks of Redis can hold.
use job_queue.Prelude.{
  ℕ, true, false, List, [], ◌∷◌, ◌++◌, ◌≡◌, ◌↔◌, refl, sym, ap, subst, Member, returned, Bool-cases,
  inl, inr, if◌then◌else◌, ◌==◌, nat_eq,
}
use job_queue.AccessControl.{Text, star, starts_with}
use job_queue.JsMap
use job_queue.JsMap.{JsMap}
use job_queue.JsMap.Laws.{get-set, get-delete}
use job_queue.Redis.{text_eq, Redis, Answers, IsThere}

abbrev pub all_but_last : Text → Text
all_but_last [] = []
all_but_last (c ∷ []) = []
all_but_last (c ∷ d ∷ p) = c ∷ all_but_last (d ∷ p)

pub all_but_last-append : (p : Text) (c : ℕ) → all_but_last (p ++ (c ∷ [])) ≡ p
all_but_last-append [] c = refl
all_but_last-append (d ∷ []) c = refl
all_but_last-append (d ∷ e ∷ p) c = ap (λ q. d ∷ q) (all_but_last-append (e ∷ p) c)

-- The keys with a prefix
abbrev pub keys_from : Text → JsMap Text Text → List Text
keys_from p [] = []
keys_from p ((k, v) ∷ m) = let rest = keys_from p m in if starts_with p k then k ∷ rest else rest

keys_from-in :
    (p j v : Text) (m : JsMap Text Text)
    → starts_with p j ≡ true
    → keys_from p ((j, v) ∷ m) ≡ j ∷ keys_from p m
keys_from-in p j v m h = rw h refl

keys_from-out :
    (p j v : Text) (m : JsMap Text Text)
    → starts_with p j ≡ false
    → keys_from p ((j, v) ∷ m) ≡ keys_from p m
keys_from-out p j v m h = rw h refl

abbrev pub memory : Redis (JsMap Text Text)
memory = record {
  get = λ k m. (m, returned (JsMap.get k m));
  set = λ k v m. (JsMap.set k v m, returned tt);
  del = λ k m. (JsMap.delete k m, returned tt);
  keys = λ p m. (m, returned (keys_from (all_but_last p) m));
}

module _ (p k : Text) where
  get-later :
      (j v : Text) (m : JsMap Text Text)
      → (j == k) ≡ false
      → JsMap.get k ((j, v) ∷ m) ≡ JsMap.get k m
  unfolding JsMap.get
  get-later j v m h = rw h refl

  found_here :
      (j v : Text) (m : JsMap Text Text)
      → j ≡ k
      → starts_with p j ≡ true
      → IsThere (JsMap.get k ((j, v) ∷ m)) × (starts_with p k ≡ true)
  unfolding JsMap.get
  found_here j v m e w =
      (rw ((text_eq.beq_iff j k).1 e) tt, subst (λ i. starts_with p i ≡ true) e w)

  found_later :
      (j v : Text) (m : JsMap Text Text)
      → IsThere (JsMap.get k m) × (starts_with p k ≡ true)
      → IsThere (JsMap.get k ((j, v) ∷ m)) × (starts_with p k ≡ true)
  unfolding JsMap.get
  found_later j v m (h, w) = elim (Bool-cases (j == k)) [
    | inl same ↦ (rw same tt, w)
    | inr other ↦ (rw other h, w)
  ]

  pub keys_from-IsThere :
      (m : JsMap Text Text)
      → Member k (keys_from p m)
      → IsThere (JsMap.get k m) × (starts_with p k ≡ true)
  unfolding JsMap.get
  keys_from-IsThere [] h = absurd h
  keys_from-IsThere ((j, v) ∷ m) h = elim (Bool-cases (starts_with p j)) [
    | inr other ↦
        found_later j v m (keys_from-IsThere m (subst (Member k) (keys_from-out p j v m other) h))
    | inl start ↦ elim (subst (Member k) (keys_from-in p j v m start) h) [
      | inl same ↦ found_here j v m (sym same) start
      | inr later ↦ found_later j v m (keys_from-IsThere m later)
    ]
  ]

  pub IsThere-keys_from :
      (m : JsMap Text Text)
      → IsThere (JsMap.get k m)
      → starts_with p k ≡ true
      → Member k (keys_from p m)
  unfolding JsMap.get
  IsThere-keys_from [] h w = absurd h
  IsThere-keys_from ((j, v) ∷ m) h w = elim (Bool-cases (j == k)) [
    | inl same ↦
        let e = (text_eq.beq_iff j k).0 same in
        subst (Member k)
          (sym (keys_from-in p j v m (subst (λ i. starts_with p i ≡ true) (sym e) w))) (inl (sym e))
    | inr other ↦
        let rest = IsThere-keys_from m (subst IsThere (get-later j v m other) h) w in
        elim (Bool-cases (starts_with p j)) [
          | inl start ↦ subst (Member k) (sym (keys_from-in p j v m start)) (inr rest)
          | inr out ↦ subst (Member k) (sym (keys_from-out p j v m out)) rest
        ]
  ]

abbrev pub memory_answers : Answers memory
memory_answers = record {
  look = JsMap.get;
  get_lem = λ k s. refl;
  set_lem = λ k v s. refl;
  look-set = λ j k v s. get-set k j v s;
  del_lem = λ k s. refl;
  look-del = λ j k s. get-delete k j s;
  keys_lem = λ p s. (keys_from (all_but_last p) s, refl);
  keys_iff = λ p k s h.
      subst (λ q. Member k (keys_from q s) ↔ (IsThere (JsMap.get k s) × (starts_with p k ≡ true)))
        (sym (all_but_last-append p star))
        (keys_from-IsThere p k s, λ both. IsThere-keys_from p k s both.0 both.1);
}
