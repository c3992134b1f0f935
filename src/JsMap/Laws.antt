-- ===== src/JsMap/Laws.antt =====
-- What a client may use of `Map`: the value at every key after `set` and `delete`.
use job_queue.Prelude.{◌≡◌, refl, true, false, none, some, [], ◌∷◌, arith, if◌then◌else◌, Eq, ◌==◌}
use job_queue.JsMap
use job_queue.JsMap.{JsMap, is_empty}

module _ {K : Type 0} ⦃e : Eq K⦄ where
  pub beq_refl : (k : K) → (k == k) ≡ true
  beq_refl k = (e.beq_iff k k).1 refl

module _ {K V : Type 0} ⦃e : Eq K⦄ where
  pub get-set :
      (k j : K) (v : V) (m : JsMap K V)
      → JsMap.get j (JsMap.set k v m) ≡ (if k == j then some v else JsMap.get j m)
  unfolding JsMap.get JsMap.set
  get-set k j v [] = refl
  get-set k j v ((i, w) ∷ m) =
      ground (arith, e.beq_iff k j, e.beq_iff i k, e.beq_iff i j, get-set k j v m)

  pub get-delete :
      (k j : K) (m : JsMap K V)
      → JsMap.get j (JsMap.delete k m) ≡ (if k == j then none else JsMap.get j m)
  unfolding JsMap.get JsMap.delete
  get-delete k j [] = ground arith
  get-delete k j ((i, w) ∷ m) =
      ground (arith, e.beq_iff k j, e.beq_iff i k, e.beq_iff i j, get-delete k j m)

  pub get-set_self : (k : K) (v : V) (m : JsMap K V) → JsMap.get k (JsMap.set k v m) ≡ some v
  get-set_self k v m = simp (get-set, beq_refl)

  -- A key is present exactly if it has a value.
  pub get-has :
      (k : K) (m : JsMap K V)
      → JsMap.has k m ≡ (elim (JsMap.get k m) [ none ↦ false | some v ↦ true ])
  unfolding JsMap.get JsMap.has
  get-has k [] = refl
  get-has k ((i, w) ∷ m) = ground (arith, get-has k m)

  pub is_empty-set : (k : K) (v : V) (m : JsMap K V) → is_empty (JsMap.set k v m) ≡ false
  unfolding JsMap.set
  is_empty-set k v [] = refl
  is_empty-set k v ((i, w) ∷ m) = ground arith

  pub is_empty-has : (k : K) (m : JsMap K V) → JsMap.has k m ≡ true → is_empty m ≡ false
  unfolding JsMap.has
  is_empty-has k [] h = cc
  is_empty-has k ((i, w) ∷ m) h = refl
