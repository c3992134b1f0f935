-- ===== src/AccessControl/Reading.antt =====
-- The loop over the keys of a pattern, on a Redis that answers.
use job_queue.Prelude.{
  returned_injective, ◌≡◌, ◌∙◌, ◌↔◌, refl, sym, ap, subst, some, List, [], ◌∷◌, ◌++◌, Member, All,
  some_injective, inl, inr, returned,
}
use job_queue.Redis.{Redis, Json, Answers}
use job_queue.AccessControl.{Text}
use job_queue.AccessControl.Store.{Manager}
use job_queue.AccessControl.Listing.{read_one, read_all, all}

append_nil : {A : Type 0} (xs : List A) → xs ++ [] ≡ xs
append_nil [] = refl
append_nil (x ∷ xs) = ap (λ l. x ∷ l) (append_nil xs)

append_one :
    {A : Type 0} (xs : List A) (y : A) (ys : List A) → (xs ++ (y ∷ [])) ++ ys ≡ xs ++ (y ∷ ys)
append_one [] y ys = refl
append_one (x ∷ xs) y ys = ap (λ l. x ∷ l) (append_one xs y ys)

module _ {S A : Type 0} (redis : Redis S) (a : Answers redis) (json : Json A) where
  -- What a key holds
  abbrev pub Holds : S → Text → A → Type 0
  Holds s k e = a.look k s ≡ some (json.stringify e)

  -- An item that one of the keys holds, as JSON gives it back
  abbrev pub IsRead : S → List Text → A → Type 0
  IsRead s ks e = (k : Text) × ((e0 : A) × (Member k ks × (Holds s k e0 × (e ≡ json.stored e0))))

  pub stored_same :
      (d e : A) → some (json.stringify d) ≡ some (json.stringify e) → json.stored d ≡ json.stored e
  stored_same d e h =
      returned_injective
        (sym (json.parse-stringify d) ∙ ap json.parse (some_injective h) ∙ json.parse-stringify e)

  read_all_step :
      (k : Text) (ks : List Text) (e : A) (items : List A) (m : Manager S)
      → Holds m.server k e
      → read_all redis json all (k ∷ ks) items m
        ≡ read_all redis json all ks (items ++ (json.stored e ∷ [])) m
  unfolding read_all
  read_all_step k ks e items m h =
      rw (a.get_lem k m.server, h, json.present-stringify e, read_one, json.parse-stringify e) refl

  pub read_all_lem :
      (ks : List Text) (items : List A) (m : Manager S)
      → All (λ k. (e : A) × Holds m.server k e) ks
      → (found : List A) × ((read_all redis json all ks items m ≡ (m, returned (items ++ found)))
          × ((e : A) → Member e found ↔ IsRead m.server ks e))
  unfolding read_all
  read_all_lem [] items m h = (
    [],
    (ap (λ l. (m, returned l)) (sym (append_nil items)), λ e. (λ w. absurd w, λ r. absurd r.1.1.0)),
  )
  read_all_lem (k ∷ ks) items m ((e, h), hs) =
      let (rest, facts) = read_all_lem ks (items ++ (json.stored e ∷ [])) m hs in
      (
        json.stored e ∷ rest,
        (
          read_all_step k ks e items m h
              ∙ facts.0
              ∙ ap (λ l. (m, returned l)) (append_one items (json.stored e) rest),
          λ d. (
            λ w. elim w [
              | inl same ↦ (k, (e, (inl refl, (h, same))))
              | inr later ↦ let r = (facts.1 d).0 later in (r.0, (r.1.0, (inr r.1.1.0, r.1.1.1)))
            ],
            λ r. elim (r.1.1.0) [
              | inl same ↦ inl (
                  r.1.1.1.1
                  ∙ stored_same r.1.0 e
                      (sym (subst (λ j. Holds m.server j r.1.0) same r.1.1.1.0) ∙ h))
              | inr later ↦ inr ((facts.1 d).1 (r.0, (r.1.0, (later, r.1.1.1))))
            ],
          ),
        ),
      )
