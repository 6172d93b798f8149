-- ===== src/Assoc/History.antt =====
-- The table of src/assoc.c as a map from keys to items: a run of insertions, deletions and maintenance
-- rounds, in any order, answers each lookup as the list of its events says.
use mem_exchange.Prelude.{
  ℕ, ◌≡◌, refl, ap, ◌∙◌, Bool, Option, none, some, List, [], ◌∷◌, if◌then◌else◌,
}
use mem_exchange.Assoc.Key.{same_key}
use mem_exchange.Assoc.Table.{
  Keyed, Assoc, assoc_init, assoc_insert, assoc_find, assoc_delete, maintenance_round, find_in,
  bucket,
}
use mem_exchange.Assoc.Valid.{IsValid, assoc_init-IsValid}
use mem_exchange.Assoc.Steps.{assoc_insert-IsValid, assoc_delete-IsValid, maintenance_round-IsValid}
use mem_exchange.Assoc.Lookup.{view, find-insert, find-delete}
use mem_exchange.Assoc.Expansion.{find-maintenance_round}

pub data Event (I : Type 0) : Type 0 where
  inserted : I → Event I
  deleted : List ℕ → Event I
  maintained : List Bool → Bool → Event I

module _ {I : Type 0} ⦃k : Keyed I⦄ where
  -- what the events, the latest first, say of a key
  unfoldable pub replay : List (Event I) → List ℕ → Option I
  replay [] j = none
  replay (inserted it ∷ es) j = if same_key j (k.key it) then some it else replay es j
  replay (deleted key ∷ es) j = if same_key key j then none else replay es j
  replay (maintained locks allocated ∷ es) j = replay es j

  -- The tables a run reaches. The callers insert only absent keys.
  pub data Run (hash : List ℕ → ℕ) (power : ℕ) : List (Event I) → Assoc I → Type 0 where
    start : Run hash power [] (assoc_init power)
    insert :
        {es : List (Event I)} {t : Assoc I} (it : I)
        → view hash t (k.key it) ≡ none
        → Run hash power es t
        → Run hash power (inserted it ∷ es) (assoc_insert it (hash (k.key it)) t)
    delete :
        {es : List (Event I)} {t t' : Assoc I} (key : List ℕ)
        → assoc_delete key (hash key) t ≡ some t'
        → Run hash power es t
        → Run hash power (deleted key ∷ es) t'
    maintain :
        {es : List (Event I)} {t : Assoc I} (locks : List Bool) (allocated : Bool)
        → Run hash power es t
        → Run hash power
            (maintained locks allocated ∷ es)
            (maintenance_round hash locks allocated t)

  module _ {hash : List ℕ → ℕ} {power : ℕ} where
    pub Run-IsValid : {es : List (Event I)} {t : Assoc I} → Run hash power es t → IsValid hash t
    Run-IsValid start = assoc_init-IsValid hash power
    Run-IsValid (insert {t = t} it absent r) = assoc_insert-IsValid hash it t (Run-IsValid r) absent
    Run-IsValid (delete {t = t} {t' = t'} key e r) =
        assoc_delete-IsValid hash key t t' (Run-IsValid r) e
    Run-IsValid (maintain {t = t} locks allocated r) =
        maintenance_round-IsValid hash locks allocated t (Run-IsValid r)

    -- After any run of insertions of absent keys, successful deletions and maintenance rounds from the
    -- initial table, a lookup finds the item inserted last under the key, unless it was deleted after.
    pub find-replay :
        {es : List (Event I)} {t : Assoc I}
        → Run hash power es t
        → (j : List ℕ) → assoc_find j (hash j) t ≡ replay es j
    unfolding replay assoc_init assoc_find bucket find_in
    find-replay start j = refl
    find-replay (insert {es = es} {t = t} it absent r) j =
        find-insert hash it t j
        ∙ ap (λ o. if same_key j (k.key it) then some it else o) (find-replay r j)
    find-replay (delete {es = es} {t = t} {t' = t'} key e r) j =
        let (found, _) = find-delete hash key j t t' (Run-IsValid r) e in
        found ∙ ap (λ o. if same_key key j then none else o) (find-replay r j)
    find-replay (maintain {es = es} {t = t} locks allocated r) j =
        find-maintenance_round hash locks allocated t j (Run-IsValid r) ∙ find-replay r j
