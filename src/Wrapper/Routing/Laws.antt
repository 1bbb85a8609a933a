-- ===== src/Wrapper/Routing/Laws.antt =====
-- What a routed batch does, and what the merge of the names gives.
use openkeyv.Base.{ℕ, ◌≡◌, refl, sym, ap, ◌∙◌, fun_ext}
use openkeyv.Base.{inl, inr, true, Option, some, List, [], ◌∷◌, arith}
use openkeyv.Base.{if◌then◌else◌, Bool-cases}
use openkeyv.Base.{get_elem?, All}
use openkeyv.Base.{Error, ok, err, ok_or, bind-eq-ok, ok_or-eq-ok, ok-injective, Result-cases}
use openkeyv.Base.{invalid_operation}
use openkeyv.Base.Bytes.{Text}
use mathlib.Core.Path.{subst}
use openkeyv.Protocol.{Op, ◌>>=◌, lift, KeyValue}
use openkeyv.Protocol.{each}
use openkeyv.Wrapper.Routing.{
  RoutedStore, Router, route, same_store, routed_get, routed_ttl, routed_get_many, routed_ttl_many,
}

-- The reads of many keys are reads of the keys one after the other.
pub record ReadsInTurn {S F : Type 0} (kv : KeyValue S F) : Type 0 where
  pub get_many_each :
      (ks : List Text) (c : Option Text) (s : S) → kv.get_many ks c s ≡ each (λ k. kv.get k c) ks s
  pub ttl_many_each :
      (ks : List Text) (c : Option Text) (s : S) → kv.ttl_many ks c s ≡ each (λ k. kv.ttl k c) ks s

-- Loops over calls that agree on the keys agree.
each-cong :
    {S B : Type 0} (f g : Text → Op S B) (P : Text → Type 0)
    → ((k : Text) → P k → (s : S) → f k s ≡ g k s)
    → (ks : List Text) → All P ks
    → (s : S) → each f ks s ≡ each g ks s
unfolding each
each-cong f g P h [] ps s = refl
each-cong f g P h (k ∷ ks) (p, ps) s = rw (h k p s, fun_ext (λ t. each-cong f g P h ks ps t)) refl

each-err :
    {S B : Type 0} (f : Text → Op S B) (k : Text) (ks : List Text) (s : S) (x : Error)
    → f k s ≡ (err x, s)
    → each f (k ∷ ks) s ≡ (err x, s)
unfolding each
each-err f k ks s x h = rw h refl

module _ {S F : Type 0} (stores : List (RoutedStore S F)) (router : Router) where
  same_store-All :
      (c : Option Text) (idx : ℕ) (ks : List Text)
      → same_store stores router c idx ks ≡ true
      → All (λ k. router c k ≡ idx) ks
  unfolding same_store
  same_store-All c idx [] h = tt
  same_store-All c idx (k ∷ ks) h = (ground (arith, h), same_store-All c idx ks (ground (arith, h)))

  same_route :
      (c : Option Text) (j k : Text)
      → router c j ≡ router c k
      → route stores router c j ≡ route stores router c k
  unfolding route
  same_route c j k h = rw h refl

  -- A call of one key, through the router.
  abbrev routed : {B : Type 0} → (KeyValue S F → Text → Op S B) → Option Text → Text → Op S B
  routed one c k = lift (route stores router c k) >>= λ kv. one kv k

  -- A batch that one store takes whole, against its keys one after the other.
  whole-each :
      {B : Type 0} (one : KeyValue S F → Text → Op S B)
      (many : KeyValue S F → List Text → Op S (List B)) (c : Option Text) (k : Text)
      (ks : List Text) (s : S)
      → ((kv : KeyValue S F)
          → route stores router c k ≡ ok kv
          → many kv (k ∷ ks) s ≡ each (one kv) (k ∷ ks) s)
      → same_store stores router c (router c k) (k ∷ ks) ≡ true
      → (lift (route stores router c k) >>= λ kv. many kv (k ∷ ks)) s
        ≡ each (routed one c) (k ∷ ks) s
  whole-each one many c k ks s turn h = elim (Result-cases (route stores router c k)) [
    | inl (kv, found) ↦
        ap (λ r. (lift r >>= λ kv. many kv (k ∷ ks)) s) found
        ∙ turn kv found
        ∙ each-cong (one kv) (routed one c) (λ j. router c j ≡ router c k)
            (λ j same t.
              sym (ap (λ r. (lift r >>= λ kv. one kv j) t) (same_route c j k same ∙ found)))
            (k ∷ ks) (same_store-All c (router c k) (k ∷ ks) h) s
    | inr (x, missing) ↦
        ap (λ r. (lift r >>= λ kv. many kv (k ∷ ks)) s) missing
        ∙ sym (each-err (routed one c) k ks s x (ap (λ r. (lift r >>= λ kv. one kv k) s) missing))
  ]

  batch-each :
      {B : Type 0} (one : KeyValue S F → Text → Op S B)
      (many : KeyValue S F → List Text → Op S (List B)) (c : Option Text) (k : Text)
      (ks : List Text) (s : S)
      → ((kv : KeyValue S F)
          → route stores router c k ≡ ok kv
          → many kv (k ∷ ks) s ≡ each (one kv) (k ∷ ks) s)
      → (if same_store stores router c (router c k) (k ∷ ks)
            then (lift (route stores router c k) >>= λ kv. many kv (k ∷ ks))
            else each (routed one c) (k ∷ ks))
          s
        ≡ each (routed one c) (k ∷ ks) s
  batch-each one many c k ks s turn =
      elim (Bool-cases (same_store stores router c (router c k) (k ∷ ks))) [
        | inl same ↦ rw same (whole-each one many c k ks s turn same)
        | inr split ↦ rw split refl
      ]

  route-found :
      (P : KeyValue S F → Type 0) (c : Option Text) (k : Text)
      → ((i : ℕ) (r : RoutedStore S F) → get_elem? stores i ≡ some r → P r.key_value)
      → (kv : KeyValue S F) → route stores router c k ≡ ok kv
      → P kv
  unfolding route
  route-found P c k h kv found =
      let (r, there, eq) =
        bind-eq-ok (ok_or (get_elem? stores (router c k)) invalid_operation) _ found in
      subst P (ok-injective eq)
        (h (router c k) r (ok_or-eq-ok (get_elem? stores (router c k)) invalid_operation there))

  -- Reading many keys through the router gives what reading them one after the other through it
  -- gives, values, errors and effects on the stores alike, when each store below reads in turn.
  pub routed_get_many-each :
      ((i : ℕ) (r : RoutedStore S F) → get_elem? stores i ≡ some r → ReadsInTurn r.key_value)
      → (ks : List Text) (c : Option Text) (s : S)
      → (routed_get_many stores router ks c s ≡ each (λ k. routed_get stores router k c) ks s)
        × (routed_ttl_many stores router ks c s ≡ each (λ k. routed_ttl stores router k c) ks s)
  unfolding routed_get_many routed_ttl_many routed_get routed_ttl each
  routed_get_many-each turn [] c s = (refl, refl)
  routed_get_many-each turn (k ∷ ks) c s =
      let law = route-found ReadsInTurn c k turn in
      (
        batch-each (λ kv j. kv.get j c) (λ kv js. kv.get_many js c) c k ks s
            (λ kv found. (law kv found).get_many_each (k ∷ ks) c s),
        batch-each (λ kv j. kv.ttl j c) (λ kv js. kv.ttl_many js c) c k ks s
            (λ kv found. (law kv found).ttl_many_each (k ∷ ks) c s),
      )
