-- ===== src/Wrapper/LimitSize.antt =====
-- wrapper/limit_size.rs: entries whose encoding is too small or too large are refused.
use openkeyv.Base.{ℕ, ◌+◌, ◌≤◌, ◌≡◌, refl}
use openkeyv.Base.{◌⊎◌, inl, inr, Bool, false, not, Option, none, some, List, [], ◌∷◌, arith}
use openkeyv.Base.{ltb, ◌==◌, if◌then◌else◌, Bool-cases, le→ltb}
use openkeyv.Base.{length}
use openkeyv.Base.{Error, Result, ok, err, bind, bind-eq-ok, Result-cases}
use openkeyv.Base.{entry_too_large, entry_too_small, batch_size_mismatch}
use openkeyv.Base.Bytes.{Text}
use openkeyv.Platform.{Platform}
use openkeyv.Value.Checked.{Value}
use openkeyv.Entry.{ManagedEntry, make}
use openkeyv.Protocol.{Done, ◌>>◌, lift, KeyValue, CompareAndSwap}
use openkeyv.Entry.Codec.{encode}

not_small :
    (min_size : Option ℕ) (size : ℕ)
    → ((lo : ℕ) → min_size ≡ some lo → lo ≤ size)
    → (elim min_size as (λ x. Bool) [ none ↦ false | some lo ↦ ltb size lo ]) ≡ false
not_small none size h = refl
not_small (some lo) size h = le→ltb size lo (h lo refl)

not_large :
    (max_size : Option ℕ) (size : ℕ)
    → ((hi : ℕ) → max_size ≡ some hi → size ≤ hi)
    → (elim max_size as (λ x. Bool) [ none ↦ false | some hi ↦ ltb hi size ]) ≡ false
not_large none size h = refl
not_large (some hi) size h = le→ltb hi size (h hi refl)

module _ {T F : Type 0} (os : Platform T F) (min_size max_size : Option ℕ) where
  abbrev too_small : ℕ → Bool
  too_small size = elim min_size [ none ↦ false | some lo ↦ ltb size lo ]

  abbrev too_large : ℕ → Bool
  too_large size = elim max_size [ none ↦ false | some hi ↦ ltb hi size ]

  -- `now` is the reading of the clock that making the entry takes.
  unfoldable pub check_size : T → Value → Option F → Result Done
  check_size now v ttl = bind (make os now v ttl) λ e.
      let size = length (encode os e) in
      if too_small size
      then err entry_too_small
      else if too_large size
      then err entry_too_large
      else ok tt

  -- The loop of `put_many`.
  unfoldable pub check_all : (ℕ → T) → List Value → Option F → Result Done
  check_all clock [] ttl = ok tt
  check_all clock (v ∷ vs) ttl =
      bind (check_size (clock 0) v ttl) λ _. check_all (λ i. clock (i + 1)) vs ttl

  module _ {S : Type 0} (clock : ℕ → T) where
    unfoldable pub limit_size : KeyValue S F → KeyValue S F
    limit_size inner = record {
      get = inner.get;
      ttl = inner.ttl;
      put = λ k v c t. lift (check_size (clock 0) v t) >> inner.put k v c t;
      delete = inner.delete;
      get_many = inner.get_many;
      ttl_many = inner.ttl_many;
      put_many = λ ks vs c t.
          if not (length ks == length vs)
          then lift (err (batch_size_mismatch (length ks) (length vs)))
          else (lift (check_all clock vs t) >> inner.put_many ks vs c t);
      delete_many = inner.delete_many;
    }

    unfoldable pub limit_size_cas : CompareAndSwap S F → CompareAndSwap S F
    limit_size_cas inner = record {
      get_with_revision = inner.get_with_revision;
      compare_and_swap =
          λ k x v c t. lift (check_size (clock 0) v t) >> inner.compare_and_swap k x v c t;
      compare_and_delete = inner.compare_and_delete;
    }

  -- Inside the limits, where there are any.
  abbrev pub InLimits : ℕ → Type 0
  InLimits size =
      ((lo : ℕ) → min_size ≡ some lo → lo ≤ size) × ((hi : ℕ) → max_size ≡ some hi → size ≤ hi)

  check_size-InLimits :
      (now : T) (v : Value) (ttl : Option F)
      → check_size now v ttl ≡ ok tt
      → (e : ManagedEntry T) × (make os now v ttl ≡ ok e) × InLimits (length (encode os e))
  unfolding check_size
  check_size-InLimits now v ttl h =
      let (e, made, h₁) = bind-eq-ok (make os now v ttl) _ h in
      (e, made, (λ lo p. ground arith, λ hi p. ground arith))

  -- An entry that can be made at a time, and encodes to a size inside the limits.
  abbrev pub Fits : T → Option F → Value → Type 0
  Fits now ttl v =
      (e : ManagedEntry T) × (make os now v ttl ≡ ok e) × InLimits (length (encode os e))

  -- Each value fits, by its own reading of the clock.
  abbrev pub AllFit : (ℕ → T) → Option F → List Value → Type 0
  AllFit clock ttl [] = Unit {0}
  AllFit clock ttl (v ∷ vs) = Fits (clock 0) ttl v × AllFit (λ i. clock (i + 1)) ttl vs

  Fits-check_size :
      (now : T) (v : Value) (ttl : Option F) → Fits now ttl v → check_size now v ttl ≡ ok tt
  unfolding check_size
  Fits-check_size now v ttl (e, made, (low, high)) =
      rw (made, not_small min_size (length (encode os e)) low, not_large max_size _ high) refl

  check_all-AllFit :
      (clock : ℕ → T) (ttl : Option F) (vs : List Value) (done : Done)
      → check_all clock vs ttl ≡ ok done
      → AllFit clock ttl vs
  unfolding check_all
  check_all-AllFit clock ttl [] done h = tt
  check_all-AllFit clock ttl (v ∷ vs) done h =
      let (d, first, rest) = bind-eq-ok (check_size (clock 0) v ttl) _ h in
      (
        check_size-InLimits (clock 0) v ttl first,
        check_all-AllFit (λ i. clock (i + 1)) ttl vs done rest,
      )

  AllFit-check_all :
      (clock : ℕ → T) (ttl : Option F) (vs : List Value)
      → AllFit clock ttl vs
      → check_all clock vs ttl ≡ ok tt
  unfolding check_all
  AllFit-check_all clock ttl [] fit = refl
  AllFit-check_all clock ttl (v ∷ vs) (first, rest) =
      rw (Fits-check_size (clock 0) v ttl first) (AllFit-check_all (λ i. clock (i + 1)) ttl vs rest)

  module _ {S : Type 0} (inner : KeyValue S F) (clock : ℕ → T) where
    -- A write that the wrapper lets through is of a value whose entry encodes to a size inside the
    -- limits; one that it refuses by itself leaves the store untouched.
    pub limit_size-put :
        (s : S) (k : Text) (v : Value) (c : Option Text) (ttl : Option F)
        → (((limit_size clock inner).put k v c ttl s ≡ inner.put k v c ttl s)
            × ((e : ManagedEntry T) × (make os (clock 0) v ttl ≡ ok e)
                × InLimits (length (encode os e))))
          ⊎ ((x : Error) × ((limit_size clock inner).put k v c ttl s ≡ (err x, s)))
    unfolding limit_size
    limit_size-put s k v c ttl = go (check_size (clock 0) v ttl) refl
      where
        go :
            (r : Result Done)
            → check_size (clock 0) v ttl ≡ r
            → (((limit_size clock inner).put k v c ttl s ≡ inner.put k v c ttl s)
                × ((e : ManagedEntry T) × (make os (clock 0) v ttl ≡ ok e)
                    × InLimits (length (encode os e))))
              ⊎ ((x : Error) × ((limit_size clock inner).put k v c ttl s ≡ (err x, s)))
        go (ok tt) h = inl (rw h refl, check_size-InLimits (clock 0) v ttl h)
        go (err x) h = inr (x, rw h refl)

    -- A batch goes on to the store as it is when it has as many keys as values and each value's entry
    -- can be made and encodes to a size inside the limits; otherwise it is refused as a whole and the
    -- store is untouched.
    pub limit_size-put_many :
        (s : S) (ks : List Text) (vs : List Value) (c : Option Text) (ttl : Option F)
        → ((length ks ≡ length vs)
            × AllFit clock ttl vs
            × ((limit_size clock inner).put_many ks vs c ttl s ≡ inner.put_many ks vs c ttl s))
          ⊎ (¬ ((length ks ≡ length vs) × AllFit clock ttl vs)
              × ((x : Error) × ((limit_size clock inner).put_many ks vs c ttl s ≡ (err x, s))))
    unfolding limit_size
    limit_size-put_many s ks vs c ttl = elim (Bool-cases (length ks == length vs)) [
      | inr differ ↦ inr (
        λ fit. ground (arith, fit.0),
        (batch_size_mismatch (length ks) (length vs), rw differ refl),
      )
      | inl same ↦ elim (Result-cases (check_all clock vs ttl)) [
        | inl (done, passed) ↦
            inl (ground arith, check_all-AllFit clock ttl vs done passed, rw (same, passed) refl)
        | inr (x, refused) ↦
            inr (
              λ fit. cc (AllFit-check_all clock ttl vs fit.1, refused),
              (x, rw (same, refused) refl),
            )
      ]
    ]
