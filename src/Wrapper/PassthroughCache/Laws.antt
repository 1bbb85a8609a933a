-- ===== src/Wrapper/PassthroughCache/Laws.antt =====
-- The cache in front of a store never hides a write that was made through the wrapper.
use openkeyv.Base.{◌≡◌, refl, ◌∙◌}
use openkeyv.Base.{inl, inr, Option, none, some}
use openkeyv.Base.{Bool-cases}
use openkeyv.Base.{ok}
use openkeyv.Base.Bytes.{Text}
use openkeyv.Platform.{Platform}
use openkeyv.Value.Checked.{Value}
use openkeyv.Entry.{ManagedEntry, make, is_expired}
use openkeyv.Protocol.{KeyValue}
use openkeyv.Protocol.Contract.{resolve, live, Model, Contract, same_place_refl}
use openkeyv.Protocol.Clients.{value-make}
use openkeyv.Wrapper.PassthroughCache.{fill, cached_get, cached_put}

module _ {T F C P : Type 0} (os : Platform T F) (cache_ttl : Option F) (cache : KeyValue C F)
    (primary : KeyValue P F) (mc : Model C T) (mp : Model P T) (hc : Contract os cache mc)
    (hp : Contract os primary mp) where
  cached_get-miss :
      (a : C) (b : P) (k : Text) (c : Option Text)
      → mc.view a (resolve (mc.default a) c) k ≡ none
      → (fill cache_ttl cache primary k c
          (live os (mp.now b) (mp.view b (resolve (mp.default b) c) k))
          ((cache.get k c a).1, (primary.get k c b).1)).0
        ≡ ok tt
      → (cached_get cache_ttl cache primary k c (a, b)).0
        ≡ ok (live os (mp.now b) (mp.view b (resolve (mp.default b) c) k))
  unfolding cached_get
  cached_get-miss a b k c h f = rw (hc.get_shows a k c, h, hp.get_shows b k c, f) refl

  -- The read behind a write fills the cache, where the cache can make an entry of the value.
  fills :
      (a : C) (p : P) (k : Text) (c : Option Text) (now : T) (e f : ManagedEntry T)
      → make os (mc.now a) e.value cache_ttl ≡ ok f
      → (fill cache_ttl cache primary k c (live os now (some e)) (a, p)).0 ≡ ok tt
  unfolding fill
  fills a p k c now e f made = elim (Bool-cases (is_expired os now e)) [
    | inl old ↦ rw old refl
    | inr fresh ↦ rw fresh (hc.put_accepts a k e.value c cache_ttl f made)
  ]

  cached_put-states :
      (a : C) (b : P) (k : Text) (v : Value) (c : Option Text) (ttl : Option F)
      → cached_put cache_ttl cache primary k v c ttl (a, b)
        ≡ ((primary.put k v c ttl b).0, ((cache.delete k c a).1, (primary.put k v c ttl b).1))
  unfolding cached_put
  cached_put-states a b k v c ttl = rw (hc.delete_says a k c) refl

  dropped :
      (a : C) (k : Text) (c : Option Text)
      → mc.view (cache.delete k c a).1 (resolve (mc.default (cache.delete k c a).1) c) k ≡ none
  dropped a k c =
      rw
        (
          hc.delete_default a k c,
          hc.delete_empties a k c (resolve (mc.default a) c) k,
          same_place_refl (resolve (mc.default a) c) k,
        )
        refl

  stored :
      (b : P) (k : Text) (v : Value) (c : Option Text) (ttl : Option F) (e : ManagedEntry T)
      → make os (mp.now b) v ttl ≡ ok e
      → mp.view (primary.put k v c ttl b).1 (resolve (mp.default (primary.put k v c ttl b).1) c) k
        ≡ some e
  stored b k v c ttl e h =
      rw
        (
          hp.put_default b k v c ttl,
          hp.put_stores b k v c ttl e h (resolve (mp.default b) c) k,
          same_place_refl (resolve (mp.default b) c) k,
        )
        refl

  -- Whatever the cache held before, a write through the wrapper that the primary store accepts is
  -- what the next read through the wrapper shows, for as long as the entry is live; both stores keep
  -- the contract, and at the time of that read an entry of the value and of the configured time to
  -- live of the cache can be made.
  pub cached_get-cached_put :
      (a : C) (b : P) (k : Text) (v : Value) (c : Option Text) (ttl : Option F)
      (e f : ManagedEntry T)
      → make os (mp.now b) v ttl ≡ ok e
      → make os (mc.now (cache.get k c (cache.delete k c a).1).1) v cache_ttl ≡ ok f
      → ((cached_put cache_ttl cache primary k v c ttl (a, b)).0 ≡ ok tt)
        × ((cached_get cache_ttl cache primary k c
              (cached_put cache_ttl cache primary k v c ttl (a, b)).1).0
            ≡ ok (live os (mp.now (primary.put k v c ttl b).1) (some e)))
  cached_get-cached_put a b k v c ttl e f h cached =
      let b' = (primary.put k v c ttl b).1 in
      let there = stored b k v c ttl e h in
      let filled =
        fills (cache.get k c (cache.delete k c a).1).1 (primary.get k c b').1 k c (mp.now b') e f
          (rw (value-make os (mp.now b) v ttl e h) cached) in
      (
        rw (cached_put-states a b k v c ttl) (hp.put_accepts b k v c ttl e h),
        rw (cached_put-states a b k v c ttl) (
            cached_get-miss (cache.delete k c a).1 b' k c (dropped a k c) (rw there filled)
            ∙ rw there refl),
      )
