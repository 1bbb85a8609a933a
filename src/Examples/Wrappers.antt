-- ===== src/Examples/Wrappers.antt =====
-- The wrappers at concrete inputs.
use openkeyv.Base.{Bool, false}
use openkeyv.Base.{◌≤◌}
use openkeyv.Base.{ℕ, ◌≡◌, refl, sym, ap}
use openkeyv.Base.{◌↔◌, ◌⊎◌, true, Option, none, some, List, [], ◌∷◌, ◌++◌, arith}
use openkeyv.Base.{leb}
use openkeyv.Base.{length, drop}
use openkeyv.Base.{Error, Result, ok, err, bind}
use openkeyv.Base.Bytes.{Bytes, Text, to_le_bytes}
use openkeyv.Value.Checked.{Value}
use openkeyv.Entry.{ManagedEntry, make}
use openkeyv.Value.Checked.{tag, utf8, of_binary}
use openkeyv.Entry.Codec
use openkeyv.Base.Assoc.{lookup}
use openkeyv.Entry.{is_expired}
use openkeyv.Protocol.{Session}
use openkeyv.Store.Simple.{SimpleStore, simple_store, get_many, live_each}
use openkeyv.Store.Simple.Laws.{simple_model}
use openkeyv.Wrapper.ReadOnly.{
  Client, end, ask, read_only_store, read_only_enumerate, run, refused, AsksNoWrite, read_only-run,
}
use openkeyv.Migration.Sources.{simple_names}
use openkeyv.Wrapper.ReadOnly
use openkeyv.Wrapper.TtlClamp.{clamp_ttl, clamp_ttl_bounds}
use openkeyv.Wrapper.LimitSize.{limit_size, InLimits, AllFit, limit_size-put, limit_size-put_many}
use openkeyv.Wrapper.Statistics.{Statistics}
use openkeyv.Wrapper.PassthroughCache.{merge_names}
use openkeyv.Wrapper.PassthroughCache.Names.{Distinct, room, merge_names-Distinct}
use openkeyv.Wrapper.PassthroughCache.{cached_get, cached_put}
use openkeyv.Wrapper.PassthroughCache.Laws.{cached_get-cached_put}
use openkeyv.Wrapper.Encryption.{encryption_magic, encrypt_value, decrypt_value}
use openkeyv.Wrapper.Encryption.Laws.{Inverse, decrypt-encrypt}
use openkeyv.Examples.Host.{
  host, hi, jo, greeting, greeting-Wellformed, session, kv, kv-Contract, made, accepted,
  host-IsOrdered,
}

-- A client that writes, and reads only when the write was refused.
abbrev client : Client ℕ Bool
client =
    ask (ReadOnly.put jo greeting none none)
      λ r. elim r [ ok a ↦ end true | err x ↦ ask (ReadOnly.keys none none) (λ r'. end false) ]

read_only-run_example :
    (run (read_only_store kv) (read_only_enumerate (simple_names host)) client session
      ≡ run kv (simple_names host) (refused client) session)
    × AsksNoWrite (refused client)
read_only-run_example = read_only-run kv (simple_names host) client session

clamp_ttl_bounds_example :
    ((x : ℕ)
      → clamp_ttl host
          (record { min_ttl = some 10; max_ttl = some 60; missing_ttl = some 30 })
          (some 5)
        ≡ some x
      → (leb 10 x ≡ true) × (leb x 60 ≡ true))
    × ((clamp_ttl host
            (record { min_ttl = some 10; max_ttl = some 60; missing_ttl = some 30 })
            (some 5)
          ≡ none)
        ↔ ((◌≡◌ {A = Option ℕ} (some 5) none) × (◌≡◌ {A = Option ℕ} (some 30) none)))
clamp_ttl_bounds_example = clamp_ttl_bounds host 10 60 host-IsOrdered refl (some 30) (some 5)

limit_size-put_example :
    (((limit_size host (some 3) (some 40) (λ i. 7) kv).put jo greeting none none session
        ≡ kv.put jo greeting none none session)
      × ((e : ManagedEntry ℕ) × (make host 7 greeting none ≡ ok e)
          × InLimits host (some 3) (some 40) (length (Codec.encode host e))))
    ⊎ ((x : Error) × ((limit_size host (some 3) (some 40) (λ i. 7) kv).put jo greeting none none
            session
          ≡ (err x, session)))
limit_size-put_example =
    limit_size-put host (some 3) (some 40) kv (λ i. 7) session jo greeting none none

limit_size-put_many_example :
    ((◌≡◌ {A = ℕ} 1 1)
      × AllFit host (some 3) (some 40) (λ i. 7) none (greeting ∷ [])
      × ((limit_size host (some 3) (some 40) (λ i. 7) kv).put_many
            (jo ∷ [])
            (greeting ∷ [])
            none
            none
            session
          ≡ kv.put_many (jo ∷ []) (greeting ∷ []) none none session))
    ⊎ (¬ ((◌≡◌ {A = ℕ} 1 1) × AllFit host (some 3) (some 40) (λ i. 7) none (greeting ∷ []))
        × ((x : Error) × ((limit_size host (some 3) (some 40) (λ i. 7) kv).put_many
                (jo ∷ [])
                (greeting ∷ [])
                none
                none
                session
              ≡ (err x, session))))
limit_size-put_many_example =
    limit_size-put_many host (some 3) (some 40) kv (λ i. 7) session (jo ∷ []) (greeting ∷ []) none
      none

abbrev no_counts : Statistics
no_counts = record {
  gets = 0;
  puts = 0;
  deletes = 0;
  get_many = 0;
  put_many = 0;
  delete_many = 0;
  hits = 0;
  misses = 0;
}

abbrev asked : List Text
asked = jo ∷ hi ∷ []

abbrev read : Session (SimpleStore ℕ) ℕ
read = (kv.get_many asked none session).1

nothing : kv.get_many asked none session ≡ (ok (none ∷ none ∷ []), read)
unfolding simple_store get_many live_each lookup
nothing = refl

cached_get-cached_put_example :
    ((cached_put (some 9) kv kv jo greeting none (some 9) (session, session)).0 ≡ ok tt)
    × ((cached_get
          (some 9)
          kv
          kv
          jo
          none
          (cached_put (some 9) kv kv jo greeting none (some 9) (session, session)).1).0
        ≡ ok (some greeting))
unfolding is_expired simple_store
cached_get-cached_put_example =
    cached_get-cached_put host (some 9) kv kv simple_model simple_model kv-Contract kv-Contract
      session session jo greeting none (some 9) made made accepted accepted

-- An encryption that puts a byte in front.
abbrev lock : Bytes → Result Bytes
lock plain = ok (42 ∷ plain)

abbrev unlock : Bytes → ℕ → Result Bytes
unlock secret version = ok (drop 1 secret)

unlock-lock : Inverse lock unlock 3
unlock-lock plain secret h = sym (ap (λ r. bind r λ x. ok (drop 1 x)) h)

abbrev locked : Value
locked = of_binary (encryption_magic ++ (to_le_bytes 4 3 ++ (tag utf8 ∷ 42 ∷ hi)))

locks : encrypt_value lock unlock 3 greeting ≡ ok locked
unfolding encrypt_value
locks = refl

decrypt-encrypt_example : decrypt_value lock unlock (some locked) ≡ ok (some greeting)
decrypt-encrypt_example =
    decrypt-encrypt lock unlock 3 greeting locked unlock-lock (omega arith) greeting-Wellformed
      locks

merge_names-Distinct_example :
    Distinct (merge_names (some 2) [] (hi ∷ jo ∷ hi ∷ []))
    × (length (merge_names (some 2) [] (hi ∷ jo ∷ hi ∷ [])) ≤ room 2)
    × (merge_names (some 0) [] (hi ∷ jo ∷ hi ∷ []) ≡ hi ∷ [])
merge_names-Distinct_example = merge_names-Distinct 2 hi (jo ∷ hi ∷ [])
