-- ===== src/Examples/Routes.antt =====
-- The wrappers that compress and that route, at concrete inputs.
use openkeyv.Base.{ℕ, zero, suc, ◌≡◌, refl}
use openkeyv.Base.{Option, none, some, [], ◌∷◌, ◌++◌, arith}
use openkeyv.Base.{if◌then◌else◌}
use openkeyv.Base.{drop, get_elem?}
use openkeyv.Base.{ok}
use openkeyv.Base.Bytes.{Bytes, Text, bytes_eq, starts_with}
use mathlib.Core.Path.{subst}
use openkeyv.Value.Checked.{Value, utf8, tag, of_binary}
use openkeyv.Entry.{is_expired, make}
use openkeyv.Protocol.{KeyValue, Session, each, pure}
use openkeyv.Store.Simple.{SimpleStore, simple_store}
use openkeyv.Store.Simple.Laws.{simple_model}
use openkeyv.Wrapper.PassthroughCache.{passthrough_cache}
use openkeyv.Wrapper.Compression.{compression_magic, compress, decompress_value, compression_store}
use openkeyv.Wrapper.Compression.Laws.{IsCompressor, decompress-compress, compressed_get-put}
use openkeyv.Wrapper.Routing.{RoutedStore, routed_get, routed_ttl, routed_get_many, routed_ttl_many}
use openkeyv.Wrapper.Routing.Laws.{ReadsInTurn, routed_get_many-each}
use openkeyv.Examples.Host.{host, hi, jo, greeting, greeting-Wellformed, session, kv, kv-Contract}

-- A compressor that puts a byte in front.
abbrev zip : Bytes → Option Bytes
zip plain = some (31 ∷ plain)

abbrev unzip : Bytes → Option Bytes
unzip stream = some (drop 1 stream)

zip-IsCompressor : IsCompressor zip unzip
zip-IsCompressor b [] h = cc
zip-IsCompressor b (x ∷ z) h = (omega arith, cc)

abbrev zipped : Value
zipped = of_binary (compression_magic ++ (tag utf8 ∷ 31 ∷ hi))

zips : compress zip 2 greeting ≡ ok zipped
unfolding compress starts_with bytes_eq
zips = refl

decompress-compress_example : decompress_value unzip zipped ≡ ok greeting
decompress-compress_example =
    decompress-compress zip unzip 2 greeting zipped zip-IsCompressor greeting-Wellformed zips

zipped_made :
    make host 7 zipped (some 9)
    ≡ ok (record { value = zipped; created_at = some 7; expires_at = some 9007 })
unfolding make
zipped_made = refl

abbrev wrapped : KeyValue (Session (SimpleStore ℕ) ℕ) ℕ
wrapped = compression_store zip unzip 2 kv

compressed_get-put_example :
    (wrapped.get jo none (wrapped.put jo greeting none (some 9) session).1).0 ≡ ok (some greeting)
unfolding is_expired compression_store compress simple_store starts_with bytes_eq
compressed_get-put_example =
    compressed_get-put host zip unzip kv simple_model kv-Contract 2 session jo greeting zipped none
      (some 9) (record { value = zipped; created_at = some 7; expires_at = some 9007 })
      zip-IsCompressor greeting-Wellformed zips zipped_made

abbrev World : Type 0
World = Session (SimpleStore ℕ) ℕ × Session (SimpleStore ℕ) ℕ

-- A store and its cache, behind the router.
abbrev cached : RoutedStore World ℕ
cached = record {
  key_value = passthrough_cache none kv kv;
  enumerate = record { keys = λ c l. pure []; collections = λ l. pure [] };
}

in_turn : ReadsInTurn (passthrough_cache none kv kv)
unfolding passthrough_cache
in_turn = record { get_many_each = λ ks c s. refl; ttl_many_each = λ ks c s. refl }

abbrev store_of : Option (RoutedStore World ℕ) → RoutedStore World ℕ
store_of none = cached
store_of (some r) = r

cached-ReadsInTurn :
    (i : ℕ) (r : RoutedStore World ℕ) → get_elem? (cached ∷ []) i ≡ some r → ReadsInTurn r.key_value
cached-ReadsInTurn zero r h = subst (λ o. ReadsInTurn (store_of o).key_value) h in_turn
cached-ReadsInTurn (suc i) r h = cc

-- The second key goes to an index without a store.
abbrev by_key : Option Text → Text → ℕ
by_key c k = if bytes_eq k jo then 0 else 7

routed_get_many-each_example :
    (routed_get_many (cached ∷ []) by_key (jo ∷ hi ∷ []) none (session, session)
      ≡ each (λ k. routed_get (cached ∷ []) by_key k none) (jo ∷ hi ∷ []) (session, session))
    × (routed_ttl_many (cached ∷ []) by_key (jo ∷ hi ∷ []) none (session, session)
        ≡ each (λ k. routed_ttl (cached ∷ []) by_key k none) (jo ∷ hi ∷ []) (session, session))
routed_get_many-each_example =
    routed_get_many-each (cached ∷ []) by_key cached-ReadsInTurn (jo ∷ hi ∷ []) none
      (session, session)
