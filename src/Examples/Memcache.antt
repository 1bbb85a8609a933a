-- ===== src/Examples/Memcache.antt =====
-- The store over memcached at a concrete input, over a server that is a function. The text of bytes is
-- the bytes.
use openkeyv.Base.{ℕ}
use openkeyv.Base.{Option, none, some, List, [], ◌∷◌}
use openkeyv.Base.{if◌then◌else◌}
use openkeyv.Base.{ok}
use openkeyv.Base.Bytes.{Bytes, Text, bytes_eq}
use openkeyv.Entry.Codec
use openkeyv.Platform.{Inputs}
use openkeyv.Protocol.Contract.{is_present}
use openkeyv.Store.Memcached.{Memcache, MemcachedStore, get}
use openkeyv.Examples.Host.{jo}

abbrev Items : Type 0
Items = Text → Option Bytes

abbrev found : List Text → Items → List (Text × Bytes)
found [] d = []
found (k ∷ ks) d = elim (d k) [ none ↦ found ks d | some b ↦ (k, b) ∷ found ks d ]

-- A server that drops everything else at a write.
abbrev server : Memcache Items
server = record {
  get = λ k d. (ok (d k), d);
  set = λ k b t d. (ok tt, λ j. if bytes_eq k j then some b else none);
  delete = λ k d. (ok (is_present (d k)), λ j. if bytes_eq k j then none else d j);
  gets = λ ks d. (ok (found ks d), d);
  flush = λ d. (ok tt, λ k. none);
}

abbrev cache : MemcachedStore Items
cache = record { client = λ k. none; default_collection = jo }

abbrev inputs : Inputs ℕ
inputs = record { clock = λ i. 7; random = λ i. none }
