-- ===== src/Store/Memcached/Laws.antt =====
-- What a client sees of the store over servers that answer: memcached may drop an entry at any write,
-- so a read shows the entry that was written last or none.
use openkeyv.Base.{ℕ, ◌≡◌}
use openkeyv.Base.{◌⊎◌, Bool, Option, none, some}
use openkeyv.Base.{if◌then◌else◌}
use openkeyv.Base.{Result, ok, bind}
use openkeyv.Base.Bytes.{Bytes, Text, bytes_eq}
use openkeyv.Platform.{Platform}
use openkeyv.Value.Checked.{Value}
use openkeyv.Entry.Codec
use openkeyv.Protocol.Contract.{live}
use openkeyv.Store.Memcached.{Memcache, get}

-- What is left of an entry: it, or nothing.
abbrev pub Kept {ℓ} : {A : Type ℓ} → Option A → Option A → Type ℓ
Kept before now = (now ≡ before) ⊎ (now ≡ none)

-- What the store relies on in memcached, while the servers answer: a read gives what is held and a
-- deletion is carried out; a write puts its bytes at its key, and may drop what is at any.
pub record IsMemcached {D : Type 0} (client : Memcache D) (contents : D → Text → Option Bytes)
    : Type 0 where
  pub gets : (k : Text) (d : D) → client.get k d ≡ (ok (contents d k), d)
  pub deletes : (k : Text) (d : D) → (b : Bool) × ((client.delete k d).0 ≡ ok b)
  pub sets :
      (k : Text) (b : Bytes) (t : ℕ) (d : D)
      → ((client.set k b t d).0 ≡ ok tt)
        × ((j : Text)
            → Kept
                (if bytes_eq k j then some b else contents d j)
                (contents (client.set k b t d).1 j))

module _ {T F D : Type 0} (os : Platform T F) (client : Memcache D) (base64 : Bytes → Text)
    (one_float : F) (u32_of_float : F → ℕ) (contents : D → Text → Option Bytes)
    (works : IsMemcached client contents) where
  -- What a read shows of the bytes at its key.
  abbrev shown : T → Option Bytes → Result (Option Value)
  shown now none = ok none
  shown now (some b) = bind (Codec.decode os b) λ e. ok (live os now (some e))
