-- ===== src/Store/Simple.antt =====
-- store/simple/store.rs: the in-memory store over two levels of hash maps.
pub mod Laws
use openkeyv.Base.{
  ℕ, zero, suc, ◌+◌, ◌-◌, ◌*◌, ◌/◌, ◌%◌, ◌^◌, ◌≤◌, ◌<◌, ◌≡◌, refl, sym, ap, ◌∙◌, fun_ext,
}
use openkeyv.Base.{
  ◌≢◌, ◌↔◌, ◌⊎◌, inl, inr, Bool, true, false, not, ◌&&◌, ◌||◌, Option, none, some, List, [], ◌∷◌,
  ◌++◌, map, append-nil, append_assoc, arith,
}
use openkeyv.Base.{
  ltb, leb, ◌==◌, if◌then◌else◌, Bool-cases, leb→le, le→leb, ltb→lt, lt→ltb, le→ltb,
}
use openkeyv.Base.{
  length, take, drop, get_elem?, All, zip_with, length-append, take-append, drop-append, take-drop,
  length-take, length-take-le, drop-take, length-drop, take_all, All-split, All-drop,
  get_elem?-drop, All-append, length-map,
}
use openkeyv.Base.{
  Error, Result, ok, err, bind, guard, ok_or, map_err, collect, bind-eq-ok, if-eq-ok, ok_or-eq-ok,
}
use openkeyv.Base.{
  serialization, deserialization, invalid_key, invalid_ttl, invalid_value, invalid_operation,
  entry_too_large, entry_too_small, read_only, corrupted_data, batch_size_mismatch,
  invalid_change_cursor, change_cursor_expired, change_feed_lagged, revision_generation,
  out_of_fuel,
}
use openkeyv.Base.Bytes.{
  Bytes, Text, IsByte, bytes_eq, bytes_eq_iff, bytes_eq_refl, starts_with, to_le_bytes,
  from_le_bytes, length-to_le_bytes, to_le_bytes-IsByte, from_le_bytes-to_le_bytes,
  to_le_bytes-from_le_bytes, from_le_bytes-lt,
}
use openkeyv.Base.Assoc.{Assoc, lookup, insert, remove, keys}
use openkeyv.Platform.{Platform, Inputs}
use openkeyv.Value.Checked.{Value}
use openkeyv.Entry.{ManagedEntry, make, validate, is_expired, ttl}
use openkeyv.Protocol.{Done, Op, Enumerate, KeyValue, Session, at_call}
use openkeyv.Protocol.Contract.{resolve, live, is_present}

-- `HashMap<String, HashMap<String, ManagedEntry>>` and the configured collection name.
pub record SimpleStore (T : Type 0) : Type 0 where
  pub data_map : Assoc (Assoc (ManagedEntry T))
  pub default_collection : Text

-- `data.get(cname).and_then(|col| col.get(key))`
unfoldable pub find : {V : Type 0} → Assoc (Assoc V) → Text → Text → Option V
find m c k = elim (lookup c m) [ none ↦ none | some col ↦ lookup k col ]

abbrev pub or_default : {V : Type 0} → Option (Assoc V) → Assoc V
or_default none = []
or_default (some col) = col

abbrev pub min_limit : Option ℕ → ℕ
min_limit none = 10_000
min_limit (some n) = if ltb n 10_000 then n else 10_000

module _ {T F : Type 0} (os : Platform T F) where
  unfoldable pub live_ttl : T → T → Option (ManagedEntry T) → Option (Value × Option F)
  live_ttl now later none = none
  live_ttl now later (some e) = if is_expired os now e then none else some (e.value, ttl os later e)

  unfoldable pub get : Text → Option Text → Inputs T → Op (SimpleStore T) (Option Value)
  get k c inp s =
      (ok (live os (inp.clock 0) (find s.data_map (resolve s.default_collection c) k)), s)

  unfoldable pub get_ttl :
      Text → Option Text → Inputs T → Op (SimpleStore T) (Option (Value × Option F))
  unfolding live_ttl
  get_ttl k c inp s = (
    ok (live_ttl (inp.clock 0) (inp.clock 1) (find s.data_map (resolve s.default_collection c) k)),
    s,
  )

  unfoldable pub put : Text → Value → Option Text → Option F → Inputs T → Op (SimpleStore T) Done
  put k v c ttl_secs inp s = elim (make os (inp.clock 0) v ttl_secs) [
    | err x ↦ (err x, s)
    | ok e ↦
        let cname = resolve s.default_collection c in
        let col = insert k e (or_default (lookup cname s.data_map)) in
        (ok tt, record s { data_map = insert cname col s.data_map })
  ]

  unfoldable pub delete : Text → Option Text → Inputs T → Op (SimpleStore T) Bool
  delete k c inp s =
      let cname = resolve s.default_collection c in
      elim (lookup cname s.data_map) [
        | none ↦ (ok false, s)
        | some col ↦ (
          ok (is_present (lookup k col)),
          record s { data_map = insert cname (remove k col) s.data_map },
        )
      ]

  -- The test of the i-th key reads the clock at `clock i`.
  unfoldable pub live_each :
      (ℕ → T) → Option (Assoc (ManagedEntry T)) → List Text → List (Option Value)
  live_each clock col [] = []
  live_each clock col (k ∷ ks) =
      live os (clock 0) (lookup k (or_default col)) ∷ live_each (λ i. clock (i + 1)) col ks

  unfoldable pub get_many :
      List Text → Option Text → Inputs T → Op (SimpleStore T) (List (Option Value))
  unfolding live_each
  get_many ks c inp s =
      (ok (live_each inp.clock (lookup (resolve s.default_collection c) s.data_map) ks), s)

  -- Two readings for each key: the test, and the time that is left.
  unfoldable pub ttl_each :
      (ℕ → T) → Option (Assoc (ManagedEntry T)) → List Text → List (Option (Value × Option F))
  unfolding live_ttl
  ttl_each clock col [] = []
  ttl_each clock col (k ∷ ks) =
      live_ttl (clock 0) (clock 1) (lookup k (or_default col))
      ∷ ttl_each (λ i. clock (i + 2)) col ks

  unfoldable pub ttl_many :
      List Text → Option Text → Inputs T → Op (SimpleStore T) (List (Option (Value × Option F)))
  unfolding ttl_each
  ttl_many ks c inp s =
      (ok (ttl_each inp.clock (lookup (resolve s.default_collection c) s.data_map) ks), s)

  -- The loop of `put_many`: an entry that cannot be made ends it, and what it inserted stays.
  unfoldable pub put_each :
      (ℕ → T) → Option F → List Text → List Value → Op (Assoc (ManagedEntry T)) Done
  put_each clock ttl_secs [] vs col = (ok tt, col)
  put_each clock ttl_secs (k ∷ ks) [] col = (ok tt, col)
  put_each clock ttl_secs (k ∷ ks) (v ∷ vs) col = elim (make os (clock 0) v ttl_secs) [
    | err x ↦ (err x, col)
    | ok e ↦ put_each (λ i. clock (i + 1)) ttl_secs ks vs (insert k e col)
  ]

  unfoldable pub put_many :
      List Text → List Value → Option Text → Option F → Inputs T → Op (SimpleStore T) Done
  unfolding put_each
  put_many ks vs c ttl_secs inp s =
      if not (length ks == length vs)
      then (err (batch_size_mismatch (length ks) (length vs)), s)
      else (elim (validate os (inp.clock 0) ttl_secs) [
        | err x ↦ (err x, s)
        | ok _ ↦
            let cname = resolve s.default_collection c in
            let (r, col) =
              put_each (λ i. inp.clock (i + 1)) ttl_secs ks vs
                (or_default (lookup cname s.data_map)) in
            (r, record s { data_map = insert cname col s.data_map })
      ])

  -- The loop of `delete_many`, with its counter.
  unfoldable pub delete_each : List Text → ℕ → Assoc (ManagedEntry T) → ℕ × Assoc (ManagedEntry T)
  delete_each [] count col = (count, col)
  delete_each (k ∷ ks) count col =
      delete_each ks (if is_present (lookup k col) then count + 1 else count) (remove k col)

  unfoldable pub delete_many : List Text → Option Text → Inputs T → Op (SimpleStore T) ℕ
  unfolding delete_each
  delete_many ks c inp s =
      let cname = resolve s.default_collection c in
      elim (lookup cname s.data_map) [
        | none ↦ (ok 0, s)
        | some col ↦
            let (count, col') = delete_each ks 0 col in
            (ok count, record s { data_map = insert cname col' s.data_map })
      ]

  -- `col.retain(|_k, v| !v.is_expired())`, one reading of the clock for each entry.
  unfoldable pub retain : (ℕ → T) → Assoc (ManagedEntry T) → Assoc (ManagedEntry T)
  retain clock [] = []
  retain clock ((k, e) ∷ col) =
      let rest = retain (λ i. clock (i + 1)) col in
      if is_expired os (clock 0) e then rest else (k, e) ∷ rest

  unfoldable pub cull_each :
      (ℕ → T) → Assoc (Assoc (ManagedEntry T)) → Assoc (Assoc (ManagedEntry T))
  unfolding retain
  cull_each clock [] = []
  cull_each clock ((c, col) ∷ m) = (c, retain clock col) ∷ cull_each (λ i. clock (i + length col)) m

  unfoldable pub cull : Inputs T → Op (SimpleStore T) Done
  unfolding cull_each
  cull inp s = (ok tt, record s { data_map = cull_each inp.clock s.data_map })

  unfoldable pub list_keys : Option Text → Option ℕ → Op (SimpleStore T) (List Text)
  list_keys c limit s =
      let col = or_default (lookup (resolve s.default_collection c) s.data_map) in
      (ok (take (min_limit limit) (keys col)), s)

  unfoldable pub list_collections : Option ℕ → Op (SimpleStore T) (List Text)
  list_collections limit s = (ok (take (min_limit limit) (keys s.data_map)), s)

  unfoldable pub destroy_collection : Text → Op (SimpleStore T) Bool
  destroy_collection c s =
      (ok (is_present (lookup c s.data_map)), record s { data_map = remove c s.data_map })

  unfoldable pub destroy : Op (SimpleStore T) Bool
  destroy s = (ok true, record s { data_map = [] })

  -- `impl AsyncKeyValue for SimpleStore`
  unfoldable pub simple_store : KeyValue (Session (SimpleStore T) T) F
  simple_store = record {
    get = λ k c. at_call (get k c);
    ttl = λ k c. at_call (get_ttl k c);
    put = λ k v c t. at_call (put k v c t);
    delete = λ k c. at_call (delete k c);
    get_many = λ ks c. at_call (get_many ks c);
    ttl_many = λ ks c. at_call (ttl_many ks c);
    put_many = λ ks vs c t. at_call (put_many ks vs c t);
    delete_many = λ ks c. at_call (delete_many ks c);
  }
