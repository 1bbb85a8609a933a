-- ===== src/Store/Memory/Logged/Calls.antt =====
-- What each call of the memory store does to the change log.
use openkeyv.Base.{refl}
use openkeyv.Base.{Bool, Option, List, [], ◌∷◌}
use openkeyv.Base.{◌==◌, if◌then◌else◌}
use openkeyv.Base.{length}
use openkeyv.Base.{ok, guard}
use openkeyv.Base.{batch_size_mismatch}
use openkeyv.Base.Bytes.{Text}
use openkeyv.Base.Assoc.{lookup, remove}
use openkeyv.Value.Checked.{Value}
use openkeyv.Entry.{ManagedEntry, make, validate}
use openkeyv.Platform.{Platform}
use openkeyv.Protocol.Contract.{live, is_present}
use openkeyv.Store.Simple.{live_ttl}
use openkeyv.Store.Memory.Capacity.{RevisionedEntry, Collection}
use openkeyv.Store.Memory.State.{resolved, set_collection}
use openkeyv.Store.Memory.Calls.{
  entry_of, get, get_ttl, put, remove_entry, delete, get_each, get_many, ttl_each, ttl_many,
  make_each, fresh_each, put_each, put_many, remove_each, delete_many,
}
use openkeyv.Store.Memory.Logged.{
  none_yet, Records, Recorded, quiet, each_of, noted_put, noted_delete,
}
use openkeyv.Store.Memory.Logged.Steps.{
  ◌>>=◌, ◌>>◌, returned, clock_read, drawn, found, enforced, entered, set_up_collection,
}

module _ {T F : Type 0} (os : Platform T F) where
  abbrev pub named : Option Text → Recorded T Text
  named c = quiet (resolved c) (λ m. refl)

  pub get-Records : (k : Text) (c : Option Text) → Records (get os k c)
  unfolding get
  get-Records k c =
      (do
        cname ← named c
        set_up_collection os cname
        col ← found cname
        t ← clock_read
        returned (ok (live os t (entry_of (lookup k col))))).records

  pub get_ttl-Records : (k : Text) (c : Option Text) → Records (get_ttl os k c)
  unfolding get_ttl
  get_ttl-Records k c =
      (do
        cname ← named c
        set_up_collection os cname
        col ← found cname
        t ← clock_read
        later ← clock_read
        returned (ok (live_ttl os t later (entry_of (lookup k col))))).records

  pub put-Records :
      (k : Text) (v : Value) (c : Option Text) (ttl : Option F) → Records (put os k v c ttl)
  unfolding put
  put-Records k v c ttl =
      (do
        cname ← named c
        set_up_collection os cname
        t ← clock_read
        e ← returned (make os t v ttl)
        r ← drawn
        entered os cname k (record { entry = e; revision = r })
        gone ← enforced os cname
        noted_put cname k
        each_of (noted_delete cname) gone).records

  pub remove_entry-Records : (c k : Text) → Records (remove_entry os c k)
  unfolding remove_entry
  remove_entry-Records c k =
      (do
        col ← found c
        quiet (λ m. (ok (is_present (lookup k col)), set_collection c (remove k col) m))
            (λ m. refl)).records

  abbrev pub removed : Text → Text → Recorded T Bool
  removed c k = record { op = remove_entry os c k; records = remove_entry-Records c k }

  pub delete-Records : (k : Text) (c : Option Text) → Records (delete os k c)
  unfolding delete
  delete-Records k c =
      (do
        cname ← named c
        set_up_collection os cname
        gone ← removed cname k
        each_of (noted_delete cname) (if gone then k ∷ [] else [])
        returned (ok gone)).records

  get_each-Records : (col : Collection T) (ks : List Text) → Records (get_each os col ks)
  unfolding get_each
  get_each-Records col [] = λ m. (0, none_yet)
  get_each-Records col (k ∷ ks) =
      (do
        t ← clock_read
        rest ← record { op = get_each os col ks; records = get_each-Records col ks }
        returned (ok (live os t (entry_of (lookup k col)) ∷ rest))).records

  pub get_many-Records : (ks : List Text) (c : Option Text) → Records (get_many os ks c)
  unfolding get_many
  get_many-Records ks c =
      (do
        cname ← named c
        set_up_collection os cname
        col ← found cname
        record { op = get_each os col ks; records = get_each-Records col ks }).records

  ttl_each-Records : (col : Collection T) (ks : List Text) → Records (ttl_each os col ks)
  unfolding ttl_each
  ttl_each-Records col [] = λ m. (0, none_yet)
  ttl_each-Records col (k ∷ ks) =
      (do
        t ← clock_read
        later ← clock_read
        rest ← record { op = ttl_each os col ks; records = ttl_each-Records col ks }
        returned (ok (live_ttl os t later (entry_of (lookup k col)) ∷ rest))).records

  pub ttl_many-Records : (ks : List Text) (c : Option Text) → Records (ttl_many os ks c)
  unfolding ttl_many
  ttl_many-Records ks c =
      (do
        cname ← named c
        set_up_collection os cname
        col ← found cname
        record { op = ttl_each os col ks; records = ttl_each-Records col ks }).records

  make_each-Records : (ttl : Option F) (vs : List Value) → Records (make_each os ttl vs)
  unfolding make_each
  make_each-Records ttl [] = λ m. (0, none_yet)
  make_each-Records ttl (v ∷ vs) =
      (do
        t ← clock_read
        e ← returned (make os t v ttl)
        rest ← record { op = make_each os ttl vs; records = make_each-Records ttl vs }
        returned (ok (e ∷ rest))).records

  fresh_each-Records : (es : List (ManagedEntry T)) → Records (fresh_each os es)
  unfolding fresh_each
  fresh_each-Records [] = λ m. (0, none_yet)
  fresh_each-Records (e ∷ es) =
      (do
        r ← drawn
        rest ← record { op = fresh_each os es; records = fresh_each-Records es }
        returned (ok (record { entry = e; revision = r } ∷ rest))).records

  put_each-Records :
      (c : Text) (ks : List Text) (rs : List (RevisionedEntry T)) → Records (put_each os c ks rs)
  unfolding put_each
  put_each-Records c [] rs = λ m. (0, none_yet)
  put_each-Records c (k ∷ ks) [] = λ m. (0, none_yet)
  put_each-Records c (k ∷ ks) (r ∷ rs) =
      (entered os c k r
        >> record { op = put_each os c ks rs; records = put_each-Records c ks rs }).records

  pub put_many-Records :
      (ks : List Text) (vs : List Value) (c : Option Text) (ttl : Option F)
      → Records (put_many os ks vs c ttl)
  unfolding put_many
  put_many-Records ks vs c ttl =
      (do
        returned (guard (length ks == length vs) (batch_size_mismatch (length ks) (length vs)))
        t ← clock_read
        returned (validate os t ttl)
        cname ← named c
        set_up_collection os cname
        es ← record { op = make_each os ttl vs; records = make_each-Records ttl vs }
        rs ← record { op = fresh_each os es; records = fresh_each-Records es }
        record { op = put_each os cname ks rs; records = put_each-Records cname ks rs }
        gone ← enforced os cname
        each_of (noted_put cname) ks
        each_of (noted_delete cname) gone).records

  remove_each-Records : (c : Text) (ks : List Text) → Records (remove_each os c ks)
  unfolding remove_each
  remove_each-Records c [] = λ m. (0, none_yet)
  remove_each-Records c (k ∷ ks) =
      (do
        gone ← removed c k
        rest ← record { op = remove_each os c ks; records = remove_each-Records c ks }
        returned (ok (if gone then k ∷ rest else rest))).records

  pub delete_many-Records : (ks : List Text) (c : Option Text) → Records (delete_many os ks c)
  unfolding delete_many
  delete_many-Records ks c =
      (do
        cname ← named c
        set_up_collection os cname
        gone ← record { op = remove_each os cname ks; records = remove_each-Records cname ks }
        each_of (noted_delete cname) gone
        returned (ok (length gone))).records
