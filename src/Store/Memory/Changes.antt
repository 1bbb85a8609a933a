-- ===== src/Store/Memory/Changes.antt =====
-- store/memory/client.rs: the change log of the in-memory store and the streams of its subscribers.
-- What the broadcast channel hands a subscriber is an input.
pub mod Laws
pub mod Stream
use openkeyv.Base.{
  ℕ, zero, suc, ◌+◌, ◌-◌, ◌*◌, ◌/◌, ◌%◌, ◌^◌, ◌≤◌, ◌<◌, ◌≡◌, refl, sym, ap, ◌∙◌, fun_ext,
}
use openkeyv.Base.{
  ◌≢◌, ◌↔◌, ◌⊎◌, inl, inr, Bool, true, false, not, ◌&&◌, ◌||◌, Option, none, some, List, [], ◌∷◌,
  ◌++◌, map, append-nil, append_assoc, arith,
}
use openkeyv.Base.{
  ltb, leb, ◌==◌, if◌then◌else◌, Bool-cases, leb→le, le→leb, ltb→lt, lt→ltb, le→ltb,
}
use openkeyv.Base.{
  length, take, drop, get_elem?, All, zip_with, length-append, take-append, drop-append, take-drop,
  length-take, length-take-le, drop-take, length-drop, take_all, All-split, All-drop,
  get_elem?-drop, All-append, length-map,
}
use openkeyv.Base.{
  Error, Result, ok, err, bind, guard, ok_or, map_err, collect, bind-eq-ok, if-eq-ok, ok_or-eq-ok,
}
use openkeyv.Base.{
  serialization, deserialization, invalid_key, invalid_ttl, invalid_value, invalid_operation,
  entry_too_large, entry_too_small, read_only, corrupted_data, batch_size_mismatch,
  invalid_change_cursor, change_cursor_expired, change_feed_lagged, revision_generation,
  out_of_fuel,
}
use openkeyv.Base.Bytes.{
  Bytes, Text, IsByte, bytes_eq, bytes_eq_iff, bytes_eq_refl, bytes_eq-append, starts_with,
  to_le_bytes, from_le_bytes, length-to_le_bytes, to_le_bytes-IsByte, from_le_bytes-to_le_bytes,
  to_le_bytes-from_le_bytes, from_le_bytes-lt,
}
use openkeyv.Change.{
  StoreChange, ChangeCursor, ChangeOperation, ChangeStart, ChangeFilter, matches, beginning, after,
  latest,
}
use openkeyv.Utils.Decimal.{decimal, all_digits, parse_usize}

abbrev pub change_retention : ℕ
change_retention = 10_000

-- `MemoryChangeState`, without the sender.
pub record ChangeLog (T : Type 0) : Type 0 where
  pub revision : ℕ
  pub entries : List (StoreChange T)

unfoldable pub new_log : {T : Type 0} → ChangeLog T
new_log = record { revision = 0; entries = [] }

-- What `receiver.recv()` gives a subscriber.
pub data Received (T : Type 0) : Type 0 where
  message : StoreChange T → Received T
  closed : Received T
  lagged : ℕ → Received T

-- `MemoryChangeStream`, with what its receiver will be given.
pub record ChangeStream (T : Type 0) : Type 0 where
  pub replay : List (StoreChange T)
  pub receiver : List (Received T)
  pub filter : ChangeFilter

abbrev without_plus : Text → Text
without_plus [] = []
without_plus (c ∷ cs) = if c == 43 then cs else c ∷ cs

-- `parse::<u64>()`, which takes a plus sign in front of the digits.
unfoldable pub parse_u64 : Text → Option ℕ
parse_u64 s =
    let digits = without_plus s in
    if ltb 0 (length digits) && all_digits digits then parse_usize digits else none

module _ {T : Type 0} where
  -- `if entries.len() == CHANGE_RETENTION { entries.pop_front(); }`
  abbrev pub make_room : List (StoreChange T) → List (StoreChange T)
  make_room cs = if length cs == change_retention then drop 1 cs else cs

  -- `now` is the reading of the clock.
  unfoldable pub change_of : T → Text → Text → ChangeOperation → ℕ → StoreChange T
  change_of now collection key operation revision = record {
    cursor = decimal revision;
    revision = revision;
    collection = collection;
    key = key;
    operation = operation;
    occurred_at = now;
  }

  unfoldable pub record_change : T → Text → Text → ChangeOperation → ChangeLog T → ChangeLog T
  record_change now collection key operation log =
      let revision = (log.revision + 1) % 2 ^ 64 in
      record {
        revision = revision;
        entries = make_room log.entries ++ (change_of now collection key operation revision ∷ []);
      }

  -- `entries.iter().filter(|change| change.revision > requested)`
  unfoldable pub later_than : ℕ → List (StoreChange T) → List (StoreChange T)
  later_than n [] = []
  later_than n (c ∷ cs) = let rest = later_than n cs in if ltb n c.revision then c ∷ rest else rest

  -- `requested < oldest.saturating_sub(1)`, where there is an oldest change.
  unfoldable pub check_oldest : ChangeCursor → ℕ → List (StoreChange T) → Result (Unit {0})
  check_oldest cursor n [] = ok tt
  check_oldest cursor n (c ∷ cs) =
      if ltb n (c.revision - 1)
      then err (change_cursor_expired cursor (decimal c.revision))
      else ok tt

  unfoldable pub replay_from : ChangeStart → ChangeLog T → Result (List (StoreChange T))
  unfolding later_than check_oldest
  replay_from beginning log = ok log.entries
  replay_from latest log = ok []
  replay_from (after cursor) log =
      bind (ok_or (parse_u64 cursor) invalid_change_cursor) λ requested.
        if ltb log.revision requested
        then err invalid_change_cursor
        else (bind (check_oldest cursor requested log.entries)
            λ _. ok (later_than requested log.entries))

  -- `messages` is what the new receiver will be given.
  unfoldable pub subscribe :
      ChangeStart → ChangeFilter → List (Received T) → ChangeLog T → Result (ChangeStream T)
  unfolding replay_from
  subscribe start filter messages log =
      bind (replay_from start log)
        λ replay. ok (record { replay = replay; receiver = messages; filter = filter })

  -- The part of the loop of `recv` that waits on the channel; `none` while it still waits.
  unfoldable pub receive :
      ChangeFilter
      → List (Received T)
      → Option (Result (Option (StoreChange T))) × List (Received T)
  receive filter [] = (none, [])
  receive filter (message c ∷ rest) =
      let later = receive filter rest in
      if matches filter c then (some (ok (some c)), rest) else later
  receive filter (closed ∷ rest) = (some (ok none), closed ∷ rest)
  receive filter (lagged skipped ∷ rest) = (some (err (change_feed_lagged skipped)), rest)

  -- The part that empties the replay first.
  unfoldable pub recv_from :
      ChangeFilter
      → List (StoreChange T)
      → List (Received T)
      → Option (Result (Option (StoreChange T))) × ChangeStream T
  unfolding receive
  recv_from filter [] messages =
      let (r, rest) = receive filter messages in
      (r, record { replay = []; receiver = rest; filter = filter })
  recv_from filter (c ∷ cs) messages =
      let later = recv_from filter cs messages in
      if matches filter c
      then (some (ok (some c)), record { replay = cs; receiver = messages; filter = filter })
      else later

  unfoldable pub recv : ChangeStream T → Option (Result (Option (StoreChange T))) × ChangeStream T
  unfolding recv_from
  recv s = recv_from s.filter s.replay s.receiver
