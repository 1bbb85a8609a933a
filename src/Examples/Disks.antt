-- ===== src/Examples/Disks.antt =====
-- The disk store at concrete inputs, over a database that is a function.
use openkeyv.Base.{ℕ, ◌%◌, ◌^◌, ◌<◌, ◌≡◌, refl}
use openkeyv.Base.{true, ◌&&◌, Option, none, some, [], arith}
use openkeyv.Base.{if◌then◌else◌}
use openkeyv.Base.{length}
use openkeyv.Base.{ok}
use openkeyv.Base.Bytes.{Bytes, bytes_eq, to_le_bytes}
use openkeyv.Entry.{is_expired}
use openkeyv.Entry.Codec
use openkeyv.Platform.{Inputs}
use openkeyv.Store.Disk.{Sled, DiskStore}
use openkeyv.Store.Disk.Trees.{encode_tree_name, decode_tree_name}
use openkeyv.Store.Disk.Names.{decode_tree_name-encode_tree_name}
use openkeyv.Store.Disk.Calls.{get, put}
use openkeyv.Store.Disk.Laws.{IsSled, IsNameable, disk_get-put}
use openkeyv.Examples.Host.{
  host, host-IsChrono, hi, jo, greeting, greeting-Wellformed, hi-is_utf8, made, accepted,
}

abbrev Trees : Type 0
Trees = Bytes → Bytes → Option Bytes

-- A database that never fails.
abbrev sled : Sled Trees
sled = record {
  open_tree = λ n d. (ok tt, d);
  tree_names = λ d. [];
  drop_tree = λ n d. (ok true, d);
  get = λ n k d. (ok (d n k), d);
  insert = λ n k b d. (ok tt, λ n' j. if bytes_eq n n' && bytes_eq k j then some b else d n' j);
  remove = λ n k d. (ok (d n k), λ n' j. if bytes_eq n n' && bytes_eq k j then none else d n' j);
  flush = λ n d. (ok tt, d);
  iter = λ n d. [];
}

sled-IsSled : IsSled sled (λ d. d)
sled-IsSled = record {
  opens = λ n d. (d, refl, refl);
  gets = λ n k d. (d, refl, refl);
  inserts = λ n k b d. (_, refl, λ n' j. refl);
  removes = λ n k d. (_, refl, λ n' j. refl);
  flushes = λ n d. (d, refl, refl);
}

abbrev disk : DiskStore Trees
disk = record { db = λ n k. none; default_collection = jo }

abbrev inputs : Inputs ℕ
inputs = record { clock = λ i. 7; random = λ i. none }

jo-IsNameable : IsNameable jo
jo-IsNameable = ((omega arith, (omega arith, tt)), omega arith)

hi-IsNameable : IsNameable hi
hi-IsNameable = ((omega arith, (omega arith, tt)), omega arith)

made-short : length (Codec.encode host made) < 2 ^ 64
unfolding Codec.encode Codec.entry_flags Codec.encode_time to_le_bytes
made-short = omega arith

disk_get-put_example :
    ((put host sled hi greeting none (some 9) inputs disk).0 ≡ ok tt)
    × ((get host sled hi (some jo) inputs (put host sled hi greeting none (some 9) inputs disk).1).0
        ≡ ok (some greeting))
unfolding bytes_eq is_expired
disk_get-put_example =
    disk_get-put host sled (λ d. d) sled-IsSled (λ t. t % 2 ^ 64) disk hi greeting none (some 9)
      inputs inputs made hi (some jo) host-IsChrono jo-IsNameable jo-IsNameable accepted
      greeting-Wellformed made-short

decode_tree_name-encode_tree_name_example :
    (name : Bytes) × (encode_tree_name hi ≡ ok name)
    × (decode_tree_name name ≡ ok (some (name, hi)))
decode_tree_name-encode_tree_name_example =
    decode_tree_name-encode_tree_name hi hi-is_utf8 (omega arith, (omega arith, tt)) (omega arith)
