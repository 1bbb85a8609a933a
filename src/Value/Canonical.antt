-- ===== src/Value/Canonical.antt =====
-- The value that an encoding stands for: dicts in the order of their keys.
use openkeyv.Base.{◌^◌, ◌<◌, ◌≡◌}
use openkeyv.Base.{true}
use openkeyv.Base.{if◌then◌else◌}
use openkeyv.Base.Bytes.{Text}
use openkeyv.Base.Order.{bytes_le}
use openkeyv.Value.Utf8.{is_utf8}
use openkeyv.Value.Structured.{
  StructuredValue, Items, Entries, null, bool, integer, unsigned_integer, float, string, bytes,
  list, dict, nil, cons, end, entry,
}

unfoldable pub insert_entry : Text → StructuredValue → Entries → Entries
insert_entry k v end = entry k v end
insert_entry k v (entry j w es) =
    if bytes_le k j then entry k v (entry j w es) else entry j w (insert_entry k v es)

unfoldable mutual
  unfolding insert_entry

  pub canonical : StructuredValue → StructuredValue
  canonical null = null
  canonical (bool b) = bool b
  canonical (integer w) = integer w
  canonical (unsigned_integer w) = unsigned_integer w
  canonical (float w) = float w
  canonical (string s) = string s
  canonical (bytes b) = bytes b
  canonical (list xs) = list (canonical_items xs)
  canonical (dict es) = dict (canonical_entries es)

  pub canonical_items : Items → Items
  canonical_items nil = nil
  canonical_items (cons v xs) = cons (canonical v) (canonical_items xs)

  pub canonical_entries : Entries → Entries
  canonical_entries end = end
  canonical_entries (entry k v es) = insert_entry k (canonical v) (canonical_entries es)

-- The values of the source's type: words of 64 bits, and texts and keys that are UTF-8.
unfoldable mutual
  pub IsTyped : StructuredValue → Type 0
  IsTyped null = Unit {0}
  IsTyped (bool b) = Unit {0}
  IsTyped (integer w) = w < 2 ^ 64
  IsTyped (unsigned_integer w) = w < 2 ^ 64
  IsTyped (float w) = w < 2 ^ 64
  IsTyped (string s) = is_utf8 s ≡ true
  IsTyped (bytes b) = Unit {0}
  IsTyped (list xs) = AllTyped xs
  IsTyped (dict es) = EntriesTyped es

  pub AllTyped : Items → Type 0
  AllTyped nil = Unit {0}
  AllTyped (cons v xs) = IsTyped v × AllTyped xs

  pub EntriesTyped : Entries → Type 0
  EntriesTyped end = Unit {0}
  EntriesTyped (entry k v es) = (is_utf8 k ≡ true) × IsTyped v × EntriesTyped es
