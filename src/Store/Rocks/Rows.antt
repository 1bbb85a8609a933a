-- ===== src/Store/Rocks/Rows.antt =====
-- The entries of the database by their names, and their order: an iteration from the prefix of a
-- collection meets all its identities before any other.
use openkeyv.Base.{◌^◌, ◌<◌, ◌≡◌, refl, sym, ap, ◌∙◌}
use openkeyv.Base.{inl, inr, Bool, true, false, List, [], ◌∷◌, ◌++◌, arith}
use openkeyv.Base.{if◌then◌else◌, Bool-cases}
use openkeyv.Base.{length, All}
use openkeyv.Base.{Result, ok}
use openkeyv.Base.Bytes.{Bytes, Text, bytes_eq, bytes_eq_iff}
use openkeyv.Base.Order.{bytes_le}
use openkeyv.Value.Utf8.{is_utf8}
use openkeyv.Utils.Compound.{collection_prefix, compound_key}
use openkeyv.Utils.Compound.Laws.{framed_unique}

-- An entry by its collection, its key and its bytes.
abbrev pub Row : Type 0
Row = Text × (Text × Bytes)

abbrev pub identity : Row → Bytes
identity (c, (k, b)) = compound_key c k

abbrev pub stored : Row → Result (Bytes × Bytes)
stored (c, (k, b)) = ok (compound_key c k, b)

-- The rows that are not below a key.
abbrev pub from : Bytes → List Row → List Row
from p [] = []
from p (r ∷ rows) = if bytes_le p (identity r) then r ∷ from p rows else from p rows

-- The keys of one collection, in their order.
abbrev pub keys_in : Text → List Row → List Text
keys_in c [] = []
keys_in c ((d, (k, b)) ∷ rows) = if bytes_eq d c then k ∷ keys_in c rows else keys_in c rows

-- The identities ascend.
abbrev pub IsAscending : List Row → Type 0
IsAscending [] = Unit
IsAscending (r ∷ rows) =
    All (λ t. bytes_le (identity r) (identity t) ≡ true) rows × IsAscending rows

-- The names of a row are texts, and its collection is short enough for its length to be written.
abbrev pub IsNamed : Row → Type 0
IsNamed (c, (k, b)) =
    (is_utf8 (compound_key c k) ≡ true) × ((is_utf8 k ≡ true) × (length c < 2 ^ 64))

pub bytes_le-append : (p x : Bytes) → bytes_le p (p ++ x) ≡ true
unfolding bytes_le
bytes_le-append [] x = refl
bytes_le-append (a ∷ p) x = ground (arith, bytes_le-append p x)

-- What lies between a prefix and a key that begins with it begins with it too.
between :
    (p x q : Bytes) → bytes_le p q ≡ true → bytes_le q (p ++ x) ≡ true → (y : Bytes) × (q ≡ p ++ y)
unfolding bytes_le
between [] x q h k = (q, refl)
between (a ∷ p) x [] h k = cc
between (a ∷ p) x (b ∷ q) h k =
    let same : a ≡ b = ground arith in
    let (y, e) = between p x q (ground arith) (ground arith) in (y, cc)

-- A key of another collection that is not below the prefix has no key of the collection above it.
none_after :
    (c d : Text) (k j : Text)
    → bytes_le (collection_prefix c) (compound_key d k) ≡ true
    → bytes_le (compound_key d k) (compound_key c j) ≡ true
    → d ≡ c
unfolding compound_key
none_after c d k j h l =
    let (y, e) = between (collection_prefix c) j (collection_prefix d ++ k) h l in
    framed_unique d c k y e

pub keys_in-none :
    (c d : Text) (k : Text) (rows : List Row)
    → bytes_le (collection_prefix c) (compound_key d k) ≡ true
    → bytes_eq d c ≡ false
    → All (λ t. bytes_le (compound_key d k) (identity t) ≡ true) rows
    → keys_in c rows ≡ []
keys_in-none c d k [] h other above = refl
keys_in-none c d k ((d', (j, b)) ∷ rows) h other (l, above) = elim (Bool-cases (bytes_eq d' c)) [
  | inl member ↦
      let same = (bytes_eq_iff d' c).0 member in
      let l' : bytes_le (compound_key d k) (compound_key c j) ≡ true =
        ap (λ t. bytes_le (compound_key d k) (compound_key t j)) (sym same) ∙ l in
      absurd-of other ((bytes_eq_iff d c).1 (none_after c d k j h l'))
  | inr not_member ↦ rw not_member (keys_in-none c d k rows h other above)
]
  where
    absurd-of : {b : Bool} {A : Type 0} → b ≡ false → b ≡ true → A
    absurd-of p q = cc

-- A key of the collection is not below its prefix.
pub member-above :
    (c d : Text) (k : Text)
    → bytes_eq d c ≡ true
    → bytes_le (collection_prefix c) (compound_key d k) ≡ true
unfolding compound_key
member-above c d k member =
    ap (λ t. bytes_le (collection_prefix c) (collection_prefix t ++ k))
      ((bytes_eq_iff d c).0 member)
    ∙ bytes_le-append (collection_prefix c) k
