-- ===== src/Wrapper/Names.antt =====
-- What the enumerations of several wrappers share.
use openkeyv.Base.{ℕ, ◌-◌, ◌^◌, ◌≡◌, refl}
use openkeyv.Base.{Bool, false, ◌||◌, Option, none, some, List, [], ◌∷◌, ◌++◌, arith}
use openkeyv.Base.Bytes.{Text, bytes_eq}
use openkeyv.Utils.Compound.{strip_prefix}

-- `limit.unwrap_or(usize::MAX)`
abbrev pub or_usize_max : Option ℕ → ℕ
or_usize_max none = 2 ^ 64 - 1
or_usize_max (some n) = n

-- `filter_map(|name| name.strip_prefix(prefix))`
unfoldable pub strip_all : Text → List Text → List Text
strip_all prefix [] = []
strip_all prefix (x ∷ xs) =
    let rest = strip_all prefix xs in
    elim (strip_prefix prefix x) [ none ↦ rest | some y ↦ y ∷ rest ]

unfoldable pub seen_before : List Text → Text → Bool
seen_before [] x = false
seen_before (y ∷ ys) x = bytes_eq y x || seen_before ys x

pub seen_before-append :
    (xs ys : List Text) (x : Text)
    → seen_before (xs ++ ys) x ≡ (seen_before xs x || seen_before ys x)
unfolding seen_before
seen_before-append [] ys x = refl
seen_before-append (z ∷ xs) ys x = ground (arith, seen_before-append xs ys x)

-- `collection.unwrap_or("default_collection")`
abbrev pub default_collection : Text
default_collection =
    0x64 ∷ 0x65 ∷ 0x66 ∷ 0x61 ∷ 0x75 ∷ 0x6c ∷ 0x74 ∷ 0x5f ∷ 0x63 ∷ 0x6f ∷ 0x6c ∷ 0x6c ∷ 0x65 ∷ 0x63
    ∷ 0x74 ∷ 0x69 ∷ 0x6f ∷ 0x6e ∷ []
