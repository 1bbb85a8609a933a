-- ===== src/Value/RoundTrip/Dict.antt =====
-- A dict is written in the order of its keys, each once, and read back in that order.
use openkeyv.Base.{ℕ, suc, ◌+◌, ◌^◌, ◌≤◌, ◌<◌, ◌≡◌, refl, sym}
use openkeyv.Base.{
  inl, inr, true, false, Option, none, some, List, [], ◌∷◌, ◌++◌, append-nil, append_assoc, arith,
}
use openkeyv.Base.{if◌then◌else◌, Bool-cases}
use openkeyv.Base.{length, All, length-append}
use openkeyv.Base.{Result, ok, err, bind, bind-eq-ok, if-eq-ok, ok-injective}
use openkeyv.Base.{serialization, deserialization}
use openkeyv.Base.Bytes.{Bytes, Text, bytes_eq, bytes_eq_iff, to_le_bytes}
use mathlib.Core.Path.{subst}
use openkeyv.Base.Order.{bytes_le, bytes_le_antisym, bytes_le_total, bytes_le_trans}
use openkeyv.Value.Utf8.{is_utf8}
use openkeyv.Value.Structured.{
  StructuredValue, Entries, end, entry, Pending, write_len, insert_sorted, sort_entries,
  write_entries, is_previous,
}
use openkeyv.Value.Decode.{Parser, read_text, contains, decode_value, decode_entries}
use openkeyv.Value.Reads.{Reads, Reads-pure, Reads-bind, read_text-Reads}
use openkeyv.Value.Canonical.{insert_entry}

-- What the value's encoding gives when it is decoded, for enough fuel.
abbrev pub Decodes : Result Bytes → StructuredValue → Type 0
Decodes r v = (b : Bytes) → r ≡ ok b → (f : ℕ) → length b < f → Reads (decode_value f) b v

-- The pending entries and the entries to be read: the same keys in the same order.
abbrev pub Matches : Pending → Entries → Type 0
Matches [] end = Unit {0}
Matches [] (entry k v es) = ⊥
Matches ((k, r) ∷ ps) end = ⊥
Matches ((k, r) ∷ ps) (entry j v es) = (k ≡ j) × (is_utf8 k ≡ true) × Decodes r v × Matches ps es

pub insert-Matches :
    (k : Text) (r : Result Bytes) (v : StructuredValue) (ps : Pending) (es : Entries)
    → is_utf8 k ≡ true
    → Decodes r v
    → Matches ps es
    → Matches (insert_sorted k r ps) (insert_entry k v es)
unfolding insert_sorted insert_entry
insert-Matches k r v [] end u d m = (refl, u, d, tt)
insert-Matches k r v [] (entry j w es) u d m = absurd m
insert-Matches k r v (p ∷ ps) end u d m = absurd m
insert-Matches k r v ((i, s) ∷ ps) (entry j w es) u d (same, t, e, m) =
    elim (Bool-cases (bytes_le k j)) [
      | inl before ↦ rw (same, before) (refl, u, d, (refl, rw (sym same) t, e, m))
      | inr after ↦ rw (same, after) (refl, rw (sym same) t, e, insert-Matches k r v ps es u d m)
    ]

-- The keys stand in order, none before `p`.
abbrev pub After : Text → Pending → Type 0
After p [] = Unit {0}
After p ((k, r) ∷ ps) = (bytes_le p k ≡ true) × After k ps

insert-After :
    (p k : Text) (r : Result Bytes) (ps : Pending)
    → After p ps
    → bytes_le p k ≡ true
    → After p (insert_sorted k r ps)
unfolding insert_sorted
insert-After p k r [] a h = (h, tt)
insert-After p k r ((j, s) ∷ ps) (b, a) h = elim (Bool-cases (bytes_le k j)) [
  | inl before ↦ rw before (h, (before, a))
  | inr after ↦ rw after (b, insert-After j k r ps a (bytes_le_total k j after))
]

pub sort-After : (ps : Pending) → After [] (sort_entries ps)
unfolding sort_entries bytes_le
sort-After [] = tt
sort-After ((k, r) ∷ ps) = insert-After [] k r (sort_entries ps) (sort-After ps) refl

-- The keys that the decoder has met are none of those to come.
abbrev SeenBelow : Option Text → List Text → Type 0
SeenBelow none seen = seen ≡ []
SeenBelow (some p) seen = All (λ j. bytes_le j p ≡ true) seen

abbrev from : Option Text → Text
from none = []
from (some p) = p

bytes_le_refl : (k : Text) → bytes_le k k ≡ true
unfolding bytes_le
bytes_le_refl [] = refl
bytes_le_refl (b ∷ bs) = ground (arith, bytes_le_refl bs)

fresh_below :
    (p k : Text) (seen : List Text)
    → All (λ j. bytes_le j p ≡ true) seen
    → bytes_le p k ≡ true
    → bytes_eq p k ≡ false
    → contains seen k ≡ false
unfolding contains
fresh_below p k [] a h e = refl
fresh_below p k (j ∷ js) (b, a) h e =
    ground
      (arith, fresh_below p k js a h e, bytes_eq_iff j k, bytes_eq_iff p k, bytes_le_antisym p k)

fresh :
    (previous : Option Text) (k : Text) (seen : List Text)
    → SeenBelow previous seen
    → bytes_le (from previous) k ≡ true
    → is_previous previous k ≡ false
    → contains seen k ≡ false
unfolding contains
fresh none k seen s h e = rw s refl
fresh (some p) k seen s h e = fresh_below p k seen s h e

raise :
    (p k : Text) (seen : List Text)
    → All (λ j. bytes_le j p ≡ true) seen
    → bytes_le p k ≡ true
    → All (λ j. bytes_le j k ≡ true) seen
raise p k [] a h = tt
raise p k (j ∷ js) (b, a) h = (bytes_le_trans j p k b h, raise p k js a h)

seen-SeenBelow :
    (previous : Option Text) (k : Text) (seen : List Text)
    → SeenBelow previous seen
    → bytes_le (from previous) k ≡ true
    → SeenBelow (some k) (k ∷ seen)
seen-SeenBelow none k seen s h = (bytes_le_refl k, rw s tt)
seen-SeenBelow (some p) k seen s h = (bytes_le_refl k, raise p k seen s h)

pub write_len-eq-ok :
    (len : ℕ) (n : Bytes) → write_len len ≡ ok n → (len < 2 ^ 32) × (n ≡ to_le_bytes 4 len)
unfolding write_len
write_len-eq-ok len n h = ground arith

-- One entry and those after it, given the readers of its parts.
entry-Reads :
    (value : Parser StructuredValue) (n : ℕ) (seen : List Text) (k : Text) (v : StructuredValue)
    (es : Entries) (b more : Bytes)
    → is_utf8 k ≡ true
    → length k < 2 ^ 32
    → contains seen k ≡ false
    → Reads value b v
    → Reads (decode_entries value n (k ∷ seen)) more es
    → Reads
        (decode_entries value (suc n) seen)
        ((to_le_bytes 4 (length k) ++ k) ++ b ++ more)
        (entry k v es)
unfolding decode_entries
entry-Reads value n seen k v es b more u l unseen read_value read_more = rw (← regroup) (
    Reads-bind read_text (λ j c. if contains seen j then err deserialization else after_key j c)
      (to_le_bytes 4 (length k) ++ k) (b ++ (more ++ [])) k (entry k v es) (read_text-Reads k u l)
      (λ input front rest pos h e lt. rw unseen (read_after input front rest pos h e lt)))
  where
    after_key : Text → Parser Entries
    after_key j c =
        bind (value c)
          λ (w, c₂). bind (decode_entries value n (j ∷ seen) c₂) λ (fs, c₃). ok (entry j w fs, c₃)

    read_after : Reads (after_key k) (b ++ (more ++ [])) (entry k v es)
    read_after =
        Reads-bind value
          (λ w c. bind (decode_entries value n (k ∷ seen) c) λ (fs, c'). ok (entry k w fs, c')) b
          (more ++ []) v (entry k v es) read_value
          (Reads-bind (decode_entries value n (k ∷ seen)) (λ fs c. ok (entry k v fs, c)) more [] es
            (entry k v es) read_more (Reads-pure (entry k v es)))

    regroup :
        (to_le_bytes 4 (length k) ++ k) ++ (b ++ (more ++ []))
        ≡ (to_le_bytes 4 (length k) ++ k) ++ b ++ more
    regroup = simp (append_assoc, append-nil)

-- The parts of what the loop writes for one entry and those after it.
record Written (previous : Option Text) (k : Text) (r : Result Bytes) (ps : Pending) (b : Bytes)
    : Type 0 where
  value : Bytes
  more : Bytes
  unlike : is_previous previous k ≡ false
  short : length k < 2 ^ 32
  of_value : r ≡ ok value
  of_more : write_entries (some k) ps ≡ ok more
  whole : (to_le_bytes 4 (length k) ++ k) ++ value ++ more ≡ b
  value_le : length value + length more ≤ length b

written :
    (previous : Option Text) (k : Text) (r : Result Bytes) (ps : Pending) (b n x more : Bytes)
    → is_previous previous k ≡ false
    → write_len (length k) ≡ ok n
    → r ≡ ok x
    → write_entries (some k) ps ≡ ok more
    → n ++ k ++ x ++ more ≡ b
    → Written previous k r ps b
written previous k r ps b n x more new len of_x of_more h =
    let (short, eq) = write_len-eq-ok (length k) n len in
    record {
      value = x;
      more = more;
      unlike = new;
      short = short;
      of_value = of_x;
      of_more = of_more;
      whole = rw (← eq) h;
      value_le = rw (← h, length-append, length-append) (omega arith);
    }

write_entries-eq-ok :
    (previous : Option Text) (k : Text) (r : Result Bytes) (ps : Pending) (b : Bytes)
    → write_entries previous ((k, r) ∷ ps) ≡ ok b
    → Written previous k r ps b
unfolding write_entries
write_entries-eq-ok previous k r ps b w =
    let (new, w₁) = if-eq-ok (is_previous previous k) serialization _ w in
    let (n, len, w₂) = bind-eq-ok (write_len (length k)) _ w₁ in
    let (x, value, w₃) = bind-eq-ok r _ w₂ in
    let (more, others, w₄) = bind-eq-ok (write_entries (some k) ps) _ w₃ in
    written previous k r ps b n x more new len value others (ok-injective w₄)

pub entries-Reads :
    (ps : Pending) (es : Entries) (previous : Option Text) (seen : List Text) (f : ℕ) (b : Bytes)
    → Matches ps es
    → After (from previous) ps
    → SeenBelow previous seen
    → write_entries previous ps ≡ ok b
    → length b < f
    → Reads (decode_entries (decode_value f) (length ps) seen) b es
unfolding write_entries decode_entries
entries-Reads [] end previous seen f b m a s w l =
    subst (λ x. Reads (λ c. ok (end, c)) x end) (ok-injective w) (Reads-pure end)
entries-Reads [] (entry k v es) previous seen f b m a s w l = absurd m
entries-Reads (p ∷ ps) end previous seen f b m a s w l = absurd m
entries-Reads ((k, r) ∷ ps) (entry j v es) previous seen f b (same, u, d, m) (le, a) s w l =
    let parts = write_entries-eq-ok previous k r ps b w in
    let rest =
      entries-Reads ps es (some k) (k ∷ seen) f parts.more m a (seen-SeenBelow previous k seen s le)
        parts.of_more (omega (arith, parts.value_le)) in
    rw (← same, ← parts.whole)
      (entry-Reads (decode_value f) (length ps) seen k v es parts.value parts.more u parts.short
        (fresh previous k seen s le parts.unlike)
        (d parts.value parts.of_value f (omega (arith, parts.value_le))) rest)
