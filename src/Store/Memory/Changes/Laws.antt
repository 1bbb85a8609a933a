-- ===== src/Store/Memory/Changes/Laws.antt =====
-- What the change log promises: its revisions count without a gap, it keeps the last changes only,
-- and a subscriber that names the last change it saw gets those after it.
use openkeyv.Base.{ℕ, zero, suc, ◌+◌, ◌-◌, ◌%◌, ◌^◌, ◌≤◌, ◌<◌, ◌≡◌, refl, sym, ap, ◌∙◌}
use openkeyv.Base.{inl, inr, true, ◌&&◌, some, List, [], ◌∷◌, ◌++◌, arith}
use openkeyv.Base.{ltb, leb, ◌==◌, if◌then◌else◌, Bool-cases}
use openkeyv.Base.{length, drop, length-append}
use openkeyv.Base.{ok, err}
use openkeyv.Base.{invalid_change_cursor, change_cursor_expired}
use openkeyv.Base.Bytes.{Text}
use openkeyv.Change.{StoreChange, ChangeCursor, ChangeOperation, after}
use openkeyv.Utils.Decimal.{
  decimal, all_digits, parse_usize, parse_usize-decimal, decimal-IsDecimal,
}
use openkeyv.Store.Memory.Changes.{
  change_retention, ChangeLog, make_room, parse_u64, change_of, record_change, later_than,
  check_oldest, replay_from,
}

digits-without_plus : (s : Text) → all_digits s ≡ true → 0 < length s → parse_u64 s ≡ parse_usize s
unfolding parse_u64 all_digits
digits-without_plus [] h b = absurd (omega arith)
digits-without_plus (c ∷ cs) h b = ground (arith, h)

parse_u64-decimal : (n : ℕ) → n < 2 ^ 64 → parse_u64 (decimal n) ≡ some n
parse_u64-decimal n h =
    let d = decimal-IsDecimal n in
    digits-without_plus (decimal n) d.digits d.nonempty ∙ parse_usize-decimal n h

module _ {T : Type 0} where
  -- The changes have the revisions `start + 1`, `start + 2` and so on up to `stop`, and the cursors
  -- that name these.
  abbrev pub Counts : ℕ → List (StoreChange T) → ℕ → Type 0
  Counts start [] stop = start ≡ stop
  Counts start (c ∷ cs) stop =
      (c.revision ≡ start + 1) × (c.cursor ≡ decimal (start + 1)) × Counts (start + 1) cs stop

  -- A log of the last changes, at most as many as it retains.
  pub record IsLog (log : ChangeLog T) : Type 0 where
    pub oldest : ℕ
    pub counts : Counts oldest log.entries log.revision
    pub bounded : length log.entries ≤ change_retention
    pub is_u64 : log.revision < 2 ^ 64

  Counts-append :
      (start stop : ℕ) (cs : List (StoreChange T)) (c : StoreChange T)
      → Counts start cs stop
      → c.revision ≡ stop + 1
      → c.cursor ≡ decimal (stop + 1)
      → Counts start (cs ++ (c ∷ [])) (stop + 1)
  Counts-append start stop [] c h r k = (rw h r, rw h k, ap (λ n. n + 1) h)
  Counts-append start stop (d ∷ cs) c h r k =
      (h.0, h.1, Counts-append (start + 1) stop cs c h.2 r k)

  Counts-length :
      (start stop : ℕ) (cs : List (StoreChange T)) → Counts start cs stop → stop ≡ start + length cs
  Counts-length start stop [] h = omega (arith, h)
  Counts-length start stop (d ∷ cs) h = omega (arith, Counts-length (start + 1) stop cs h.2)

  Counts-make_room :
      (start stop : ℕ) (cs : List (StoreChange T))
      → Counts start cs stop
      → length cs ≤ change_retention
      → (oldest : ℕ) × Counts oldest (make_room cs) stop
        × (length (make_room cs) < change_retention)
  Counts-make_room start stop [] h b = (start, h, omega arith)
  Counts-make_room start stop (c ∷ cs) h b =
      elim (Bool-cases (length (c ∷ cs) == change_retention)) [
        | inl full ↦ (start + 1, rw full h.2, rw full (omega arith))
        | inr room ↦ (start, rw room h, rw room (ground arith))
      ]

  -- Recording a change keeps the log a log of the last changes without a gap, of at most 10,000; the
  -- new change is the last one and has the next revision. Given that the revision does not wrap.
  pub record_change-IsLog :
      (now : T) (collection key : Text) (operation : ChangeOperation) (log : ChangeLog T)
      → IsLog log
      → log.revision + 1 < 2 ^ 64
      → IsLog (record_change now collection key operation log)
        × ((record_change now collection key operation log).revision ≡ log.revision + 1)
  unfolding record_change change_of
  record_change-IsLog now collection key operation log h b =
      let (oldest, counts, room) =
        Counts-make_room h.oldest log.revision log.entries h.counts h.bounded in
      let next : (log.revision + 1) % 2 ^ 64 ≡ log.revision + 1 = omega arith in
      (
        record {
          oldest = oldest;
          counts = rw next (
              Counts-append oldest log.revision (make_room log.entries)
                (change_of now collection key operation (log.revision + 1)) counts refl refl);
          bounded = rw length-append (omega (arith, room));
          is_u64 = rw next b;
        },
        next,
      )

  drop-nil : (n : ℕ) → drop {A = StoreChange T} n [] ≡ []
  drop-nil zero = refl
  drop-nil (suc n) = refl

  later_than-Counts :
      (start stop n : ℕ) (cs : List (StoreChange T))
      → Counts start cs stop
      → later_than n cs ≡ drop (n - start) cs
  unfolding later_than
  later_than-Counts start stop n [] h = sym (drop-nil (n - start))
  later_than-Counts start stop n (c ∷ cs) h =
      let rest = later_than-Counts (start + 1) stop n cs h.2 in
      elim (Bool-cases (leb n start)) [
        | inl early ↦
            let at_start : n - start ≡ 0 = ground (arith, early) in
            let after_start : n - (start + 1) ≡ 0 = ground (arith, early) in
            rw (at_start, h.0) (ground (arith, early, rw after_start at rest))
        | inr late ↦
            let step : n - start ≡ suc (n - (start + 1)) = ground (arith, late) in
            rw (step, h.0) (ground (arith, late, rest))
      ]

  check_oldest-Counts :
      (cursor : ChangeCursor) (start stop n : ℕ) (cs : List (StoreChange T))
      → Counts start cs stop
      → check_oldest cursor n cs ≡ (
          if ltb n start && ltb 0 (length cs)
          then err (change_cursor_expired cursor (decimal (start + 1)))
          else ok tt)
  unfolding check_oldest
  check_oldest-Counts cursor start stop n [] h = ground arith
  check_oldest-Counts cursor start stop n (c ∷ cs) h = rw h.0 (ground arith)

  -- A subscriber that names a revision gets the changes after it, no more and no less, when the log
  -- still has them all; it is told that its cursor has expired when one of them is gone, and that it
  -- is invalid when the revision is still to come.
  pub replay-after :
      (log : ChangeLog T) (n : ℕ) (h : IsLog log)
      → n < 2 ^ 64
      → replay_from (after (decimal n)) log ≡ (
          if ltb log.revision n
          then err invalid_change_cursor
          else if ltb n h.oldest && ltb 0 (length log.entries)
          then err (change_cursor_expired (decimal n) (decimal (h.oldest + 1)))
          else ok (drop (n - h.oldest) log.entries))
  unfolding replay_from check_oldest
  replay-after log n h b =
      rw
        (
          parse_u64-decimal n b,
          later_than-Counts h.oldest log.revision n log.entries h.counts,
          check_oldest-Counts (decimal n) h.oldest log.revision n log.entries h.counts,
        )
        (ground arith)
