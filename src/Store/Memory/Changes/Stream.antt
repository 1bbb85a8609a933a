-- ===== src/Store/Memory/Changes/Stream.antt =====
-- What a subscriber is given: the changes that its filter lets through, in their order, first those
-- of the replay and then those of the channel.
use openkeyv.Base.{ℕ, zero, suc, ◌≡◌, refl, ap, ◌∙◌}
use openkeyv.Base.{◌⊎◌, inl, inr, Option, none, some, List, [], ◌∷◌, ◌++◌}
use openkeyv.Base.{if◌then◌else◌, Bool-cases}
use openkeyv.Base.{take}
use openkeyv.Base.{Result, ok, err}
use openkeyv.Change.{StoreChange, ChangeFilter, matches}
use openkeyv.Store.Memory.Changes.{Received, ChangeStream, message, receive, recv_from, recv}

module _ {T : Type 0} where
  -- The changes that the filter lets through.
  abbrev pub wanted : ChangeFilter → List (StoreChange T) → List (StoreChange T)
  wanted f [] = []
  wanted f (c ∷ cs) = if matches f c then c ∷ wanted f cs else wanted f cs

  abbrev pub messages : List (StoreChange T) → List (Received T)
  messages [] = []
  messages (c ∷ cs) = message c ∷ messages cs

  abbrev add_given :
      Option (Result (Option (StoreChange T))) → List (StoreChange T) → List (StoreChange T)
  add_given none later = []
  add_given (some (err e)) later = []
  add_given (some (ok none)) later = []
  add_given (some (ok (some c))) later = c ∷ later

  -- What a subscriber gets from at most `n` calls in a row, up to the first that waits or fails.
  unfoldable pub drain : ℕ → ChangeStream T → List (StoreChange T)
  drain zero s = []
  drain (suc n) s = add_given (recv s).0 (drain n (recv s).1)

  abbrev pub stream : ChangeFilter → List (StoreChange T) → List (StoreChange T) → ChangeStream T
  stream f replay live = record { replay = replay; receiver = messages live; filter = f }

  -- A call gives the next change that the filter lets through, and waits when there is none.
  recv-stream :
      (f : ChangeFilter) (replay live : List (StoreChange T))
      → ((wanted f (replay ++ live) ≡ []) × ((recv (stream f replay live)).0 ≡ none))
        ⊎ ((c : StoreChange T) × (replay' : List (StoreChange T)) × (live' : List (StoreChange T))
            × (wanted f (replay ++ live) ≡ c ∷ wanted f (replay' ++ live'))
            × (recv (stream f replay live) ≡ (some (ok (some c)), stream f replay' live')))
  unfolding recv recv_from receive
  recv-stream f [] [] = inl (refl, refl)
  recv-stream f [] (c ∷ live) = elim (Bool-cases (matches f c)) [
    | inl lets ↦ inr (c, [], live, rw lets refl, rw lets refl)
    | inr drops ↦ rw drops (recv-stream f [] live)
  ]
  recv-stream f (c ∷ replay) live = elim (Bool-cases (matches f c)) [
    | inl lets ↦ inr (c, replay, live, rw lets refl, rw lets refl)
    | inr drops ↦ rw drops (recv-stream f replay live)
  ]

  -- The calls of a subscriber give, one after the other and each once, the changes that its filter
  -- lets through, first of the replay and then of the messages of the channel, and no others; while
  -- the channel is open and has not lagged.
  pub drain-wanted :
      (n : ℕ) (f : ChangeFilter) (replay live : List (StoreChange T))
      → drain n (stream f replay live) ≡ take n (wanted f (replay ++ live))
  unfolding drain
  drain-wanted zero f replay live = refl
  drain-wanted (suc n) f replay live = elim (recv-stream f replay live) [
    | inl (over, waits) ↦
        ap (λ o. add_given o (drain n (recv (stream f replay live)).1)) waits ∙ rw over refl
    | inr (c, replay', live', next, given) ↦
        ap (λ r. add_given r.0 (drain n r.1)) given
        ∙ rw next (ap (λ cs. c ∷ cs) (drain-wanted n f replay' live'))
  ]
