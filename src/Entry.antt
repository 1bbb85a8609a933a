-- ===== src/Entry.antt =====
-- entry/mod.rs: a value with the times at which it was made and at which it expires.
pub mod Codec
pub mod RoundTrip
pub mod Canonical
use openkeyv.Base.{
  ℕ, zero, suc, ◌+◌, ◌-◌, ◌*◌, ◌/◌, ◌%◌, ◌^◌, ◌≤◌, ◌<◌, ◌≡◌, refl, sym, ap, ◌∙◌, fun_ext,
}
use openkeyv.Base.{
  ◌≢◌, ◌↔◌, ◌⊎◌, inl, inr, Bool, true, false, not, ◌&&◌, ◌||◌, Option, none, some, List, [], ◌∷◌,
  ◌++◌, map, append-nil, append_assoc, arith,
}
use openkeyv.Base.{
  ltb, leb, ◌==◌, if◌then◌else◌, Bool-cases, leb→le, le→leb, ltb→lt, lt→ltb, le→ltb,
}
use openkeyv.Base.{
  length, take, drop, get_elem?, All, zip_with, length-append, take-append, drop-append, take-drop,
  length-take, length-take-le, All-append, length-map,
}
use openkeyv.Base.{Error, Result, ok, err, bind, guard, ok_or, map_err, collect, bind-eq-ok}
use openkeyv.Base.{
  serialization, deserialization, invalid_key, invalid_ttl, invalid_value, invalid_operation,
  entry_too_large, entry_too_small, read_only, corrupted_data, batch_size_mismatch,
  invalid_change_cursor, change_cursor_expired, change_feed_lagged, revision_generation,
  out_of_fuel,
}
use openkeyv.Base.Bytes.{
  Bytes, Text, IsByte, bytes_eq, bytes_eq_iff, bytes_eq_refl, starts_with, to_le_bytes,
  from_le_bytes, length-to_le_bytes, to_le_bytes-IsByte, from_le_bytes-to_le_bytes,
}
use openkeyv.Platform.{Platform}
use openkeyv.Value.Checked.{Value}

pub record ManagedEntry (T : Type 0) : Type 0 where
  pub value : Value
  pub created_at : Option T
  pub expires_at : Option T

module _ {T F : Type 0} (os : Platform T F) where
  -- `now` is the reading of the clock that the call makes.
  unfoldable pub new : T → Value → ManagedEntry T
  new now v = record { value = v; created_at = some now; expires_at = none }

  unfoldable pub expiration_at : T → F → Result T
  expiration_at created_at ttl_secs =
      if not (os.is_finite ttl_secs) || os.le_float ttl_secs os.zero_float
      then err invalid_ttl
      else (let ttl_millis = os.mul ttl_secs os.thousand in
          if not (os.is_finite ttl_millis) || os.lt_float os.i64_max ttl_millis
          then err invalid_ttl
          else ok_or (os.checked_add_millis created_at (os.i64_of_float ttl_millis)) invalid_ttl)

  unfoldable pub with_ttl : T → Value → F → Result (ManagedEntry T)
  unfolding expiration_at
  with_ttl now v ttl_secs =
      bind (expiration_at now ttl_secs)
        λ t. ok (record { value = v; created_at = some now; expires_at = some t })

  unfoldable pub validate_ttl : T → F → Result (Unit {0})
  unfolding expiration_at
  validate_ttl now ttl_secs = bind (expiration_at now ttl_secs) λ _. ok tt

  -- `match ttl { Some(seconds) => with_ttl(value, seconds)?, None => new(value) }`
  unfoldable pub make : T → Value → Option F → Result (ManagedEntry T)
  unfolding new with_ttl
  make now v none = ok (new now v)
  make now v (some seconds) = with_ttl now v seconds

  -- `if let Some(seconds) = ttl { validate_ttl(seconds)?; }`
  unfoldable pub validate : T → Option F → Result (Unit {0})
  unfolding validate_ttl
  validate now none = ok tt
  validate now (some seconds) = validate_ttl now seconds

  unfoldable pub expired_by : T → Option T → Bool
  expired_by now none = false
  expired_by now (some t) = os.at_or_before t now

  unfoldable pub is_expired : T → ManagedEntry T → Bool
  unfolding expired_by
  is_expired now e = expired_by now e.expires_at

  unfoldable pub ttl_left : T → Option T → Option F
  ttl_left now none = none
  ttl_left now (some t) =
      if os.at_or_before t now
      then some os.zero_float
      else some (os.div (os.float_of_i64 (os.millis_between t now)) os.thousand)

  unfoldable pub ttl : T → ManagedEntry T → Option F
  unfolding ttl_left
  ttl now e = ttl_left now e.expires_at
