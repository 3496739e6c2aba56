-- ===== src/Tokens/Replay.antt =====
-- packages/tokens/src/replay.ts and jti-reservation.ts: the consumption of a grant and the reservation
-- of its identifier, each by one `insertIfAbsent`.
pub mod Once
use authorization_core.Common.{
  ℕ, ◌/◌, Bool, true, false, ◌&&◌, Option, leb, ltb, if◌then◌else◌, Result, thrown, ok, guard, ◌>>◌,
  ◌==◌,
}
use authorization_core.Js.{max_safe_integer}
use authorization_core.Text.{Text, text, same}
use authorization_core.Storage.Keys.{EntityKey}
use authorization_core.Storage.Program.{Inserted}
use authorization_core.Storage.Store.{Reply, replied, rejected}
use authorization_core.Tokens.{Checked, Reading, finite, invalid, is_numeric_date}
use authorization_core.Tokens.StorageKeys.{
  access_grant_replay_key, access_grant_jti_reservation_key,
}

pub record AccessGrantReplayRecord : Type 0 where
  pub issuer : Text
  pub application_id : Text
  pub audience : Text
  pub jti : Text
  pub retain_through : ℕ

pub record AccessGrantJtiReservation : Type 0 where
  pub issuer : Text
  pub application_id : Text
  pub jti : Text

-- The keys of the two collections.
unfoldable pub key_of_replay : AccessGrantReplayRecord → EntityKey
key_of_replay r = access_grant_replay_key r.issuer r.application_id r.audience r.jti

unfoldable pub key_of_reservation : AccessGrantJtiReservation → EntityKey
key_of_reservation r = access_grant_jti_reservation_key r.issuer r.application_id r.jti

-- `consume` before it asks the Store
unfoldable pub may_consume : Reading → AccessGrantReplayRecord → Checked (Unit {0})
may_consume invalid r = thrown (text "replay-store clock or retention is invalid")
may_consume (finite now) r = do
  guard (is_numeric_date r.retain_through) (text "replay-store clock or retention is invalid")
  guard (leb (now / 1000) max_safe_integer && leb (now / 1000) r.retain_through)
      (text "access-grant replay retention window has passed")

same_replay : AccessGrantReplayRecord → AccessGrantReplayRecord → Bool
same_replay r s =
    same r.issuer s.issuer
    && same r.application_id s.application_id
    && same r.audience s.audience
    && same r.jti s.jti

-- `consume` on what `insertIfAbsent` replied
unfoldable pub consumed_by :
    AccessGrantReplayRecord → Reply (Inserted AccessGrantReplayRecord) → Checked (Unit {0})
unfolding same_replay
consumed_by r rejected = thrown (text "access-grant replay store rejected consumption")
consumed_by r (replied result) =
    if result.inserted
    then (guard (same_replay result.value r && (result.value.retain_through == r.retain_through))
        (text "access-grant replay write result is corrupt"))
    else (do
      guard (same_replay result.value r && is_numeric_date result.value.retain_through)
          (text "access-grant replay record is corrupt")
      thrown (text "access grant was already consumed"))

same_reservation : AccessGrantJtiReservation → AccessGrantJtiReservation → Bool
same_reservation r s =
    same r.issuer s.issuer && same r.application_id s.application_id && same r.jti s.jti

-- `reserve` on what `insertIfAbsent` replied
unfoldable pub reserved_by :
    AccessGrantJtiReservation → Reply (Inserted AccessGrantJtiReservation) → Checked (Unit {0})
unfolding same_reservation
reserved_by r rejected = thrown (text "access-grant identifier reservation failed")
reserved_by r (replied result) =
    if result.inserted
    then (guard (same_reservation result.value r)
        (text "access-grant identifier reservation result is corrupt"))
    else (do
      guard (same_reservation result.value r)
          (text "access-grant identifier reservation is corrupt")
      thrown (text "access-grant identifier was already reserved"))
