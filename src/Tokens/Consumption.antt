-- ===== src/Tokens/Consumption.antt =====
-- packages/tokens/src/replay.ts and jti-reservation.ts: a grant is consumed once and an identifier
-- reserved once, and neither is refused on account of another.
use authorization_core.Common.{
  true, false, Option, none, List, [], ◌∷◌, ok, ◌≡◌, ◌≢◌, ap, All, arith,
}
use authorization_core.Text.Order.{same_refl}
use authorization_core.Storage.Keys.{EntityKey}
use authorization_core.Storage.Program.{Inserted}
use authorization_core.Storage.Store.{replied, rejected, Inserts}
use authorization_core.Tokens.{Checked}
use authorization_core.Tokens.StorageKeys.{IsUnits, access_grant_replay_key_injective}
use authorization_core.Tokens.Replay.{
  AccessGrantReplayRecord, AccessGrantJtiReservation, key_of_replay, key_of_reservation,
  may_consume, consumed_by, reserved_by,
}
use authorization_core.Tokens.Replay.Once.{Run, once, taken_by}

pub consumed_by_refuses :
    (r : AccessGrantReplayRecord) (reply : Inserted AccessGrantReplayRecord)
    → reply.inserted ≡ false
    → consumed_by r (replied reply) ≢ ok tt
unfolding consumed_by
consumed_by_refuses r reply e = ground arith

pub consumed_by_fails : (r : AccessGrantReplayRecord) → consumed_by r rejected ≢ ok tt
unfolding consumed_by
consumed_by_fails r e = cc

pub reserved_by_refuses :
    (r : AccessGrantJtiReservation) (reply : Inserted AccessGrantJtiReservation)
    → reply.inserted ≡ false
    → reserved_by r (replied reply) ≢ ok tt
unfolding reserved_by
reserved_by_refuses r reply e = ground arith

pub reserved_by_fails : (r : AccessGrantJtiReservation) → reserved_by r rejected ≢ ok tt
unfolding reserved_by
reserved_by_fails r e = cc

-- The calls of `consume` and of `reserve` over one Store.
abbrev pub Consumptions :
    (EntityKey → Option AccessGrantReplayRecord)
    → List (AccessGrantReplayRecord × Checked (Unit {0}))
    → (EntityKey → Option AccessGrantReplayRecord)
    → Type 0
Consumptions = Run key_of_replay may_consume consumed_by consumed_by_refuses consumed_by_fails

abbrev pub Reservations :
    (EntityKey → Option AccessGrantJtiReservation)
    → List (AccessGrantJtiReservation × Checked (Unit {0}))
    → (EntityKey → Option AccessGrantJtiReservation)
    → Type 0
Reservations =
    Run key_of_reservation (λ (c : Unit {0}) (r : AccessGrantJtiReservation). ok tt) reserved_by
      reserved_by_refuses reserved_by_fails

-- Two records of one grant.
abbrev pub SameGrant : AccessGrantReplayRecord → AccessGrantReplayRecord → Type 0
SameGrant r s =
    (r.issuer ≡ s.issuer)
    × (r.application_id ≡ s.application_id)
    × (r.audience ≡ s.audience)
    × (r.jti ≡ s.jti)

key_of_replay_ext :
    (r s : AccessGrantReplayRecord) → SameGrant r s → key_of_replay r ≡ key_of_replay s
unfolding key_of_replay
key_of_replay_ext r s (i, a, u, j) = cc

All-map :
    {A : Type 0} (P Q : A → Type 0) (xs : List A) → ((x : A) → P x → Q x) → All P xs → All Q xs
All-map P Q [] f h = tt
All-map P Q (x ∷ xs) f (h, hs) = (f x h, All-map P Q xs f hs)

-- In any run of consumptions over one Store, whatever the readings of the clock and whichever replies
-- are lost: after a grant was consumed, no later call for the same issuer, application, audience and
-- identifier returns.
pub consume_once :
    {s t : EntityKey → Option AccessGrantReplayRecord} {r : AccessGrantReplayRecord}
    {log : List (AccessGrantReplayRecord × Checked (Unit {0}))}
    → Consumptions s ((r, ok tt) ∷ log) t
    → All (λ e. SameGrant e.0 r → e.1 ≢ ok tt) log
consume_once {r = r} {log = log} h =
    All-map _ _ log (λ e later same_grant. later (key_of_replay_ext e.0 r same_grant))
      (once key_of_replay may_consume consumed_by consumed_by_refuses consumed_by_fails h)

-- In any run of reservations over one Store: after an identifier was reserved, no later call for the
-- same issuer, application and identifier returns.
pub reserve_once :
    {s t : EntityKey → Option AccessGrantJtiReservation} {r : AccessGrantJtiReservation}
    {log : List (AccessGrantJtiReservation × Checked (Unit {0}))}
    → Reservations s ((r, ok tt) ∷ log) t
    → All (λ e. e.0 ≡ r → e.1 ≢ ok tt) log
reserve_once {r = r} {log = log} h =
    All-map _ _ log (λ e later same_one. later (ap key_of_reservation same_one))
      (once key_of_reservation (λ (c : Unit {0}) (r : AccessGrantJtiReservation). ok tt) reserved_by
        reserved_by_refuses reserved_by_fails h)

-- The strings of a record are strings of UTF-16 code units.
abbrev pub HasUnits : AccessGrantReplayRecord → Type 0
HasUnits r = IsUnits r.issuer × IsUnits r.application_id × IsUnits r.audience

other_key :
    (r s : AccessGrantReplayRecord)
    → HasUnits r
    → HasUnits s
    → ¬ SameGrant r s
    → key_of_replay r ≢ key_of_replay s
unfolding key_of_replay
other_key r s (hi, ha, hu) (ki, ka, ku) differ e = differ (
    access_grant_replay_key_injective r.issuer r.application_id r.audience r.jti s.issuer
      s.application_id s.audience s.jti hi ha hu ki ka ku e)

consumed_by_new :
    (r : AccessGrantReplayRecord) (reply : Inserted AccessGrantReplayRecord)
    → reply.inserted ≡ true
    → reply.value ≡ r
    → consumed_by r (replied reply) ≡ ok tt
unfolding consumed_by
consumed_by_new r reply new value =
    let one = same_refl r.issuer in
    let two = same_refl r.application_id in
    let three = same_refl r.audience in
    let four = same_refl r.jti in rw (new, value, one, two, three, four) (ground arith)

-- A grant whose key was free is not refused on account of others: after any run of consumptions of
-- other grants, when the Store replies to its insertion and says of a free key that it inserted, its
-- consumption returns.
pub consume_fresh :
    {s t u : EntityKey → Option AccessGrantReplayRecord}
    {log : List (AccessGrantReplayRecord × Checked (Unit {0}))} (r : AccessGrantReplayRecord)
    (reply : Inserted AccessGrantReplayRecord)
    → s (key_of_replay r) ≡ none
    → Consumptions s log t
    → HasUnits r
    → All (λ e. HasUnits e.0 × ¬ SameGrant e.0 r) log
    → Inserts (key_of_replay r) r t u reply
    → (t (key_of_replay r) ≡ none → reply.inserted ≡ true)
    → consumed_by r (replied reply) ≡ ok tt
consume_fresh {log = log} r reply free run units others inserts answers =
    let still =
      taken_by key_of_replay may_consume consumed_by consumed_by_refuses consumed_by_fails
        (key_of_replay r) free run
        (All-map _ _ log (λ e h. other_key e.0 r h.0 units h.1) others) in
    consumed_by_new r reply (answers still) (inserts.free still)
