-- ===== src/Tokens/StorageKeys.antt =====
-- packages/tokens/src/internal.ts, replay.ts and jti-reservation.ts: the storage keys of consumed and of
-- reserved identifiers, and that they tell these apart. A string's code units are below 2 ^ 16.
use authorization_core.Common.{
  ℕ, ◌+◌, ◌/◌, ◌%◌, ◌^◌, ◌<◌, ◌≢◌, ◌∙◌, [], ◌∷◌, ◌++◌, ◌≡◌, refl, ap, arith, ltb, if◌then◌else◌,
  All, sym,
}
use mathlib.Core.List.{append-nil}
use authorization_core.Text.{Text, text}
use authorization_core.Storage.Keys.{EntityKey}

hex : ℕ → ℕ
hex d = if ltb d 10 then d + 48 else d + 87

-- `encodeStorageKeyPart`: four hexadecimal digits of each code unit
unfoldable pub encode_storage_key_part : Text → Text
unfolding hex
encode_storage_key_part [] = []
encode_storage_key_part (c ∷ s) =
    hex (c / 4096 % 16)
    ∷ hex (c / 256 % 16)
    ∷ hex (c / 16 % 16)
    ∷ hex (c % 16)
    ∷ encode_storage_key_part s

-- `accessGrantReplayKey`
unfoldable pub access_grant_replay_key : Text → Text → Text → Text → EntityKey
access_grant_replay_key issuer application_id audience jti = record {
  partition =
      text "v1-"
      ++ (encode_storage_key_part issuer
          ++ (b'-'
              ∷ (encode_storage_key_part application_id
                  ++ (b'-' ∷ encode_storage_key_part audience))));
  id = jti;
}

-- `accessGrantJtiReservationKey`
unfoldable pub access_grant_jti_reservation_key : Text → Text → Text → EntityKey
access_grant_jti_reservation_key issuer application_id jti = record {
  partition =
      text "v1-"
      ++ (encode_storage_key_part issuer ++ (b'-' ∷ encode_storage_key_part application_id));
  id = jti;
}

-- UTF-16 code units.
abbrev pub IsUnits : Text → Type 0
IsUnits = All (λ c. c < 2 ^ 16)

hex_injective : (a b : ℕ) → a < 16 → b < 16 → hex a ≡ hex b → a ≡ b
unfolding hex
hex_injective a b h k e = ground arith

hex_not_dash : (a : ℕ) → a < 16 → hex a ≢ b'-'
unfolding hex
hex_not_dash a h e = ground arith

unit_injective :
    (c d : ℕ)
    → c < 2 ^ 16
    → d < 2 ^ 16
    → hex (c / 4096 % 16) ≡ hex (d / 4096 % 16)
    → hex (c / 256 % 16) ≡ hex (d / 256 % 16)
    → hex (c / 16 % 16) ≡ hex (d / 16 % 16)
    → hex (c % 16) ≡ hex (d % 16)
    → c ≡ d
unit_injective c d h k e3 e2 e1 e0 =
    let one = hex_injective _ _ (omega arith) (omega arith) e3 in
    let two = hex_injective _ _ (omega arith) (omega arith) e2 in
    let three = hex_injective _ _ (omega arith) (omega arith) e1 in
    let four = hex_injective _ _ (omega arith) (omega arith) e0 in
    omega (arith, one, two, three, four)

-- What may follow an encoded part: nothing, or a dash.
IsRest : Text → Type 0
IsRest [] = Unit
IsRest (c ∷ t) = c ≡ b'-'

no_digit : (a : ℕ) (s x : Text) → a < 16 → IsRest x → x ≢ hex a ∷ s
unfolding IsRest
no_digit a s [] h r e = absurd (cc)
no_digit a s (b ∷ x) h r e = hex_not_dash a h (cc)

part_injective :
    (s t x y : Text)
    → IsUnits s
    → IsUnits t
    → IsRest x
    → IsRest y
    → encode_storage_key_part s ++ x ≡ encode_storage_key_part t ++ y
    → (s ≡ t) × (x ≡ y)
unfolding encode_storage_key_part
part_injective [] [] x y hs ht hx hy e = (refl, e)
part_injective [] (d ∷ t) x y hs ht hx hy e = absurd (no_digit _ _ x (omega arith) hx e)
part_injective (c ∷ s) [] x y hs ht hx hy e = absurd (no_digit _ _ y (omega arith) hy (sym e))
part_injective (c ∷ s) (d ∷ t) x y (hc, hs) (hd, ht) hx hy e =
    let here = unit_injective c d hc hd (cc) (cc) (cc) (cc) in
    let (rest, after) = part_injective s t x y hs ht hx hy (cc) in (cc, after)

after_prefix-injective : (x y : Text) → text "v1-" ++ x ≡ text "v1-" ++ y → x ≡ y
after_prefix-injective x y e = cc

part_end :
    (s t : Text)
    → IsUnits s
    → IsUnits t
    → encode_storage_key_part s ≡ encode_storage_key_part t
    → s ≡ t
unfolding IsRest
part_end s t hs ht e =
    (part_injective s t [] [] hs ht tt tt
      (append-nil (encode_storage_key_part s) ∙ e ∙ sym (append-nil (encode_storage_key_part t)))).0

dash_end : (x y : Text) → ◌≡◌ {A = Text} (b'-' ∷ x) (b'-' ∷ y) → x ≡ y
dash_end x y e = cc

-- Two consumptions have the same key only if they agree in issuer, application, audience and
-- identifier.
pub access_grant_replay_key_injective :
    (issuer application audience jti issuer' application' audience' jti' : Text)
    → IsUnits issuer
    → IsUnits application
    → IsUnits audience
    → IsUnits issuer'
    → IsUnits application'
    → IsUnits audience'
    → access_grant_replay_key issuer application audience jti
      ≡ access_grant_replay_key issuer' application' audience' jti'
    → (issuer ≡ issuer') × (application ≡ application') × (audience ≡ audience') × (jti ≡ jti')
unfolding access_grant_replay_key IsRest
access_grant_replay_key_injective i a u j i' a' u' j' hi ha hu hi' ha' hu' e =
    let (one, rest) =
      part_injective i i' _ _ hi hi' refl refl
        (after_prefix-injective _ _ (ap (λ k. k.partition) e)) in
    let (two, last) = part_injective a a' _ _ ha ha' refl refl (dash_end _ _ rest) in
    (one, two, part_end u u' hu hu' (dash_end _ _ last), ap (λ k. k.id) e)

-- Two reservations have the same key only if they agree in issuer, application and identifier.
pub access_grant_jti_reservation_key_injective :
    (issuer application jti issuer' application' jti' : Text)
    → IsUnits issuer
    → IsUnits application
    → IsUnits issuer'
    → IsUnits application'
    → access_grant_jti_reservation_key issuer application jti
      ≡ access_grant_jti_reservation_key issuer' application' jti'
    → (issuer ≡ issuer') × (application ≡ application') × (jti ≡ jti')
unfolding access_grant_jti_reservation_key IsRest
access_grant_jti_reservation_key_injective i a j i' a' j' hi ha hi' ha' e =
    let (one, rest) =
      part_injective i i' _ _ hi hi' refl refl
        (after_prefix-injective _ _ (ap (λ k. k.partition) e)) in
    (one, part_end a a' ha ha' (dash_end _ _ rest), ap (λ k. k.id) e)
