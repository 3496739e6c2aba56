-- ===== src/Storage/Safety/KeyLaws.antt =====
-- Equality of the keys of the Store.
use authorization_core.Common.{Bool, true, false, ◌≡◌, refl, ◌&&◌, Bool-cases, inl, inr, ◌⊎◌}
use authorization_core.Text.Order.{same_iff, same_refl}
use authorization_core.Storage.Keys.{EntityKey}
use authorization_core.Storage.Store.{same_key}

both : (a b : Bool) → (a && b) ≡ true → (a ≡ true) × (b ≡ true)
both true b h = (refl, h)
both false b h = cc

pub key_ext : (k l : EntityKey) → k.partition ≡ l.partition → k.id ≡ l.id → k ≡ l
key_ext k l p q = λ i. record { partition = p i; id = q i }

pub same_key-eq : (k l : EntityKey) → same_key k l ≡ true → k ≡ l
same_key-eq k l h =
    let parts = both _ _ h in
    key_ext k l ((same_iff k.partition l.partition).0 parts.0) ((same_iff k.id l.id).0 parts.1)

pub same_key_refl : (k : EntityKey) → same_key k k ≡ true
same_key_refl k = rw (same_refl, same_refl) refl

pub same_key-neq : (k l : EntityKey) → same_key k l ≡ false → ¬ (k ≡ l)
same_key-neq k l h e = cc (h, same_key_refl l, e)

pub same_key-not : (k l : EntityKey) → ¬ (k ≡ l) → same_key k l ≡ false
same_key-not k l n = elim (Bool-cases (same_key k l)) [
  | inl h ↦ absurd (n (same_key-eq k l h))
  | inr h ↦ h
]

pub key_cases : (k l : EntityKey) → (k ≡ l) ⊎ (¬ (k ≡ l))
key_cases k l = elim (Bool-cases (same_key k l)) [
  | inl h ↦ inl (same_key-eq k l h)
  | inr h ↦ inr (same_key-neq k l h)
]
