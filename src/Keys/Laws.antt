-- ===== src/Keys/Laws.antt =====
-- The directory's four lookups after each of its updates.
use sesame_sdk.Prelude.{
  ◌≡◌, refl, Bool, true, false, not, ◌&&◌, Option, none, some, [], ◌∷◌, ◌++◌, if◌then◌else◌, ◌==◌,
  Option-cases, inl, inr, Bool-cases, ◌⊎◌,
}
use sesame_sdk.Prelude.AssocMap.{get, get-insert}
use sesame_sdk.Text.{Bytes, bytes_Eq, bytes_eq_iff}
use sesame_sdk.Keys.{
  HmacKey, ChannelScope, permits, StaticKeyProvider, SigningEntry, with_signing_key,
  add_overlap_key, revoke, static_provider, or_default, entry_keys, entry_permits, entry_revoked,
}

-- The key-id has an entry, under which keys are registered.
abbrev pub registered : StaticKeyProvider → (key_id : Bytes) → Bool
registered p key_id = elim (get p.signing key_id) [ none ↦ false | some e ↦ true ]

abbrev mark_revoked : Option SigningEntry → Option SigningEntry
mark_revoked none = none
mark_revoked (some e) = some (record e { revoked = true })

get-revoke :
    (p : StaticKeyProvider) (key_id j : Bytes)
    → get (revoke p key_id).signing j
      ≡ (if key_id == j then mark_revoked (get p.signing key_id) else get p.signing j)
unfolding revoke
get-revoke p key_id j = elim (Option-cases (get p.signing key_id)) [
  | inl e ↦ rw (e, revoke) (unchanged e (Bool-cases (key_id == j)))
  | inr (x, e) ↦ rw (e, revoke) (get-insert p.signing key_id j (record x { revoked = true }))
]
  where
    unchanged :
        get p.signing key_id ≡ none
        → ((key_id == j) ≡ true) ⊎ ((key_id == j) ≡ false)
        → get p.signing j ≡ (if key_id == j then none else get p.signing j)
    unchanged e (inl s) = let same = (bytes_eq_iff key_id j).0 s in rw s (rw (← same) e)
    unchanged e (inr d) = rw d

revoke-aead : (p : StaticKeyProvider) (key_id : Bytes) → (revoke p key_id).aead ≡ p.aead
unfolding revoke
revoke-aead p key_id = elim (Option-cases (get p.signing key_id)) [
  | inl e ↦ rw (e, revoke)
  | inr (x, e) ↦ rw (e, revoke)
]

module _ (p : StaticKeyProvider) (key_id j channel : Bytes) where
  -- Revoking a registered key-id marks it and denies it all channels, and leaves its keys, the other
  -- key-ids and the AEAD keys as they are; revoking one that is not registered does nothing.
  pub revoke_lem :
      let before = static_provider p in
      let after = static_provider (revoke p key_id) in
      (after.is_revoked j ≡ (if key_id == j then registered p key_id else before.is_revoked j))
      × (after.is_authorized j channel
          ≡ (if key_id == j then false else before.is_authorized j channel))
      × (after.signing_keys j ≡ before.signing_keys j)
      × (after.aead_key j ≡ before.aead_key j)
  unfolding static_provider
  revoke_lem =
      rw (get-revoke p key_id j, revoke-aead p key_id)
        (elim (Bool-cases (key_id == j)) [
          | inl e ↦
              let same = (bytes_eq_iff key_id j).0 e in
              rw (e, ← same) (marked (get p.signing key_id))
          | inr d ↦ rw d (refl, refl, refl, refl)
        ])
    where
      marked :
          (o : Option SigningEntry)
          → (entry_revoked (mark_revoked o) ≡ elim o [ none ↦ false | some e ↦ true ])
            × (entry_permits (mark_revoked o) channel ≡ false)
            × (entry_keys (mark_revoked o) ≡ entry_keys o)
            × (get p.aead key_id ≡ get p.aead key_id)
      marked none = (refl, refl, refl, refl)
      marked (some e) = (refl, refl, refl, refl)

  -- Adding an overlap key appends it to the keys of its key-id, which keeps its scope and its
  -- revocation, and leaves the other key-ids and the AEAD keys as they are; a key-id that was not
  -- registered has that key alone and is denied all channels.
  pub add_overlap_key_lem :
      (key : HmacKey)
      → let before = static_provider p in
        let after = static_provider (add_overlap_key p key_id key) in
        (after.signing_keys j
          ≡ (if key_id == j then before.signing_keys j ++ key ∷ [] else before.signing_keys j))
        × (after.is_revoked j ≡ before.is_revoked j)
        × (after.is_authorized j channel ≡ before.is_authorized j channel)
        × (after.aead_key j ≡ before.aead_key j)
  unfolding static_provider add_overlap_key permits
  add_overlap_key_lem key =
      rw
        (get-insert p.signing key_id j (record (or_default (get p.signing key_id)) {
          keys = (or_default (get p.signing key_id)).keys ++ key ∷ [];
        }))
        (elim (Bool-cases (key_id == j)) [
          | inl e ↦
              let same = (bytes_eq_iff key_id j).0 e in
              rw (e, ← same) (appended (get p.signing key_id))
          | inr d ↦ rw d (refl, refl, refl, refl)
        ])
    where
      appended :
          (o : Option SigningEntry)
          → ((or_default o).keys ++ key ∷ [] ≡ entry_keys o ++ key ∷ [])
            × ((or_default o).revoked ≡ entry_revoked o)
            × ((not (or_default o).revoked && permits (or_default o).scope channel)
                ≡ entry_permits o channel)
            × (get p.aead key_id ≡ get p.aead key_id)
      appended none = (refl, refl, refl, refl)
      appended (some e) = (refl, refl, refl, refl)

  -- Registering a key gives its key-id that key alone, the scope, and no revocation, whatever it had
  -- before, and leaves the other key-ids and the AEAD keys as they are.
  pub with_signing_key_lem :
      (key : HmacKey) (scope : ChannelScope)
      → let before = static_provider p in
        let after = static_provider (with_signing_key p key_id key scope) in
        (after.signing_keys j ≡ (if key_id == j then key ∷ [] else before.signing_keys j))
        × (after.is_revoked j ≡ (if key_id == j then false else before.is_revoked j))
        × (after.is_authorized j channel
            ≡ (if key_id == j then permits scope channel else before.is_authorized j channel))
        × (after.aead_key j ≡ before.aead_key j)
  unfolding static_provider with_signing_key
  with_signing_key_lem key scope =
      rw
        (get-insert p.signing key_id j (record { keys = key ∷ []; scope = scope; revoked = false }))
        (elim (Bool-cases (key_id == j)) [
          | inl e ↦ rw e (refl, refl, refl, refl)
          | inr d ↦ rw d (refl, refl, refl, refl)
        ])
