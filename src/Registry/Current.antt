-- ===== src/Registry/Current.antt =====
-- resource_registry.py: what is registered is found again, and an older identity cannot remove it.
use agent_session_harness.Prelude.{
  ℕ, ◌≡◌, ◌≢◌, inl, inr, refl, ap, sym, subst, ◌∙◌, String, true, List, [], ◌∷◌, ◌++◌, some,
  same_iff, string_eq, any, arith, returned, thrown,
}
use agent_session_harness.Resources.State.{ManagedResource}
use agent_session_harness.Registry.{
  ResourceRegistration, RegistryFile, conflict, has_key, has_identity, find, without, read_document,
  register, unregister, unregister_among, resolve_current, is_current,
}
use agent_session_harness.Registry.Table.{at, at-append_one, at-without_same}
use agent_session_harness.Registry.Refines.{registration, registered, register_cases, read-written}

-- The new item is the one that its identity finds.
find-registered :
    (items : List ResourceRegistration) (item : ResourceRegistration)
    → (find
          (has_identity item.resource.kind item.resource.resource_key item.registration_id)
          (without (has_key item.resource.kind item.resource.resource_key) items ++ item ∷ [])
        ≡ some item)
      × (any
            (has_identity item.resource.kind item.resource.resource_key item.registration_id)
            (without (has_key item.resource.kind item.resource.resource_key) items ++ item ∷ [])
          ≡ true)
unfolding find without has_identity has_key
find-registered [] item = ground (
  arith,
  (same_iff item.resource.kind item.resource.kind).1 refl,
  (same_iff item.resource.resource_key item.resource.resource_key).1 refl,
  (same_iff item.registration_id item.registration_id).1 refl,
)
find-registered (x ∷ items) item = ground (arith, find-registered items item)

at-registered_self :
    (items : List ResourceRegistration) (item : ResourceRegistration)
    → at
        (without (has_key item.resource.kind item.resource.resource_key) items ++ item ∷ [])
        item.resource.kind
        item.resource.resource_key
      ≡ some item
unfolding has_key
at-registered_self items item =
    at-append_one (without (has_key item.resource.kind item.resource.resource_key) items) item
      item.resource.kind item.resource.resource_key
      (at-without_same items item.resource.kind item.resource.resource_key)
    ∙ ground (
      arith,
      (same_iff item.resource.kind item.resource.kind).1 refl,
      (same_iff item.resource.resource_key item.resource.resource_key).1 refl,
    )

module _ (bytes : List ResourceRegistration → ℕ) (max_bytes : ℕ) where
  -- What a registration in a file says of its own identity and of others.
  abbrev pub IsCurrent : ResourceRegistration → RegistryFile → Type 0
  IsCurrent item f =
      (resolve_current bytes max_bytes item.resource.kind item.resource.resource_key
          item.registration_id f
        ≡ returned (some item))
      × (is_current bytes max_bytes item f ≡ returned true)

  IsCurrent-document :
      (items : List ResourceRegistration) (item : ResourceRegistration) (f : RegistryFile)
      → read_document bytes max_bytes f
        ≡ returned
            (without (has_key item.resource.kind item.resource.resource_key) items ++ item ∷ [])
      → IsCurrent item f
  unfolding resolve_current is_current
  IsCurrent-document items item f h =
      (ground (arith, h, find-registered items item), ground (arith, h, find-registered items item))

  stale-unregister :
      (items : List ResourceRegistration) (item : ResourceRegistration) (f : RegistryFile)
      (id : String)
      → read_document bytes max_bytes f
        ≡ returned
            (without (has_key item.resource.kind item.resource.resource_key) items ++ item ∷ [])
      → item.registration_id ≢ id
      → unregister bytes max_bytes item.resource.kind item.resource.resource_key id f
        ≡ (thrown conflict, f)
  unfolding unregister unregister_among
  stale-unregister items item f id h n =
      ground (arith, h, at-registered_self items item, same_iff item.registration_id id)

  -- A resource that is registered in a readable file is found by its kind, its key and its new
  -- identity, and is the current one; an unregistration that names another identity raises the
  -- conflict and changes nothing.
  pub register-IsCurrent :
      (id stale : String) (resource : ManagedResource) (now : ℕ) (f : RegistryFile)
      (items : List ResourceRegistration) (item : ResourceRegistration)
      → read_document bytes max_bytes f ≡ returned items
      → (register bytes max_bytes id resource now f).0 ≡ returned item
      → id ≢ stale
      → (item ≡ registration id resource now)
        × IsCurrent item (register bytes max_bytes id resource now f).1
        × (unregister bytes max_bytes resource.kind resource.resource_key stale
              (register bytes max_bytes id resource now f).1
            ≡ (thrown conflict, (register bytes max_bytes id resource now f).1))
  unfolding registration
  register-IsCurrent id stale resource now f items item h r n =
      elim (register_cases bytes max_bytes id resource now f items h) [
        | inr (e, p) ↦ absurd (ground (arith, p))
        | inl (p, d, w) ↦
            let new = registration id resource now in
            let written : read_document bytes max_bytes
                  (register bytes max_bytes id resource now f).1
                ≡ returned (registered bytes max_bytes new items) =
              ap (λ q. read_document bytes max_bytes q.1) p
              ∙ read-written bytes max_bytes (registered bytes max_bytes new items) d w in
            let known : item ≡ new = ground (arith, p) in
            (
              known,
              subst (λ i. IsCurrent i (register bytes max_bytes id resource now f).1) (sym known)
                  (IsCurrent-document items new _ written),
              stale-unregister items new _ stale written n,
            )
      ]
