-- ===== src/Registry/Refines.antt =====
-- resource_registry.py: any sequence of calls reads as updates of a finite map.
use agent_session_harness.Prelude.{
  ℕ, ◌≡◌, ◌⊎◌, inl, inr, ap, sym, subst, ◌∙◌, String, Bool, true, false, List, [], ◌∷◌, ◌++◌,
  Option, none, some, if◌then◌else◌, same, string_eq, leb, arith, Bool-cases, Option-cases, Except,
  returned, thrown,
}
use mathlib.Core.Path.{fun_ext}
use agent_session_harness.Resources.State.{ManagedResource}
use agent_session_harness.Registry.{
  ResourceRegistration, RegistryFile, RegistryError, conflict, contract, too_large, document,
  has_key, without, without_first, has_duplicates, is_document, read_document, write_document,
  register_among, register, unregister_among, unregister,
}
use agent_session_harness.Registry.Table.{
  at, Table, put, at-registered, at-unregistered, has_duplicates-without_first,
  length-without_first,
}

pub data Request : Type 0 where
  registers : String → ManagedResource → ℕ → Request
  unregisters : String → String → String → Request

unfoldable pub registration : String → ManagedResource → ℕ → ResourceRegistration
registration id resource now = record {
  registration_id = id;
  resource = resource;
  registered_at = now;
}

-- What a request that is accepted does to the map: a stale identity removes nothing.
abbrev pub removal : String → String → String → Option ResourceRegistration → Table → Table
removal kind key id none t = t
removal kind key id (some current) t =
    if same current.registration_id id then put kind key none t else t

abbrev pub meaning : Request → Table → Table
meaning (registers id resource now) t =
    put resource.kind resource.resource_key (some (registration id resource now)) t
meaning (unregisters kind key id) t = removal kind key id (t kind key) t

module _ (bytes : List ResourceRegistration → ℕ) (max_bytes : ℕ) where
  abbrev is_returned : {A : Type 0} → Except RegistryError A → Bool
  is_returned (returned a) = true
  is_returned (thrown e) = false

  abbrev pub accepted : Request → RegistryFile → Bool
  accepted (registers id resource now) f =
      is_returned (register bytes max_bytes id resource now f).0
  accepted (unregisters kind key id) f = is_returned (unregister bytes max_bytes kind key id f).0

  abbrev pub execute : Request → RegistryFile → RegistryFile
  execute (registers id resource now) f = (register bytes max_bytes id resource now f).1
  execute (unregisters kind key id) f = (unregister bytes max_bytes kind key id f).1

  abbrev pub run : List Request → RegistryFile → RegistryFile
  run [] f = f
  run (r ∷ rs) f = run rs (execute r f)

  -- The same requests on the map; one that raises has no meaning.
  abbrev pub replay : List Request → RegistryFile → Table → Table
  replay [] f t = t
  replay (r ∷ rs) f t = replay rs (execute r f) (if accepted r f then meaning r t else t)

  -- The file can be read as a map.
  pub record Reads (f : RegistryFile) (t : Table) : Type 0 where
    pub items : List ResourceRegistration
    pub readable : read_document bytes max_bytes f ≡ returned items
    pub table : at items ≡ t

  read-is_document :
      (f : RegistryFile) (items : List ResourceRegistration)
      → read_document bytes max_bytes f ≡ returned items
      → is_document items ≡ true
  unfolding read_document is_document has_duplicates
  read-is_document f items h = ground arith

  pub read-written :
      (items : List ResourceRegistration)
      → is_document items ≡ true
      → leb (bytes items) max_bytes ≡ true
      → read_document bytes max_bytes (some (document items)) ≡ returned items
  unfolding read_document
  read-written items h k = ground arith

  abbrev pub registered :
      ResourceRegistration → List ResourceRegistration → List ResourceRegistration
  registered item items =
      without (has_key item.resource.kind item.resource.resource_key) items ++ item ∷ []

  pub register_cases :
      (id : String) (resource : ManagedResource) (now : ℕ) (f : RegistryFile)
      (items : List ResourceRegistration)
      → read_document bytes max_bytes f ≡ returned items
      → ((register bytes max_bytes id resource now f ≡ (
        returned (registration id resource now),
        some (document (registered (registration id resource now) items)),
      ))
          × (is_document (registered (registration id resource now) items) ≡ true)
          × (leb (bytes (registered (registration id resource now) items)) max_bytes ≡ true))
        ⊎ ((e : RegistryError) × (register bytes max_bytes id resource now f ≡ (thrown e, f)))
  unfolding register register_among write_document registration
  register_cases id resource now f items h =
      let new = registered (registration id resource now) items in
      elim (Bool-cases (is_document new)) [
        | inr d ↦ inr (contract, ground (arith, h, d))
        | inl d ↦ elim (Bool-cases (leb (bytes new) max_bytes)) [
          | inr w ↦ inr (too_large, ground (arith, h, d, w))
          | inl w ↦ inl (ground (arith, h, d, w), d, w)
        ]
      ]

  -- Nothing is registered, or another identity is, or this one is removed or the write fails.
  unregister_cases :
      (kind key id : String) (f : RegistryFile) (items : List ResourceRegistration)
      → read_document bytes max_bytes f ≡ returned items
      → ((at items kind key ≡ none) × (unregister bytes max_bytes kind key id f ≡ (returned tt, f)))
        ⊎ ((c : ResourceRegistration) × (at items kind key ≡ some c)
            × (((same c.registration_id id ≡ false)
                  × (unregister bytes max_bytes kind key id f ≡ (thrown conflict, f)))
                ⊎ ((same c.registration_id id ≡ true)
                    × (((leb (bytes (without_first (has_key kind key) items)) max_bytes ≡ true)
                          × (unregister bytes max_bytes kind key id f ≡ (
                            returned tt,
                            some (document (without_first (has_key kind key) items)),
                          )))
                        ⊎ (unregister bytes max_bytes kind key id f ≡ (thrown too_large, f))))))
  unfolding unregister unregister_among write_document
  unregister_cases kind key id f items h = elim (Option-cases (at items kind key)) [
    | inl p ↦ inl (p, ground (arith, h, p))
    | inr (c, p) ↦ inr (
      c,
      p,
      elim (Bool-cases (same c.registration_id id)) [
        | inr s ↦ inl (s, ground (arith, h, p, s))
        | inl s ↦ inr (
          s,
          elim (Bool-cases (leb (bytes (without_first (has_key kind key) items)) max_bytes)) [
            | inr w ↦ inr (ground (arith, h, p, s, w))
            | inl w ↦ inl (w, ground (arith, h, p, s, w))
          ],
        )
      ],
    )
  ]

  register-Reads :
      (id : String) (resource : ManagedResource) (now : ℕ) (f : RegistryFile) (t : Table)
      → Reads f t
      → Reads (execute (registers id resource now) f) (
          if accepted (registers id resource now) f
          then meaning (registers id resource now) t
          else t)
  unfolding registration
  register-Reads id resource now f t h =
      elim (register_cases id resource now f h.items h.readable) [
        | inr (e, p) ↦
            subst
              (λ r.
                Reads r.1 (if is_returned r.0 then meaning (registers id resource now) t else t))
              (sym p) h
        | inl (p, d, w) ↦
            subst
              (λ r.
                Reads r.1 (if is_returned r.0 then meaning (registers id resource now) t else t))
              (sym p)
              (record {
                items = registered (registration id resource now) h.items;
                readable = read-written (registered (registration id resource now) h.items) d w;
                table =
                    fun_ext (λ kind.
                      fun_ext
                        (λ key. at-registered h.items (registration id resource now) kind key))
                    ∙ ap
                        (put resource.kind resource.resource_key
                          (some (registration id resource now)))
                        h.table;
              })
      ]

  unregister-Reads :
      (kind key id : String) (f : RegistryFile) (t : Table)
      → Reads f t
      → Reads
          (execute (unregisters kind key id) f)
          (if accepted (unregisters kind key id) f then meaning (unregisters kind key id) t else t)
  unfolding is_document
  unregister-Reads kind key id f t h = elim (unregister_cases kind key id f h.items h.readable) [
    | inl (n, p) ↦
        back (λ r. Reads r.1 (result r)) p
          (subst (λ o. Reads f (removal kind key id o t)) (sym (lookup ∙ n)) h)
    | inr (c, n, inl (s, p)) ↦ back (λ r. Reads r.1 (result r)) p h
    | inr (c, n, inr (s, inr p)) ↦ back (λ r. Reads r.1 (result r)) p h
    | inr (c, n, inr (s, inl (w, p))) ↦
        back (λ r. Reads r.1 (result r)) p
          (subst (λ o. Reads (some (document left)) (removal kind key id o t)) (sym (lookup ∙ n))
            (rw s (record {
              items = left;
              readable =
                  read-written left
                    (ground (
                      arith,
                      valid,
                      length-without_first (has_key kind key) h.items,
                      has_duplicates-without_first (has_key kind key) h.items,
                    ))
                    w;
              table =
                  fun_ext (λ kind'.
                    fun_ext
                      (λ key'. at-unregistered h.items kind key kind' key' (ground (arith, valid))))
                  ∙ ap (put kind key none) h.table;
            })))
  ]
    where
      left : List ResourceRegistration
      left = without_first (has_key kind key) h.items

      valid : is_document h.items ≡ true
      valid = read-is_document f h.items h.readable

      lookup : t kind key ≡ at h.items kind key
      lookup = ap (λ u. u kind key) (sym h.table)

      result : Except RegistryError (Unit {0}) × RegistryFile → Table
      result r = if is_returned r.0 then meaning (unregisters kind key id) t else t

      back :
          (P : Except RegistryError (Unit {0}) × RegistryFile → Type 0)
          {r : Except RegistryError (Unit {0}) × RegistryFile}
          → unregister bytes max_bytes kind key id f ≡ r
          → P r
          → P (unregister bytes max_bytes kind key id f)
      back P p x = subst P (sym p) x

  execute-Reads :
      (r : Request) (f : RegistryFile) (t : Table)
      → Reads f t
      → Reads (execute r f) (if accepted r f then meaning r t else t)
  execute-Reads (registers id resource now) f t h = register-Reads id resource now f t h
  execute-Reads (unregisters kind key id) f t h = unregister-Reads kind key id f t h

  -- From a file that reads as a map, any sequence of requests leaves a file that reads as the map
  -- which the accepted ones make: a registration replaces that of its kind and key, and an
  -- unregistration removes it only if it names the identity that is registered.
  pub run_refines :
      (rs : List Request) (f : RegistryFile) (t : Table)
      → Reads f t
      → Reads (run rs f) (replay rs f t)
  run_refines [] f t h = h
  run_refines (r ∷ rs) f t h =
      run_refines rs (execute r f) (if accepted r f then meaning r t else t) (execute-Reads r f t h)
