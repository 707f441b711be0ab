-- ===== src/Registry.antt =====
-- resource_registry.py: the registrations of managed resources, one for each kind and key.
pub mod Table
pub mod Refines
pub mod Current
use agent_session_harness.Prelude.{
  ℕ, ◌≡◌, String, Bool, true, false, not, ◌&&◌, List, [], ◌∷◌, ◌++◌, Option, none, some,
  if◌then◌else◌, same, string_eq, leb, length, any, Except, returned, thrown,
}
use agent_session_harness.Resources.State.{ManagedResource}

pub record ResourceRegistration : Type 0 where
  pub registration_id : String
  pub resource : ManagedResource
  pub registered_at : ℕ

-- `unreadable` stands for the texts that are no document: not JSON, no object, another schema.
pub data RegistryError : Type 0 where
  conflict contract too_large unreadable : RegistryError

-- What the file of the registry holds, if it exists: no document, or one with these registrations.
pub data Content : Type 0 where
  no_document : Content
  document : List ResourceRegistration → Content

abbrev pub RegistryFile : Type 0
RegistryFile = Option Content

unfoldable pub has_key : String → String → ResourceRegistration → Bool
has_key kind key item = same item.resource.kind kind && same item.resource.resource_key key

unfoldable pub has_identity : String → String → String → ResourceRegistration → Bool
unfolding has_key
has_identity kind key id item = has_key kind key item && same item.registration_id id

-- `next((item for item in … if …), None)`
unfoldable pub find :
    (ResourceRegistration → Bool) → List ResourceRegistration → Option ResourceRegistration
find p [] = none
find p (item ∷ items) = if p item then some item else find p items

-- The items for which the test fails.
unfoldable pub without :
    (ResourceRegistration → Bool) → List ResourceRegistration → List ResourceRegistration
without p [] = []
without p (item ∷ items) = let rest = without p items in if p item then rest else item ∷ rest

-- All items but the first for which the test holds, which is the object that `next` has found.
unfoldable pub without_first :
    (ResourceRegistration → Bool) → List ResourceRegistration → List ResourceRegistration
without_first p [] = []
without_first p (item ∷ items) =
    let rest = without_first p items in if p item then items else item ∷ rest

unfoldable pub has_duplicates : List ResourceRegistration → Bool
unfolding has_key
has_duplicates [] = false
has_duplicates (item ∷ items) =
    if any (has_key item.resource.kind item.resource.resource_key) items
    then true
    else has_duplicates items

abbrev pub max_registrations : ℕ
max_registrations = 1024

-- The validators of a document.
unfoldable pub is_document : List ResourceRegistration → Bool
unfolding has_duplicates
is_document items = leb (length items) max_registrations && not (has_duplicates items)

-- `bytes` is the size of the canonical text of a document.
module _ (bytes : List ResourceRegistration → ℕ) (max_bytes : ℕ) where
  unfoldable pub read_document : RegistryFile → Except RegistryError (List ResourceRegistration)
  unfolding is_document
  read_document none = returned []
  read_document (some no_document) = thrown unreadable
  read_document (some (document items)) =
      if not (leb (bytes items) max_bytes)
      then thrown too_large
      else if is_document items
      then returned items
      else thrown contract

  unfoldable pub write_document :
      {A : Type 0}
      → A
      → List ResourceRegistration
      → RegistryFile
      → Except RegistryError A × RegistryFile
  write_document answer items file =
      if leb (bytes items) max_bytes
      then (returned answer, some (document items))
      else (thrown too_large, file)

  -- `id` is the fresh token, `now` the time.
  unfoldable pub register_among :
      ResourceRegistration
      → List ResourceRegistration
      → RegistryFile
      → Except RegistryError ResourceRegistration × RegistryFile
  unfolding write_document is_document without has_key
  register_among registration items file =
      let kept =
        without (has_key registration.resource.kind registration.resource.resource_key) items in
      if is_document (kept ++ registration ∷ [])
      then write_document registration (kept ++ registration ∷ []) file
      else (thrown contract, file)

  unfoldable pub register :
      String
      → ManagedResource
      → ℕ
      → RegistryFile
      → Except RegistryError ResourceRegistration × RegistryFile
  unfolding read_document register_among
  register id resource now file = elim (read_document file) [
    | thrown e ↦ (thrown e, file)
    | returned items ↦
        register_among (record { registration_id = id; resource = resource; registered_at = now })
          items file
  ]

  unfoldable pub unregister_among :
      String
      → String
      → String
      → List ResourceRegistration
      → RegistryFile
      → Except RegistryError (Unit {0}) × RegistryFile
  unfolding find has_key without_first write_document
  unregister_among kind key id items file = elim (find (has_key kind key) items) [
    | none ↦ (returned tt, file)
    | some current ↦
        if same current.registration_id id
        then write_document tt (without_first (has_key kind key) items) file
        else (thrown conflict, file)
  ]

  unfoldable pub unregister :
      String → String → String → RegistryFile → Except RegistryError (Unit {0}) × RegistryFile
  unfolding read_document unregister_among
  unregister kind key id file = elim (read_document file) [
    | thrown e ↦ (thrown e, file)
    | returned items ↦ unregister_among kind key id items file
  ]

  unfoldable pub is_current : ResourceRegistration → RegistryFile → Except RegistryError Bool
  unfolding read_document has_identity
  is_current item file = elim (read_document file) [
    | thrown e ↦ thrown e
    | returned items ↦ returned (
        any (has_identity item.resource.kind item.resource.resource_key item.registration_id) items)
  ]

  unfoldable pub resolve_current :
      String → String → String → RegistryFile → Except RegistryError (Option ResourceRegistration)
  unfolding read_document has_identity find
  resolve_current kind key id file = elim (read_document file) [
    | thrown e ↦ thrown e
    | returned items ↦ returned (find (has_identity kind key id) items)
  ]

  unfoldable pub list : RegistryFile → Except RegistryError (List ResourceRegistration)
  unfolding read_document
  list file = read_document file
