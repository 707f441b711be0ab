-- ===== src/Registry/Table.antt =====
-- resource_registry.py: a list of registrations as a finite map from kind and key.
use agent_session_harness.Prelude.{
  ◌≤◌, ◌≡◌, ◌↔◌, inl, inr, refl, sym, subst, ◌∙◌, String, Bool, true, false, ◌&&◌, List, [], ◌∷◌,
  ◌++◌, Option, none, some, if◌then◌else◌, same, same_iff, string_eq, any, length, arith,
  Bool-cases,
}
use agent_session_harness.Registry.{
  ResourceRegistration, has_key, find, without, without_first, has_duplicates,
}

-- The registration of a kind and key.
abbrev pub at : List ResourceRegistration → String → String → Option ResourceRegistration
at items kind key = find (has_key kind key) items

abbrev pub is_key : String → String → String → String → Bool
is_key kind key kind' key' = same kind kind' && same key key'

pub at-append_one :
    (items : List ResourceRegistration) (item : ResourceRegistration) (kind key : String)
    → at items kind key ≡ none
    → at (items ++ item ∷ []) kind key ≡ (if has_key kind key item then some item else none)
unfolding find
at-append_one [] item kind key h = refl
at-append_one (x ∷ items) item kind key h = ground (arith, at-append_one items item kind key)

at-append_old :
    (items : List ResourceRegistration) (item : ResourceRegistration) (kind key : String)
    → has_key kind key item ≡ false
    → at (items ++ item ∷ []) kind key ≡ at items kind key
unfolding find
at-append_old [] item kind key h = ground arith
at-append_old (x ∷ items) item kind key h = ground (arith, at-append_old items item kind key h)

pub at-without_same :
    (items : List ResourceRegistration) (kind key : String)
    → at (without (has_key kind key) items) kind key ≡ none
unfolding find without
at-without_same [] kind key = refl
at-without_same (x ∷ items) kind key = ground (arith, at-without_same items kind key)

-- Two keys that one registration has are the same.
has_key-same :
    (x : ResourceRegistration) (kind key kind' key' : String)
    → has_key kind key x ≡ true
    → has_key kind' key' x ≡ true
    → (kind ≡ kind') × (key ≡ key')
unfolding has_key
has_key-same x kind key kind' key' h g = ground (
  arith,
  same_iff x.resource.kind kind,
  same_iff x.resource.kind kind',
  same_iff x.resource.resource_key key,
  same_iff x.resource.resource_key key',
)

at-without_other :
    (items : List ResourceRegistration) (kind key kind' key' : String)
    → ¬ ((kind ≡ kind') × (key ≡ key'))
    → at (without (has_key kind key) items) kind' key' ≡ at items kind' key'
unfolding find without
at-without_other [] kind key kind' key' n = refl
at-without_other (x ∷ items) kind key kind' key' n =
    ground (arith, at-without_other items kind key kind' key' n, has_key-same x kind key kind' key')

any-without :
    (p q : ResourceRegistration → Bool) (items : List ResourceRegistration)
    → any p items ≡ false
    → any p (without q items) ≡ false
unfolding without
any-without p q [] h = refl
any-without p q (x ∷ items) h = ground (arith, any-without p q items)

any-without_first :
    (p q : ResourceRegistration → Bool) (items : List ResourceRegistration)
    → any p items ≡ false
    → any p (without_first q items) ≡ false
unfolding without_first
any-without_first p q [] h = refl
any-without_first p q (x ∷ items) h = ground (arith, any-without_first p q items)

at-none :
    (items : List ResourceRegistration) (kind key : String)
    → any (has_key kind key) items ≡ false
    → at items kind key ≡ none
unfolding find
at-none [] kind key h = refl
at-none (x ∷ items) kind key h = ground (arith, at-none items kind key)

pub has_duplicates-without_first :
    (q : ResourceRegistration → Bool) (items : List ResourceRegistration)
    → has_duplicates items ≡ false
    → has_duplicates (without_first q items) ≡ false
unfolding has_duplicates without_first
has_duplicates-without_first q [] h = refl
has_duplicates-without_first q (x ∷ items) h = ground (
  arith,
  has_duplicates-without_first q items,
  any-without_first (has_key x.resource.kind x.resource.resource_key) q items,
)

pub length-without_first :
    (q : ResourceRegistration → Bool) (items : List ResourceRegistration)
    → length (without_first q items) ≤ length items
unfolding without_first
length-without_first q [] = omega arith
length-without_first q (x ∷ items) = ground (arith, length-without_first q items)

-- The registration of an item's own key in the rest of a list without duplicates.
at-rest :
    (x : ResourceRegistration) (items : List ResourceRegistration) (kind key : String)
    → has_duplicates (x ∷ items) ≡ false
    → has_key kind key x ≡ true
    → at items kind key ≡ none
unfolding has_duplicates has_key
at-rest x items kind key h k =
    let p : x.resource.kind ≡ kind = (same_iff x.resource.kind kind).0 (ground arith) in
    let q : x.resource.resource_key ≡ key =
      (same_iff x.resource.resource_key key).0 (ground arith) in
    subst (λ a. at items a key ≡ none) p
      (subst (λ a. at items x.resource.kind a ≡ none) q
        (at-none items x.resource.kind x.resource.resource_key (ground arith)))

at-without_first_same :
    (items : List ResourceRegistration) (kind key : String)
    → has_duplicates items ≡ false
    → at (without_first (has_key kind key) items) kind key ≡ none
unfolding find without_first has_duplicates
at-without_first_same [] kind key h = refl
at-without_first_same (x ∷ items) kind key h = elim (Bool-cases (has_key kind key x)) [
  | inl k ↦ ground (arith, k, at-rest x items kind key h k)
  | inr k ↦ ground (arith, k, at-without_first_same items kind key)
]

at-without_first_other :
    (items : List ResourceRegistration) (kind key kind' key' : String)
    → ¬ ((kind ≡ kind') × (key ≡ key'))
    → at (without_first (has_key kind key) items) kind' key' ≡ at items kind' key'
unfolding find without_first
at-without_first_other [] kind key kind' key' n = refl
at-without_first_other (x ∷ items) kind key kind' key' n =
    ground (
      arith,
      at-without_first_other items kind key kind' key' n,
      has_key-same x kind key kind' key',
    )

is_key_iff :
    (kind key kind' key' : String)
    → (is_key kind key kind' key' ≡ true) ↔ ((kind ≡ kind') × (key ≡ key'))
is_key_iff kind key kind' key' = (
  λ h. ((same_iff kind kind').0 (ground arith), (same_iff key key').0 (ground arith)),
  λ h. ground (arith, (same_iff kind kind').1 h.0, (same_iff key key').1 h.1),
)

-- The abstract registry: what is registered under a kind and a key.
abbrev pub Table : Type 0
Table = String → String → Option ResourceRegistration

abbrev pub put : String → String → Option ResourceRegistration → Table → Table
put kind key value t kind' key' = if is_key kind key kind' key' then value else t kind' key'

-- A table that is changed at one key agrees with the list at that key and at all others.
put-at :
    (items : List ResourceRegistration) (t : Table) (kind key : String)
    (value : Option ResourceRegistration)
    → at items kind key ≡ value
    → ((kind' key' : String)
        → ¬ ((kind ≡ kind') × (key ≡ key'))
        → at items kind' key' ≡ t kind' key')
    → (kind' key' : String) → at items kind' key' ≡ put kind key value t kind' key'
put-at items t kind key value here there kind' key' =
    elim (Bool-cases (is_key kind key kind' key')) [
      | inl h ↦
          let (p, q) = (is_key_iff kind key kind' key').0 h in
          subst (λ k. at items k key' ≡ put kind key value t k key') p
            (subst (λ k. at items kind k ≡ put kind key value t kind k) q
              (here ∙ sym (ground (arith, (is_key_iff kind key kind key).1 (refl, refl)))))
      | inr h ↦ ground (
        arith,
        there kind' key' (λ p. absurd (ground (arith, (is_key_iff kind key kind' key').1 p))),
      )
    ]

-- Registering replaces what its kind and key had.
pub at-registered :
    (items : List ResourceRegistration) (item : ResourceRegistration) (kind key : String)
    → at
        (without (has_key item.resource.kind item.resource.resource_key) items ++ item ∷ [])
        kind
        key
      ≡ put item.resource.kind item.resource.resource_key (some item) (at items) kind key
unfolding has_key
at-registered items item =
    let kind' = item.resource.kind in
    let key' = item.resource.resource_key in
    let kept = without (has_key kind' key') items in
    put-at (kept ++ item ∷ []) (at items) kind' key' (some item)
      (at-append_one kept item kind' key' (at-without_same items kind' key')
        ∙ ground (arith, (is_key_iff kind' key' kind' key').1 (refl, refl)))
      (λ kind key n.
        at-append_old kept item kind key (ground (arith, other kind key n))
        ∙ at-without_other items kind' key' kind key n)
  where
    other :
        (kind key : String)
        → ¬ ((item.resource.kind ≡ kind) × (item.resource.resource_key ≡ key))
        → is_key item.resource.kind item.resource.resource_key kind key ≡ false
    other kind key n =
        elim (Bool-cases (is_key item.resource.kind item.resource.resource_key kind key)) [
          | inl h ↦
              absurd (n ((is_key_iff item.resource.kind item.resource.resource_key kind key).0 h))
          | inr h ↦ h
        ]

-- Unregistering leaves nothing for its kind and key.
pub at-unregistered :
    (items : List ResourceRegistration) (kind key kind' key' : String)
    → has_duplicates items ≡ false
    → at (without_first (has_key kind key) items) kind' key'
      ≡ put kind key none (at items) kind' key'
at-unregistered items kind key kind' key' h =
    put-at (without_first (has_key kind key) items) (at items) kind key none
      (at-without_first_same items kind key h) (at-without_first_other items kind key) kind' key'
