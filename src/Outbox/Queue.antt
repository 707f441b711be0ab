-- ===== src/Outbox/Queue.antt =====
-- outbox.py: what a queue file holds, and what reading and appending make of it.
pub mod Keys
pub mod Split
use agent_session_harness.Prelude.{
  ℕ, String, ◌+◌, ◌≡◌, ◌⊎◌, inl, inr, refl, Bool, true, false, List, [], ◌∷◌, ◌++◌, Option, none,
  some, map, leb, arith, subst, sym, ap, ◌∙◌, Except, returned, thrown, Except-cases, Bool-cases,
}
use agent_session_harness.Outbox.{
  Line, File, Encoding, blank, invalid, record_line, read_lines, read_file, line_of, append_record,
  append_records, replace_file, QueueError, MirrorOutbox, Outbox, AdapterRequest, enqueue,
  enqueue_entry, new_entry,
}

module _ {A : Type 0} where
  abbrev pub In : A → List A → Type 0
  In a [] = ⊥
  In a (x ∷ xs) = (x ≡ a) ⊎ In a xs

  -- The file has a line that is this record.
  abbrev pub Holds : A → List (Line A) → Type 0
  Holds a [] = ⊥
  Holds a (l ∷ ls) = ((n : ℕ) × (l ≡ record_line n a)) ⊎ Holds a ls

  abbrev pub InFile : A → File A → Type 0
  InFile a none = ⊥
  InFile a (some ls) = Holds a ls

  record_line-injective : (k m : ℕ) (x a : A) → record_line k x ≡ record_line m a → x ≡ a
  record_line-injective k m x a p = cc

  pub In-append_left : (a : A) (xs ys : List A) → In a xs → In a (xs ++ ys)
  In-append_left a [] ys h = absurd h
  In-append_left a (x ∷ xs) ys (inl p) = inl p
  In-append_left a (x ∷ xs) ys (inr h) = inr (In-append_left a xs ys h)

  pub In-append_right : (a : A) (xs ys : List A) → In a ys → In a (xs ++ ys)
  In-append_right a [] ys h = h
  In-append_right a (x ∷ xs) ys h = inr (In-append_right a xs ys h)

  pub Holds-append_left : (a : A) (ks ls : List (Line A)) → Holds a ks → Holds a (ks ++ ls)
  Holds-append_left a [] ls h = absurd h
  Holds-append_left a (k ∷ ks) ls (inl p) = inl p
  Holds-append_left a (k ∷ ks) ls (inr h) = inr (Holds-append_left a ks ls h)

  pub Holds-append_right : (a : A) (ks ls : List (Line A)) → Holds a ls → Holds a (ks ++ ls)
  Holds-append_right a [] ls h = h
  Holds-append_right a (k ∷ ks) ls h = inr (Holds-append_right a ks ls h)

  -- A record is read where the rest is.
  read_lines-record :
      (n k : ℕ) (x : A) (ls : List (Line A)) (xs : List A)
      → read_lines n (record_line k x ∷ ls) ≡ returned xs
      → (ys : List A) × (read_lines (n + 1) ls ≡ returned ys) × (x ∷ ys ≡ xs)
  unfolding read_lines
  read_lines-record n k x ls xs e = elim (Except-cases (read_lines (n + 1) ls)) [
    | inl (ys, q) ↦ (ys, q, ground (arith, q))
    | inr (f, q) ↦ ground (arith, q)
  ]

  pub read_lines-In :
      (n : ℕ) (a : A) (ls : List (Line A)) (xs : List A)
      → read_lines n ls ≡ returned xs
      → Holds a ls
      → In a xs
  unfolding read_lines
  read_lines-In n a [] xs e h = absurd h
  read_lines-In n a (blank k ∷ ls) xs e (inl (m, p)) = cc
  read_lines-In n a (blank k ∷ ls) xs e (inr h) = read_lines-In (n + 1) a ls xs e h
  read_lines-In n a (invalid k ∷ ls) xs e h = cc
  read_lines-In n a (record_line k x ∷ ls) xs e h =
      let (ys, q, p) = read_lines-record n k x ls xs e in
      subst (In a) p (elim h [
        | inl (m, r) ↦ inl (record_line-injective k m x a r)
        | inr t ↦ inr (read_lines-In (n + 1) a ls ys q t)
      ])

  pub read_file-In :
      (limit : ℕ) (a : A) (f : File A) (xs : List A)
      → read_file limit f ≡ returned xs
      → InFile a f
      → In a xs
  unfolding read_file
  read_file-In limit a none xs e h = absurd h
  read_file-In limit a (some ls) xs e h = read_lines-In 1 a ls xs (ground arith) h

  module _ (c : Encoding A) where
    line_of-Holds : (a : A) → c.is_split a ≡ false → line_of c a ≡ record_line (c.bytes a) a
    unfolding line_of
    line_of-Holds a h = ground arith

    pub InFile-append_record : (a x : A) (f : File A) → InFile a f → InFile a (append_record c x f)
    unfolding append_record
    InFile-append_record a x none h = absurd h
    InFile-append_record a x (some ls) h = Holds-append_left a ls (line_of c x ∷ []) h

    pub append_record-InFile :
        (a : A) (f : File A) → c.is_split a ≡ false → InFile a (append_record c a f)
    unfolding append_record
    append_record-InFile a none h = inl (c.bytes a, line_of-Holds a h)
    append_record-InFile a (some ls) h =
        Holds-append_right a ls (line_of c a ∷ []) (inl (c.bytes a, line_of-Holds a h))

    pub InFile-append_records :
        (a : A) (xs : List A) (f : File A) → InFile a f → InFile a (append_records c xs f)
    unfolding append_records
    InFile-append_records a [] f h = h
    InFile-append_records a (x ∷ xs) f h =
        InFile-append_records a xs (append_record c x f) (InFile-append_record a x f h)

    pub append_records-InFile :
        (a : A) (xs : List A) (f : File A)
        → c.is_split a ≡ false
        → In a xs
        → InFile a (append_records c xs f)
    unfolding append_records
    append_records-InFile a [] f h i = absurd i
    append_records-InFile a (x ∷ xs) f h (inl p) =
        InFile-append_records a xs (append_record c x f)
          (subst (λ y. InFile a (append_record c y f)) (sym p) (append_record-InFile a f h))
    append_records-InFile a (x ∷ xs) f h (inr i) =
        append_records-InFile a xs (append_record c x f) h i

    pub replace_file-InFile :
        (a : A) (xs : List A) → c.is_split a ≡ false → In a xs → InFile a (replace_file c xs)
    unfolding replace_file
    replace_file-InFile a [] h i = absurd i
    replace_file-InFile a (x ∷ xs) h (inl p) = inl (c.bytes a, ap (line_of c) p ∙ line_of-Holds a h)
    replace_file-InFile a (x ∷ xs) h (inr i) = inr (replace_file-InFile a xs h i)

module _ (b : MirrorOutbox) where
  -- An enqueue leaves the files as they were, or appends the new entry.
  pub enqueue_cases :
      (adapter : String) (request : AdapterRequest) (now : ℕ) (o : Outbox)
      → ((enqueue b adapter request now o).1 ≡ o)
        ⊎ ((enqueue b adapter request now o).1
            ≡ record o { queue = append_record b.entries (new_entry adapter request now) o.queue })
  unfolding enqueue enqueue_entry
  enqueue_cases adapter request now o = ground arith
