-- ===== src/Outbox/Queue/Keys.antt =====
-- outbox.py: a queue that is written is read back, and no two of its entries have the same adapter
-- and idempotency key.
use agent_session_harness.Prelude.{
  ℕ, ◌+◌, ◌≤◌, ◌≡◌, ◌⊎◌, inl, inr, refl, String, Bool, true, false, List, [], ◌∷◌, ◌++◌, none, map,
  same_iff, string_eq, any, Every, arith, subst, sym, ap, ◌∙◌, returned, thrown, Bool-cases,
  is_within,
}
use agent_session_harness.Outbox.{
  AdapterRequest, OutboxEntry, Encoding, line_of, read_lines, read_file, file_bytes, line_bytes,
  append_record, replace_file, encoded_bytes, Outbox, MirrorOutbox, has_pair, new_entry, read_queue,
  exceeds, QueueError, invalid_adapter, outbox_full, enqueue, enqueue_entry,
}

module _ {A : Type 0} (c : Encoding A) where
  -- No record of the list holds a character that ends a line.
  abbrev pub AreWhole : List A → Type 0
  AreWhole as' = Every (λ a. c.is_split a ≡ false) as'

  lines-bytes : (as' : List A) → file_bytes (map (line_of c) as') ≡ encoded_bytes c as'
  unfolding file_bytes line_bytes line_of encoded_bytes
  lines-bytes [] = refl
  lines-bytes (a ∷ as') = ground (arith, lines-bytes as')

  lines-read :
      (n : ℕ) (as' : List A) → AreWhole as' → read_lines n (map (line_of c) as') ≡ returned as'
  unfolding read_lines line_of
  lines-read n [] h = refl
  lines-read n (a ∷ as') (h, hs) = ground (arith, h, lines-read (n + 1) as' hs)

  -- Records without a character that ends a line, within the limit, are read as they were written.
  read_file-replace_file :
      (limit : ℕ) (as' : List A)
      → AreWhole as'
      → encoded_bytes c as' ≤ limit
      → read_file limit (replace_file c as') ≡ returned as'
  unfolding read_file replace_file
  read_file-replace_file limit as' h k = ground (arith, lines-bytes as', lines-read 1 as' h)

  pub append_record-replace_file :
      (as' : List A) (a : A)
      → append_record c a (replace_file c as') ≡ replace_file c (as' ++ a ∷ [])
  unfolding append_record replace_file
  append_record-replace_file [] a = refl
  append_record-replace_file (x ∷ as') a = ground (arith, append_record-replace_file as' a)

  pub encoded_bytes-append :
      (as' bs : List A) → encoded_bytes c (as' ++ bs) ≡ encoded_bytes c as' + encoded_bytes c bs
  unfolding encoded_bytes
  encoded_bytes-append [] bs = omega arith
  encoded_bytes-append (x ∷ as') bs = omega (arith, encoded_bytes-append as' bs)

abbrev pub SamePair : OutboxEntry → OutboxEntry → Type 0
SamePair e f = (f.adapter ≡ e.adapter) × (f.request.idempotency_key ≡ e.request.idempotency_key)

abbrev pub Fresh : OutboxEntry → List OutboxEntry → Type 0
Fresh e es = Every (λ f. ¬ SamePair e f) es

abbrev pub Distinct : List OutboxEntry → Type 0
Distinct [] = Unit
Distinct (e ∷ es) = Fresh e es × Distinct es

any-has_pair :
    (e : OutboxEntry) (es : List OutboxEntry)
    → any (has_pair e.adapter e.request.idempotency_key) es ≡ false
    → Fresh e es
unfolding has_pair
any-has_pair e [] h = tt
any-has_pair e (f ∷ es) h = (
  λ p. ground (
    arith,
    same_iff f.adapter e.adapter,
    same_iff f.request.idempotency_key e.request.idempotency_key,
    p.0,
    p.1,
  ),
  any-has_pair e es (ground arith),
)

Distinct-append :
    (es : List OutboxEntry) (e : OutboxEntry) → Distinct es → Fresh e es → Distinct (es ++ e ∷ [])
Distinct-append [] e d f = (tt, tt)
Distinct-append (x ∷ es) e (g, d) (k, f) =
    (Every-append_one es g (λ p. k (sym p.0, sym p.1)), Distinct-append es e d f)
  where
    Every-append_one :
        (xs : List OutboxEntry) → Fresh x xs → ¬ SamePair x e → Fresh x (xs ++ e ∷ [])
    Every-append_one [] g' n = (n, tt)
    Every-append_one (y ∷ xs) (m, g') n = (m, Every-append_one xs g' n)

-- The queue file holds these entries: they can be read, fit the limit and have different pairs.
pub record IsQueue (b : MirrorOutbox) (es : List OutboxEntry) (o : Outbox) : Type 0 where
  pub file : (o.queue ≡ replace_file b.entries es) ⊎ ((o.queue ≡ none) × (es ≡ []))
  pub whole : AreWhole b.entries es
  pub fits : encoded_bytes b.entries es ≤ b.max_queue_bytes
  pub distinct : Distinct es

AreWhole-append :
    (c : Encoding OutboxEntry) (es : List OutboxEntry) (e : OutboxEntry)
    → AreWhole c es
    → c.is_split e ≡ false
    → AreWhole c (es ++ e ∷ [])
AreWhole-append c [] e h k = (k, tt)
AreWhole-append c (x ∷ es) e (h, hs) k = (h, AreWhole-append c es e hs k)

module _ (b : MirrorOutbox) where
  pub read_queue-IsQueue :
      (es : List OutboxEntry) (o : Outbox) → IsQueue b es o → read_queue b o ≡ returned es
  unfolding read_queue read_file
  read_queue-IsQueue es o h = elim h.file [
    | inl p ↦
        ap (read_file b.max_queue_bytes) p
        ∙ read_file-replace_file b.entries b.max_queue_bytes es h.whole h.fits
    | inr (p, q) ↦ ap (read_file b.max_queue_bytes) p ∙ ap returned (sym q)
  ]

  pub appended-file :
      (es : List OutboxEntry) (e : OutboxEntry) (o : Outbox)
      → IsQueue b es o
      → append_record b.entries e o.queue ≡ replace_file b.entries (es ++ e ∷ [])
  unfolding append_record replace_file
  appended-file es e o h = elim h.file [
    | inl p ↦ ap (append_record b.entries e) p ∙ append_record-replace_file b.entries es e
    | inr (p, q) ↦
        ap (append_record b.entries e) p ∙ ap (λ xs. replace_file b.entries (xs ++ e ∷ [])) (sym q)
  ]

  appended-IsQueue :
      (es : List OutboxEntry) (e : OutboxEntry) (o : Outbox)
      → IsQueue b es o
      → b.entries.is_split e ≡ false
      → any (has_pair e.adapter e.request.idempotency_key) es ≡ false
      → exceeds b es e ≡ false
      → IsQueue b (es ++ e ∷ []) (record o { queue = append_record b.entries e o.queue })
  unfolding exceeds encoded_bytes
  appended-IsQueue es e o h k f x = record {
    file = inl (appended-file es e o h);
    whole = AreWhole-append b.entries es e h.whole k;
    fits = ground (arith, encoded_bytes-append b.entries es (e ∷ []));
    distinct = Distinct-append es e h.distinct (any-has_pair e es f);
  }

  abbrev pub queued : String → AdapterRequest → ℕ → Outbox → Outbox
  queued adapter request now o = record o {
    queue = append_record b.entries (new_entry adapter request now) o.queue;
  }

  -- The pair is there already and nothing changes, or an error is raised and nothing changes, or the
  -- new entry is queued behind the others.
  pub enqueue-IsQueue :
      (es : List OutboxEntry) (o : Outbox) (adapter : String) (request : AdapterRequest) (now : ℕ)
      → IsQueue b es o
      → b.entries.is_split (new_entry adapter request now) ≡ false
      → ((any (has_pair adapter request.idempotency_key) es ≡ true)
          × (enqueue b adapter request now o ≡ (returned false, o)))
        ⊎ (((e : QueueError) × (enqueue b adapter request now o ≡ (thrown e, o)))
            ⊎ ((enqueue b adapter request now o ≡ (returned true, queued adapter request now o))
                × IsQueue b
                    (es ++ new_entry adapter request now ∷ [])
                    (queued adapter request now o)))
  unfolding enqueue enqueue_entry new_entry
  enqueue-IsQueue es o adapter request now h k =
      let r = read_queue-IsQueue es o h in
      elim (Bool-cases (any (has_pair adapter request.idempotency_key) es)) [
        | inl f ↦ inl (f, ground (arith, r, f))
        | inr f ↦ elim (Bool-cases (is_within 160 adapter)) [
          | inr g ↦ inr (inl (invalid_adapter, ground (arith, r, f, g)))
          | inl g ↦ elim (Bool-cases (exceeds b es (new_entry adapter request now))) [
            | inl x ↦ inr (inl (outbox_full, ground (arith, r, f, g, x)))
            | inr x ↦ inr (
                inr (
                  ground (arith, r, f, g, x),
                  appended-IsQueue es (new_entry adapter request now) o h k f x,
                ))
          ]
        ]
      ]

  pub any-append_new :
      (es : List OutboxEntry) (adapter : String) (request : AdapterRequest) (now : ℕ)
      → any (has_pair adapter request.idempotency_key) (es ++ new_entry adapter request now ∷ [])
        ≡ true
  unfolding has_pair new_entry
  any-append_new [] adapter request now =
      ground
        (arith, same_iff adapter adapter, same_iff request.idempotency_key request.idempotency_key)
  any-append_new (e ∷ es) adapter request now =
      ground (arith, any-append_new es adapter request now)

  known-enqueue :
      (es : List OutboxEntry) (o : Outbox) (adapter : String) (request : AdapterRequest) (now : ℕ)
      → IsQueue b es o
      → any (has_pair adapter request.idempotency_key) es ≡ true
      → enqueue b adapter request now o ≡ (returned false, o)
  unfolding enqueue enqueue_entry new_entry
  known-enqueue es o adapter request now h f = ground (arith, read_queue-IsQueue es o h, f)

  -- For a queue that holds entries with different pairs within the limit, and a request whose record
  -- holds no character that ends a line: an enqueue that returns, whether it adds the request or
  -- knows its pair, leaves the request's pair in the queue, so that a repetition at any time returns
  -- false and changes nothing.
  pub enqueue-enqueue :
      (es : List OutboxEntry) (o : Outbox) (adapter : String) (request : AdapterRequest)
      (now later : ℕ) (added : Bool)
      → IsQueue b es o
      → b.entries.is_split (new_entry adapter request now) ≡ false
      → (enqueue b adapter request now o).0 ≡ returned added
      → enqueue b adapter request later (enqueue b adapter request now o).1
        ≡ (returned false, (enqueue b adapter request now o).1)
  enqueue-enqueue es o adapter request now later added h k e =
      elim (enqueue-IsQueue es o adapter request now h k) [
        | inl (f, p) ↦
            subst (λ q. enqueue b adapter request later q ≡ (returned false, q))
              (ap (λ r. r.1) (sym p)) (known-enqueue es o adapter request later h f)
        | inr (inl (x, p)) ↦ absurd (cc)
        | inr (inr (p, q)) ↦
            subst (λ q. enqueue b adapter request later q ≡ (returned false, q))
              (ap (λ r. r.1) (sym p))
              (known-enqueue _ _ adapter request later q (any-append_new es adapter request now))
      ]
