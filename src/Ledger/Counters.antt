-- ===== src/Ledger/Counters.antt =====
-- Python's `Counter` over text keys, as the ledger uses it: a missing key counts 0, and a key whose
-- count falls to 0 is deleted. The order of the keys is not observed.
use agent_session_harness.Prelude.{
  ℕ, ◌<◌, String, ◌≡◌, refl, false, List, [], ◌∷◌, map, arith, str_eq, eq_iff, if◌then◌else◌,
  is_nonempty,
}

abbrev pub Counter : Type 0
Counter = List (String × ℕ)

unfoldable pub get : Counter → String → ℕ
get [] k = 0
get ((j, n) ∷ c) k = if str_eq j k then n else get c k

-- c[k] = n
unfoldable pub put : String → ℕ → Counter → Counter
put k n [] = (k, n) ∷ []
put k n ((j, m) ∷ c) = if str_eq j k then (k, n) ∷ c else (j, m) ∷ put k n c

-- c.pop(k, None), del c[k]
unfoldable pub remove : String → Counter → Counter
remove k [] = []
remove k ((j, n) ∷ c) = let rest = remove k c in if str_eq j k then rest else (j, n) ∷ rest

abbrev pub keys : Counter → List String
keys = map λ e. e.0

pub get-put :
    (k j : String) (n : ℕ) (c : Counter) → get (put k n c) j ≡ (if str_eq k j then n else get c j)
unfolding get put
get-put k j n [] = refl
get-put k j n ((i, m) ∷ c) = ground (arith, eq_iff k j, eq_iff i k, eq_iff i j, get-put k j n c)

pub get-remove :
    (k j : String) (c : Counter) → get (remove k c) j ≡ (if str_eq k j then 0 else get c j)
unfolding get remove
get-remove k j [] = ground arith
get-remove k j ((i, m) ∷ c) = ground (arith, eq_iff k j, eq_iff i k, eq_iff i j, get-remove k j c)

-- No key is kept with the count 0.
abbrev pub IsPositive : Counter → Type 0
IsPositive [] = Unit {0}
IsPositive ((j, n) ∷ c) = (0 < n) × IsPositive c

pub put-IsPositive :
    (k : String) (n : ℕ) (c : Counter) → 0 < n → IsPositive c → IsPositive (put k n c)
unfolding put
put-IsPositive k n [] h p = (h, tt)
put-IsPositive k n ((j, m) ∷ c) h p = ground (arith, put-IsPositive k n c h p.1)

pub remove-IsPositive : (k : String) (c : Counter) → IsPositive c → IsPositive (remove k c)
unfolding remove
remove-IsPositive k [] p = tt
remove-IsPositive k ((j, m) ∷ c) p = ground (arith, remove-IsPositive k c p.1)

-- A counter is false as a truth value exactly when it counts 0 everywhere.
pub empty-of_zero :
    (c : Counter) → IsPositive c → ((k : String) → get c k ≡ 0) → is_nonempty c ≡ false
unfolding get
empty-of_zero [] p h = refl
empty-of_zero ((j, n) ∷ c) p h = absurd (ground (arith, h j, eq_iff j j))

pub zero-of_empty : (c : Counter) (k : String) → is_nonempty c ≡ false → get c k ≡ 0
unfolding get
zero-of_empty [] k h = refl
zero-of_empty ((j, n) ∷ c) k h = absurd (ground arith)
