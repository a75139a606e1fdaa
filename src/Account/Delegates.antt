-- ===== src/Account/Delegates.antt =====
-- `Account.AddDelegate` and `Account.DelDelegate` (vochain/account.go).
use vocdoni.Base.{
  Bool-cases, Bytes, List, [], arith, bytes_eq, bytes_eq_refl, eq_of_bytes_eq, false, get_or,
  get_or-set_ne, inl, inr, length, ltb, refl, set, suc, sym, take, true, zero, ℕ, ◌+◌, ◌-◌, ◌<◌,
  ◌∙◌, ◌∷◌, ◌≡◌, ◌≢◌, ◌≤◌, dec_lt, ap, get_or-set_self, get_or-take, length-set, length-take,
  ℕ_discrete, ◌++◌, ◌↔◌, length-append,
}
use vocdoni.Account.{contains, del_loop, Account, del_delegate, is_delegate, add_delegate}
use vocdoni.Action.{ok}

-- No two entries of the list are equal.
abbrev pub IsDistinct : List Bytes → Type 0
IsDistinct l = (i j : ℕ) → i < length l → j < length l → get_or l i [] ≡ get_or l j [] → i ≡ j

contains_at :
    (x : Bytes) (l : List Bytes)
    → contains x l ≡ true
    → (i : ℕ) × (i < length l) × (get_or l i [] ≡ x)
unfolding contains
contains_at x [] h = absurd (cc)
contains_at x (d ∷ ds) h = elim (Bool-cases (bytes_eq x d)) [
  | inl e ↦ (0, omega arith, sym (eq_of_bytes_eq x d e))
  | inr e ↦ let (i, lt, q) = contains_at x ds (ground arith) in (suc i, omega arith, q)
]

contains_of_at :
    (x : Bytes) (l : List Bytes) (i : ℕ) → i < length l → get_or l i [] ≡ x → contains x l ≡ true
unfolding contains
contains_of_at x [] i h e = elim h [ ]
contains_of_at x (d ∷ ds) zero h e = rw (e, bytes_eq_refl x)
contains_of_at x (d ∷ ds) (suc i) h e = ground (arith, contains_of_at x ds i)

bytes_eq-false : (x y : Bytes) → x ≢ y → bytes_eq x y ≡ false
bytes_eq-false x y h = ground (arith, eq_of_bytes_eq x y)

-- Rounds that meet other entries only change nothing.
del_loop_keep :
    (r i m : ℕ) (addr : Bytes) (arr : List Bytes)
    → ((j : ℕ) → i ≤ j → j < i + r → addr ≢ get_or arr j [])
    → del_loop r i m addr arr ≡ ok (take m arr)
unfolding del_loop
del_loop_keep zero i m addr arr h = refl
del_loop_keep (suc r) i m addr arr h =
    rw (bytes_eq-false addr (get_or arr i []) (h i (omega arith) (omega arith)))
      (del_loop_keep r (i + 1) m addr arr (λ j a b. h j (omega arith) (omega arith)))

module _ (addr : Bytes) (arr : List Bytes) (pos : ℕ) where
  abbrev OnlyAt : ℕ → Type 0
  OnlyAt m = (j : ℕ) → j < m → addr ≡ get_or arr j [] → j ≡ pos

  -- The last entry takes the place of the one that is found.
  del_loop_found :
      (r i m : ℕ)
      → length arr ≡ m
      → pos < m
      → addr ≡ get_or arr pos []
      → OnlyAt m
      → i ≤ pos
      → i + r ≡ m
      → del_loop r i m addr arr ≡ ok (take (m - 1) (set arr pos (get_or arr (m - 1) [])))
  unfolding del_loop
  del_loop_found zero i m len lt at only le eq = absurd (omega arith)
  del_loop_found (suc r) i m len lt at only le eq = elim (dec_lt i pos) [
    | yes before ↦
        rw
          (bytes_eq-false addr (get_or arr i [])
            (λ e. absurd (omega (arith, only i (omega arith) e))))
          (del_loop_found r (i + 1) m len lt at only (omega arith) (omega arith))
    | no here ↦
        let e : i ≡ pos = omega arith in
        let test : bytes_eq addr (get_or arr i []) ≡ true = rw (e, ← at) (bytes_eq_refl addr) in
        let inside : ltb i m ≡ true = ground arith in
        rw (test, inside, e)
          (del_loop_keep r (pos + 1) (m - 1) addr (set arr pos (get_or arr (m - 1) [])) (λ j a b q.
            absurd (
              omega (
                arith,
                only j (omega arith)
                    (q ∙ get_or-set_ne arr pos j (get_or arr (m - 1) []) [] (omega arith)),
              ))))
  ]

-- The list with its entry `pos` replaced by the last one, which is cut off.
abbrev moved : List Bytes → ℕ → List Bytes
moved l pos = take (length l - 1) (set l pos (get_or l (length l - 1) []))

module _ (l : List Bytes) (pos : ℕ) (lt : pos < length l) where
  length-moved : length (moved l pos) + 1 ≡ length l
  length-moved = omega (
    arith,
    length-take (length l - 1) (set l pos (get_or l (length l - 1) [])),
    length-set l pos (get_or l (length l - 1) []),
  )

  moved_self : pos < length l - 1 → get_or (moved l pos) pos [] ≡ get_or l (length l - 1) []
  moved_self h =
      get_or-take (length l - 1) (set l pos (get_or l (length l - 1) [])) pos [] h
      ∙ get_or-set_self l pos (get_or l (length l - 1) []) [] lt

  moved_ne : (i : ℕ) → i < length l - 1 → pos ≢ i → get_or (moved l pos) i [] ≡ get_or l i []
  moved_ne i h ne =
      get_or-take (length l - 1) (set l pos (get_or l (length l - 1) [])) i [] h
      ∙ get_or-set_ne l pos i (get_or l (length l - 1) []) [] ne

module _ (addr : Bytes) (l : List Bytes) (pos : ℕ) (lt : pos < length l) where
  contains-moved_to :
      (x : Bytes)
      → IsDistinct l
      → get_or l pos [] ≡ addr
      → contains x (moved l pos) ≡ true
      → (contains x l ≡ true) × (x ≢ addr)
  contains-moved_to x distinct at h =
      let (i, inside, e) = contains_at x (moved l pos) h in
      let small : i < length l - 1 = omega (arith, length-moved l pos lt) in
      elim (ℕ_discrete pos i) [
        | yes same ↦
            let last : get_or l (length l - 1) [] ≡ x =
              sym (moved_self l pos lt (omega arith))
              ∙ ap (λ k. get_or (moved l pos) k []) same
              ∙ e in
            (
              contains_of_at x l (length l - 1) (omega arith) last,
              λ q.
                  absurd (
                    omega
                      (arith, distinct (length l - 1) pos (omega arith) lt (last ∙ q ∙ sym at))),
            )
        | no other ↦
            let found : get_or l i [] ≡ x = sym (moved_ne l pos lt i small other) ∙ e in
            (
              contains_of_at x l i (omega arith) found,
              λ q. other (sym (distinct i pos (omega arith) lt (found ∙ q ∙ sym at))),
            )
      ]

  contains-moved_of :
      (x : Bytes)
      → get_or l pos [] ≡ addr
      → contains x l ≡ true
      → x ≢ addr
      → contains x (moved l pos) ≡ true
  contains-moved_of x at h ne =
      let (i, inside, e) = contains_at x l h in
      let apart : pos ≢ i = λ q. ne (sym e ∙ ap (λ k. get_or l k []) (sym q) ∙ at) in
      elim (dec_lt i (length l - 1)) [
        | yes early ↦
            contains_of_at x (moved l pos) i (omega (arith, length-moved l pos lt))
              (moved_ne l pos lt i early apart ∙ e)
        | no late ↦
            let is_last : length l - 1 ≡ i = omega arith in
            contains_of_at x (moved l pos) pos (omega (arith, length-moved l pos lt))
              (moved_self l pos lt (omega arith) ∙ ap (λ k. get_or l k []) is_last ∙ e)
      ]

del_delegate_at :
    (addr : Bytes) (a : Account) (pos : ℕ)
    → pos < length a.delegate_addrs
    → addr ≡ get_or a.delegate_addrs pos []
    → OnlyAt addr a.delegate_addrs pos (length a.delegate_addrs)
    → del_delegate addr a ≡ ok (record a { delegate_addrs = moved a.delegate_addrs pos })
unfolding del_delegate
del_delegate_at addr a pos lt at only = rw (
  del_loop_found addr a.delegate_addrs pos (length a.delegate_addrs) 0 (length a.delegate_addrs)
      refl lt at only (omega arith) (omega arith),
  del_delegate,
)

-- Of a list without repetitions that holds the address, `del_delegate` removes it and nothing
-- else: the list gets shorter by one, and any other address is a delegate as before.
pub del_delegate_removes :
    (addr : Bytes) (a : Account)
    → IsDistinct a.delegate_addrs
    → is_delegate addr a ≡ true
    → (ds : List Bytes) × (del_delegate addr a ≡ ok (record a { delegate_addrs = ds }))
      × (length ds + 1 ≡ length a.delegate_addrs)
      × ((x : Bytes)
          → (is_delegate x (record a { delegate_addrs = ds }) ≡ true)
            ↔ ((is_delegate x a ≡ true) × (x ≢ addr)))
unfolding del_delegate is_delegate
del_delegate_removes addr a distinct h =
    let l : List Bytes = a.delegate_addrs in
    let (pos, lt, at) = contains_at addr l h in
    (
      moved l pos,
      del_delegate_at addr a pos lt (sym at) (λ j b e. distinct j pos b lt (sym e ∙ sym at)),
      length-moved l pos lt,
      λ x. (
        contains-moved_to addr l pos lt x distinct at,
        λ p. contains-moved_of addr l pos lt x at p.0 p.1,
      ),
    )

get_or-append : (l : List Bytes) (x : Bytes) → get_or (l ++ x ∷ []) (length l) [] ≡ x
get_or-append [] x = refl
get_or-append (y ∷ l) x = get_or-append l x

take-append_set :
    (l : List Bytes) (x y : Bytes) → take (length l) (set (l ++ x ∷ []) (length l) y) ≡ l
take-append_set [] x y = refl
take-append_set (z ∷ l) x y = ap (λ t. z ∷ t) (take-append_set l x y)

get_or-append_lt :
    (l : List Bytes) (x : Bytes) (i : ℕ) → i < length l → get_or (l ++ x ∷ []) i [] ≡ get_or l i []
get_or-append_lt [] x i h = elim h [ ]
get_or-append_lt (y ∷ l) x zero h = refl
get_or-append_lt (y ∷ l) x (suc i) h = get_or-append_lt l x i (omega arith)

moved-append : (l : List Bytes) (x : Bytes) → moved (l ++ x ∷ []) (length l) ≡ l
moved-append l x =
    let size : length (l ++ x ∷ []) - 1 ≡ length l = omega (arith, length-append l (x ∷ [])) in
    rw size (take-append_set l x (get_or (l ++ x ∷ []) (length l) []))

-- An address that is no delegate can be added, is one then, and deleting it restores the account.
pub add_delegate-del_delegate :
    (addr : Bytes) (a : Account)
    → is_delegate addr a ≡ false
    → let b : Account = record a { delegate_addrs = a.delegate_addrs ++ addr ∷ [] } in
      (add_delegate addr a ≡ ok b) × (is_delegate addr b ≡ true) × (del_delegate addr b ≡ ok a)
unfolding add_delegate is_delegate
add_delegate-del_delegate addr a h =
    let l : List Bytes = a.delegate_addrs in
    let size : length (l ++ addr ∷ []) ≡ length l + 1 = length-append l (addr ∷ []) in
    let only : OnlyAt addr (l ++ addr ∷ []) (length l) (length (l ++ addr ∷ [])) = λ j b e.
      elim (dec_lt j (length l)) [
        | yes early ↦
            let stored : get_or l j [] ≡ addr = sym (get_or-append_lt l addr j early) ∙ sym e in
            absurd (cc (h, contains_of_at addr l j early stored))
        | no late ↦ omega arith
      ] in
    (
      rw h,
      contains_of_at addr (l ++ addr ∷ []) (length l) (omega arith) (get_or-append l addr),
      del_delegate_at addr (record a { delegate_addrs = l ++ addr ∷ [] }) (length l) (omega arith)
            (sym (get_or-append l addr)) only
          ∙ ap (λ ds. ok (record a { delegate_addrs = ds })) (moved-append l addr),
    )
