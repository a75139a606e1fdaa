-- ===== src/StateDb/Groups.antt =====
-- statedb/treeupdate.go: the updates of `propagateRoot`, grouped by the keys of their leaves.
use vocdoni.Base.{
  Bool-cases, Bytes, List, [], ap, bytes_eq, eq_of_bytes_eq, false, if◌then◌else◌, inl, inr, refl,
  sym, ◌++◌, ◌∙◌, ◌∷◌, ◌≡◌,
}
use vocdoni.StateDb.Trees.{Arbo, Update, add_update, by_key}
use mathlib.Core.List.{append_assoc, append-nil}

-- The updates of the leaf with a key, in their order.
unfoldable pub asked : Bytes → List Update → List Update
asked key [] = []
asked key (u ∷ us) = if bytes_eq u.key key then u ∷ asked key us else asked key us

unfoldable pub group_at : Bytes → List (Bytes × List Update) → List Update
group_at key [] = []
group_at key ((j, us) ∷ rest) = if bytes_eq j key then us else group_at key rest

unfoldable pub Absent : Bytes → List (Bytes × List Update) → Type 0
Absent key [] = Unit
Absent key ((j, us) ∷ rest) = (bytes_eq j key ≡ false) × Absent key rest

unfoldable pub AreSingle : List (Bytes × List Update) → Type 0
AreSingle [] = Unit
AreSingle ((j, us) ∷ rest) = Absent j rest × AreSingle rest

pub group_at-nil :
    (key : Bytes) (g : List (Bytes × List Update)) → Absent key g → group_at key g ≡ []
unfolding group_at Absent
group_at-nil key [] h = refl
group_at-nil key ((j, us) ∷ rest) (h, later) = rw h (group_at-nil key rest later)

module _ (A : Arbo) where
  add_update-Absent :
      (u : Update) (key : Bytes) (g : List (Bytes × List Update))
      → bytes_eq u.key key ≡ false
      → Absent key g
      → Absent key (add_update A u g)
  unfolding add_update Absent
  add_update-Absent u key [] differ h = (differ, tt)
  add_update-Absent u key ((j, us) ∷ rest) differ (h, later) =
      elim (Bool-cases (bytes_eq u.key j)) [
        | inl same ↦ rw same (h, later)
        | inr other ↦ rw other (h, add_update-Absent u key rest differ later)
      ]

  add_update-AreSingle :
      (u : Update) (g : List (Bytes × List Update)) → AreSingle g → AreSingle (add_update A u g)
  unfolding add_update AreSingle Absent
  add_update-AreSingle u [] h = (tt, tt)
  add_update-AreSingle u ((j, us) ∷ rest) (h, later) = elim (Bool-cases (bytes_eq u.key j)) [
    | inl same ↦ rw same (h, later)
    | inr other ↦ rw other (add_update-Absent u j rest other h, add_update-AreSingle u rest later)
  ]

  pub by_key-AreSingle :
      (us : List Update) (g : List (Bytes × List Update)) → AreSingle g → AreSingle (by_key A us g)
  unfolding by_key
  by_key-AreSingle [] g h = h
  by_key-AreSingle (u ∷ us) g h =
      by_key-AreSingle us (add_update A u g) (add_update-AreSingle u g h)

  group_at-add_update :
      (key : Bytes) (u : Update) (g : List (Bytes × List Update))
      → group_at key (add_update A u g)
        ≡ group_at key g ++ (if bytes_eq u.key key then u ∷ [] else [])
  unfolding group_at add_update
  group_at-add_update key u [] = refl
  group_at-add_update key u ((j, us) ∷ rest) = elim (Bool-cases (bytes_eq u.key j)) [
    | inl same ↦ elim (Bool-cases (bytes_eq j key)) [
      | inl found ↦ rw (same, found, eq_of_bytes_eq u.key j same, found) refl
      | inr away ↦
          rw (same, away, eq_of_bytes_eq u.key j same, away) (sym (append-nil (group_at key rest)))
    ]
    | inr other ↦ elim (Bool-cases (bytes_eq j key)) [
      | inl found ↦
          let differ = ap (bytes_eq u.key) (sym (eq_of_bytes_eq j key found)) ∙ other in
          rw (other, found, differ) (sym (append-nil us))
      | inr away ↦ rw (other, away) (group_at-add_update key u rest)
    ]
  ]

  pub group_at-by_key :
      (key : Bytes) (us : List Update) (g : List (Bytes × List Update))
      → group_at key (by_key A us g) ≡ group_at key g ++ asked key us
  unfolding by_key asked
  group_at-by_key key [] g = sym (append-nil (group_at key g))
  group_at-by_key key (u ∷ us) g =
      group_at-by_key key us (add_update A u g)
      ∙ ap (λ (x : List Update). x ++ asked key us) (group_at-add_update key u g)
      ∙ elim (Bool-cases (bytes_eq u.key key)) [
        | inl same ↦ rw same (append_assoc (group_at key g) (u ∷ []) (asked key us))
        | inr other ↦ rw other (append_assoc (group_at key g) [] (asked key us))
      ]
