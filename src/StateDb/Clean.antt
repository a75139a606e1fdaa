-- ===== src/StateDb/Clean.antt =====
-- When a root is propagated, and which.
use vocdoni.Base.{
  Bool, Bytes, List, Option, [], ap, arith, false, if◌then◌else◌, inl, inr, none, not, refl, some,
  sym, true, ◌&&◌, ◌↔◌, ◌∙◌, ◌∷◌, ◌≡◌, ◌⊎◌,
}
use vocdoni.Action.{Result, err, ok, ok_inj, some_inj}
use vocdoni.Processes.{is_empty}
use vocdoni.StateDb.Trees.{
  Arbo, Subs, TreeConfig, TreeUpdate, Update, and_sub, apply_updates, by_key, gather_updates,
  join_updates, no_subs, propagate_root, tree_of, tree_update, update_leaves, with_root,
}

mutual
  -- Neither a tree nor one that is opened below it was written.
  pub AllClean : (A : Arbo) → TreeUpdate A → Type 0
  AllClean A (tree_update dirty t cfg path subs) = (dirty ≡ false) × SubsClean A subs

  pub SubsClean : (A : Arbo) → Subs A → Type 0
  SubsClean A no_subs = Unit
  SubsClean A (and_sub sub rest) = AllClean A sub × SubsClean A rest

nothing_asked :
    (updates : List Update) (dirty : Bool) → (is_empty updates && not dirty) ≡ true → updates ≡ []
nothing_asked [] dirty h = refl
nothing_asked (u ∷ us) dirty h = absurd (ground arith)

not_dirty :
    (updates : List Update) (dirty : Bool) → (is_empty updates && not dirty) ≡ true → dirty ≡ false
not_dirty [] true h = absurd (ground arith)
not_dirty [] false h = refl
not_dirty (u ∷ us) dirty h = absurd (ground arith)

module _ (A : Arbo) where
  mutual
    unfolding propagate_root apply_updates join_updates AllClean

    -- Where nothing was written, nothing is propagated and nothing changes.
    propagate_root_clean : (u : TreeUpdate A) → AllClean A u → propagate_root A u ≡ ok (none, u)
    propagate_root_clean (tree_update dirty t cfg path subs) (clean, below) =
        rw (gather_updates_clean subs below, clean) refl

    gather_updates_clean :
        (subs : Subs A) → SubsClean A subs → gather_updates A subs ≡ ok ([], subs)
    gather_updates_clean no_subs h = refl
    gather_updates_clean (and_sub sub rest) (h, later) =
        rw (propagate_root_clean sub h, gather_updates_clean rest later) refl

  with_root_inv :
      (dirty : Bool) (cfg : TreeConfig) (path : List Bytes) (subs : Subs A) (t : A.Tree)
      {o : Option Bytes} {v : TreeUpdate A}
      → with_root A dirty cfg path subs t ≡ ok (o, v)
      → (r : Bytes) × (o ≡ some r) × (A.root t ≡ ok r) × (v ≡ tree_update dirty t cfg path subs)
  unfolding with_root
  with_root_inv dirty cfg path subs t {o} {v} h = by_root (A.root t) refl h
    where
      by_root :
          (x : Result Bytes)
          → A.root t ≡ x
          → (elim x as (λ _. Result (Option Bytes × TreeUpdate A)) [
            | err e ↦ err e
            | ok root ↦ ok (some root, tree_update dirty t cfg path subs)
          ])
            ≡ ok (o, v)
          → (r : Bytes) × (o ≡ some r) × (A.root t ≡ ok r) × (v ≡ tree_update dirty t cfg path subs)
      by_root (err e) is_root made = absurd (ground arith)
      by_root (ok r) is_root made =
          let back = sym (ok_inj made) in
          (
            r,
            ap (λ (y : Option Bytes × TreeUpdate A). y.0) back,
            is_root,
            ap (λ (y : Option Bytes × TreeUpdate A). y.1) back,
          )

  -- Either nothing is to be done, or the leaves are updated and the root is taken.
  pub apply_inv :
      (dirty : Bool) (t : A.Tree) (cfg : TreeConfig) (path : List Bytes) (updates : List Update)
      (subs : Subs A) {o : Option Bytes} {v : TreeUpdate A}
      → apply_updates A dirty t cfg path (ok (updates, subs)) ≡ ok (o, v)
      → ((updates ≡ []) × (dirty ≡ false) × (o ≡ none) × (v ≡ tree_update dirty t cfg path subs))
        ⊎ ((r : Bytes) × (t' : A.Tree) × (update_leaves A (by_key A updates []) t ≡ ok t')
            × (o ≡ some r)
            × (A.root t' ≡ ok r)
            × (v ≡ tree_update dirty t' cfg path subs))
  unfolding apply_updates
  apply_inv dirty t cfg path updates subs {o} {v} h =
      by_test (is_empty updates && not dirty) refl (update_leaves A (by_key A updates []) t) refl h
    where
      by_test :
          (b : Bool)
          → (is_empty updates && not dirty) ≡ b
          → (x : Result A.Tree) → update_leaves A (by_key A updates []) t ≡ x
          → (if b
              then ok (none, tree_update dirty t cfg path subs)
              else elim x as (λ _. Result (Option Bytes × TreeUpdate A)) [
                | err e ↦ err e
                | ok t' ↦ with_root A dirty cfg path subs t'
              ])
            ≡ ok (o, v)
          → ((updates ≡ [])
              × (dirty ≡ false)
              × (o ≡ none)
              × (v ≡ tree_update dirty t cfg path subs))
            ⊎ ((r : Bytes) × (t' : A.Tree) × (update_leaves A (by_key A updates []) t ≡ ok t')
                × (o ≡ some r)
                × (A.root t' ≡ ok r)
                × (v ≡ tree_update dirty t' cfg path subs))
      by_test true idle x e made =
          let back = sym (ok_inj made) in
          inl (
            nothing_asked updates dirty idle,
            not_dirty updates dirty idle,
            ap (λ (y : Option Bytes × TreeUpdate A). y.0) back,
            ap (λ (y : Option Bytes × TreeUpdate A). y.1) back,
          )
      by_test false idle (err x) e made = absurd (ground arith)
      by_test false idle (ok t') e made =
          let (r, is_some, is_root, same) = with_root_inv dirty cfg path subs t' made in
          inr (r, t', e, is_some, is_root, same)

  -- Where no update is asked for, none of the opened trees has one.
  join_empty :
      (x : Result (Option Bytes × TreeUpdate A)) (y : Result (List Update × Subs A)) {subs : Subs A}
      → join_updates A x y ≡ ok ([], subs)
      → (sub : TreeUpdate A) × (rest : Subs A) × (x ≡ ok (none, sub)) × (y ≡ ok ([], rest))
  unfolding join_updates
  join_empty (err e) y h = absurd (ground arith)
  join_empty (ok x) (err e) h = absurd (ground arith)
  join_empty (ok (none, sub)) (ok ([], rest)) h = (sub, rest, refl, refl)
  join_empty (ok (none, sub)) (ok (u ∷ us, rest)) h = absurd (ground arith)
  join_empty (ok (some root, sub)) (ok (us, rest)) h = absurd (ground arith)

  apply_none :
      (dirty : Bool) (t : A.Tree) (cfg : TreeConfig) (path : List Bytes)
      (x : Result (List Update × Subs A)) {v : TreeUpdate A}
      → apply_updates A dirty t cfg path x ≡ ok (none, v)
      → (rest : Subs A) × (x ≡ ok ([], rest)) × (dirty ≡ false)
  unfolding apply_updates
  apply_none dirty t cfg path (err e) h = absurd (ground arith)
  apply_none dirty t cfg path (ok (updates, subs)) h =
      elim (apply_inv dirty t cfg path updates subs h) [
        | inl (idle, clean, _, _) ↦ (subs, ap (λ (us : List Update). ok (us, subs)) idle, clean)
        | inr (r, t', _, bad, _, _) ↦ absurd (ground arith)
      ]

  mutual
    unfolding propagate_root AllClean

    none_clean :
        (u : TreeUpdate A) {v : TreeUpdate A} → propagate_root A u ≡ ok (none, v) → AllClean A u
    none_clean (tree_update dirty t cfg path subs) h =
        let (rest, gathered, clean) = apply_none dirty t cfg path (gather_updates A subs) h in
        (clean, empty_clean subs gathered)

    empty_clean :
        (subs : Subs A) {rest : Subs A} → gather_updates A subs ≡ ok ([], rest) → SubsClean A subs
    empty_clean no_subs h = tt
    empty_clean (and_sub sub below) h =
        let (sub', rest', first, later) =
          join_empty (propagate_root A sub) (gather_updates A below) h in
        (none_clean sub first, empty_clean below later)

  apply_some :
      (dirty : Bool) (t : A.Tree) (cfg : TreeConfig) (path : List Bytes)
      (x : Result (List Update × Subs A)) {r : Bytes} {v : TreeUpdate A}
      → apply_updates A dirty t cfg path x ≡ ok (some r, v)
      → A.root (tree_of A v) ≡ ok r
  unfolding apply_updates tree_of
  apply_some dirty t cfg path (err e) h = absurd (ground arith)
  apply_some dirty t cfg path (ok (updates, subs)) {r} {v} h =
      elim (apply_inv dirty t cfg path updates subs h) [
        | inl (_, _, bad, _) ↦ absurd (ground arith)
        | inr (r', t', _, same, is_root, made) ↦
            ap (λ (x : TreeUpdate A). A.root (tree_of A x)) made
            ∙ is_root
            ∙ ap (λ (b : Bytes). ok b) (sym (some_inj same))
      ]

  -- Nothing is propagated if and only if nothing was written in the tree and the trees that are opened
  -- below it; and a root that is propagated is the one of the tree as it then is.
  pub propagate_root_cases :
      (u v : TreeUpdate A) (o : Option Bytes)
      → propagate_root A u ≡ ok (o, v)
      → (o ≡ none ↔ AllClean A u) × ((r : Bytes) → o ≡ some r → A.root (tree_of A v) ≡ ok r)
  unfolding propagate_root
  propagate_root_cases (tree_update dirty t cfg path subs) v o h = (
    (
      λ idle.
          none_clean (tree_update dirty t cfg path subs)
            (h ∙ ap (λ (x : Option Bytes). ok (x, v)) idle),
      λ clean.
          ap (λ (y : Option Bytes × TreeUpdate A). y.0)
            (ok_inj (sym h ∙ propagate_root_clean (tree_update dirty t cfg path subs) clean)),
    ),
    λ r is_root.
        apply_some dirty t cfg path (gather_updates A subs)
          (h ∙ ap (λ (x : Option Bytes). ok (x, v)) is_root),
  )
