-- ===== src/State/Oracles/Membership.antt =====
-- The oracles as a set (vochain/state.go): what adding and removing does to it.
use vocdoni.Base.{
  ==_refl, Bool, List, [], arith, false, if◌then◌else◌, not, refl, true, ℕ_discrete, ◌&&◌, ◌==◌,
  ◌||◌, ◌∙◌, ◌∷◌, ◌≡◌,
}
use vocdoni.Account.{Address}
use vocdoni.Action.{ok}
use vocdoni.State.{State}
use vocdoni.State.Oracles.{add_oracle, has_leaf, listed, live, remove_oracle, set_leaf}

-- No two leaves have the same address.
abbrev pub AreDistinct : List (Address × Bool) → Type 0
AreDistinct [] = Unit
AreDistinct ((a, v) ∷ l) = (has_leaf a l ≡ false) × AreDistinct l

listed_absent :
    (a : Address) (l : List (Address × Bool)) → has_leaf a l ≡ false → listed a (live l) ≡ false
unfolding has_leaf live listed
listed_absent a [] h = refl
listed_absent a ((b, true) ∷ l) h = ground (arith, listed_absent a l)
listed_absent a ((b, false) ∷ l) h = ground (arith, listed_absent a l)

has_leaf-set_leaf :
    (b a : Address) (v : Bool) (l : List (Address × Bool))
    → has_leaf b (set_leaf a v l) ≡ (b == a || has_leaf b l)
unfolding has_leaf set_leaf
has_leaf-set_leaf b a v [] = refl
has_leaf-set_leaf b a v ((c, w) ∷ l) = ground (arith, has_leaf-set_leaf b a v l)

set_leaf-AreDistinct :
    (a : Address) (v : Bool) (l : List (Address × Bool))
    → AreDistinct l
    → AreDistinct (set_leaf a v l)
unfolding set_leaf has_leaf
set_leaf-AreDistinct a v [] h = (refl, tt)
set_leaf-AreDistinct a v ((c, w) ∷ l) h = elim (ℕ_discrete a c) [
  | yes same ↦ rw (same, ==_refl c) (ground arith)
  | no apart ↦
      let differs : (a == c) ≡ false = ground arith in
      rw differs (ground (arith, has_leaf-set_leaf c a v l), set_leaf-AreDistinct a v l h.1)
]

-- A leaf that is written decides on its address, and on no other.
listed-set_leaf :
    (b a : Address) (v : Bool) (l : List (Address × Bool))
    → AreDistinct l
    → listed b (live (set_leaf a v l)) ≡ (if b == a then v else listed b (live l))
unfolding set_leaf live listed
listed-set_leaf b a true [] h = ground arith
listed-set_leaf b a false [] h = ground arith
listed-set_leaf b a true ((c, true) ∷ l) h =
    ground (arith, listed-set_leaf b a true l h.1, listed_absent c l h.0)
listed-set_leaf b a true ((c, false) ∷ l) h =
    ground (arith, listed-set_leaf b a true l h.1, listed_absent c l h.0)
listed-set_leaf b a false ((c, true) ∷ l) h =
    ground (arith, listed-set_leaf b a false l h.1, listed_absent c l h.0)
listed-set_leaf b a false ((c, false) ∷ l) h =
    ground (arith, listed-set_leaf b a false l h.1, listed_absent c l h.0)

-- After an oracle is added, the oracles are that one and those before; no leaf is doubled.
pub add_oracle_lem :
    (a b : Address) (s : State)
    → AreDistinct s.oracles
    → let s' : State = (add_oracle a s).1 in
      AreDistinct s'.oracles × (listed b (live s'.oracles) ≡ (b == a || listed b (live s.oracles)))
unfolding add_oracle
add_oracle_lem a b s h =
    (set_leaf-AreDistinct a true s.oracles h, listed-set_leaf b a true s.oracles h ∙ ground arith)

-- An oracle that has a leaf can be removed: the oracles are then those before without it, and no
-- leaf is doubled.
pub remove_oracle_lem :
    (a b : Address) (s : State)
    → AreDistinct s.oracles
    → has_leaf a s.oracles ≡ true
    → let (r, s') = remove_oracle a s in
      (r ≡ ok tt)
      × AreDistinct s'.oracles
      × (listed b (live s'.oracles) ≡ (not (b == a) && listed b (live s.oracles)))
unfolding remove_oracle
remove_oracle_lem a b s h found = rw found (
  refl,
  set_leaf-AreDistinct a false s.oracles h,
  listed-set_leaf b a false s.oracles h ∙ ground arith,
)
