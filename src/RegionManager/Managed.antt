-- ===== src/RegionManager/Managed.antt =====
-- The invariant of the region manager: its regions are apart, and it manages their addresses.
use persimmon.Base.{
  ℕ, zero, suc, ◌<◌, ◌≡◌, refl, ◌∙◌, ap, subst, Bool, true, false, not, ◌&&◌, ◌||◌, none, some,
  List, [], ◌∷◌, ◌++◌, get_elem?, word, arith, Bool-cases, inl, inr, Option-cases,
}
use persimmon.Ranges.{find}
use persimmon.Ranges.Order.{Coalesced}
use persimmon.Region.{Region, does_include, does_overlap_with}
use persimmon.Region.Points.{IsProper, does_overlap_with-shared}
use persimmon.RegionManager.{RegionManager, find_overlap, behind_first, last_to_front, swap_remove}

-- Does a region of the list hold the address?
abbrev pub held : List Region → ℕ → Bool
held [] p = false
held (r ∷ rs) p = does_include r p || held rs p

-- No address lies in two of the regions, each of which is proper.
abbrev pub Apart : List Region → Type 0
Apart [] = Unit
Apart (r ∷ rs) = IsProper r × ((p : ℕ) → does_include r p ≡ true → held rs p ≡ false) × Apart rs

include-bounded : (r : Region) (p : ℕ) → IsProper r → does_include r p ≡ true → p < word
unfolding does_include
include-bounded r p b h = ground arith

pub record Managed (mrm : RegionManager) : Type 0 where
  pub apart : Apart mrm.regions
  pub coalesced : Coalesced 0 mrm.rs
  pub found : (p : ℕ) → held mrm.regions p ≡ true → find mrm.rs p ≡ true

-- `find_overlap` finds nothing just when no address of the region is held.
pub find_overlap-none :
    (rs : List Region) (other : Region)
    → Apart rs
    → IsProper other
    → find_overlap rs other ≡ none
    → (p : ℕ) → does_include other p ≡ true
    → held rs p ≡ false
unfolding find_overlap
find_overlap-none [] other a b e p i = refl
find_overlap-none (r ∷ rs) other a b e p i =
    let shared : does_overlap_with r other ≡ false
        → does_include r p ≡ true
        → does_include other p ≡ false =
      λ h. (does_overlap_with-shared r other a.0 b).1 h p in
    let rest : find_overlap rs other ≡ none → does_include other p ≡ true → held rs p ≡ false =
      λ h. find_overlap-none rs other a.2 b h p in
    ground (arith, shared, rest)

-- Otherwise it finds a region that overlaps.
pub find_overlap-some :
    (rs : List Region) (other : Region) (i : ℕ)
    → find_overlap rs other ≡ some i
    → (r : Region) × (get_elem? rs i ≡ some r) × (does_overlap_with r other ≡ true)
unfolding find_overlap
find_overlap-some [] other i e = absurd (ground arith)
find_overlap-some (r ∷ rs) other i e = elim (Bool-cases (does_overlap_with r other)) [
  | inl here ↦ (r, ap (get_elem? (r ∷ rs)) (let z : i ≡ 0 = ground arith in z), here)
  | inr further ↦ elim (Option-cases (find_overlap rs other)) [
    | inl nothing ↦ absurd (ground arith)
    | inr (j, found) ↦
        let (s, at, o) = find_overlap-some rs other j found in
        let next : i ≡ suc j = ground arith in (s, ap (get_elem? (r ∷ rs)) next ∙ at, o)
  ]
]

pub held-bounded : (rs : List Region) (p : ℕ) → Apart rs → held rs p ≡ true → p < word
held-bounded [] p a h = absurd (ground arith)
held-bounded (r ∷ rs) p a h = elim (Bool-cases (held rs p)) [
  | inl later ↦ held-bounded rs p a.2 later
  | inr own ↦ include-bounded r p a.0 (ground arith)
]

pub held-append : (xs ys : List Region) (p : ℕ) → held (xs ++ ys) p ≡ (held xs p || held ys p)
held-append [] ys p = refl
held-append (x ∷ xs) ys p = ground (arith, held-append xs ys p)

pub Apart-append :
    (xs : List Region) (r : Region)
    → Apart xs
    → IsProper r
    → ((p : ℕ) → does_include r p ≡ true → held xs p ≡ false)
    → Apart (xs ++ (r ∷ []))
Apart-append [] r a b h = (b, λ p i. refl, tt)
Apart-append (x ∷ xs) r a b h = (
  a.0,
  λ p i. held-append xs (r ∷ []) p ∙ (let old = a.1 p i in let new = h p in ground arith),
  Apart-append xs r a.2 b (λ p i. let all = h p i in ground arith),
)

-- Moving the last region to the front loses and adds none.
held-behind_first :
    (r : Region) (rs : List Region) (p : ℕ) → held (behind_first r rs) p ≡ held (r ∷ rs) p
unfolding behind_first
held-behind_first r [] p = refl
held-behind_first r (l ∷ front) p = ground arith

Apart-behind_first : (r : Region) (rs : List Region) → Apart (r ∷ rs) → Apart (behind_first r rs)
unfolding behind_first
Apart-behind_first r [] a = a
Apart-behind_first r (l ∷ front) a = (
  a.2.0,
  λ p i. let old = a.1 p in let own = a.2.1 p i in ground arith,
  (a.0, λ p i. let all = a.1 p i in ground arith, a.2.2),
)

held-last_to_front : (rs : List Region) (p : ℕ) → held (last_to_front rs) p ≡ held rs p
unfolding last_to_front
held-last_to_front [] p = refl
held-last_to_front (r ∷ rs) p =
    held-behind_first r (last_to_front rs) p
    ∙ ap (λ b. does_include r p || b) (held-last_to_front rs p)

Apart-last_to_front : (rs : List Region) → Apart rs → Apart (last_to_front rs)
unfolding last_to_front
Apart-last_to_front [] a = tt
Apart-last_to_front (r ∷ rs) a =
    Apart-behind_first r (last_to_front rs)
      (a.0, λ p i. held-last_to_front rs p ∙ a.1 p i, Apart-last_to_front rs a.2)

pub held-get_elem? :
    (rs : List Region) (i : ℕ) (r : Region) (p : ℕ)
    → get_elem? rs i ≡ some r
    → does_include r p ≡ true
    → held rs p ≡ true
held-get_elem? [] i r p e h = absurd (ground arith)
held-get_elem? (x ∷ rs) zero r p e h = let same : x ≡ r = ground arith in ground arith
held-get_elem? (x ∷ rs) (suc i) r p e h = let rest = held-get_elem? rs i r p e h in ground arith

pub Proper-get_elem? :
    (rs : List Region) (i : ℕ) (r : Region) → Apart rs → get_elem? rs i ≡ some r → IsProper r
Proper-get_elem? [] i r a e = absurd (ground arith)
Proper-get_elem? (x ∷ rs) zero r a e = let same : x ≡ r = ground arith in subst IsProper same a.0
Proper-get_elem? (x ∷ rs) (suc i) r a e = Proper-get_elem? rs i r a.2 e

-- Removing a region leaves the addresses of the others, and these stay apart.
pub held-swap_remove :
    (i : ℕ) (rs : List Region) (r : Region) (p : ℕ)
    → Apart rs
    → get_elem? rs i ≡ some r
    → held (swap_remove i rs) p ≡ (held rs p && not (does_include r p))
unfolding swap_remove
held-swap_remove i [] r p a e = absurd (ground arith)
held-swap_remove zero (x ∷ rs) r p a e =
    let same : x ≡ r = ground arith in
    held-last_to_front rs p ∙ (rw⁻¹ same (let own = a.1 p in ground arith))
held-swap_remove (suc i) (x ∷ rs) r p a e =
    let rest = held-swap_remove i rs r p a.2 e in
    let mine = held-get_elem? rs i r p e in let own = a.1 p in ground arith

swap_remove-unheld :
    (i : ℕ) (rs : List Region) (p : ℕ) → held rs p ≡ false → held (swap_remove i rs) p ≡ false
unfolding swap_remove
swap_remove-unheld i [] p h = refl
swap_remove-unheld zero (x ∷ rs) p h = held-last_to_front rs p ∙ ground arith
swap_remove-unheld (suc i) (x ∷ rs) p h = let rest = swap_remove-unheld i rs p in ground arith

pub Apart-swap_remove : (i : ℕ) (rs : List Region) → Apart rs → Apart (swap_remove i rs)
unfolding swap_remove
Apart-swap_remove i [] a = tt
Apart-swap_remove zero (x ∷ rs) a = Apart-last_to_front rs a.2
Apart-swap_remove (suc i) (x ∷ rs) a =
    (a.0, λ p h. swap_remove-unheld i rs p (a.1 p h), Apart-swap_remove i rs a.2)
