-- ===== src/Prelude/Rows.antt =====
-- Laws of the table functions.
use Prim.Native.Nat.{◌+◌, ◌≤◌}
use mathlib.Core.Path.{◌≡◌, refl, subst}
use mathlib.Core.Logic.{inl, inr}
use mathlib.Core.Bool.{Bool, true, false, ◌||◌}
use mathlib.Core.Option.{none, some}
use mathlib.Core.List.{List, [], ◌∷◌, ◌++◌}
use native.Mathlib.Omega.{arith}
use cross_border_logistics.Prelude.Tests.{if◌then◌else◌, Bool-cases}
use cross_border_logistics.Prelude.Lists.{length, find, any, count_if, update_where, keep, All}

module _ {ℓ} {A : Type ℓ} (p : A → Bool) where
  pub any-append : (xs ys : List A) → any p (xs ++ ys) ≡ (any p xs || any p ys)
  unfolding any
  any-append [] ys = refl
  any-append (x ∷ xs) ys = ground (arith, any-append xs ys)

  pub count_if-append : (xs ys : List A) → count_if p (xs ++ ys) ≡ count_if p xs + count_if p ys
  unfolding count_if
  count_if-append [] ys = omega arith
  count_if-append (x ∷ xs) ys = ground (arith, count_if-append xs ys)

  pub find-any : (xs : List A) (x : A) → find p xs ≡ some x → any p xs ≡ true
  unfolding find any
  find-any [] x h = cc
  find-any (y ∷ xs) x h = ground (arith, find-any xs x)

  pub any-find : (xs : List A) → any p xs ≡ true → (x : A) × (find p xs ≡ some x)
  unfolding find any
  any-find [] h = cc
  any-find (y ∷ xs) h = elim (Bool-cases (p y)) [
    | inl here ↦ (y, ground arith)
    | inr later ↦ (let rest = any-find xs (ground arith) in (rest.0, ground (arith, rest.1)))
  ]

  pub count_if-none : (xs : List A) → any p xs ≡ false → count_if p xs ≡ 0
  unfolding any count_if
  count_if-none [] h = refl
  count_if-none (x ∷ xs) h = ground (arith, count_if-none xs)

  pub update_where-none : (f : A → A) (xs : List A) → count_if p xs ≡ 0 → update_where p f xs ≡ xs
  unfolding update_where count_if
  update_where-none f [] h = refl
  update_where-none f (x ∷ xs) h = ground (arith, update_where-none f xs)

  -- An update of the one row that passes a test, which makes it pass another.
  pub count_if-update_one :
      (q : A → Bool) (f : A → A)
      → ((x : A) → q (f x) ≡ true)
      → (xs : List A) (row : A) → count_if p xs ≤ 1
      → find p xs ≡ some row
      → q row ≡ false
      → count_if q (update_where p f xs) ≡ count_if q xs + 1
  unfolding update_where count_if find
  count_if-update_one q f sets [] row one h other = cc
  count_if-update_one q f sets (x ∷ xs) row one h other =
      ground (arith, sets x, update_where-none f xs, count_if-update_one q f sets xs row)

  -- What is found passes the test.
  pub find-passes : (xs : List A) (x : A) → find p xs ≡ some x → p x ≡ true
  unfolding find
  find-passes [] x h = cc
  find-passes (y ∷ xs) x h = ground (arith, find-passes xs x)

  pub any-append_last : (xs : List A) (x : A) → p x ≡ true → any p (xs ++ x ∷ []) ≡ true
  unfolding any
  any-append_last [] x h = ground arith
  any-append_last (y ∷ xs) x h = ground (arith, any-append_last xs x h)

  pub find-none : (xs : List A) → any p xs ≡ false → find p xs ≡ none
  unfolding find any
  find-none [] h = refl
  find-none (x ∷ xs) h = ground (arith, find-none xs)

  pub find-append : (xs ys : List A) (x : A) → find p xs ≡ some x → find p (xs ++ ys) ≡ some x
  unfolding find
  find-append [] ys x h = cc
  find-append (y ∷ xs) ys x h = ground (arith, find-append xs ys x)

  pub find-keep :
      (q : A → Bool)
      → ((x : A) → p x ≡ true → q x ≡ true)
      → (xs : List A) (x : A) → find p xs ≡ some x
      → find p (keep q xs) ≡ some x
  unfolding find keep
  find-keep q only [] x h = cc
  find-keep q only (y ∷ xs) x h = ground (arith, only y, find-keep q only xs x)

  -- The row that is found is found after an update that the search does not see.
  pub find-update_where :
      (q : A → Bool) (f : A → A)
      → ((x : A) → p (f x) ≡ p x)
      → (xs : List A) (x : A) → find p xs ≡ some x
      → find p (update_where q f xs) ≡ some (if q x then f x else x)
  unfolding find update_where
  find-update_where q f same [] x h = cc
  find-update_where q f same (y ∷ xs) x h = ground (arith, same y, find-update_where q f same xs x)

  -- A row behind rows that do not pass the test is found.
  pub find-append_last :
      (xs : List A) (x : A) → find p xs ≡ none → p x ≡ true → find p (xs ++ x ∷ []) ≡ some x
  unfolding find
  find-append_last [] x h k = ground arith
  find-append_last (y ∷ xs) x h k = ground (arith, find-append_last xs x)

  -- An update that does not change what the test reads keeps its answer.
  pub any-update_where :
      (q : A → Bool) (f : A → A)
      → ((x : A) → p (f x) ≡ p x)
      → (xs : List A) → any p (update_where q f xs) ≡ any p xs
  unfolding any update_where
  any-update_where q f same [] = refl
  any-update_where q f same (x ∷ xs) = ground (arith, same x, any-update_where q f same xs)

  pub count_if-update_where :
      (q : A → Bool) (f : A → A)
      → ((x : A) → p (f x) ≡ p x)
      → (xs : List A) → count_if p (update_where q f xs) ≡ count_if p xs
  unfolding count_if update_where
  count_if-update_where q f same [] = refl
  count_if-update_where q f same (x ∷ xs) =
      ground (arith, same x, count_if-update_where q f same xs)

module _ {ℓ κ} {A : Type ℓ} (P : A → Type κ) where
  pub All-append_last : (xs : List A) (x : A) → All P xs → P x → All P (xs ++ x ∷ [])
  All-append_last [] x h p = (p, tt)
  All-append_last (y ∷ xs) x h p = (h.0, All-append_last xs x h.1 p)

  pub All-update_where :
      (q : A → Bool) (f : A → A)
      → ((x : A) → P x → P (f x))
      → (xs : List A) → All P xs
      → All P (update_where q f xs)
  unfolding update_where
  All-update_where q f keep [] h = tt
  All-update_where q f keep (x ∷ xs) h = (updated (q x), All-update_where q f keep xs h.1)
    where
      updated : (b : Bool) → P (if b then f x else x)
      updated true = keep x h.0
      updated false = h.0

  -- The same, where only rows that pass the test are changed.
  pub All-update_passing :
      (q : A → Bool) (f : A → A)
      → ((x : A) → q x ≡ true → P x → P (f x))
      → (xs : List A) → All P xs
      → All P (update_where q f xs)
  unfolding update_where
  All-update_passing q f keep [] h = tt
  All-update_passing q f keep (x ∷ xs) h = (updated (q x) refl, All-update_passing q f keep xs h.1)
    where
      updated : (b : Bool) → q x ≡ b → P (if b then f x else x)
      updated true e = keep x e h.0
      updated false e = h.0

  pub All-keep : (q : A → Bool) (xs : List A) → All P xs → All P (keep q xs)
  unfolding keep
  All-keep q [] h = tt
  All-keep q (x ∷ xs) h = go (All-keep q xs h.1) (q x)
    where
      go : All P (keep q xs) → (b : Bool) → All P (if b then x ∷ keep q xs else keep q xs)
      go rest true = (h.0, rest)
      go rest false = rest

  pub All-weaken : (Q : A → Type κ) → ((x : A) → P x → Q x) → (xs : List A) → All P xs → All Q xs
  All-weaken Q weak [] h = tt
  All-weaken Q weak (x ∷ xs) h = (weak x h.0, All-weaken Q weak xs h.1)

  pub find-All : (q : A → Bool) (xs : List A) (x : A) → All P xs → find q xs ≡ some x → P x
  unfolding find
  find-All q [] x h e = cc
  find-All q (y ∷ xs) x h e = elim (Bool-cases (q y)) [
    | inl here ↦ let same : some y ≡ some x = rw here at e in subst P (cc) h.0
    | inr later ↦ find-All q xs x h.1 (rw later at e)
  ]

module _ {ℓ} {A : Type ℓ} where
  pub length-append_last : (xs : List A) (x : A) → length (xs ++ x ∷ []) ≡ length xs + 1
  length-append_last [] x = omega arith
  length-append_last (y ∷ xs) x = omega (arith, length-append_last xs x)

  pub length-update_where :
      (q : A → Bool) (f : A → A) (xs : List A) → length (update_where q f xs) ≡ length xs
  unfolding update_where
  length-update_where q f [] = refl
  length-update_where q f (x ∷ xs) = omega (arith, length-update_where q f xs)
