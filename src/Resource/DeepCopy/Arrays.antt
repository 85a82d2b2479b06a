-- ===== src/Resource/DeepCopy/Arrays.antt =====
-- pkg/apis/crdmetrics/v1alpha1/zz_generated.deepcopy.go: arrays in memory, and what the copy of one
-- resource has of them.
use crdmetrics.Prelude.{
  ℕ, zero, suc, ◌<◌, ◌≤◌, ◌≡◌, ◌≢◌, refl, sym, ap, ◌∙◌, Option, none, some, List, [], ◌∷◌, ◌++◌,
  length, length-append, arith, append-nil,
}
use crdmetrics.Resource.{Condition}
use crdmetrics.Resource.DeepCopy.{
  Ref, StatusAt, array_at, make_conditions, copy_each, copy_conditions, status_deep_copy,
}

module _ {ℓ} {A : Type ℓ} where
  -- the arrays after a write through a pointer
  abbrev pub write : Ref → List A → List (List A) → List (List A)
  write k xs [] = []
  write zero xs (a ∷ arrays) = xs ∷ arrays
  write (suc k) xs (a ∷ arrays) = a ∷ write k xs arrays

  pub array_at-write :
      (arrays : List (List A)) (k r : Ref) (xs : List A)
      → k ≢ r
      → array_at (write k xs arrays) r ≡ array_at arrays r
  array_at-write [] k r xs h = refl
  array_at-write (a ∷ arrays) zero zero xs h = absurd (h refl)
  array_at-write (a ∷ arrays) zero (suc r) xs h = refl
  array_at-write (a ∷ arrays) (suc k) zero xs h = refl
  array_at-write (a ∷ arrays) (suc k) (suc r) xs h =
      array_at-write arrays k r xs (λ e. h (ap suc e))

  pub array_at-append :
      (arrays new : List (List A)) (r : Ref)
      → r < length arrays
      → array_at (arrays ++ new) r ≡ array_at arrays r
  array_at-append [] new r h = absurd (omega arith)
  array_at-append (a ∷ arrays) new zero h = refl
  array_at-append (a ∷ arrays) new (suc r) h = array_at-append arrays new r (omega arith)

  pub array_at-last :
      (arrays : List (List A)) (a : List A) → array_at (arrays ++ a ∷ []) (length arrays) ≡ a
  array_at-last [] a = refl
  array_at-last (b ∷ arrays) a = array_at-last arrays a

copy_each-make_conditions : (l : List Condition) → copy_each l (make_conditions (length l)) ≡ l
unfolding copy_each make_conditions
copy_each-make_conditions [] = refl
copy_each-make_conditions (c ∷ l) = ap (λ (m : List Condition). c ∷ m) (copy_each-make_conditions l)

-- what a slice of conditions reads as
abbrev pub read_conditions : List (List Condition) → Option Ref → Option (List Condition)
read_conditions arrays none = none
read_conditions arrays (some r) = some (array_at arrays r)

-- the slice has an array
abbrev pub Within : ℕ → Option Ref → Type 0
Within n none = Unit
Within n (some r) = r < n

-- the slice has no array that was there before the `n`-th
abbrev pub From : ℕ → Option Ref → Type 0
From n none = Unit
From n (some r) = n ≤ r

pub read_conditions-append :
    (arrays new : List (List Condition)) (o : Option Ref)
    → Within (length arrays) o
    → read_conditions (arrays ++ new) o ≡ read_conditions arrays o
read_conditions-append arrays new none h = refl
read_conditions-append arrays new (some r) h = ap some (array_at-append arrays new r h)

pub Within-grows : (m n : ℕ) (o : Option Ref) → m ≤ n → Within m o → Within n o
Within-grows m n none h k = tt
Within-grows m n (some r) h k = omega arith

pub From-less : (m n : ℕ) (o : Option Ref) → m ≤ n → From n o → From m o
From-less m n none h k = tt
From-less m n (some r) h k = omega arith

pub read_conditions-write_old :
    (arrays : List (List Condition)) (n k : ℕ) (cs : List Condition) (o : Option Ref)
    → From n o
    → k < n
    → read_conditions (write k cs arrays) o ≡ read_conditions arrays o
read_conditions-write_old arrays n k cs none h lt = refl
read_conditions-write_old arrays n k cs (some r) h lt =
    ap some (array_at-write arrays k r cs (λ e. omega arith))

pub read_conditions-write_new :
    (arrays : List (List Condition)) (n k : ℕ) (cs : List Condition) (o : Option Ref)
    → Within n o
    → n ≤ k
    → read_conditions (write k cs arrays) o ≡ read_conditions arrays o
read_conditions-write_new arrays n k cs none h le = refl
read_conditions-write_new arrays n k cs (some r) h le =
    ap some (array_at-write arrays k r cs (λ e. omega arith))

-- What a copy `o'` in `arrays'` is of `o` in `arrays`.
pub record IsCopy (arrays : List (List Condition)) (o : Option Ref)
    (arrays' : List (List Condition)) (o' : Option Ref) : Type 0 where
  pub new : List (List Condition)
  pub grown : arrays' ≡ arrays ++ new
  pub same : read_conditions arrays' o' ≡ read_conditions arrays o
  pub fresh : From (length arrays) o'
  pub within : Within (length arrays') o'

pub status_deep_copy-IsCopy :
    (arrays : List (List Condition)) (status : StatusAt)
    → IsCopy arrays status.conditions
        (status_deep_copy arrays status).0
        (status_deep_copy arrays status).1.conditions
unfolding status_deep_copy
status_deep_copy-IsCopy arrays status = of_slice status.conditions
  where
    of_slice :
        (o : Option Ref)
        → IsCopy arrays o (copy_conditions arrays o).0 (copy_conditions arrays o).1.conditions
    of_slice none = record {
      new = [];
      grown = sym (append-nil arrays);
      same = refl;
      fresh = tt;
      within = tt;
    }
    of_slice (some r) = record {
      new = _ ∷ [];
      grown = refl;
      same = ap some (array_at-last arrays _ ∙ copy_each-make_conditions (array_at arrays r));
      fresh = omega arith;
      within =
          let grown =
            length-append arrays
              (copy_each (array_at arrays r) (make_conditions (length (array_at arrays r))) ∷ []) in
          omega arith;
    }
