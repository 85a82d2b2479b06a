-- ===== src/Metric/Sort.antt =====
-- `sortLabelset` of internal/metric.go puts the labels in order, whatever order they come in.
use mathlib.Core.List.{
  foldl, reverse, reverse-cons, is_set, Perm, Permᴰ, Nodup, Nodup-cons, mem-cons_self, perm_middle,
  reverse_perm,
}
use mathlib.Core.List.Perm
use mathlib.Core.Logic.{∥∥₁_elim}
use mathlib.Core.Path.{subst}
use crdmetrics.Prelude.{
  Bytes, false, ◌≡◌, ◌≢◌, inl, inr, refl, ap, ◌∙◌, List, [], ◌∷◌, ◌++◌, map, Bool-cases, arith, All,
  All-append, append-nil, length,
}
use crdmetrics.Metric.{Labelset, less, sift, sort_slice, sort_labelset, zip_labels}
use crdmetrics.Metric.Order.{less-total, less_asymm, less_below}

-- No label stands before one whose key is less than its own. The list is reversed: the sorted part
-- grows at its head.
abbrev IsDescending : List Labelset → Type 0
IsDescending [] = Unit
IsDescending (x ∷ xs) = All (λ (y : Labelset). less x.0 y.0 ≡ false) xs × IsDescending xs

-- No label stands before one whose key is less than its own.
abbrev pub IsSorted : List Labelset → Type 0
IsSorted [] = Unit
IsSorted (x ∷ xs) = All (λ (y : Labelset). less y.0 x.0 ≡ false) xs × IsSorted xs

NotLess : Labelset → Labelset → Type 0
NotLess x y = less x.0 y.0 ≡ false

-- keys that are not less than `y` are not less than what is below `y`
not_less_trans : (x y z : Bytes) → less x y ≡ false → less y z ≡ false → less x z ≡ false
not_less_trans x y z h k = elim (Bool-cases (less x z)) [
  | inl p ↦ cc (h, less_below x z y p k)
  | inr q ↦ q
]

All_not_less :
    (x y : Bytes) (l : List Labelset)
    → less x y ≡ false
    → All (λ (z : Labelset). less y z.0 ≡ false) l
    → All (λ (z : Labelset). less x z.0 ≡ false) l
All_not_less x y [] h _ = tt
All_not_less x y (z ∷ l) h (p, ps) = (not_less_trans x y z.0 h p, All_not_less x y l h ps)

All-sift :
    (P : Labelset → Type 0) (x : Labelset) (l : List Labelset) → P x → All P l → All P (sift x l)
unfolding sift
All-sift P x [] p _ = (p, tt)
All-sift P x (y ∷ l) p (q, qs) = elim (Bool-cases (less x.0 y.0)) [
  | inl h ↦ rw h (q, All-sift P x l p qs)
  | inr h ↦ rw h (p, (q, qs))
]

sift-IsDescending : (x : Labelset) (l : List Labelset) → IsDescending l → IsDescending (sift x l)
unfolding sift
sift-IsDescending x [] _ = (tt, tt)
sift-IsDescending x (y ∷ l) (q, qs) = elim (Bool-cases (less x.0 y.0)) [
  | inl h ↦ rw h (
    All-sift (λ (z : Labelset). less y.0 z.0 ≡ false) x l (less_asymm x.0 y.0 h) q,
    sift-IsDescending x l qs,
  )
  | inr h ↦ rw h ((h, All_not_less x.0 y.0 l h q), (q, qs))
]

abbrev sifted : List Labelset → List Labelset → List Labelset
sifted = foldl (λ sorted x. sift x sorted)

sifted-IsDescending : (l s : List Labelset) → IsDescending s → IsDescending (sifted s l)
sifted-IsDescending [] s h = h
sifted-IsDescending (x ∷ l) s h = sifted-IsDescending l (sift x s) (sift-IsDescending x s h)

sift-perm : (x : Labelset) (l : List Labelset) → Perm (sift x l) (x ∷ l)
unfolding sift
sift-perm x [] = Perm.refl _
sift-perm x (y ∷ l) = elim (Bool-cases (less x.0 y.0)) [
  | inl h ↦ rw h (Perm.trans (Perm.cons y (sift-perm x l)) (Perm.swap x y l))
  | inr h ↦ rw h (Perm.refl _)
]

sifted-perm : (l s : List Labelset) → Perm (sifted s l) (l ++ s)
sifted-perm [] s = Perm.refl s
sifted-perm (x ∷ l) s =
    Perm.trans (sifted-perm l (sift x s))
      (Perm.trans (Perm.append_left l (sift-perm x s)) (perm_middle l s))

All-reverse : (P : Labelset → Type 0) (l : List Labelset) → All P l → All P (reverse l)
All-reverse P [] _ = tt
All-reverse P (x ∷ l) (p, ps) =
    rw reverse-cons (All-append P (reverse l) (x ∷ []) (All-reverse P l ps) (p, tt))

IsSorted-concat :
    (l : List Labelset) (x : Labelset)
    → All (λ (y : Labelset). less x.0 y.0 ≡ false) l
    → IsSorted l
    → IsSorted (l ++ x ∷ [])
IsSorted-concat [] x _ _ = (tt, tt)
IsSorted-concat (y ∷ l) x (h, hs) (p, ps) = (
  All-append (λ (z : Labelset). less z.0 y.0 ≡ false) l (x ∷ []) p (h, tt),
  IsSorted-concat l x hs ps,
)

IsSorted-reverse : (l : List Labelset) → IsDescending l → IsSorted (reverse l)
IsSorted-reverse [] _ = tt
IsSorted-reverse (x ∷ l) (p, ps) = rw reverse-cons (
    IsSorted-concat (reverse l) x (All-reverse (λ (y : Labelset). less x.0 y.0 ≡ false) l p)
      (IsSorted-reverse l ps))

pub sort_slice-IsSorted : (l : List Labelset) → IsSorted (sort_slice l)
unfolding sort_slice
sort_slice-IsSorted l = IsSorted-reverse (sifted [] l) (sifted-IsDescending l [] tt)

pub sort_slice-perm : (l : List Labelset) → Perm (sort_slice l) l
unfolding sort_slice
sort_slice-perm l =
    Perm.trans (reverse_perm (sifted [] l))
      (subst (Perm (sifted [] l)) (append-nil l) (sifted-perm l []))

All-sifted : (P : Labelset → Type 0) (l s : List Labelset) → All P l → All P s → All P (sifted s l)
All-sifted P [] s _ hs = hs
All-sifted P (x ∷ l) s (h, hl) hs = All-sifted P l (sift x s) hl (All-sift P x s h hs)

pub All-sort_slice : (P : Labelset → Type 0) (l : List Labelset) → All P l → All P (sort_slice l)
unfolding sort_slice
All-sort_slice P l h = All-reverse P (sifted [] l) (All-sifted P l [] h tt)

-- Two items with different keys may be inserted in either order.
sift_comm : (x y : Labelset) (l : List Labelset) → x.0 ≢ y.0 → sift x (sift y l) ≡ sift y (sift x l)
unfolding sift
sift_comm x y [] h = ground (arith, less-total x.0 y.0, less_asymm x.0 y.0)
sift_comm x y (z ∷ l) h = ground (
  arith,
  less-total x.0 y.0,
  less_asymm x.0 y.0,
  less_below x.0 z.0 y.0,
  less_below y.0 z.0 x.0,
  sift_comm x y l h,
)

Labelset-set : IsSet Labelset
Labelset-set = hlevel

abbrev pub keys : List Labelset → List Bytes
keys = map (λ (l : Labelset). l.0)

sifted_of_perm :
    {l m : List Labelset} (s : List Labelset) → Permᴰ l m → Nodup (keys l) → sifted s l ≡ sifted s m
sifted_of_perm s Permᴰ.nil n = refl
sifted_of_perm s (Permᴰ.cons {a} {b} e d) n = rw e (sifted_of_perm (sift b s) d (Nodup-cons.0 n).1)
sifted_of_perm s (Permᴰ.swap {a} {b} {l} e f) n =
    rw (← e, ← f, sift_comm b a s (λ (p : b.0 ≡ a.0). (Nodup-cons.0 n).0 (rw p mem-cons_self)))
sifted_of_perm s (Permᴰ.trans {l₁} {l₂} c d) n =
    sifted_of_perm s c n
    ∙ sifted_of_perm s d (Perm.nodup (Perm.map (λ (l : Labelset). l.0) ∣ c ∣₁) n)

-- With different keys, the order in which the labels come does not matter.
pub sort_slice_of_perm :
    {l m : List Labelset} → Perm l m → Nodup (keys l) → sort_slice l ≡ sort_slice m
unfolding sort_slice
sort_slice_of_perm {l} {m} p n =
    ∥∥₁_elim p (is_set Labelset-set _ _) (λ d. ap reverse (sifted_of_perm [] d n))

pub zip-unzip :
    (l : List Labelset)
    → zip_labels (map (λ (x : Labelset). x.0) l) (map (λ (x : Labelset). x.1) l) ≡ l
unfolding zip_labels
zip-unzip [] = refl
zip-unzip (x ∷ l) = ap (◌∷◌ x) (zip-unzip l)

keys-zip : (ks vs : List Bytes) → length ks ≡ length vs → keys (zip_labels ks vs) ≡ ks
unfolding zip_labels
keys-zip [] vs h = refl
keys-zip (k ∷ ks) [] h = absurd (omega arith)
keys-zip (k ∷ ks) (v ∷ vs) h = ap (◌∷◌ k) (keys-zip ks vs (omega arith))

-- Whatever the keys and values, the labels come out in order, shorter keys first and keys of one
-- length by their bytes; and they are the labels that went in, each value still beside its key.
pub sort_labelset-IsSorted :
    (ks vs : List Bytes)
    → let (ks', vs') = sort_labelset ks vs in
      IsSorted (zip_labels ks' vs') × Perm (zip_labels ks' vs') (zip_labels ks vs)
unfolding sort_labelset
sort_labelset-IsSorted ks vs =
    let l = zip_labels ks vs in rw zip-unzip (sort_slice-IsSorted l, sort_slice-perm l)

-- If the keys are pairwise different, the result of the sort depends only on which labels there
-- are: any other order of the same labels is sorted to the same two slices.
pub sort_labelset_of_perm :
    (ks vs ms ws : List Bytes)
    → length ks ≡ length vs
    → Nodup ks
    → Perm (zip_labels ks vs) (zip_labels ms ws)
    → sort_labelset ks vs ≡ sort_labelset ms ws
unfolding sort_labelset
sort_labelset_of_perm ks vs ms ws h n p =
    ap (λ (l : List Labelset). (map (λ (x : Labelset). x.0) l, map (λ (x : Labelset). x.1) l))
      (sort_slice_of_perm p (rw (keys-zip ks vs h) n))
