-- ===== src/Metric/Order.antt =====
-- The order by which `sortLabelset` of internal/metric.go compares keys.
use crdmetrics.Prelude.{Bytes, true, false, ◌≡◌, refl, [], ◌∷◌, arith}
use crdmetrics.Metric.{lt_bytes, less}

lt_bytes-total : (a b : Bytes) → lt_bytes a b ≡ false → lt_bytes b a ≡ false → a ≡ b
unfolding lt_bytes
lt_bytes-total [] [] h k = refl
lt_bytes-total [] (b ∷ t) h k = cc
lt_bytes-total (a ∷ s) [] h k = cc
lt_bytes-total (a ∷ s) (b ∷ t) h k = ground (arith, lt_bytes-total s t)

lt_bytes_asymm : (a b : Bytes) → lt_bytes a b ≡ true → lt_bytes b a ≡ false
unfolding lt_bytes
lt_bytes_asymm [] [] h = refl
lt_bytes_asymm [] (b ∷ t) h = refl
lt_bytes_asymm (a ∷ s) [] h = cc
lt_bytes_asymm (a ∷ s) (b ∷ t) h = ground (arith, lt_bytes_asymm s t)

lt_bytes_below : (y z x : Bytes) → lt_bytes y z ≡ true → lt_bytes x z ≡ false → lt_bytes y x ≡ true
unfolding lt_bytes
lt_bytes_below [] [] x h k = cc
lt_bytes_below [] (c ∷ u) [] h k = cc
lt_bytes_below [] (c ∷ u) (a ∷ s) h k = refl
lt_bytes_below (b ∷ t) [] x h k = cc
lt_bytes_below (b ∷ t) (c ∷ u) [] h k = cc
lt_bytes_below (b ∷ t) (c ∷ u) (a ∷ s) h k = ground (arith, lt_bytes_below t u s)

-- Two keys neither of which is less than the other are one key.
pub less-total : (a b : Bytes) → less a b ≡ false → less b a ≡ false → a ≡ b
unfolding less
less-total a b h k = ground (arith, lt_bytes-total a b)

pub less_asymm : (a b : Bytes) → less a b ≡ true → less b a ≡ false
unfolding less
less_asymm a b h = ground (arith, lt_bytes_asymm a b)

-- What is less than `z` is less than whatever is not less than `z`.
pub less_below : (y z x : Bytes) → less y z ≡ true → less x z ≡ false → less y x ≡ true
unfolding less
less_below y z x h k = ground (arith, lt_bytes_below y z x)
