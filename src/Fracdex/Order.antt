-- ===== src/Fracdex/Order.antt =====
-- The byte order of keys, as a relation, and what the proofs about fracdex.go need of it.
use project_management.Fracdex.{bytes_lt}
use project_management.Prelude.{
  ◌<◌, ◌≡◌, refl, ◌≢◌, ◌↔◌, ◌⊎◌, inl, inr, true, [], ◌∷◌, ◌++◌, arith, Bytes, length,
}

-- One string sorts strictly before another.
abbrev pub Lt : Bytes → Bytes → Type 0
Lt xs [] = ⊥
Lt [] (y ∷ ys) = Unit
Lt (x ∷ xs) (y ∷ ys) = (x < y) ⊎ ((x ≡ y) × Lt xs ys)

-- It does so at a byte that both have, so whatever follows them.
abbrev pub LtInside : Bytes → Bytes → Type 0
LtInside xs [] = ⊥
LtInside [] (y ∷ ys) = ⊥
LtInside (x ∷ xs) (y ∷ ys) = (x < y) ⊎ ((x ≡ y) × LtInside xs ys)

-- The Go comparison decides the relation.
pub bytes_lt_iff : (a b : Bytes) → (bytes_lt a b ≡ true) ↔ Lt a b
unfolding bytes_lt
bytes_lt_iff [] [] = ground arith
bytes_lt_iff [] (y ∷ ys) = ground arith
bytes_lt_iff (x ∷ xs) [] = ground arith
bytes_lt_iff (x ∷ xs) (y ∷ ys) = ground (arith, bytes_lt_iff xs ys)

pub Lt-trans : (a b c : Bytes) → Lt a b → Lt b c → Lt a c
Lt-trans a b [] p q = q
Lt-trans [] b (z ∷ c) p q = tt
Lt-trans (x ∷ a) [] (z ∷ c) p q = absurd p
Lt-trans (x ∷ a) (y ∷ b) (z ∷ c) p q = ground (arith, Lt-trans a b c)

pub Lt-irrefl : (a : Bytes) → ¬ Lt a a
Lt-irrefl [] h = h
Lt-irrefl (x ∷ a) h = ground (arith, Lt-irrefl a)

pub Lt-inside : (a b r s : Bytes) → LtInside a b → Lt (a ++ r) (b ++ s)
Lt-inside a [] r s h = absurd h
Lt-inside [] (y ∷ b) r s h = absurd h
Lt-inside (x ∷ a) (y ∷ b) r s (inl h) = inl h
Lt-inside (x ∷ a) (y ∷ b) r s (inr (e, h)) = inr (e, Lt-inside a b r s h)

-- A common prefix does not matter.
pub Lt-prefix : (p a b : Bytes) → Lt (p ++ a) (p ++ b) ↔ Lt a b
Lt-prefix [] a b = (λ h. h, λ h. h)
Lt-prefix (x ∷ p) a b = ground (arith, Lt-prefix p a b)

pub Lt-extend : (a b : Bytes) → b ≢ [] → Lt a (a ++ b)
Lt-extend [] [] h = absurd (h refl)
Lt-extend [] (y ∷ b) h = tt
Lt-extend (x ∷ a) b h = inr (refl, Lt-extend a b h)

-- Strings of one length that differ, differ inside.
pub LtInside-of_Lt :
    (a b r s : Bytes) → length a ≡ length b → a ≢ b → Lt (a ++ r) (b ++ s) → LtInside a b
LtInside-of_Lt [] [] r s l ne h = absurd (ne refl)
LtInside-of_Lt [] (y ∷ b) r s l ne h = absurd (omega arith)
LtInside-of_Lt (x ∷ a) [] r s l ne h = absurd (omega arith)
LtInside-of_Lt (x ∷ a) (y ∷ b) r s l ne (inl h) = inl h
LtInside-of_Lt (x ∷ a) (y ∷ b) r s l ne (inr (e, h)) =
    inr (e, LtInside-of_Lt a b r s (omega arith) (λ q. ne (cc)) h)
