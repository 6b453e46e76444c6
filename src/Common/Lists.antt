-- ===== src/Common/Lists.antt =====
-- Lists measured and indexed by the native numbers: the arrays and strings of the C code.
use Prim.Native.Nat.{◌≤◌, ◌<◌, ℕ, zero, suc, ◌+◌, ◌-◌}
use mathlib.Core.Path.{◌≡◌, refl, ap}
use mathlib.Core.Logic.{◌≢◌}
use mathlib.Core.List.{List, [], ◌∷◌, ◌++◌}
use native.Mathlib.Omega.{arith}

module _ {ℓ} {A : Type ℓ} where
  abbrev pub length : List A → ℕ
  length [] = 0
  length (x ∷ xs) = suc (length xs)

  abbrev pub get_or : List A → ℕ → A → A
  get_or [] i d = d
  get_or (x ∷ xs) zero d = x
  get_or (x ∷ xs) (suc i) d = get_or xs i d

  -- A write out of bounds changes nothing.
  abbrev pub set : List A → ℕ → A → List A
  set [] i v = []
  set (x ∷ xs) zero v = v ∷ xs
  set (x ∷ xs) (suc i) v = x ∷ set xs i v

  abbrev pub take : ℕ → List A → List A
  take zero xs = []
  take (suc n) [] = []
  take (suc n) (x ∷ xs) = x ∷ take n xs

  abbrev pub drop : ℕ → List A → List A
  drop zero xs = xs
  drop (suc n) [] = []
  drop (suc n) (x ∷ xs) = drop n xs

  abbrev pub replicate : ℕ → A → List A
  replicate zero a = []
  replicate (suc n) a = a ∷ replicate n a

  pub length-append : (xs ys : List A) → length (xs ++ ys) ≡ length xs + length ys
  length-append [] ys = omega arith
  length-append (x ∷ xs) ys = omega (arith, length-append xs ys)

  pub length-replicate : (n : ℕ) (a : A) → length (replicate n a) ≡ n
  length-replicate zero a = refl
  length-replicate (suc n) a = ap suc (length-replicate n a)

-- A predicate of every element.
abbrev pub All {ℓ κ} : {A : Type ℓ} → (A → Type κ) → List A → Type κ
All P [] = Unit
All P (x ∷ xs) = P x × All P xs

module _ {ℓ} {A : Type ℓ} where
  -- Storing `bs` from index `i` on, as far as the array reaches.
  abbrev pub write_at : List A → ℕ → List A → List A
  write_at [] i bs = []
  write_at (x ∷ xs) zero [] = x ∷ xs
  write_at (x ∷ xs) zero (b ∷ bs) = b ∷ write_at xs zero bs
  write_at (x ∷ xs) (suc i) bs = x ∷ write_at xs i bs

  pub length-write_at : (xs : List A) (i : ℕ) (bs : List A) → length (write_at xs i bs) ≡ length xs
  length-write_at [] i bs = refl
  length-write_at (x ∷ xs) zero [] = refl
  length-write_at (x ∷ xs) zero (b ∷ bs) = ap suc (length-write_at xs zero bs)
  length-write_at (x ∷ xs) (suc i) bs = ap suc (length-write_at xs i bs)

  -- What is stored stands behind the `i` elements before it, if it fits.
  pub take-write_at :
      (xs : List A) (i n : ℕ) (bs : List A)
      → n ≡ i + length bs
      → n ≤ length xs
      → take n (write_at xs i bs) ≡ take i xs ++ bs
  take-write_at [] zero zero [] e h = refl
  take-write_at [] zero zero (b ∷ bs) e h = absurd (omega arith)
  take-write_at [] zero (suc n) bs e h = absurd (omega arith)
  take-write_at [] (suc i) zero bs e h = absurd (omega arith)
  take-write_at [] (suc i) (suc n) bs e h = absurd (omega arith)
  take-write_at (x ∷ xs) zero zero [] e h = refl
  take-write_at (x ∷ xs) zero (suc n) [] e h = absurd (omega arith)
  take-write_at (x ∷ xs) zero zero (b ∷ bs) e h = absurd (omega arith)
  take-write_at (x ∷ xs) zero (suc n) (b ∷ bs) e h =
      ap (λ ys. b ∷ ys) (take-write_at xs zero n bs (omega arith) (omega arith))
  take-write_at (x ∷ xs) (suc i) zero bs e h = absurd (omega arith)
  take-write_at (x ∷ xs) (suc i) (suc n) bs e h =
      ap (λ ys. x ∷ ys) (take-write_at xs i n bs (omega arith) (omega arith))

  -- The elements before index `i` are kept.
  pub take-write_at_before :
      (xs : List A) (i : ℕ) (bs : List A) → take i (write_at xs i bs) ≡ take i xs
  take-write_at_before xs zero bs = refl
  take-write_at_before [] (suc i) bs = refl
  take-write_at_before (x ∷ xs) (suc i) bs = ap (λ ys. x ∷ ys) (take-write_at_before xs i bs)

module _ {ℓ} {A : Type ℓ} where
  pub length-set : (xs : List A) (i : ℕ) (v : A) → length (set xs i v) ≡ length xs
  length-set [] i v = refl
  length-set (x ∷ xs) zero v = refl
  length-set (x ∷ xs) (suc i) v = ap suc (length-set xs i v)

  pub get_or-set_self :
      (xs : List A) (i : ℕ) (v d : A) → i < length xs → get_or (set xs i v) i d ≡ v
  get_or-set_self [] i v d h = absurd (omega arith)
  get_or-set_self (x ∷ xs) zero v d h = refl
  get_or-set_self (x ∷ xs) (suc i) v d h = get_or-set_self xs i v d (omega arith)

  pub get_or-set_ne :
      (xs : List A) (i k : ℕ) (v d : A) → i ≢ k → get_or (set xs i v) k d ≡ get_or xs k d
  get_or-set_ne [] i k v d h = refl
  get_or-set_ne (x ∷ xs) zero zero v d h = absurd (h refl)
  get_or-set_ne (x ∷ xs) zero (suc k) v d h = refl
  get_or-set_ne (x ∷ xs) (suc i) zero v d h = refl
  get_or-set_ne (x ∷ xs) (suc i) (suc k) v d h = get_or-set_ne xs i k v d (λ e. h (ap suc e))

  pub get_or-replicate : (n k : ℕ) (a : A) → get_or (replicate n a) k a ≡ a
  get_or-replicate zero k a = refl
  get_or-replicate (suc n) zero a = refl
  get_or-replicate (suc n) (suc k) a = get_or-replicate n k a

module _ {ℓ} {A : Type ℓ} where
  pub take-drop : (n : ℕ) (xs : List A) → take n xs ++ drop n xs ≡ xs
  take-drop zero xs = refl
  take-drop (suc n) [] = refl
  take-drop (suc n) (x ∷ xs) = ap (λ ys. x ∷ ys) (take-drop n xs)

  pub length-take : (n : ℕ) (xs : List A) → n ≤ length xs → length (take n xs) ≡ n
  length-take zero xs h = refl
  length-take (suc n) [] h = absurd (omega arith)
  length-take (suc n) (x ∷ xs) h = ap suc (length-take n xs (omega arith))

  pub length-drop : (n : ℕ) (xs : List A) → length (drop n xs) ≡ length xs - n
  length-drop zero xs = omega arith
  length-drop (suc n) [] = omega arith
  length-drop (suc n) (x ∷ xs) = omega (arith, length-drop n xs)

module _ {ℓ} {A : Type ℓ} where
  pub get_or-append_left :
      (xs ys : List A) (i : ℕ) (d : A) → i < length xs → get_or (xs ++ ys) i d ≡ get_or xs i d
  get_or-append_left [] ys i d h = absurd (omega arith)
  get_or-append_left (x ∷ xs) ys zero d h = refl
  get_or-append_left (x ∷ xs) ys (suc i) d h = get_or-append_left xs ys i d (omega arith)

  pub get_or-append_right :
      (xs ys : List A) (k i : ℕ) (d : A) → k ≡ length xs + i → get_or (xs ++ ys) k d ≡ get_or ys i d
  get_or-append_right [] ys k i d e = let same : k ≡ i = omega arith in ap (λ j. get_or ys j d) same
  get_or-append_right (x ∷ xs) ys zero i d e = absurd (omega arith)
  get_or-append_right (x ∷ xs) ys (suc k) i d e = get_or-append_right xs ys k i d (omega arith)

  pub drop-append : (xs ys : List A) (n : ℕ) → n ≡ length xs → drop n (xs ++ ys) ≡ ys
  drop-append [] ys zero e = refl
  drop-append [] ys (suc n) e = absurd (omega arith)
  drop-append (x ∷ xs) ys zero e = absurd (omega arith)
  drop-append (x ∷ xs) ys (suc n) e = drop-append xs ys n (omega arith)

  pub get_or-replicate_lt : (n k : ℕ) (a d : A) → k < n → get_or (replicate n a) k d ≡ a
  get_or-replicate_lt zero k a d h = absurd (omega arith)
  get_or-replicate_lt (suc n) zero a d h = refl
  get_or-replicate_lt (suc n) (suc k) a d h = get_or-replicate_lt n k a d (omega arith)

  write_at-front : (ys zs ws : List A) → length ws ≡ length ys → write_at (ys ++ zs) 0 ws ≡ ws ++ zs
  write_at-front [] [] [] e = refl
  write_at-front [] (z ∷ zs) [] e = refl
  write_at-front [] zs (w ∷ ws) e = absurd (omega arith)
  write_at-front (y ∷ ys) zs [] e = absurd (omega arith)
  write_at-front (y ∷ ys) zs (w ∷ ws) e = ap (λ t. w ∷ t) (write_at-front ys zs ws (omega arith))

  -- Storing over the middle part of a list.
  pub write_at-middle :
      (xs ys zs ws : List A) (n : ℕ)
      → n ≡ length xs
      → length ws ≡ length ys
      → write_at (xs ++ (ys ++ zs)) n ws ≡ xs ++ (ws ++ zs)
  write_at-middle [] ys zs ws zero e h = write_at-front ys zs ws h
  write_at-middle [] ys zs ws (suc n) e h = absurd (omega arith)
  write_at-middle (x ∷ xs) ys zs ws zero e h = absurd (omega arith)
  write_at-middle (x ∷ xs) ys zs ws (suc n) e h =
      ap (λ t. x ∷ t) (write_at-middle xs ys zs ws n (omega arith) h)

  pub take-append : (xs ys : List A) (n : ℕ) → n ≡ length xs → take n (xs ++ ys) ≡ xs
  take-append [] ys zero e = refl
  take-append [] ys (suc n) e = absurd (omega arith)
  take-append (x ∷ xs) ys zero e = absurd (omega arith)
  take-append (x ∷ xs) ys (suc n) e = ap (λ t. x ∷ t) (take-append xs ys n (omega arith))
