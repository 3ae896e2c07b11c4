-- ===== src/Additive2Basis/Circuit.antt =====
-- The decompression circuit of additive2basis.h and rm_additive2basis.h: from the 7 * L + 5
-- elements of an encoding it computes N = 14 * L ^ 2 + 10 * L - 1 products. The source writes its
-- loops twice: `decompress_encoding` appends each element, `opt_decompress_encoding` stores it at
-- `pos++` in a vector of N elements. `circuit` has the loops once, over the way `put` that an
-- element is put out. A read or write out of range is `none`.
use ab_prototype.Prelude.{
  ℕ, ◌+◌, ◌-◌, ◌*◌, Option, some, List, [], ◌∷◌, ◌++◌, get_elem?, set?, replicate, ltb,
  if◌then◌else◌, for_range, ◌>>=◌,
}
use ab_prototype.ZzP.{ZzP, ◌⊗◌}

module _ {A : Type 0} ⦃z : ZzP A⦄ {S : Type 0} (put : A → S → Option S) (input : List A) where
  -- Puts out `input[i]`.
  abbrev pub copy : ℕ → S → Option S
  copy i s = do v ← get_elem? input i; put v s

  -- Puts out `input[i] * input[j]`.
  abbrev pub product : ℕ → ℕ → S → Option S
  product i j s = do a ← get_elem? input i; b ← get_elem? input j; put (a ⊗ b) s

  -- The loops with bound `j` in [4L, 5L), where all but the first round copy `input[j]` first.
  unfoldable pub copy_products : ℕ → ℕ → S → Option S
  copy_products L j s = do
    s ← (let copied = copy j s in if ltb (4 * L) j then copied else some s)
    for_range (λ i. product i j) 0 L s

  unfoldable pub circuit : ℕ → S → Option S
  circuit L s = do
    s ← for_range copy 0 L s
    s ← for_range (λ i. product (L - 1) i) 0 L s
    s ← for_range (λ j. for_range (λ i. product i j) 0 L) L (4 * L) s
    s ← for_range (copy_products L) (4 * L) (5 * L) s
    s ←
        for_range (λ i. for_range (λ j. product (2 * L - 1 + i - j) (4 * L + j - 1)) 1 (L + 1)) 1
          (2 * L + 2) s
    s ← for_range copy (5 * L) (6 * L + 1) s
    s ← for_range (λ i. product i (6 * L)) 0 L s
    s ← for_range (λ i. for_range (λ j. product i j) (5 * L + 1) (6 * L + 1)) L (4 * L) s
    s ← for_range (λ j. product (4 * L) j) (5 * L + 1) (6 * L + 1) s
    s ← for_range (λ i. for_range (λ j. product i j) (5 * L) (6 * L + 1)) (4 * L + 1) (5 * L) s
    s ← for_range copy (6 * L + 1) (7 * L + 2) s
    s ← for_range (λ i. product i (7 * L + 1)) 0 L s
    s ← for_range (λ i. for_range (λ j. product i j) (6 * L + 2) (7 * L + 2)) L (4 * L) s
    s ← for_range (λ i. product (4 * L) i) (6 * L + 2) (7 * L + 2) s
    for_range (λ i. for_range (λ j. product i j) (6 * L + 1) (7 * L + 2)) (4 * L + 1) (5 * L) s

module _ {A : Type 0} where
  -- `decompressed.append(v)`.
  unfoldable pub append : A → List A → Option (List A)
  append v out = some (out ++ (v ∷ []))

  -- `decompressed[pos] = v; pos++`.
  unfoldable pub store : A → List A × ℕ → Option (List A × ℕ)
  store v (out, pos) = do out' ← set? out pos v; some (out', pos + 1)

-- The length of a decompressed encoding, which is also the number of clients.
abbrev pub num_messages : ℕ → ℕ
num_messages L = 14 * (L * L) + 10 * L - 1

module _ {A : Type 0} ⦃z : ZzP A⦄ where
  unfoldable pub decompress_encoding : List A → ℕ → Option (List A)
  decompress_encoding input L = circuit append input L []

  unfoldable pub opt_decompress_encoding : List A → ℕ → Option (List A)
  opt_decompress_encoding input L = do
    (out, pos) ← circuit store input L (replicate (num_messages L) z.zero, 0)
    some out
