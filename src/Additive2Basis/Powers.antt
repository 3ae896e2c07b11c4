-- ===== src/Additive2Basis/Powers.antt =====
-- One step of the decompression circuit on an honest encoding, whatever way its elements are put
-- out: `state k` stands for the first k powers of the message.
use ab_prototype.Prelude.{ℕ, suc, ◌+◌, ◌*◌, ◌≤◌, ◌<◌, ◌≡◌, Option, some, arith}
use ab_prototype.ZzP.{ZzP}
use ab_prototype.ZzP.Laws.{power-add}
use ab_prototype.Additive2Basis.{add2basis_encode}
use ab_prototype.Additive2Basis.Encoding.{Holds}
use ab_prototype.Additive2Basis.Circuit.{copy, product, num_messages}

-- `put` extends the state by the next power, as long as there is room.
abbrev pub Puts :
    {A : Type 0} {S : Type 0} ⦃z : ZzP A⦄ → (A → S → Option S) → A → ℕ → (ℕ → S) → Type 0
Puts ⦃z⦄ put msg n state =
    (k : ℕ) → k < n → put (z.power msg (suc k)) (state k) ≡ some (state (suc k))

module _ {A : Type 0} ⦃z : ZzP A⦄ {S : Type 0} (put : A → S → Option S) (msg : A) (L : ℕ)
    (state : ℕ → S) (puts : Puts put msg (num_messages L) state) where
  pub copy_step :
      (i k k' : ℕ)
      → k' ≡ suc k
      → k < num_messages L
      → Holds msg L i k'
      → copy put (add2basis_encode msg L) i (state k) ≡ some (state k')
  copy_step i k k' e h p = rw (p, e) (puts k h)

  pub product_step :
      (i j k k' a b : ℕ)
      → k' ≡ suc k
      → a + b ≡ k'
      → k < num_messages L
      → Holds msg L i a
      → Holds msg L j b
      → product put (add2basis_encode msg L) i j (state k) ≡ some (state k')
  product_step i j k k' a b e s h p q = rw (p, q, ← power-add msg a b, s, e) (puts k h)

-- A row of a table with rows of length L lies within the table.
pub row_le : (t n L : ℕ) → t < n → t * L + L ≤ n * L
row_le t n L h = grind arith
