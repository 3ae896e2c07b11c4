-- ===== src/Additive2Basis/Decompress.antt =====
-- The decompression circuit turns an honest encoding into all powers of the message.
use ab_prototype.Prelude.{
  ℕ, zero, suc, ◌+◌, ◌-◌, ◌*◌, ◌<◌, ◌≡◌, refl, ap, ◌∙◌, Option, some, List, [], ◌∷◌, ◌++◌,
  append_assoc, append-nil, ◌>>=◌, length, length-append, set?-append, replicate, arith,
}
use ab_prototype.ZzP.{ZzP}
use ab_prototype.Additive2Basis.{add2basis_encode}
use ab_prototype.Additive2Basis.Encoding.{Holds, holds4, holds5}
use ab_prototype.Additive2Basis.Circuit.{
  circuit, append, store, num_messages, decompress_encoding, opt_decompress_encoding,
}
use ab_prototype.Additive2Basis.Powers.{Puts}
use ab_prototype.Additive2Basis.Stages
use ab_prototype.Additive2Basis.Blocks

module _ {A : Type 0} ⦃z : ZzP A⦄ {S : Type 0} (put : A → S → Option S) (msg : A) (L : ℕ)
    (L_pos : 0 < L) (state : ℕ → S) (puts : Puts put msg (num_messages L) state) where
  -- The places of S_4 and of S_5, as the last ten loops use them.
  far4 : (i t e : ℕ) → i ≡ 5 * L + t → t < L + 1 → e ≡ 6 * (L * L) + 4 * L + t → Holds msg L i e
  far4 i t e = holds4 msg L i t e L_pos

  far5 :
      (i t e : ℕ) → i ≡ 6 * L + 1 + t → t < L + 1 → e ≡ 10 * (L * L) + 7 * L + t → Holds msg L i e
  far5 i t e = holds5 msg L i t e L_pos

  circuit_run : circuit put (add2basis_encode msg L) L (state 0) ≡ some (state (num_messages L))
  unfolding circuit
  circuit_run =
      rw (Stages.loop1 put msg L L_pos state puts, Stages.loop2 put msg L L_pos state puts)
        (rw (Stages.loop3 put msg L L_pos state puts, Stages.loop4 put msg L L_pos state puts)
          (rw
            (
              Stages.loop5 put msg L L_pos state puts,
              Blocks.block1 put msg L L_pos state puts (5 * L) (6 * (L * L) + 4 * L) (omega arith)
                  (omega arith) far4 (6 * L + 1) (omega arith),
            )
            (rw
              (
                Blocks.block2 put msg L L_pos state puts (5 * L) (6 * (L * L) + 4 * L) (omega arith)
                    (omega arith) far4 (6 * L) (omega arith),
                Blocks.block3 put msg L L_pos state puts (5 * L) (6 * (L * L) + 4 * L) (omega arith)
                    (omega arith) far4 (5 * L + 1) (6 * L + 1) refl (omega arith),
              )
              (rw
                (
                  Blocks.block4 put msg L L_pos state puts (5 * L) (6 * (L * L) + 4 * L)
                      (omega arith) (omega arith) far4 (5 * L + 1) (6 * L + 1) refl (omega arith),
                  Blocks.block5 put msg L L_pos state puts (5 * L) (6 * (L * L) + 4 * L)
                      (omega arith) (omega arith) far4 (6 * L + 1) (omega arith),
                )
                (rw
                  (
                    between,
                    Blocks.block1 put msg L L_pos state puts (6 * L + 1) (10 * (L * L) + 7 * L)
                        (omega arith) (omega arith) far5 (7 * L + 2) (omega arith),
                  )
                  (rw
                    (
                      Blocks.block2 put msg L L_pos state puts (6 * L + 1) (10 * (L * L) + 7 * L)
                          (omega arith) (omega arith) far5 (7 * L + 1) (omega arith),
                      Blocks.block3 put msg L L_pos state puts (6 * L + 1) (10 * (L * L) + 7 * L)
                          (omega arith) (omega arith) far5 (6 * L + 2) (7 * L + 2) (omega arith)
                          (omega arith),
                    )
                    (rw
                      (Blocks.block4 put msg L L_pos state puts (6 * L + 1) (10 * (L * L) + 7 * L)
                        (omega arith) (omega arith) far5 (6 * L + 2) (7 * L + 2) (omega arith)
                        (omega arith))
                      (Blocks.block5 put msg L L_pos state puts (6 * L + 1) (10 * (L * L) + 7 * L)
                          (omega arith) (omega arith) far5 (7 * L + 2) (omega arith)
                        ∙ ap (λ (k : ℕ). some (state k)) (omega arith)))))))))
    where
      between :
          state (6 * (L * L) + 4 * L + 4 * (L * L) + 3 * L - 1) ≡ state (10 * (L * L) + 7 * L - 1)
      between = ap state (omega arith)

module _ {A : Type 0} ⦃z : ZzP A⦄ where
  -- The specification: the powers of a message from the first to the k-th.
  abbrev pub powers : A → ℕ → List A
  powers msg zero = []
  powers msg (suc k) = powers msg k ++ (z.power msg (suc k) ∷ [])

  pub length-powers : (msg : A) (k : ℕ) → length (powers msg k) ≡ k
  length-powers msg zero = refl
  length-powers msg (suc k) =
      length-append (powers msg k) (z.power msg (suc k) ∷ []) ∙ omega (arith, length-powers msg k)

  append-Puts : (msg : A) (n : ℕ) → Puts append msg n (powers msg)
  unfolding append
  append-Puts msg n k h = refl

  -- The vector of n elements of which the first k are powers, and the position k.
  abbrev partly : A → ℕ → ℕ → List A × ℕ
  partly msg n k = (powers msg k ++ replicate (n - k) z.zero, k)

  store-Puts : (msg : A) (n : ℕ) → Puts store msg n (partly msg n)
  unfolding store
  store-Puts msg n k h =
      rw
        (
          room,
          set?-append (powers msg k) z.zero (replicate (n - suc k) z.zero) k (z.power msg (suc k))
              (omega (arith, length-powers msg k)),
        )
        (rw (
          append_assoc (powers msg k) (z.power msg (suc k) ∷ []) (replicate (n - suc k) z.zero),
          next,
        ))
    where
      room : n - k ≡ suc (n - suc k)
      room = omega arith

      next : k + 1 ≡ suc k
      next = omega arith

  -- For L > 0 the circuit that appends, run on the encoding of a message, reads in range and
  -- yields the first N powers of the message.
  pub decompress_encoding-add2basis_encode :
      (msg : A) (L : ℕ)
      → 0 < L
      → decompress_encoding (add2basis_encode msg L) L ≡ some (powers msg (num_messages L))
  unfolding decompress_encoding
  decompress_encoding-add2basis_encode msg L h =
      circuit_run append msg L h (powers msg) (append-Puts msg (num_messages L))

  -- For L > 0 the circuit that stores, run on the encoding of a message, reads and writes in range,
  -- fills its vector of N elements and yields the first N powers of the message.
  pub opt_decompress_encoding-add2basis_encode :
      (msg : A) (L : ℕ)
      → 0 < L
      → opt_decompress_encoding (add2basis_encode msg L) L ≡ some (powers msg (num_messages L))
  unfolding opt_decompress_encoding
  opt_decompress_encoding-add2basis_encode msg L h =
      ap (λ (o : Option (List A × ℕ)). o >>= λ (r : List A × ℕ). some r.0) run ∙ ap some whole
    where
      n : ℕ
      n = num_messages L

      none_left : n - n ≡ 0
      none_left = omega arith

      start : n - 0 ≡ n
      start = omega arith

      whole : powers msg n ++ replicate (n - n) z.zero ≡ powers msg n
      whole = rw (none_left, append-nil (powers msg n))

      run : circuit store (add2basis_encode msg L) L (replicate n z.zero, 0) ≡ some (partly msg n n)
      run = rw start at (circuit_run store msg L h (partly msg n) (store-Puts msg n))
