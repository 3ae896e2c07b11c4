-- ===== src/Server/Sessions.antt =====
-- The map of the sessions in rm_server_main.cpp, a `std::map` from session ids.
use ab_prototype.Prelude.{
  ℕ, ◌≡◌, ◌≢◌, refl, Option, none, some, List, [], ◌∷◌, ◌==◌, if◌then◌else◌, AllOf, Bool-cases, inl,
  inr, arith,
}

module _ {B : Type 0} where
  unfoldable pub find : ℕ → List (ℕ × B) → Option B
  find k [] = none
  find k ((j, v) ∷ m) = let rest = find k m in if j == k then some v else rest

  -- The value at `k`, inserted where there is none.
  unfoldable pub put : ℕ → B → List (ℕ × B) → List (ℕ × B)
  put k v [] = (k, v) ∷ []
  put k v ((j, w) ∷ m) = let rest = put k v m in if j == k then (j, v) ∷ m else (j, w) ∷ rest

  unfoldable pub erase : ℕ → List (ℕ × B) → List (ℕ × B)
  erase k [] = []
  erase k ((j, w) ∷ m) = let rest = erase k m in if j == k then rest else (j, w) ∷ rest

  pub find-put_other : (k i : ℕ) (v : B) (m : List (ℕ × B)) → i ≢ k → find i (put k v m) ≡ find i m
  unfolding find put
  find-put_other k i v [] h = ground arith
  find-put_other k i v ((j, w) ∷ m) h = ground (arith, find-put_other k i v m h)

  pub find-erase_other : (k i : ℕ) (m : List (ℕ × B)) → i ≢ k → find i (erase k m) ≡ find i m
  unfolding find erase
  find-erase_other k i [] h = refl
  find-erase_other k i ((j, w) ∷ m) h = ground (arith, find-erase_other k i m h)

  module _ (P : B → Type 0) where
    -- A predicate on the values of all sessions.
    abbrev pub AllValues : List (ℕ × B) → Type 0
    AllValues = AllOf (λ e. P e.1)

    pub AllValues-put :
        (k : ℕ) (v : B) (m : List (ℕ × B)) → P v → AllValues m → AllValues (put k v m)
    unfolding put
    AllValues-put k v [] p h = (p, tt)
    AllValues-put k v ((j, w) ∷ m) p h = elim (Bool-cases (j == k)) [
      | inl e ↦ rw e (p, h.1)
      | inr e ↦ rw e (h.0, AllValues-put k v m p h.1)
    ]

    pub AllValues-erase : (k : ℕ) (m : List (ℕ × B)) → AllValues m → AllValues (erase k m)
    unfolding erase
    AllValues-erase k [] h = tt
    AllValues-erase k ((j, w) ∷ m) h = elim (Bool-cases (j == k)) [
      | inl e ↦ rw e (AllValues-erase k m h.1)
      | inr e ↦ rw e (h.0, AllValues-erase k m h.1)
    ]

    pub find-holds : (k : ℕ) (v : B) (m : List (ℕ × B)) → find k m ≡ some v → AllValues m → P v
    unfolding find
    find-holds k v [] e h = cc
    find-holds k v ((j, w) ∷ m) e h = elim (Bool-cases (j == k)) [
      | inl t ↦ let e' : some w ≡ some v = rw t at e in let same : w ≡ v = cc in rw (← same) h.0
      | inr t ↦ let e' : find k m ≡ some v = rw t at e in find-holds k v m e' h.1
    ]
