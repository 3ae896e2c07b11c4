-- ===== src/Stm/Faults.antt =====
-- Two faults of rm_server_stm.hpp: messages for a round whose record `execute_rm_stm` has cleared,
-- and blocks with corrupted shares in `reconstruct_batched_shares`.
use mathlib.Core.Option
use ab_prototype.Prelude.{
  ℕ, zero, suc, ◌-◌, ◌<◌, ◌≡◌, ◌⊎◌, inl, inr, refl, sym, ap, subst, ◌∙◌, Bool, true, false, not,
  ◌&&◌, Option, some, none, List, [], ◌∷◌, length, get_elem?, set?, guard, ◌==◌, if◌then◌else◌,
  ◌>>=◌, ◌>>◌, >>=-eq-some, ==_iff, arith,
}
use ab_prototype.ZzP.{ZzP}
use ab_prototype.SecretSharing.{Poly, rs_decode}
use ab_prototype.Roots.Field.{Inverse, PolyRoots}
use ab_prototype.RmCommon.{RmInfo}
use ab_prototype.Message.{DeserializedMessage}
use ab_prototype.Stm.State.{
  Stm, batched_open_wf_predicates_2, batched_open_wf_predicates_3, batched_open_wf_predicates_4,
  open_check_wf_predicates,
}
use ab_prototype.Stm.Batch.{reconstruct_blocks, reconstruct_batched_shares}
use ab_prototype.Stm.Handler.{round1, round2, message_handler}
use ab_prototype.Stm.Execute.{
  Context, Run, Next, at_state, go_on, stop, received, rows_have, on_wait1, on_wait2, step_at, step,
}
use ab_prototype.Stm.Messages.{awaited, cleared-message_handler}
use ab_prototype.Stm.Late.{Later, Later-Cleared}
use ab_prototype.Stm.Tables.{get_elem?-set?}

true_of_guard : (b : Bool) {x : Unit {0}} → guard b ≡ some x → b ≡ true
true_of_guard true h = refl
true_of_guard false h = cc

nil_of_length {ℓ} : {B : Type ℓ} (xs : List B) → length xs ≡ 0 → xs ≡ []
nil_of_length [] h = refl
nil_of_length (x ∷ xs) h = absurd (omega arith)

-- A block before the last one has the full size.
size_before_last :
    (blocks : ℕ) (b : Bool) (last l : ℕ) → (if (suc blocks == 0) && b then last else l) ≡ l
size_before_last blocks b last l = ground (arith, ==_iff (suc blocks) 0)

module _ {A P : Type 0} ⦃z : ZzP A⦄ ⦃p : Poly A P⦄ where
  rs_decode-no_errors :
      (errors xvals shares : List A) (g0 : P) (d ell : ℕ) {res : Bool × List A × List A}
      → rs_decode A P [] errors xvals shares g0 d ell ≡ some res
      → errors ≡ []
  unfolding rs_decode
  rs_decode-no_errors errors xvals shares g0 d ell h =
      let (_, e, _) = >>=-eq-some (guard (length errors == 0)) _ h in
      nil_of_length errors ((==_iff (length errors) 0).0 (true_of_guard (length errors == 0) e))

  reconstruct_blocks-no_errors :
      (info : RmInfo) (xvals : List A) (g0 : P) (last_size : ℕ) (blocks : ℕ) (errors : List A)
      (rows : List (List A)) {out : List A}
      → reconstruct_blocks A P info xvals g0 (suc blocks) last_size errors rows ≡ some out
      → errors ≡ []
  unfolding reconstruct_blocks
  reconstruct_blocks-no_errors info xvals g0 last_size blocks errors [] h = cc
  reconstruct_blocks-no_errors info xvals g0 last_size blocks errors (row ∷ rows) h =
      let size = if (blocks == 0) && not (last_size == 0) then last_size else info.l in
      rs_decode-no_errors errors xvals row g0 (size - 1) size
        (>>=-eq-some (rs_decode A P [] errors xvals row g0 (size - 1) size) _ h).1

  decoded_blocks :
      (info : RmInfo) (xvals : List A) (g0 : P) (last_size blocks : ℕ) (rows : List (List A))
      {out : List A}
      → reconstruct_blocks A P info xvals g0 blocks last_size [] rows ≡ some out
      → (i : ℕ) → suc i < blocks
      → (row : List A) → get_elem? rows i ≡ some row
      → (test : Bool) × (secrets : List A) × (rs_decode A P [] [] xvals row g0 (info.l - 1) info.l
          ≡ some (test, secrets, []))
  unfolding reconstruct_blocks
  decoded_blocks info xvals g0 last_size zero rows h i lt row e = absurd (omega arith)
  decoded_blocks info xvals g0 last_size (suc zero) rows h i lt row e = absurd (omega arith)
  decoded_blocks info xvals g0 last_size (suc (suc blocks)) [] h i lt row e = cc
  decoded_blocks info xvals g0 last_size (suc (suc blocks)) (row0 ∷ rows) h i lt row e =
      let size = if (suc blocks == 0) && not (last_size == 0) then last_size else info.l in
      let ((test, secrets, errors), dec, h1) =
        >>=-eq-some (rs_decode A P [] [] xvals row0 g0 (size - 1) size) _ h in
      let (rest, more, _) =
        >>=-eq-some (reconstruct_blocks A P info xvals g0 (suc blocks) last_size errors rows) _
          h1 in
      let nothing : errors ≡ [] =
        reconstruct_blocks-no_errors info xvals g0 last_size blocks errors rows more in
      let dec' : rs_decode A P [] [] xvals row0 g0 (info.l - 1) info.l ≡ some (test, secrets, []) =
        subst (λ n. rs_decode A P [] [] xvals row0 g0 (n - 1) n ≡ some (test, secrets, []))
          (size_before_last blocks (not (last_size == 0)) last_size info.l)
          (dec ∙ ap (λ es. some (test, secrets, es)) nothing) in
      let more' =
        subst
          (λ es. reconstruct_blocks A P info xvals g0 (suc blocks) last_size es rows ≡ some rest)
          nothing more in
      by_row i lt e test secrets dec'
        (λ j. decoded_blocks info xvals g0 last_size (suc blocks) rows more' j)
    where
      by_row :
          (i : ℕ)
          → suc i < suc (suc blocks)
          → get_elem? (row0 ∷ rows) i ≡ some row
          → (test : Bool) (secrets : List A)
          → rs_decode A P [] [] xvals row0 g0 (info.l - 1) info.l ≡ some (test, secrets, [])
          → ((j : ℕ)
              → suc j < suc blocks
              → (row : List A) → get_elem? rows j ≡ some row
              → (test : Bool) × (secrets : List A) × (rs_decode A P [] [] xvals row g0
                    (info.l - 1)
                    info.l
                  ≡ some (test, secrets, [])))
          → (test : Bool) × (secrets : List A) × (rs_decode A P [] [] xvals row g0
                (info.l - 1)
                info.l
              ≡ some (test, secrets, []))
      by_row zero lt e test secrets dec later =
          (test, secrets, rw (sym (Option.some-injective _ _ e)) dec)
      by_row (suc i) lt e test secrets dec later = later i (omega arith) row e

  -- Where the decoder finds wrong shares in a block that is not the last one,
  -- `reconstruct_batched_shares` is a fault, whatever the other blocks hold.
  pub reconstruct_batched_shares-rs_decode :
      (info : RmInfo) (s : Stm A P) (rows : List (List A)) (blocks last_size i : ℕ) (row : List A)
      (test : Bool) (secrets : List A) (error : A) (errors : List A)
      → suc i < blocks
      → get_elem? rows i ≡ some row
      → rs_decode A P [] [] s.xvals row s.g0 (info.l - 1) info.l
        ≡ some (test, secrets, error ∷ errors)
      → reconstruct_batched_shares A P info s rows blocks last_size ≡ none
  unfolding reconstruct_batched_shares
  reconstruct_batched_shares-rs_decode info s rows blocks last_size i row test secrets error errors
        lt at found =
      by_result (reconstruct_blocks A P info s.xvals s.g0 blocks last_size [] rows) refl
    where
      by_result :
          (result : Option (List A))
          → reconstruct_blocks A P info s.xvals s.g0 blocks last_size [] rows ≡ result
          → reconstruct_blocks A P info s.xvals s.g0 blocks last_size [] rows ≡ none
      by_result none run = run
      by_result (some out) run =
          let (_, _, none_found) =
            decoded_blocks info s.xvals s.g0 last_size blocks rows run i lt row at in
          let same = Option.some-injective _ _ (sym found ∙ none_found) in
          let no : error ∷ errors ≡ [] = ap (λ res. res.2) same in absurd cc

-- A round's record after a round of the loop.
unfoldable record_of : {A P : Type 0} → ℕ → Next A P → Option (List Bool)
record_of k (go_on r) = get_elem? r.stm.msg_reception_status k
record_of k (stop r) = get_elem? r.stm.msg_reception_status k

module _ {A P : Type 0} ⦃z : ZzP A⦄ ⦃p : Poly A P⦄ ⦃v : Inverse A⦄ ⦃q : PolyRoots A P⦄
    (c : Context A) where
  on_wait2-cleared :
      (r r' : Run A P)
      → on_wait2 c r ≡ some (go_on r')
      → get_elem? r'.stm.msg_reception_status 1 ≡ some []
  unfolding on_wait2 record_of
  on_wait2-cleared r r' h = let (all, _, h1) = >>=-eq-some (received c 1 r) _ h in by_all all h1
    where
      by_all :
          (all : Bool)
          → (if all
              then (do
                status ← set? r.stm.msg_reception_status 1 []
                some (
                    go_on (
                      at_state c open_check_wf_predicates r
                        (record (r.stm) { msg_reception_status = status })
                        [])))
              else some (stop r))
            ≡ some (go_on r')
          → get_elem? r'.stm.msg_reception_status 1 ≡ some []
      by_all false h1 = cc
      by_all true h1 =
          let (status, e, h2) = >>=-eq-some (set? r.stm.msg_reception_status 1 []) _ h1 in
          ap (λ n. record_of 1 n) (sym (Option.some-injective _ _ h2))
          ∙ get_elem?-set? 1 [] r.stm.msg_reception_status status e

  on_wait1-cleared :
      (r r' : Run A P)
      → on_wait1 c r ≡ some (go_on r')
      → get_elem? r'.stm.msg_reception_status 0 ≡ some []
  unfolding on_wait1 record_of
  on_wait1-cleared r r' h = let (all, _, h1) = >>=-eq-some (received c 0 r) _ h in by_all all h1
    where
      by_all :
          (all : Bool)
          → (if all
              then (do
                guard (length r.stm.rec_exp_shares1 == r.stm.num_blocks1)
                guard (rows_have c.info.n r.stm.num_blocks1 r.stm.rec_exp_shares1)
                status ← set? r.stm.msg_reception_status 0 []
                some (
                    go_on (
                      at_state c batched_open_wf_predicates_3 r
                        (record (r.stm) { msg_reception_status = status })
                        [])))
              else some (stop r))
            ≡ some (go_on r')
          → get_elem? r'.stm.msg_reception_status 0 ≡ some []
      by_all false h1 = cc
      by_all true h1 =
          let (_, _, h2) =
            >>=-eq-some (guard (length r.stm.rec_exp_shares1 == r.stm.num_blocks1)) _ h1 in
          let (_, _, h3) =
            >>=-eq-some (guard (rows_have c.info.n r.stm.num_blocks1 r.stm.rec_exp_shares1)) _ h2 in
          let (status, e, h4) = >>=-eq-some (set? r.stm.msg_reception_status 0 []) _ h3 in
          ap (λ n. record_of 0 n) (sym (Option.some-injective _ _ h4))
          ∙ get_elem?-set? 0 [] r.stm.msg_reception_status status e

  -- When a round of the loop has left the state in which the machine waits for round 1 or for round 2,
  -- every later message of a server for that round is a fault, an access out of range of the cleared
  -- record, whatever other messages and rounds of the loop come between.
  pub late-message_handler :
      (r r' : Run A P) (dm : DeserializedMessage A) (s : Stm A P)
      → step c r ≡ some (go_on r')
      → ((r.stm.stm_state ≡ batched_open_wf_predicates_2) × (dm.mixing_state_id ≡ awaited round1))
        ⊎ ((r.stm.stm_state ≡ batched_open_wf_predicates_4) × (dm.mixing_state_id ≡ awaited round2))
      → Later c r'.stm s
      → message_handler c.info dm s ≡ none
  unfolding step step_at
  late-message_handler r r' dm s h (inl (e, a)) later =
      cleared-message_handler c.info round1 dm s a
        (Later-Cleared c 0 later (on_wait1-cleared r r' (sym (ap (λ st. step_at c st r) e) ∙ h)))
  late-message_handler r r' dm s h (inr (e, a)) later =
      cleared-message_handler c.info round2 dm s a
        (Later-Cleared c 1 later (on_wait2-cleared r r' (sym (ap (λ st. step_at c st r) e) ∙ h)))
