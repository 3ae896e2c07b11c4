-- ===== src/Client/Delivery.antt =====
-- From rm_client_main.cpp to a server: what a server reads of the messages that the client program
-- submits.
use ab_prototype.Prelude.{
  ℕ, zero, suc, ◌+◌, ◌*◌, ◌<◌, ◌≡◌, refl, sym, ap, subst, ◌∙◌, some, List, [], ◌∷◌, ◌++◌, length,
  replicate, get_elem?, guard, ◌==◌, >>=-eq-some, arith,
}
use ab_prototype.ZzP.{ZzP}
use ab_prototype.RmCommon.{RmInfo}
use ab_prototype.Additive2Basis.{add2basis_encode}
use ab_prototype.Additive2Basis.Encoding.{length-add2basis_encode}
use ab_prototype.SecretSharing.{Poly, packed_share_secret, gen_xvals}
use ab_prototype.Message.{Message, Bytes, DeserializedMessage, u32, submit_message, prepare_message}
use ab_prototype.Message.Submit.{prepare_message-submit_message}
use ab_prototype.Client.{share_message, submissions, submit_messages}
use ab_prototype.Client.Shares.{HasShares, share_elements-HasShares}

replicate-nil :
    {A : Type 0} (n k : ℕ) (row : List A) → get_elem? (replicate n []) k ≡ some row → row ≡ []
replicate-nil zero k row e = cc
replicate-nil (suc n) zero row e = let same : [] ≡ row = cc in sym same
replicate-nil (suc n) (suc k) row e = replicate-nil n k row e

module _ {A : Type 0} (prime : ℕ) ⦃b : Bytes A prime⦄ where
  get_elem?-submissions :
      (rows : List (List A)) (sid i now k : ℕ) (msg : Message)
      → get_elem? (submissions prime rows sid i now) k ≡ some msg
      → (row : List A) × (get_elem? rows k ≡ some row) × (submit_message prime row sid i now ≡ msg)
  unfolding submissions
  get_elem?-submissions [] sid i now k msg e = cc
  get_elem?-submissions (row ∷ rows) sid i now zero msg e = (row, refl, cc)
  get_elem?-submissions (row ∷ rows) sid i now (suc k) msg e =
      get_elem?-submissions rows sid i now k msg e

module _ (A P : Type 0) ⦃z : ZzP A⦄ ⦃p : Poly A P⦄ where
  share_message-HasShares :
      (info : RmInfo) (random : ℕ → ℕ → A) (msg : A) (shared : List (List A)) (k : ℕ) (row : List A)
      → share_message A P info random msg ≡ some shared
      → get_elem? shared k ≡ some row
      → HasShares A P (gen_xvals info.n) info.t random (add2basis_encode msg info.L) 0 k row
  unfolding share_message
  share_message-HasShares info random msg shared k row e h =
      let (u, sized, e1) =
        >>=-eq-some (guard (length (add2basis_encode msg info.L) == 7 * info.L + 5)) _ e in
      let (start, tail, at, eq, has) =
        share_elements-HasShares A P (gen_xvals info.n) info.t random (add2basis_encode msg info.L)
          0 (replicate info.n []) shared k row e1 h in
      let whole : row ≡ tail = eq ∙ ap (λ r. r ++ tail) (replicate-nil info.n k start at) in
      subst (HasShares A P (gen_xvals info.n) info.t random (add2basis_encode msg info.L) 0 k)
        (sym whole) has

  module _ (prime : ℕ) ⦃b : Bytes A prime⦄ where
    get_elem?-submit_messages :
        (info : RmInfo) (random : ℕ → ℕ → ℕ → A) (sid now : ℕ) (input_msgs : List A) (i : ℕ)
        (sent : List (List Message)) (client : ℕ) (msg : A) (to_servers : List Message)
        → submit_messages A P prime info random sid now input_msgs i ≡ some sent
        → get_elem? input_msgs client ≡ some msg
        → get_elem? sent client ≡ some to_servers
        → (shared : List (List A)) × (share_message A P info (random (i + client)) msg
            ≡ some shared)
          × (submissions prime shared sid (i + client) now ≡ to_servers)
    unfolding submit_messages
    get_elem?-submit_messages info random sid now [] i sent client msg to_servers e at h = cc
    get_elem?-submit_messages info random sid now (first ∷ input_msgs) i sent zero msg to_servers e
          at h =
        let (shared, run, e1) = >>=-eq-some (share_message A P info (random i) first) _ e in
        let (others, more, e2) =
          >>=-eq-some (submit_messages A P prime info random sid now input_msgs (suc i)) _ e1 in
        let whole : submissions prime shared sid i now ∷ others ≡ sent = cc in
        let there : some (submissions prime shared sid i now) ≡ some to_servers =
          ap (λ s. get_elem? s 0) whole ∙ h in
        let here : i + 0 ≡ i = omega arith in
        let same : first ≡ msg = cc in (shared, rw (here, ← same) run, rw here cc)
    get_elem?-submit_messages info random sid now (first ∷ input_msgs) i sent (suc client) msg
          to_servers e at h =
        let (shared, run, e1) = >>=-eq-some (share_message A P info (random i) first) _ e in
        let (others, more, e2) =
          >>=-eq-some (submit_messages A P prime info random sid now input_msgs (suc i)) _ e1 in
        let whole : submissions prime shared sid i now ∷ others ≡ sent = cc in
        let here : i + suc client ≡ suc i + client = omega arith in
        rw here (
          get_elem?-submit_messages info random sid now input_msgs (suc i) others client msg
            to_servers more at (ap (λ s. get_elem? s (suc client)) whole ∙ h))

    -- The client program and the servers fit together: if all messages of a test case are
    -- submitted, and an encoding has fewer than 2 ^ 16 elements, then server k reads from the
    -- message that it is sent for a client a vector as long as the encoding, under the number of the
    -- client and for the state 0 of the session, and each element of the vector is the share k that
    -- `packed_share_secret` gives of the element at the same place of the encoding of the client's
    -- message.
    pub prepare_message-submit_messages :
        (info : RmInfo) (random : ℕ → ℕ → ℕ → A) (sid now : ℕ) (input_msgs : List A)
        (sent : List (List Message)) (client : ℕ) (msg : A) (to_servers : List Message) (k : ℕ)
        (submitted : Message) (conn j : ℕ) (x : A)
        → submit_messages A P prime info random sid now input_msgs 0 ≡ some sent
        → get_elem? input_msgs client ≡ some msg
        → get_elem? sent client ≡ some to_servers
        → get_elem? to_servers k ≡ some submitted
        → 7 * info.L + 5 < 65536
        → get_elem? (add2basis_encode msg info.L) j ≡ some x
        → (dm : DeserializedMessage A) × (shares : List A) × (prepare_message prime conn submitted
            ≡ some dm)
          × (dm.sid ≡ u32 sid)
          × (dm.sender_id ≡ u32 client)
          × (dm.mixing_state_id ≡ 0)
          × (length dm.body ≡ 7 * info.L + 5)
          × (packed_share_secret A P (gen_xvals info.n) (x ∷ []) info.t (random client j)
              ≡ some shares)
          × (get_elem? dm.body j ≡ get_elem? shares k)
    unfolding HasShares
    prepare_message-submit_messages info random sid now input_msgs sent client msg to_servers k
          submitted conn j x e at h hk small hj =
        let (shared, run, there) =
          get_elem?-submit_messages info random sid now input_msgs 0 sent client msg to_servers e at
            h in
        let first : client ≡ 0 + client = omega arith in
        let place : j ≡ 0 + j = omega arith in
        let there' : submissions prime shared sid client now ≡ to_servers =
          ap (λ (c : ℕ). submissions prime shared sid c now) first ∙ there in
        let run' : share_message A P info (random client) msg ≡ some shared =
          ap (λ (c : ℕ). share_message A P info (random c) msg) first ∙ run in
        let (row, at_row, eq) =
          get_elem?-submissions prime shared sid client now k submitted
            (ap (λ l. get_elem? l k) there' ∙ hk) in
        let (size, has) =
          share_message-HasShares info (random client) msg shared k row run' at_row in
        let length_row : length row ≡ 7 * info.L + 5 = size ∙ length-add2basis_encode msg info.L in
        let (shares, shared_at, at_j) = has j x hj in
        let dm : DeserializedMessage A = record {
          sid = u32 sid;
          mixing_state_id = 0;
          sender_id = u32 client;
          block_idx = 1;
          tot_num_blocks = 1;
          conn = conn;
          body = row;
        } in
        (
          dm,
          shares,
          ap (prepare_message prime conn) (sym eq)
              ∙ prepare_message-submit_message prime row sid client now conn (omega arith),
          refl,
          refl,
          refl,
          length_row,
          ap
                (λ (s : ℕ).
                  packed_share_secret A P (gen_xvals info.n) (x ∷ []) info.t (random client s))
                place
              ∙ shared_at,
          at_j,
        )
