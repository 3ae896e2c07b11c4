-- ===== src/Client.antt =====
-- rm_client_main.cpp: the client program, which encodes and shares the messages of all clients of a
-- test case, submits them to the servers, and waits until all servers have completed the session.
-- `random` is the random elements of a sharing: of the element j, at a position of its polynomial.
mod Shares
mod Delivery
mod Waiting
mod Tests
use ab_prototype.Prelude.{
  ℕ, zero, suc, ◌+◌, ◌*◌, ◌≡◌, Bool, true, false, Option, none, some, List, [], ◌∷◌, ◌++◌, length,
  replicate, get_elem?, set?, ◌==◌, if◌then◌else◌, guard, ◌>>=◌, ◌>>◌,
}
use ab_prototype.ZzP.{ZzP}
use ab_prototype.RmCommon.{RmInfo, is_all_true}
use ab_prototype.Additive2Basis.{add2basis_encode}
use ab_prototype.SecretSharing.{Poly, packed_share_secret, gen_xvals}
use ab_prototype.Message.{Message, Bytes, submit_message}
use ab_prototype.Queue.{AsyncQueue, is_empty, pop_front}

module _ {A : Type 0} where
  -- `for (k != n) shared_encodings[k].append(temp2[k])`.
  unfoldable pub append_shares : List (List A) → List A → Option (List (List A))
  append_shares [] shares = some []
  append_shares (row ∷ rows) [] = none
  append_shares (row ∷ rows) (share ∷ shares) = do
    rows' ← append_shares rows shares
    some ((row ++ (share ∷ [])) ∷ rows')

module _ (A P : Type 0) ⦃z : ZzP A⦄ ⦃p : Poly A P⦄ where
  -- The loop over the elements of an encoding, from the element j on.
  unfoldable pub share_elements :
      List A → ℕ → (ℕ → ℕ → A) → List A → ℕ → List (List A) → Option (List (List A))
  unfolding append_shares
  share_elements xvals t random [] j shared = some shared
  share_elements xvals t random (x ∷ encoding) j shared = do
    shares ← packed_share_secret A P xvals (x ∷ []) t (random j)
    shared' ← append_shares shared shares
    share_elements xvals t random encoding (suc j) shared'

  -- The body of the loop over the messages, up to the vectors for the servers.
  unfoldable pub share_message : RmInfo → (ℕ → ℕ → A) → A → Option (List (List A))
  unfolding share_elements
  share_message info random msg = do
    let encoding = add2basis_encode msg info.L
    guard (length encoding == 7 * info.L + 5)
    share_elements (gen_xvals info.n) info.t random encoding 0 (replicate info.n [])

module _ {A : Type 0} (prime : ℕ) ⦃b : Bytes A prime⦄ where
  -- What is submitted to the servers, the first server first.
  unfoldable pub submissions : List (List A) → ℕ → ℕ → ℕ → List Message
  submissions [] sid i now = []
  submissions (row ∷ rows) sid i now =
      submit_message prime row sid i now ∷ submissions rows sid i now

module _ (A P : Type 0) ⦃z : ZzP A⦄ ⦃p : Poly A P⦄ (prime : ℕ) ⦃b : Bytes A prime⦄ where
  -- The loop over the messages, from message i on: for each of them what the servers are sent.
  unfoldable pub submit_messages :
      RmInfo → (ℕ → ℕ → ℕ → A) → ℕ → ℕ → List A → ℕ → Option (List (List Message))
  unfolding share_message submissions
  submit_messages info random sid now [] i = some []
  submit_messages info random sid now (msg ∷ input_msgs) i = do
    shared_encodings ← share_message A P info (random i) msg
    others ← submit_messages info random sid now input_msgs (suc i)
    some (submissions prime shared_encodings sid i now ∷ others)

-- A message that came from server i: whether it completes the session.
unfoldable pub note_completion : ℕ → ℕ → Message → List Bool → Option (List Bool)
note_completion sid i msg status =
    let noted = set? status i true in
    if msg.header.sid == sid
    then (if msg.header.mixing_state_id == 15 then noted else some status)
    else some status

-- A round of the loop that waits for completion: of every connection that is up, one message.
unfoldable pub poll_clients :
    ℕ
    → (ℕ → Bool)
    → List (AsyncQueue Message)
    → ℕ
    → List Bool
    → Option (List (AsyncQueue Message) × List Bool)
unfolding note_completion is_empty pop_front
poll_clients sid connected [] i status = some ([], status)
poll_clients sid connected (queue ∷ queues) i status =
    let idle = (do
      (others, status') ← poll_clients sid connected queues (suc i) status
      some (queue ∷ others, status')) in
    let busy = (do
      (msg, queue') ← pop_front queue
      status1 ← note_completion sid i msg status
      (others, status') ← poll_clients sid connected queues (suc i) status1
      some (queue' ∷ others, status')) in
    if connected i then (if is_empty queue then idle else busy) else idle

-- What has arrived at the clients goes to the ends of their queues.
unfoldable pub arrive : List (List Message) → List (AsyncQueue Message) → List (AsyncQueue Message)
arrive [] queues = queues
arrive (msgs ∷ arrivals) [] = []
arrive (msgs ∷ arrivals) (queue ∷ queues) =
    record { deq_queue = queue.deq_queue ++ msgs } ∷ arrive arrivals queues

-- `while (!is_all_true(completeion_status))`, over what arrives before each round, and whether the
-- loop has ended.
unfoldable pub wait_for_completion :
    ℕ
    → (ℕ → Bool)
    → List (List (List Message))
    → List (AsyncQueue Message)
    → List Bool
    → Option (Bool × List (AsyncQueue Message) × List Bool)
unfolding poll_clients arrive
wait_for_completion sid connected [] queues status = some (is_all_true status, queues, status)
wait_for_completion sid connected (arrivals ∷ rounds) queues status =
    let next = (do
      (queues', status') ← poll_clients sid connected (arrive arrivals queues) 0 status
      wait_for_completion sid connected rounds queues' status') in
    if is_all_true status then some (true, queues, status) else next
