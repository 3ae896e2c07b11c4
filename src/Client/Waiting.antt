-- ===== src/Client/Waiting.antt =====
-- The loop of rm_client_main.cpp that waits for the completion of a session ends.
use ab_prototype.Prelude.{
  ℕ, zero, suc, ◌≡◌, refl, sym, ap, ◌∙◌, Bool, true, false, Bool-cases, ◌⊎◌, inl, inr, some, List,
  [], ◌∷◌, ◌++◌, length, length-append, set?-append, append_assoc, ◌==◌, if◌then◌else◌, >>=_run,
  arith,
}
use ab_prototype.Message.{Message}
use ab_prototype.Queue.{AsyncQueue, is_empty, pop_front}
use ab_prototype.Client.{note_completion, poll_clients, arrive, wait_for_completion}
use ab_prototype.RmCommon.{is_all_true}
use ab_prototype.RmCommon.Counts.{is_all_true-cons, is_all_true-nil}

-- A message of a server that has completed the session.
abbrev completes : ℕ → Message → Bool
completes sid msg = if msg.header.sid == sid then msg.header.mixing_state_id == 15 else false

-- One of the next k messages completes the session.
abbrev pub IsAwaited : ℕ → ℕ → List Message → Type 0
IsAwaited sid zero msgs = ⊥
IsAwaited sid (suc k) [] = ⊥
IsAwaited sid (suc k) (msg ∷ msgs) = (completes sid msg ≡ true) ⊎ IsAwaited sid k msgs

-- Every server has completed the session, or is going to within the next k messages.
abbrev pub AllAwaited : ℕ → ℕ → List (AsyncQueue Message) → List Bool → Type 0
AllAwaited sid k [] [] = Unit
AllAwaited sid k [] (b ∷ status) = ⊥
AllAwaited sid k (queue ∷ queues) [] = ⊥
AllAwaited sid k (queue ∷ queues) (b ∷ status) =
    ((b ≡ true) ⊎ IsAwaited sid k queue.deq_queue) × AllAwaited sid k queues status

module _ (sid : ℕ) where
  -- A message is noted at the index of its server.
  note_completion-append :
      (msg : Message) (before : List Bool) (b : Bool) (status : List Bool) (i : ℕ)
      → i ≡ length before
      → note_completion sid i msg (before ++ (b ∷ status))
        ≡ some (before ++ ((if completes sid msg then true else b) ∷ status))
  unfolding note_completion
  note_completion-append msg before b status i e = elim (Bool-cases (msg.header.sid == sid)) [
    | inl same ↦ elim (Bool-cases (msg.header.mixing_state_id == 15)) [
      | inl done ↦ rw (same, done) (set?-append before b status i true e)
      | inr other ↦ rw (same, other) refl
    ]
    | inr other ↦ rw other refl
  ]

  module _ (connected : ℕ → Bool) (up : (i : ℕ) → connected i ≡ true) where
    -- A round from client i on, with what it leaves to wait for.
    abbrev Polls : List (AsyncQueue Message) → ℕ → ℕ → List Bool → List Bool → Type 0
    Polls queues i k before status =
        (queues' : List (AsyncQueue Message)) × (status' : List Bool) × (poll_clients sid connected
            queues i (before ++ status)
          ≡ some (queues', before ++ status'))
        × AllAwaited sid k queues' status'

    -- The same with the value of one more client in front.
    after_one :
        (b : Bool) (queues : List (AsyncQueue Message)) (i k : ℕ) (before status : List Bool)
        → Polls queues i k (before ++ (b ∷ [])) status
        → (queues' : List (AsyncQueue Message)) × (status' : List Bool) × (poll_clients sid
              connected queues i
              (before ++ (b ∷ status))
            ≡ some (queues', before ++ (b ∷ status')))
          × AllAwaited sid k queues' status'
    after_one b queues i k before status (queues', status', run, awaited) = (
      queues',
      status',
      ap (poll_clients sid connected queues i) (sym (append_assoc before (b ∷ []) status))
          ∙ run
          ∙ ap (λ s. some (queues', s)) (append_assoc before (b ∷ []) status'),
      awaited,
    )

    one_client :
        (msgs : List Message) (queues : List (AsyncQueue Message)) (i k : ℕ) (before : List Bool)
        (b : Bool) (status : List Bool)
        → i ≡ length before
        → (b ≡ true) ⊎ IsAwaited sid (suc k) msgs
        → ((b' : Bool) → Polls queues (suc i) k (before ++ (b' ∷ [])) status)
        → Polls (record { deq_queue = msgs } ∷ queues) i k before (b ∷ status)
    unfolding poll_clients is_empty pop_front
    one_client [] queues i k before b status e (inr h) others = absurd h
    one_client [] queues i k before b status e (inl h) others =
        let (queues', status', run, awaited) =
          after_one b queues (suc i) k before status (others b) in
        (
          record { deq_queue = [] } ∷ queues',
          b ∷ status',
          rw (up i) (>>=_run _ run),
          (inl h, awaited),
        )
    one_client (msg ∷ msgs) queues i k before b status e h others =
        let b' = if completes sid msg then true else b in
        let (queues', status', run, awaited) =
          after_one b' queues (suc i) k before status (others b') in
        (
          record { deq_queue = msgs } ∷ queues',
          b' ∷ status',
          rw (up i) (>>=_run _ (note_completion-append msg before b status i e) ∙ >>=_run _ run),
          (noted (completes sid msg) refl h, awaited),
        )
      where
        noted :
            (done : Bool)
            → completes sid msg ≡ done
            → (b ≡ true) ⊎ IsAwaited sid (suc k) (msg ∷ msgs)
            → ((if done then true else b) ≡ true) ⊎ IsAwaited sid k msgs
        noted true eq k' = inl refl
        noted false eq (inl is_true) = inl is_true
        noted false eq (inr (inl completed)) = let no : true ≡ false = sym completed ∙ eq in cc
        noted false eq (inr (inr later)) = inr later

    poll_clients-AllAwaited :
        (queues : List (AsyncQueue Message)) (i k : ℕ) (before status : List Bool)
        → i ≡ length before
        → AllAwaited sid (suc k) queues status
        → Polls queues i k before status
    unfolding poll_clients
    poll_clients-AllAwaited [] i k before [] e h = ([], [], refl, tt)
    poll_clients-AllAwaited [] i k before (b ∷ status) e h = absurd h
    poll_clients-AllAwaited (queue ∷ queues) i k before [] e h = absurd h
    poll_clients-AllAwaited (queue ∷ queues) i k before (b ∷ status) e h =
        one_client queue.deq_queue queues i k before b status e h.0 (λ b'.
          poll_clients-AllAwaited queues (suc i) k (before ++ (b' ∷ [])) status
            (omega (arith, length-append before (b' ∷ []), e)) h.1)

  IsAwaited-append :
      (k : ℕ) (msgs new : List Message) → IsAwaited sid k msgs → IsAwaited sid k (msgs ++ new)
  IsAwaited-append zero msgs new h = h
  IsAwaited-append (suc k) [] new h = absurd h
  IsAwaited-append (suc k) (msg ∷ msgs) new (inl done) = inl done
  IsAwaited-append (suc k) (msg ∷ msgs) new (inr later) = inr (IsAwaited-append k msgs new later)

  -- What arrives is behind what is awaited.
  AllAwaited-arrive :
      (k : ℕ) (arrivals : List (List Message)) (queues : List (AsyncQueue Message))
      (status : List Bool)
      → AllAwaited sid k queues status
      → AllAwaited sid k (arrive arrivals queues) status
  unfolding arrive
  AllAwaited-arrive k [] queues status h = h
  AllAwaited-arrive k (msgs ∷ arrivals) [] status h = h
  AllAwaited-arrive k (msgs ∷ arrivals) (queue ∷ queues) [] h = h
  AllAwaited-arrive k (msgs ∷ arrivals) (queue ∷ queues) (b ∷ status) (inl done, rest) =
      (inl done, AllAwaited-arrive k arrivals queues status rest)
  AllAwaited-arrive k (msgs ∷ arrivals) (queue ∷ queues) (b ∷ status) (inr later, rest) = (
    inr (IsAwaited-append k queue.deq_queue msgs later),
    AllAwaited-arrive k arrivals queues status rest,
  )

  AllAwaited-is_all_true :
      (queues : List (AsyncQueue Message)) (status : List Bool)
      → AllAwaited sid 0 queues status
      → is_all_true status ≡ true
  AllAwaited-is_all_true [] [] h = is_all_true-nil
  AllAwaited-is_all_true [] (b ∷ status) h = absurd h
  AllAwaited-is_all_true (queue ∷ queues) [] h = absurd h
  AllAwaited-is_all_true (queue ∷ queues) (b ∷ status) (inr never, rest) = absurd never
  AllAwaited-is_all_true (queue ∷ queues) (b ∷ status) (inl done, rest) =
      is_all_true-cons b status ∙ rw (done, AllAwaited-is_all_true queues status rest) refl

  -- The loop that waits for completion ends: if every connection is up, and every server has completed
  -- the session or has its message of completion among the next k ones of its queue, then the loop has
  -- ended, with every server noted, after k rounds, whatever else arrives meanwhile.
  pub wait_for_completion-AllAwaited :
      (connected : ℕ → Bool)
      → ((i : ℕ) → connected i ≡ true)
      → (k : ℕ) (rounds : List (List (List Message))) (queues : List (AsyncQueue Message))
        (status : List Bool)
      → length rounds ≡ k
      → AllAwaited sid k queues status
      → (queues' : List (AsyncQueue Message)) × (status' : List Bool) × (wait_for_completion sid
            connected rounds queues status
          ≡ some (true, queues', status'))
        × (is_all_true status' ≡ true)
  unfolding wait_for_completion
  wait_for_completion-AllAwaited connected up zero [] queues status e h =
      let done = AllAwaited-is_all_true queues status h in (queues, status, rw done refl, done)
  wait_for_completion-AllAwaited connected up (suc k) [] queues status e h = absurd (omega arith)
  wait_for_completion-AllAwaited connected up zero (arrivals ∷ rounds) queues status e h =
      absurd (omega arith)
  wait_for_completion-AllAwaited connected up (suc k) (arrivals ∷ rounds) queues status e h =
      elim (Bool-cases (is_all_true status)) [
        | inl done ↦ (queues, status, rw done refl, done)
        | inr open_still ↦
            let (queues1, status1, run, awaited) =
              poll_clients-AllAwaited connected up (arrive arrivals queues) 0 k [] status refl
                (AllAwaited-arrive (suc k) arrivals queues status h) in
            let (queues', status', runs, done) =
              wait_for_completion-AllAwaited connected up k rounds queues1 status1 (omega arith)
                awaited in
            (queues', status', rw open_still (>>=_run _ run ∙ runs), done)
      ]
