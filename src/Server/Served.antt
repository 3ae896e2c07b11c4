-- ===== src/Server/Served.antt =====
-- The sessions of rm_server_main.cpp: what a message does to the session that it is for, and to
-- the others.
use ab_prototype.Prelude.{
  ℕ, ◌<◌, ◌≡◌, ◌≢◌, refl, Bool, true, false, Option, none, some, List, [], ◌∷◌, ◌++◌, ◌==◌,
  Bool-cases, inl, inr, arith,
}
use ab_prototype.ZzP.{ZzP}
use ab_prototype.Message.{Message, Bytes, DeserializedMessage}
use ab_prototype.Queue.{AsyncQueue}
use ab_prototype.SecretSharing.{Poly}
use ab_prototype.Roots.Field.{Inverse, PolyRoots}
use ab_prototype.Stm.State.{MixState, Stm, state_id, rm_mixing_stm}
use ab_prototype.Stm.Handler.{message_handler}
use ab_prototype.Stm.Execute.{Context, Run, execute_rm_stm}
use ab_prototype.Stm.Progress.{
  IsWaiting, rounds_left, for_inputs, for_expanded_preds, for_opened_preds, for_expanded_sums,
  for_opened_sums, done,
}
use ab_prototype.Stm.Returns.{IsReturn, execute_rm_stm-IsReturn}
use ab_prototype.Server.Sessions.{find, AllValues, AllValues-put, AllValues-erase, find-holds}
use ab_prototype.Server.{
  update, serve, run_case, insert_clients, Server, session, settle, handle_message, handle_messages,
}
use ab_prototype.Stm.Kept.{message_handler-stm_state}

module _ {A P : Type 0} where
  -- Between two messages a machine waits for messages, and has not completed its session.
  pub record IsServing (s : Stm A P) : Type 0 where
    pub waiting : IsWaiting s.stm_state
    pub not_completed : state_id s.stm_state ≢ 15

waiting-rounds_left :
    (state : MixState) → IsWaiting state → state_id state ≢ 15 → 0 < rounds_left state
unfolding rounds_left
waiting-rounds_left state for_inputs h = omega arith
waiting-rounds_left state for_expanded_preds h = omega arith
waiting-rounds_left state for_opened_preds h = omega arith
waiting-rounds_left state for_expanded_sums h = omega arith
waiting-rounds_left state for_opened_sums h = omega arith
waiting-rounds_left state done h = absurd (h refl)

module _ {A P : Type 0} ⦃z : ZzP A⦄ ⦃p : Poly A P⦄ ⦃v : Inverse A⦄ ⦃q : PolyRoots A P⦄
    (c : Context A) where
  session-IsServing :
      (sid : ℕ) (stms : List (ℕ × Stm A P)) (o : Option (Stm A P))
      → find sid stms ≡ o
      → AllValues IsServing stms
      → IsServing (session c sid stms)
  unfolding session rm_mixing_stm
  session-IsServing sid stms none e h =
      rw (session, e) (record { waiting = for_inputs; not_completed = λ t. omega arith })
  session-IsServing sid stms (some stm) e h =
      rw (session, e) (find-holds IsServing sid stm stms e h)

  -- What is left of a loop of the server: a fault, or sessions that wait for messages.
  unfoldable pub IsServed : Option (Bool × Server A P) → Type 0
  IsServed none = Unit
  IsServed (some next) = AllValues IsServing next.1.stms

  settle-IsServed :
      (sid : ℕ) (s : Server A P) (r : Run A P)
      → IsWaiting r.stm.stm_state
      → AllValues IsServing s.stms
      → IsServed (some (settle c sid s r))
  unfolding settle IsServed
  settle-IsServed sid s r w h = elim (Bool-cases (state_id r.stm.stm_state == 15)) [
    | inl e ↦ rw (settle, e) (AllValues-erase IsServing sid s.stms h)
    | inr e ↦
        rw (settle, e)
          (AllValues-put IsServing sid r.stm s.stms
            (record { waiting = w; not_completed = λ t. ground arith }) h)
  ]

  -- A loop of the server ends, and leaves its sessions waiting.
  unfoldable Serves : Option (Option (Bool × Server A P)) → Type 0
  Serves result = (o : Option (Bool × Server A P)) × (result ≡ some o) × IsServed o

  ended-Serves :
      (dm : DeserializedMessage A) (s : Server A P) (stm : Stm A P) (o : Option (Run A P))
      → message_handler c.info dm (session c dm.sid s.stms) ≡ some stm
      → execute_rm_stm c 6 (record { stm = stm; corr_clients = s.corrupted_clients; sent = s.sent })
        ≡ some o
      → IsReturn c stm.stm_state o
      → AllValues IsServing s.stms
      → Serves (handle_message c dm s)
  unfolding Serves handle_message IsReturn IsServed
  ended-Serves dm s stm none e run ret h = (none, rw (handle_message, e, run) refl, tt)
  ended-Serves dm s stm (some r) e run ret h = (
    some (settle c dm.sid s r),
    rw (handle_message, e, run) refl,
    settle-IsServed dm.sid s r ret.waiting h,
  )

  handled-Serves :
      (dm : DeserializedMessage A) (s : Server A P) (o : Option (Stm A P))
      → message_handler c.info dm (session c dm.sid s.stms) ≡ o
      → AllValues IsServing s.stms
      → Serves (handle_message c dm s)
  unfolding Serves handle_message IsServed
  handled-Serves dm s none e h = (none, rw (handle_message, e) refl, tt)
  handled-Serves dm s (some stm) e h =
      let old = session-IsServing dm.sid s.stms (find dm.sid s.stms) refl h in
      let kept = message_handler-stm_state c.info dm (session c dm.sid s.stms) stm e in
      let active : 0 < rounds_left stm.stm_state =
        rw kept (waiting-rounds_left _ old.waiting old.not_completed) in
      let (o, run, ret) =
        execute_rm_stm-IsReturn c 6
          (record { stm = stm; corr_clients = s.corrupted_clients; sent = s.sent }) active
          (omega arith) in
      ended-Serves dm s stm o e run ret h

  handle_messages-next :
      (dm : DeserializedMessage A) (msgs : List (DeserializedMessage A)) (s : Server A P)
      (o : Option (Bool × Server A P))
      → handle_message c dm s ≡ some o
      → IsServed o
      → ((s' : Server A P) → AllValues IsServing s'.stms → Serves (handle_messages c msgs s'))
      → Serves (handle_messages c (dm ∷ msgs) s)
  unfolding Serves handle_messages IsServed
  handle_messages-next dm msgs s none run h later = (none, rw (handle_messages, run) refl, tt)
  handle_messages-next dm msgs s (some (true, s')) run h later =
      let (o, ends, served) = later s' h in (o, rw (handle_messages, run) ends, served)
  handle_messages-next dm msgs s (some (false, s')) run h later = (
    some (false, record s' { deserialized_msgs = record { deq_queue = msgs } }),
    rw (handle_messages, run) refl,
    h,
  )

  handle_messages-Serves :
      (msgs : List (DeserializedMessage A)) (s : Server A P)
      → AllValues IsServing s.stms
      → Serves (handle_messages c msgs s)
  unfolding Serves handle_messages IsServed
  handle_messages-Serves [] s h = (_, refl, h)
  handle_messages-Serves (dm ∷ msgs) s h =
      let (o, run, served) =
        handled-Serves dm s (message_handler c.info dm (session c dm.sid s.stms)) refl h in
      handle_messages-next dm msgs s o run served (handle_messages-Serves msgs)

module _ {A P : Type 0} ⦃z : ZzP A⦄ ⦃p : Poly A P⦄ ⦃v : Inverse A⦄ ⦃q : PolyRoots A P⦄
    (c : Context A) ⦃b : Bytes A c.info.fft_prime_info.prime⦄ where
  serve-handled :
      (received : List (ℕ × Message)) (rounds : List (List (ℕ × Message))) (s : Server A P)
      (left : List (ℕ × Message)) (queue : AsyncQueue (DeserializedMessage A))
      (o : Option (Bool × Server A P))
      → update c.info.fft_prime_info.prime 18446744073709551615 0
          (s.my_received_messages.deq_queue ++ received)
          s.deserialized_msgs
        ≡ some (left, queue)
      → handle_messages c queue.deq_queue
          (record s { my_received_messages = record { deq_queue = left } })
        ≡ some o
      → IsServed c o
      → ((s' : Server A P) → AllValues IsServing s'.stms → Serves c (serve c rounds s'))
      → Serves c (serve c (received ∷ rounds) s)
  unfolding Serves serve IsServed
  serve-handled received rounds s left queue none read run h later =
      (none, rw (serve, read, run) refl, tt)
  serve-handled received rounds s left queue (some (true, s')) read run h later =
      let (o, ends, served) = later s' h in (o, rw (serve, read, run) ends, served)
  serve-handled received rounds s left queue (some (false, s')) read run h later =
      (some (false, s'), rw (serve, read, run) refl, h)

  serve-next :
      (received : List (ℕ × Message)) (rounds : List (List (ℕ × Message))) (s : Server A P)
      (o : Option (List (ℕ × Message) × AsyncQueue (DeserializedMessage A)))
      → update c.info.fft_prime_info.prime 18446744073709551615 0
          (s.my_received_messages.deq_queue ++ received)
          s.deserialized_msgs
        ≡ o
      → AllValues IsServing s.stms
      → ((s' : Server A P) → AllValues IsServing s'.stms → Serves c (serve c rounds s'))
      → Serves c (serve c (received ∷ rounds) s)
  unfolding Serves serve IsServed
  serve-next received rounds s none read h later = (none, rw (serve, read) refl, tt)
  serve-next received rounds s (some (left, queue)) read h later =
      let (o, run, served) =
        handle_messages-Serves c queue.deq_queue
          (record s { my_received_messages = record { deq_queue = left } }) h in
      serve-handled received rounds s left queue o read run served later

  serve-Serves :
      (rounds : List (List (ℕ × Message))) (s : Server A P)
      → AllValues IsServing s.stms
      → Serves c (serve c rounds s)
  unfolding Serves serve IsServed
  serve-Serves [] s h = (_, refl, h)
  serve-Serves (received ∷ rounds) s h =
      serve-next received rounds s
        (update c.info.fft_prime_info.prime 18446744073709551615 0
          (s.my_received_messages.deq_queue ++ received) s.deserialized_msgs)
        refl h (serve-Serves rounds)

  -- Whatever the messages that are received before each round of the main loop, from a server all
  -- of whose sessions wait for messages and are not completed, a test case never gets stuck in the
  -- loop of a machine: it ends with a fault, or with all sessions again waiting and not completed.
  pub run_case-IsServed :
      (rounds : List (List (ℕ × Message))) (s : Server A P)
      → AllValues IsServing s.stms
      → (o : Option (Bool × Server A P)) × (run_case c rounds s ≡ some o) × IsServed c o
  unfolding run_case
  run_case-IsServed rounds s h =
      unfold Serves in
      serve-Serves rounds
        (record s { corrupted_clients = insert_clients c.info.N s.corrupted_clients }) h
