-- ===== src/Server/Updates.antt =====
-- `update` of network_server.hpp against a description of it without a loop.
use ab_prototype.Prelude.{
  ℕ, zero, suc, ◌+◌, ◌≡◌, sym, ap, ◌∙◌, true, false, Option, some, List, [], ◌∷◌, ◌++◌,
  append_assoc, append-nil, take, drop, ltb, lt→ltb, ◌>>=◌, >>=_assoc, >>=_ext, arith,
}
use ab_prototype.Message.{Message, Bytes, DeserializedMessage, prepare_message}
use ab_prototype.Queue.{AsyncQueue, push_back}
use ab_prototype.Server.{update}

module _ {A : Type 0} (prime : ℕ) ⦃b : Bytes A prime⦄ where
  -- All messages deserialized, in their order.
  unfoldable pub prepare_all : List (ℕ × Message) → Option (List (DeserializedMessage A))
  prepare_all [] = some []
  prepare_all ((conn, msg) ∷ rest) = do
    dm ← prepare_message prime conn msg
    dms ← prepare_all rest
    some (dm ∷ dms)

  -- What `update` gives after `dms`.
  abbrev updated :
      List (ℕ × Message)
      → AsyncQueue (DeserializedMessage A)
      → List (DeserializedMessage A)
      → Option (List (ℕ × Message) × AsyncQueue (DeserializedMessage A))
  updated left queue dms = some (left, record { deq_queue = queue.deq_queue ++ dms })

  updated-push_back :
      (left : List (ℕ × Message)) (queue : AsyncQueue (DeserializedMessage A))
      (dm : DeserializedMessage A) (dms : List (DeserializedMessage A))
      → updated left (push_back dm queue) dms ≡ updated left queue (dm ∷ dms)
  unfolding push_back
  updated-push_back left queue dm dms =
      ap (λ l. some (left, record { deq_queue = l })) (append_assoc queue.deq_queue (dm ∷ []) dms)

  -- With room for n more messages, `update` takes the first n of those that were received (all, if
  -- there are fewer), leaves the others, and puts their deserializations behind what the queue
  -- holds, in their order; it faults exactly if one of these n messages cannot be deserialized.
  pub update-prepare_all :
      (received : List (ℕ × Message)) (n message_count : ℕ)
      (queue : AsyncQueue (DeserializedMessage A))
      → update prime (message_count + n) message_count received queue ≡ (
          prepare_all (take n received) >>= λ dms.
          some (drop n received, record { deq_queue = queue.deq_queue ++ dms }))
  unfolding update prepare_all
  update-prepare_all [] zero message_count queue =
      ap (λ l. some ([], record { deq_queue = l })) (sym (append-nil queue.deq_queue))
  update-prepare_all [] (suc n) message_count queue =
      ap (λ l. some ([], record { deq_queue = l })) (sym (append-nil queue.deq_queue))
  update-prepare_all ((conn, msg) ∷ received) zero message_count queue =
      let full : ltb message_count (message_count + 0) ≡ false = ground arith in
      rw full (
        ap (λ l. some ((conn, msg) ∷ received, record { deq_queue = l }))
          (sym (append-nil queue.deq_queue)))
  update-prepare_all ((conn, msg) ∷ received) (suc n) message_count queue =
      let room : ltb message_count (message_count + suc n) ≡ true = lt→ltb _ _ (omega arith) in
      let next : message_count + suc n ≡ (message_count + 1) + n = omega arith in
      rw room (
        >>=_ext (prepare_message prime conn msg) _ _ (λ dm.
          ap (λ (m : ℕ). update prime m (message_count + 1) received (push_back dm queue)) next
          ∙ update-prepare_all received n (message_count + 1) (push_back dm queue)
          ∙ >>=_ext (prepare_all (take n received)) _ _
              (λ dms. updated-push_back (drop n received) queue dm dms)
          ∙ sym (>>=_assoc (prepare_all (take n received)) _ _))
        ∙ sym (>>=_assoc (prepare_message prime conn msg) _ _))
