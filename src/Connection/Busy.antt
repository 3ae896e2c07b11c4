-- ===== src/Connection/Busy.antt =====
-- The flag `already_writing_` of network_connection.hpp: a sending end that has something to send
-- is writing, or a call of `write_header` is posted.
use ab_prototype.Prelude.{
  ℕ, ◌<◌, ◌≡◌, refl, sym, subst, ◌∙◌, true, false, some, List, [], ◌∷◌, length, length-append,
  AllOf, AllOf-append_left, Bool-cases, inl, inr, ◌⊎◌, arith,
}
use ab_prototype.Message.{Message}
use ab_prototype.Queue.{is_empty, push_back}
use ab_prototype.Connection.{
  HeaderBytes, Link, Reach, fresh, sends_message, moves, connected_link, not_writing,
  writing_header, read_failed, Event, posted_runs, header_written, body_written, header_read,
  body_read, message_taken, write_fails, read_fails, on_event, write_header, send_message,
  add_to_incoming_queue, on_header_read, on_write_failed,
}
use ab_prototype.Connection.Steps.{
  header_written-inv, body_written-inv, body_read-inv, posted_runs-inv, write_fails-inv,
  message_taken-inv, on_header_written-inv, on_body_written-inv, on_body_read-inv,
}
use ab_prototype.Connection.Frames.{IsFramed, IsFaithful}
use ab_prototype.Connection.Received.{Reach-IsFaithful}

pub record IsBusy (l : Link) : Type 0 where
  pub free : l.writing ≡ not_writing → l.already_writing ≡ false
  pub queued : l.writing ≡ not_writing → 0 < length l.outgoing_queue.deq_queue → 0 < l.posted
  pub held : l.writing ≡ writing_header → 0 < length l.outgoing_queue.deq_queue

write_header-free :
    (l : Link)
    → l.already_writing ≡ false
    → ((length l.outgoing_queue.deq_queue ≡ 0) × (write_header l ≡ l))
      ⊎ ((0 < length l.outgoing_queue.deq_queue)
          × (write_header l ≡ record l { already_writing = true; writing = writing_header }))
unfolding write_header is_empty
write_header-free l e = ground arith

write_header-IsBusy :
    (l : Link) → l.writing ≡ not_writing → l.already_writing ≡ false → IsBusy (write_header l)
write_header-IsBusy l w free = elim (write_header-free l free) [
  | inl (none_queued, same) ↦
      subst IsBusy (sym same)
        (record { free = λ e. free; queued = λ e h. absurd (omega arith); held = λ e. cc })
  | inr (some_queued, starts) ↦
      subst IsBusy (sym starts)
        (record { free = λ e. cc; queued = λ e h. cc; held = λ e. some_queued })
]

write_header-true : (l : Link) → l.already_writing ≡ true → write_header l ≡ l
unfolding write_header
write_header-true l e = rw e

-- Neither the queue nor the write that is going on is touched.
same-IsBusy :
    (l l' : Link)
    → l'.writing ≡ l.writing
    → l'.already_writing ≡ l.already_writing
    → l'.outgoing_queue ≡ l.outgoing_queue
    → l'.posted ≡ l.posted
    → IsBusy l
    → IsBusy l'
same-IsBusy l l' w a q p h = record {
  free = λ e. a ∙ h.free (sym w ∙ e);
  queued = λ e k. rw p (h.queued (sym w ∙ e) (rw q at k));
  held = λ e. rw q (h.held (sym w ∙ e));
}

send_message-IsBusy : (msg : Message) (l : Link) → IsBusy l → IsBusy (send_message msg l)
unfolding send_message push_back
send_message-IsBusy msg l h = record {
  free = h.free;
  queued = λ e k. omega arith;
  held = λ e. omega (arith, length-append l.outgoing_queue.deq_queue (msg ∷ []));
}

module _ ⦃b : HeaderBytes⦄ (sent : List Message) (l l' : Link) (h : IsBusy l)
    (f : IsFaithful sent l) where
  posted_runs-IsBusy : on_event posted_runs l ≡ some l' → IsBusy l'
  posted_runs-IsBusy e =
      let (n, some_posted, eq) = posted_runs-inv l l' e in
      let l0 : Link = record l { posted = n } in
      subst IsBusy (sym eq) (elim (Bool-cases l.already_writing) [
        | inl busy ↦ subst IsBusy (sym (write_header-true l0 busy)) (record {
          free = h.free;
          queued = λ w k. absurd (let free = h.free w in cc);
          held = h.held;
        })
        | inr free ↦ write_header-IsBusy l0 (f.idle free) free
      ])

  header_written-IsBusy : on_event header_written l ≡ some l' → IsBusy l'
  header_written-IsBusy e =
      let (w, e') = header_written-inv l l' e in
      let (msg, others, q, eq) = on_header_written-inv l l' e' f.framed_queue in
      subst IsBusy (sym eq) (record { free = λ t. cc; queued = λ t k. cc; held = λ t. cc })

  body_written-IsBusy : on_event body_written l ≡ some l' → IsBusy l'
  body_written-IsBusy e =
      let (w, e') = body_written-inv l l' e in
      let (msg, others, q, eq) = on_body_written-inv l l' e' f.framed_queue in
      subst IsBusy (sym eq) (write_header-IsBusy _ refl refl)

  header_read-IsBusy : on_event header_read l ≡ some l' → IsBusy l'
  unfolding on_event on_header_read add_to_incoming_queue
  header_read-IsBusy e =
      same-IsBusy l l' (ground arith) (ground arith) (ground arith) (ground arith) h

  body_read-IsBusy : on_event body_read l ≡ some l' → IsBusy l'
  unfolding add_to_incoming_queue
  body_read-IsBusy e =
      let (r, e') = body_read-inv l l' e in
      let (enough, eq) = on_body_read-inv l l' e' in
      subst IsBusy (sym eq) (same-IsBusy l _ refl refl refl refl h)

  message_taken-IsBusy : on_event message_taken l ≡ some l' → IsBusy l'
  message_taken-IsBusy e =
      let (msg, others, q, eq) = message_taken-inv l l' e in
      subst IsBusy (sym eq) (same-IsBusy l _ refl refl refl refl h)

  write_fails-IsBusy : (k : ℕ) → on_event (write_fails k) l ≡ some l' → IsBusy l'
  unfolding on_write_failed
  write_fails-IsBusy k e =
      subst IsBusy (sym (write_fails-inv k l l' e))
        (record { free = λ t. cc; queued = λ t u. cc; held = λ t. cc })

  read_fails-IsBusy : on_event read_fails l ≡ some l' → IsBusy l'
  unfolding on_event
  read_fails-IsBusy e =
      let eq : record l { reading = read_failed } ≡ l' = cc in
      subst IsBusy eq (same-IsBusy l (record l { reading = read_failed }) refl refl refl refl h)

module _ ⦃b : HeaderBytes⦄ where
  on_event-IsBusy :
      (e : Event) (sent : List Message) (l l' : Link)
      → IsBusy l
      → IsFaithful sent l
      → on_event e l ≡ some l'
      → IsBusy l'
  on_event-IsBusy posted_runs = posted_runs-IsBusy
  on_event-IsBusy header_written = header_written-IsBusy
  on_event-IsBusy body_written = body_written-IsBusy
  on_event-IsBusy header_read = header_read-IsBusy
  on_event-IsBusy body_read = body_read-IsBusy
  on_event-IsBusy message_taken = message_taken-IsBusy
  on_event-IsBusy (write_fails k) = λ sent l l' h f. write_fails-IsBusy sent l l' h f k
  on_event-IsBusy read_fails = read_fails-IsBusy

  pub Reach-IsBusy :
      {sent : List Message} {l : Link} → Reach sent l → AllOf IsFramed sent → IsBusy l
  unfolding connected_link
  Reach-IsBusy (fresh temp) k = record { free = λ e. refl; queued = λ e h. h; held = λ e. cc }
  Reach-IsBusy (sends_message {sent} {l} msg r) k =
      send_message-IsBusy msg l (Reach-IsBusy r (AllOf-append_left IsFramed sent (msg ∷ []) k))
  Reach-IsBusy (moves {sent} {l} {l'} e r step) k =
      on_event-IsBusy e sent l l' (Reach-IsBusy r k) (Reach-IsFaithful r k) step
