-- ===== src/Connection/Liveness.antt =====
-- The connection of network_connection.hpp does not get stuck: while a message that was sent was
-- not taken, one of its handlers is due.
use ab_prototype.Prelude.{
  ℕ, ◌≤◌, ◌<◌, ◌≡◌, ◌≢◌, refl, sym, ap, subst, ◌∙◌, true, none, List, [], ◌∷◌, ◌++◌, length,
  length-append, append-nil, leb, AllOf, inl, inr, ◌⊎◌, arith,
}
use ab_prototype.Message.{Message, header_size}
use ab_prototype.Queue.{front, pop_front}
use ab_prototype.Connection.{
  HeaderBytes, Link, Reach, Writing, Reading, not_writing, writing_header, writing_body,
  write_failed, reading_header, reading_body, read_failed, Event, posted_runs, header_written,
  body_written, header_read, body_read, message_taken, on_event, on_header_written, on_body_written,
  on_header_read, on_body_read, write_body, finish_message,
}
use ab_prototype.Connection.Frames.{IsFramed, IsFaithful, Reads, Writes, frames, frame}
use ab_prototype.Connection.Received.{Reach-IsFaithful}
use ab_prototype.Connection.Busy.{IsBusy, Reach-IsBusy}

-- The events that are not failures.
pub data IsSuccess : Event → Type 0 where
  posted_runs_lem : IsSuccess posted_runs
  header_written_lem : IsSuccess header_written
  body_written_lem : IsSuccess body_written
  header_read_lem : IsSuccess header_read
  body_read_lem : IsSuccess body_read
  message_taken_lem : IsSuccess message_taken

le→leb : (a c : ℕ) → a ≤ c → leb a c ≡ true
le→leb a c h = ground arith

module _ ⦃b : HeaderBytes⦄ where
  posted_runs-due : (l : Link) → 0 < l.posted → on_event posted_runs l ≢ none
  unfolding on_event
  posted_runs-due l h = λ e. ground arith

  header_written-due :
      (l : Link) (msg : Message) (others : List Message)
      → l.writing ≡ writing_header
      → l.outgoing_queue.deq_queue ≡ msg ∷ others
      → IsFramed msg
      → on_event header_written l ≢ none
  unfolding on_event on_header_written front write_body finish_message
  header_written-due l msg others w q framed = λ e. ground (arith, framed.size_lem, framed.positive)

  body_written-due :
      (l : Link) (msg : Message) (others : List Message)
      → l.writing ≡ writing_body
      → l.outgoing_queue.deq_queue ≡ msg ∷ others
      → on_event body_written l ≢ none
  unfolding on_event on_body_written front finish_message pop_front
  body_written-due l msg others w q = λ e. ground arith

  header_read-due :
      (l : Link)
      → l.reading ≡ reading_header
      → header_size ≤ length l.wire
      → on_event header_read l ≢ none
  unfolding on_event on_header_read
  header_read-due l r h = λ e. ground arith

  body_read-due :
      (l : Link)
      → l.reading ≡ reading_body
      → l.temp_msg.header.size ≤ length l.wire
      → on_event body_read l ≢ none
  unfolding on_event on_body_read
  body_read-due l r h = λ e. ground arith

  message_taken-due :
      (l : Link) (msg : Message) (others : List Message)
      → l.incoming_queue.deq_queue ≡ msg ∷ others
      → on_event message_taken l ≢ none
  unfolding on_event pop_front
  message_taken-due l msg others q = λ e. ground arith

  unfoldable Goal : List Message → Link → Type 0
  Goal sent l = (l.taken ≡ sent) ⊎ ((e : Event) × IsSuccess e × (on_event e l ≢ none))

  -- All that was sent was received.
  received-due :
      (sent : List Message) (l : Link) (queue : List Message)
      → l.incoming_queue.deq_queue ≡ queue
      → sent ≡ (l.taken ++ queue) ++ []
      → Goal sent l
  unfolding Goal
  received-due sent l [] q e = inl (sym (e ∙ append-nil (l.taken ++ []) ∙ append-nil l.taken))
  received-due sent l (msg ∷ others) q e =
      inr (message_taken, message_taken_lem, message_taken-due l msg others q)

  -- The sending end has written everything.
  reading-due :
      (sent : List Message) (l : Link) (r : Reading) (rest : List Message)
      → l.reading ≡ r
      → r ≢ read_failed
      → sent ≡ (l.taken ++ l.incoming_queue.deq_queue) ++ rest
      → AllOf IsFramed rest
      → Reads r l.temp_msg rest l.wire
      → Goal sent l
  unfolding Goal Reads frames frame
  reading-due sent l reading_header [] e n split framed bytes =
      received-due sent l l.incoming_queue.deq_queue refl split
  reading-due sent l reading_header (msg ∷ rest) e n split framed bytes = inr (
    header_read,
    header_read_lem,
    header_read-due l e (
        omega (
          arith,
          ap length bytes,
          length-append (b.encode msg.header ++ msg.body) (frames rest),
          length-append (b.encode msg.header) msg.body,
          b.length-encode msg.header,
        )),
  )
  reading-due sent l reading_body rest e n split framed (msg, others, q, same, bytes) =
      let framed' : AllOf IsFramed (msg ∷ others) = rw q at framed in
      inr (
        body_read,
        body_read_lem,
        body_read-due l e (
            omega (
              arith,
              ap length bytes,
              length-append msg.body (frames others),
              framed'.0.size_lem,
              ap (λ t. t.size) same,
            )),
      )
  reading-due sent l read_failed rest e n split framed bytes = absurd (n refl)

  -- The sending end is not writing.
  waiting-due :
      (sent : List Message) (l : Link) (queue : List Message)
      → l.outgoing_queue.deq_queue ≡ queue
      → (0 < length queue → 0 < l.posted)
      → l.reading ≢ read_failed
      → (f : IsFaithful sent l) → f.future ≡ frames queue
      → Goal sent l
  unfolding Goal frames
  waiting-due sent l [] q posted r f bytes =
      reading-due sent l l.reading f.rest refl r f.split f.framed_rest (
        subst (Reads l.reading l.temp_msg f.rest) (ap (λ t. l.wire ++ t) bytes ∙ append-nil l.wire)
          f.reads)
  waiting-due sent l (msg ∷ others) q posted r f bytes =
      inr (posted_runs, posted_runs_lem, posted_runs-due l (posted (omega arith)))

  writing-due :
      (sent : List Message) (l : Link) (w : Writing) (queue : List Message)
      → l.writing ≡ w
      → w ≢ write_failed
      → l.outgoing_queue.deq_queue ≡ queue
      → l.reading ≢ read_failed
      → AllOf IsFramed queue
      → IsBusy l
      → (f : IsFaithful sent l) → Writes w queue f.future
      → Goal sent l
  unfolding Goal Writes
  writing-due sent l not_writing queue w n q r framed h f bytes =
      waiting-due sent l queue q (λ k. h.queued w (rw q k)) r f bytes
  writing-due sent l writing_header [] w n q r framed h f bytes =
      let held : 0 < 0 = rw q at (h.held w) in absurd (omega arith)
  writing-due sent l writing_header (msg ∷ others) w n q r framed h f bytes =
      inr (header_written, header_written_lem, header_written-due l msg others w q framed.0)
  writing-due sent l writing_body queue w n q r framed h f (msg, others, q', bytes) =
      inr (body_written, body_written_lem, body_written-due l msg others w (q ∙ q'))
  writing-due sent l write_failed queue w n q r framed h f bytes = absurd (n refl)

  -- If every message that is sent has the size of its body in its header, and a body that is not
  -- empty, then at every moment at which no write and no read has failed, all the messages that
  -- were sent were taken, or a handler of one of the ends can run: the connection never waits with
  -- a message that it still has to deliver.
  pub on_event-due :
      {sent : List Message} {l : Link}
      → Reach sent l
      → AllOf IsFramed sent
      → l.writing ≢ write_failed
      → l.reading ≢ read_failed
      → (l.taken ≡ sent) ⊎ ((e : Event) × IsSuccess e × (on_event e l ≢ none))
  on_event-due {sent} {l} reach framed w r =
      let f = Reach-IsFaithful reach framed in
      unfold Goal in
      writing-due sent l l.writing l.outgoing_queue.deq_queue refl w refl r f.framed_queue
        (Reach-IsBusy reach framed) f f.writes
