-- ===== src/Connection/Delivery.antt =====
-- Every event of a connection of network_connection.hpp keeps the order and the content of what was
-- sent.
use ab_prototype.Prelude.{
  ℕ, zero, suc, ◌≡◌, refl, sym, ap, subst, ◌∙◌, false, some, List, [], ◌∷◌, ◌++◌, take, drop,
  take_all, append_assoc, AllOf, AllOf-append, inl, inr, arith,
}
use ab_prototype.Message.{Message}
use ab_prototype.Queue.{front, push_back}
use ab_prototype.Connection.{
  HeaderBytes, Link, Writing, not_writing, writing_header, writing_body, write_failed, read_failed,
  posted_runs, header_written, body_written, message_taken, write_fails, read_fails, on_event,
  on_write_failed, write_header, send_message, write_buffer,
}
use ab_prototype.Connection.Steps.{
  write_header-cases, header_written-inv, body_written-inv, posted_runs-inv, write_fails-inv,
  write_fails-busy, message_taken-inv, on_header_written-inv, on_body_written-inv,
}
use ab_prototype.Connection.Frames.{
  IsFramed, IsFaithful, Reads, Writes, Reads-send, Writes-send, frame, frames,
}

module _ ⦃b : HeaderBytes⦄ where
  pub send_message-IsFaithful :
      (msg : Message) (sent : List Message) (l : Link)
      → IsFramed msg
      → IsFaithful sent l
      → IsFaithful (sent ++ (msg ∷ [])) (send_message msg l)
  unfolding send_message push_back
  send_message-IsFaithful msg sent l framed h = record {
    rest = h.rest ++ (msg ∷ []);
    future = h.future ++ frame msg;
    split =
        ap (λ t. t ++ (msg ∷ [])) h.split
        ∙ append_assoc (l.taken ++ l.incoming_queue.deq_queue) h.rest (msg ∷ []);
    reads =
        subst (Reads l.reading l.temp_msg (h.rest ++ (msg ∷ [])))
          (append_assoc l.wire h.future (frame msg))
          (Reads-send l.reading l.temp_msg h.rest (l.wire ++ h.future) msg h.reads);
    writes = Writes-send l.writing l.outgoing_queue.deq_queue h.future msg h.writes;
    idle = h.idle;
    framed_rest = AllOf-append IsFramed h.rest (msg ∷ []) h.framed_rest (framed, tt);
    framed_queue =
        AllOf-append IsFramed l.outgoing_queue.deq_queue (msg ∷ []) h.framed_queue (framed, tt);
  }

  written-IsFaithful :
      (sent : List Message) (l : Link) → IsFaithful sent l → IsFaithful sent (write_header l)
  unfolding Writes
  written-IsFaithful sent l h = elim (write_header-cases l) [
    | inl same ↦ subst (IsFaithful sent) (sym same) h
    | inr (free, starts) ↦ subst (IsFaithful sent) (sym starts) (record {
      rest = h.rest;
      future = h.future;
      split = h.split;
      reads = h.reads;
      writes = subst (λ w. Writes w l.outgoing_queue.deq_queue h.future) (h.idle free) h.writes;
      idle = λ e. cc;
      framed_rest = h.framed_rest;
      framed_queue = h.framed_queue;
    })
  ]

  pub posted_runs-IsFaithful :
      (sent : List Message) (l l' : Link)
      → IsFaithful sent l
      → on_event posted_runs l ≡ some l'
      → IsFaithful sent l'
  posted_runs-IsFaithful sent l l' h e =
      let (n, some_posted, e') = posted_runs-inv l l' e in
      subst (IsFaithful sent) (sym e') (
        written-IsFaithful sent (record l { posted = n })
          (record {
            rest = h.rest;
            future = h.future;
            split = h.split;
            reads = h.reads;
            writes = h.writes;
            idle = h.idle;
            framed_rest = h.framed_rest;
            framed_queue = h.framed_queue;
          }))

  pub header_written-IsFaithful :
      (sent : List Message) (l l' : Link)
      → IsFaithful sent l
      → on_event header_written l ≡ some l'
      → IsFaithful sent l'
  unfolding Writes frames frame
  header_written-IsFaithful sent l l' h e =
      let (w, e') = header_written-inv l l' e in
      let (msg, others, q, eq) = on_header_written-inv l l' e' h.framed_queue in
      let writes : Writes writing_header (msg ∷ others) h.future = rw (w, q) at h.writes in
      let bytes : l.wire ++ h.future
          ≡ (l.wire ++ b.encode msg.header) ++ (msg.body ++ frames others) =
        ap (λ t. l.wire ++ t) (writes ∙ append_assoc (b.encode msg.header) msg.body (frames others))
        ∙ sym (append_assoc l.wire (b.encode msg.header) (msg.body ++ frames others)) in
      subst (IsFaithful sent) (sym eq) (record {
        rest = h.rest;
        future = msg.body ++ frames others;
        split = h.split;
        reads = subst (Reads l.reading l.temp_msg h.rest) bytes h.reads;
        writes = (msg, others, q, refl);
        idle = λ free. let before = h.idle free in cc;
        framed_rest = h.framed_rest;
        framed_queue = h.framed_queue;
      })

  pub body_written-IsFaithful :
      (sent : List Message) (l l' : Link)
      → IsFaithful sent l
      → on_event body_written l ≡ some l'
      → IsFaithful sent l'
  unfolding Writes frames frame
  body_written-IsFaithful sent l l' h e =
      let (w, e') = body_written-inv l l' e in
      let (msg, others, q, eq) = on_body_written-inv l l' e' h.framed_queue in
      let (m, ms, q', future) : Writes writing_body l.outgoing_queue.deq_queue h.future =
        rw w at h.writes in
      let same : m ∷ ms ≡ msg ∷ others = sym q' ∙ q in
      let same_msg : m ≡ msg = cc in
      let same_others : ms ≡ others = cc in
      let future' : h.future ≡ msg.body ++ frames others = rw (same_msg, same_others) at future in
      let framed : AllOf IsFramed (msg ∷ others) = rw q at h.framed_queue in
      let bytes : l.wire ++ h.future ≡ (l.wire ++ msg.body) ++ frames others =
        ap (λ t. l.wire ++ t) future' ∙ sym (append_assoc l.wire msg.body (frames others)) in
      subst (IsFaithful sent) (sym eq) (
        written-IsFaithful sent
          (record l {
            outgoing_queue = record { deq_queue = others };
            already_writing = false;
            writing = not_writing;
            wire = l.wire ++ msg.body;
          })
          (record {
            rest = h.rest;
            future = frames others;
            split = h.split;
            reads = subst (Reads l.reading l.temp_msg h.rest) bytes h.reads;
            writes = refl;
            idle = λ free. refl;
            framed_rest = h.framed_rest;
            framed_queue = framed.1;
          }))

  -- The bytes of the write that is going on are the next ones.
  write_buffer-prefix :
      (w : Writing) (queue : List Message) (future : List ℕ)
      → AllOf IsFramed queue
      → Writes w queue future
      → (tail : List ℕ) × (future ≡ write_buffer w (record { deq_queue = queue }) ++ tail)
  unfolding Writes write_buffer front frames frame
  write_buffer-prefix not_writing queue future framed h = (future, refl)
  write_buffer-prefix writing_header [] future framed h = (future, refl)
  write_buffer-prefix writing_header (msg ∷ others) future framed h =
      (msg.body ++ frames others, h ∙ append_assoc (b.encode msg.header) msg.body (frames others))
  write_buffer-prefix writing_body [] future framed h = (future, refl)
  write_buffer-prefix writing_body (msg ∷ others) future framed (m, ms, q, h) =
      let same : m ≡ msg = cc in
      let whole : take msg.header.size msg.body ≡ msg.body =
        take_all msg.body msg.header.size (omega (arith, framed.0.size_lem)) in
      (frames ms, h ∙ ap (λ t. t.body ++ frames ms) same ∙ ap (λ t. t ++ frames ms) (sym whole))
  write_buffer-prefix write_failed queue future framed h = (future, refl)

  take-drop : (n : ℕ) (xs : List ℕ) → take n xs ++ drop n xs ≡ xs
  take-drop zero xs = refl
  take-drop (suc n) [] = refl
  take-drop (suc n) (x ∷ xs) = ap (λ t. x ∷ t) (take-drop n xs)

  pub write_fails-IsFaithful :
      (k : ℕ) (sent : List Message) (l l' : Link)
      → IsFaithful sent l
      → on_event (write_fails k) l ≡ some l'
      → IsFaithful sent l'
  unfolding Writes on_write_failed
  write_fails-IsFaithful k sent l l' h e =
      let buffer = write_buffer l.writing l.outgoing_queue in
      let (tail, split) =
        write_buffer-prefix l.writing l.outgoing_queue.deq_queue h.future h.framed_queue h.writes in
      let split' : h.future ≡ buffer ++ tail = split in
      let bytes : l.wire ++ h.future ≡ (l.wire ++ take k buffer) ++ (drop k buffer ++ tail) =
        ap (λ t. l.wire ++ t)
          (split'
            ∙ ap (λ t. t ++ tail) (sym (take-drop k buffer))
            ∙ append_assoc (take k buffer) (drop k buffer) tail)
        ∙ sym (append_assoc l.wire (take k buffer) (drop k buffer ++ tail)) in
      subst (IsFaithful sent) (sym (write_fails-inv k l l' e)) (record {
        rest = h.rest;
        future = drop k buffer ++ tail;
        split = h.split;
        reads = subst (Reads l.reading l.temp_msg h.rest) bytes h.reads;
        writes = tt;
        idle = λ free. absurd (write_fails-busy k l l' e (h.idle free));
        framed_rest = h.framed_rest;
        framed_queue = h.framed_queue;
      })

  pub message_taken-IsFaithful :
      (sent : List Message) (l l' : Link)
      → IsFaithful sent l
      → on_event message_taken l ≡ some l'
      → IsFaithful sent l'
  message_taken-IsFaithful sent l l' h e =
      let (msg, others, q, eq) = message_taken-inv l l' e in
      subst (IsFaithful sent) (sym eq) (record {
        rest = h.rest;
        future = h.future;
        split =
            h.split
            ∙ ap (λ t. (l.taken ++ t) ++ h.rest) q
            ∙ ap (λ t. t ++ h.rest) (sym (append_assoc l.taken (msg ∷ []) others));
        reads = h.reads;
        writes = h.writes;
        idle = h.idle;
        framed_rest = h.framed_rest;
        framed_queue = h.framed_queue;
      })

  pub read_fails-IsFaithful :
      (sent : List Message) (l l' : Link)
      → IsFaithful sent l
      → on_event read_fails l ≡ some l'
      → IsFaithful sent l'
  unfolding Reads on_event
  read_fails-IsFaithful sent l l' h e =
      let eq : record l { reading = read_failed } ≡ l' = cc in
      subst (IsFaithful sent) eq (record {
        rest = h.rest;
        future = h.future;
        split = h.split;
        reads = tt;
        writes = h.writes;
        idle = h.idle;
        framed_rest = h.framed_rest;
        framed_queue = h.framed_queue;
      })
