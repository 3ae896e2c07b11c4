-- ===== src/Connection/Frames.antt =====
-- What the bytes of a connection stand for: the stream of the messages that are still to be
-- received, and the relation of both ends to it.
use ab_prototype.Prelude.{
  ℕ, ◌≤◌, ◌<◌, ◌≡◌, refl, sym, ap, ◌∙◌, false, List, [], ◌∷◌, ◌++◌, length, take, drop,
  append_assoc, append-nil, AllOf, arith,
}
use ab_prototype.Message.{Message}
use ab_prototype.Connection.{
  HeaderBytes, Link, Writing, Reading, not_writing, writing_header, writing_body, write_failed,
  reading_header, reading_body, read_failed,
}

-- A message whose header has the size of its body, which is not empty.
pub record IsFramed (msg : Message) : Type 0 where
  pub size_lem : msg.header.size ≡ length msg.body
  pub positive : 0 < msg.header.size

-- What is read of a stream that starts with `xs`, once enough of it has come.
pub take_prefix :
    {A : Type 0} (xs ys wire future : List A)
    → wire ++ future ≡ xs ++ ys
    → length xs ≤ length wire
    → (take (length xs) wire ≡ xs) × (drop (length xs) wire ++ future ≡ ys)
take_prefix [] ys wire future e h = (refl, e)
take_prefix (x ∷ xs) ys [] future e h = absurd (omega arith)
take_prefix (x ∷ xs) ys (w ∷ wire) future e h =
    let (t, d) = take_prefix xs ys wire future (cc) (omega arith) in
    let head : w ≡ x = cc in (rw (t, head) refl, d)

-- The stream is empty, so what has come of it is.
pub wire-nil : {A : Type 0} (wire future : List A) → wire ++ future ≡ [] → length wire ≡ 0
wire-nil [] future e = refl
wire-nil (w ∷ wire) future e = cc

module _ ⦃b : HeaderBytes⦄ where
  unfoldable pub frame : Message → List ℕ
  frame msg = b.encode msg.header ++ msg.body

  unfoldable pub frames : List Message → List ℕ
  unfolding frame
  frames [] = []
  frames (msg ∷ rest) = frame msg ++ frames rest

  pub frames-append :
      (msgs : List Message) (msg : Message) → frames (msgs ++ (msg ∷ [])) ≡ frames msgs ++ frame msg
  unfolding frames
  frames-append [] msg = append-nil (frame msg)
  frames-append (m ∷ msgs) msg =
      ap (λ t. frame m ++ t) (frames-append msgs msg)
      ∙ sym (append_assoc (frame m) (frames msgs) (frame msg))

  -- The bytes that the sending end has yet to write, by the write that is going on.
  unfoldable pub Writes : Writing → List Message → List ℕ → Type 0
  Writes not_writing queue future = future ≡ frames queue
  Writes writing_header queue future = future ≡ frames queue
  Writes writing_body queue future =
      (msg : Message) × (others : List Message) × (queue ≡ msg ∷ others)
      × (future ≡ msg.body ++ frames others)
  Writes write_failed queue future = Unit

  -- The bytes that the receiving end has yet to read, by the read that is going on.
  unfoldable pub Reads : Reading → Message → List Message → List ℕ → Type 0
  Reads reading_header temp rest bytes = bytes ≡ frames rest
  Reads reading_body temp rest bytes =
      (msg : Message) × (others : List Message) × (rest ≡ msg ∷ others)
      × (temp.header ≡ msg.header)
      × (bytes ≡ msg.body ++ frames others)
  Reads read_failed temp rest bytes = Unit

  pub Writes-send :
      (w : Writing) (queue : List Message) (future : List ℕ) (msg : Message)
      → Writes w queue future
      → Writes w (queue ++ (msg ∷ [])) (future ++ frame msg)
  unfolding Writes
  Writes-send not_writing queue future msg h =
      ap (λ t. t ++ frame msg) h ∙ sym (frames-append queue msg)
  Writes-send writing_header queue future msg h =
      ap (λ t. t ++ frame msg) h ∙ sym (frames-append queue msg)
  Writes-send writing_body queue future msg (m, others, e, f) = (
    m,
    others ++ (msg ∷ []),
    ap (λ t. t ++ (msg ∷ [])) e,
    ap (λ t. t ++ frame msg) f
        ∙ append_assoc m.body (frames others) (frame msg)
        ∙ ap (λ t. m.body ++ t) (sym (frames-append others msg)),
  )
  Writes-send write_failed queue future msg h = tt

  pub Reads-send :
      (r : Reading) (temp : Message) (rest : List Message) (bytes : List ℕ) (msg : Message)
      → Reads r temp rest bytes
      → Reads r temp (rest ++ (msg ∷ [])) (bytes ++ frame msg)
  unfolding Reads
  Reads-send reading_header temp rest bytes msg h =
      ap (λ t. t ++ frame msg) h ∙ sym (frames-append rest msg)
  Reads-send reading_body temp rest bytes msg (m, others, e, same, f) = (
    m,
    others ++ (msg ∷ []),
    ap (λ t. t ++ (msg ∷ [])) e,
    same,
    ap (λ t. t ++ frame msg) f
        ∙ append_assoc m.body (frames others) (frame msg)
        ∙ ap (λ t. m.body ++ t) (sym (frames-append others msg)),
  )
  Reads-send read_failed temp rest bytes msg h = tt

  -- The messages that were sent are those that were received, in that order, and then `rest`,
  -- whose bytes are on their way or still to be written.
  pub record IsFaithful (sent : List Message) (l : Link) : Type 0 where
    pub rest : List Message
    pub future : List ℕ
    pub split : sent ≡ (l.taken ++ l.incoming_queue.deq_queue) ++ rest
    pub reads : Reads l.reading l.temp_msg rest (l.wire ++ future)
    pub writes : Writes l.writing l.outgoing_queue.deq_queue future
    pub idle : l.already_writing ≡ false → l.writing ≡ not_writing
    pub framed_rest : AllOf IsFramed rest
    pub framed_queue : AllOf IsFramed l.outgoing_queue.deq_queue
