-- ===== src/Connection/Tests.antt =====
-- Two messages over a connection, with the events of its ends interleaved.
use ab_prototype.Prelude.{
  ◌≡◌, ◌≢◌, ◌<◌, refl, subst, >>=-eq-some, ◌⊎◌, Option, none, some, List, [], ◌∷◌, ◌++◌, AllOf,
  ◌>>=◌, arith,
}
use ab_prototype.Message.{Message}
use ab_prototype.Queue.{front, push_back, is_empty, pop_front}
use ab_prototype.Connection.{
  Link, Reach, fresh, sends_message, moves, connected_link, Event, posted_runs, header_written,
  body_written, header_read, body_read, message_taken, on_event, write_header, send_message,
  finish_message, write_body, on_header_written, on_body_written, on_header_read, on_body_read,
  add_to_incoming_queue,
}
use ab_prototype.Connection.Frames.{IsFramed}
use ab_prototype.Connection.Received.{taken-incoming_queue}
use ab_prototype.Connection.Liveness.{IsSuccess, on_event-due}
use ab_prototype.ZzP.Residues.{of_ℕ}
use ab_prototype.RmCommon.{RmInfo, prime_info, fill_rm_info}
use ab_prototype.Message.{send_vector, submit_message}
use ab_prototype.Message.Tests.{bytes7}
use ab_prototype.Connection.Work.{work, work-on_event}
use ab_prototype.Connection.Messages.{send_vector-IsFramed}
use ab_prototype.Connection.Liveness.{header_written_lem}
use ab_prototype.Connection.Samples.{plain, first, second, empty}

abbrev info : RmInfo
info = fill_rm_info (prime_info 3 101 27) 5 2 1

abbrev after : List Event → Link → Option Link
after [] l = some l
after (e ∷ events) l = on_event e l >>= after events

-- The links that are reached by events that happen.
Reach-after :
    (events : List Event) {sent : List Message} (l l' : Link)
    → Reach sent l
    → after events l ≡ some l'
    → Reach sent l'
Reach-after [] l l' r e = let same : l ≡ l' = cc in subst (Reach _) same r
Reach-after (event ∷ events) l l' r e =
    let (next, happens, rest) = >>=-eq-some (on_event event l) (after events) e in
    Reach-after events next l' (moves event r happens) rest

abbrev end_of : List Event → Link → Link
end_of events l = elim (after events l) [ none ↦ l | some l' ↦ l' ]

abbrev queued : Link
queued = send_message second (send_message first (connected_link empty))

queued-Reach : Reach (first ∷ second ∷ []) queued
queued-Reach = sends_message second (sends_message first (fresh empty))

-- Both are written and read, and the first one is taken.
abbrev delivering : List Event
delivering =
    posted_runs ∷ header_written ∷ posted_runs ∷ body_written ∷ header_read ∷ header_written
    ∷ body_read ∷ body_written ∷ header_read ∷ body_read ∷ message_taken ∷ []

both-IsFramed : AllOf IsFramed (first ∷ second ∷ [])
both-IsFramed = (
  record { size_lem = refl; positive = omega arith },
  (record { size_lem = refl; positive = omega arith }, tt),
)

taken-incoming_queue_example :
    (rest : List Message) × ((first ∷ second ∷ [])
      ≡ ((end_of delivering queued).taken ++ (end_of delivering queued).incoming_queue.deq_queue)
        ++ rest)
unfolding on_event on_header_written on_body_written on_header_read on_body_read write_header
    send_message finish_message write_body add_to_incoming_queue connected_link front push_back
    is_empty pop_front
taken-incoming_queue_example =
    taken-incoming_queue
      (Reach-after delivering queued (end_of delivering queued) queued-Reach refl) both-IsFramed

taken_test : (end_of delivering queued).taken ≡ first ∷ []
unfolding on_event on_header_written on_body_written on_header_read on_body_read write_header
    send_message finish_message write_body add_to_incoming_queue connected_link front push_back
    is_empty pop_front
taken_test = refl

incoming_test : (end_of delivering queued).incoming_queue.deq_queue ≡ second ∷ []
unfolding on_event on_header_written on_body_written on_header_read on_body_read write_header
    send_message finish_message write_body add_to_incoming_queue connected_link front push_back
    is_empty pop_front
incoming_test = refl

on_event-due_example :
    ((end_of delivering queued).taken ≡ first ∷ second ∷ [])
    ⊎ ((e : Event) × IsSuccess e × (on_event e (end_of delivering queued) ≢ none))
unfolding on_event on_header_written on_body_written on_header_read on_body_read write_header
    send_message finish_message write_body add_to_incoming_queue connected_link front push_back
    is_empty pop_front
on_event-due_example =
    on_event-due (Reach-after delivering queued (end_of delivering queued) queued-Reach refl)
      both-IsFramed (λ e. cc) (λ e. cc)

abbrev started : Link
started = end_of (posted_runs ∷ []) queued

work-on_event_example : work (end_of (header_written ∷ []) started) < work started
unfolding on_event on_header_written on_body_written on_header_read on_body_read write_header
    send_message finish_message write_body add_to_incoming_queue connected_link front push_back
    is_empty pop_front
work-on_event_example =
    work-on_event (Reach-after (posted_runs ∷ []) queued started queued-Reach refl) both-IsFramed
      header_written_lem refl

send_vector-IsFramed_example :
    IsFramed (send_vector 7 (of_ℕ 7 (omega arith) 5 ∷ []) info 9 4 1 1 1 0)
    × IsFramed (submit_message 7 (of_ℕ 7 (omega arith) 5 ∷ []) 9 3 0)
send_vector-IsFramed_example =
    send_vector-IsFramed 7 (of_ℕ 7 (omega arith) 5 ∷ []) info 9 4 1 1 1 0 3 (omega arith)
      (omega arith) (omega arith)

-- A message whose header has the size 0 is received with the body of the message before it.
abbrev stale : Link
stale =
    end_of
      (posted_runs ∷ header_written ∷ body_written ∷ header_written ∷ header_read ∷ body_read
        ∷ header_read ∷ message_taken ∷ message_taken ∷ [])
      (send_message empty (send_message first (connected_link empty)))

stale_body_test : stale.taken ≡ first ∷ record empty { body = first.body } ∷ []
unfolding on_event on_header_written on_body_written on_header_read on_body_read write_header
    send_message finish_message write_body add_to_incoming_queue connected_link front push_back
    is_empty pop_front
stale_body_test = refl
