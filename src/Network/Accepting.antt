-- ===== src/Network/Accepting.antt =====
-- The connections that a server has accepted, and a message to all of them.
use ab_prototype.Prelude.{
  ℕ, suc, ◌+◌, ◌%◌, ◌^◌, ◌<◌, ◌≡◌, refl, sym, ap, subst, ◌∙◌, Bool, true, false, Option, none, some,
  List, [], ◌∷◌, ◌++◌, map, get_elem?, get_elem?-map_lem, count_from, append_assoc, append-nil,
  if◌then◌else◌, >>=-eq-some, >>=_run, arith,
}
use mathlib.Core.Option
use native.Mathlib.Nat.{mod-eq_of_lt}
use ab_prototype.Message.{Message}
use ab_prototype.Network.Server.{
  Peer, Host, server_interface, start_server, Accepted, accept_error, accept_socket, new_peer,
  on_accept, accept_all, sent_to, send_to_each, send_message_to_all_clients,
}

-- The sockets that were open when they were accepted.
unfoldable pub open_sockets : List Accepted → ℕ
open_sockets [] = 0
open_sockets (accept_error ∷ accepted) = open_sockets accepted
open_sockets (accept_socket true ∷ accepted) = suc (open_sockets accepted)
open_sockets (accept_socket false ∷ accepted) = open_sockets accepted

-- A connection with its identifier, up and without any message.
unfoldable pub accepted_peer : Message → ℕ → Option Peer
unfolding new_peer
accepted_peer temp uid = some (record (new_peer temp true) { id = uid })

module _ (temp : Message) where
  -- The host after n more connections.
  abbrev AcceptedFrom : Host → ℕ → Host → Type 0
  AcceptedFrom h n h' =
      (h'.my_connections ≡ h.my_connections ++ map (accepted_peer temp) (count_from n h.id_counter))
      × (h'.id_counter ≡ h.id_counter + n)

  abbrev one_more : Host → Host
  one_more h = record h {
    my_connections = h.my_connections ++ (accepted_peer temp h.id_counter ∷ []);
    id_counter = suc h.id_counter;
  }

  on_accept-open :
      (h : Host) → h.id_counter + 1 < 2 ^ 32 → on_accept temp (accept_socket true) h ≡ one_more h
  unfolding on_accept accepted_peer
  on_accept-open h few =
      let next : (h.id_counter + 1) % 2 ^ 32 ≡ suc h.id_counter =
        mod-eq_of_lt (omega arith) ∙ omega arith in
      ap
        (λ n. record h {
          my_connections = h.my_connections ++ (accepted_peer temp h.id_counter ∷ []);
          id_counter = n;
        })
        next

  accept_all-cons :
      (a : Accepted) (accepted : List Accepted) (h : Host)
      → h.context_running ≡ true
      → accept_all temp (a ∷ accepted) h ≡ accept_all temp accepted (on_accept temp a h)
  unfolding accept_all
  accept_all-cons a accepted h up =
      ap (λ b. if b then accept_all temp accepted (on_accept temp a h) else h) up

  accept_all-from :
      (accepted : List Accepted) (h : Host)
      → h.id_counter + open_sockets accepted < 2 ^ 32
      → h.context_running ≡ true
      → AcceptedFrom h (open_sockets accepted) (accept_all temp accepted h)
  unfolding accept_all open_sockets on_accept
  accept_all-from [] h few up = (sym (append-nil h.my_connections), omega arith)
  accept_all-from (accept_error ∷ accepted) h few up =
      subst (AcceptedFrom h (open_sockets accepted))
        (sym (accept_all-cons accept_error accepted h up)) (accept_all-from accepted h few up)
  accept_all-from (accept_socket false ∷ accepted) h few up =
      subst (AcceptedFrom h (open_sockets accepted))
        (sym (accept_all-cons (accept_socket false) accepted h up))
        (accept_all-from accepted h few up)
  accept_all-from (accept_socket true ∷ accepted) h few up =
      subst (AcceptedFrom h (suc (open_sockets accepted)))
        (sym (
          accept_all-cons (accept_socket true) accepted h up
          ∙ ap (accept_all temp accepted) (on_accept-open h (omega arith))))
        (more (accept_all temp accepted (one_more h))
          (accept_all-from accepted (one_more h) (omega arith) up))
    where
      more :
          (h' : Host)
          → AcceptedFrom (one_more h) (open_sockets accepted) h'
          → AcceptedFrom h (suc (open_sockets accepted)) h'
      more h' (connections, counter) = (
        connections
            ∙ append_assoc h.my_connections (accepted_peer temp h.id_counter ∷ [])
                (map (accepted_peer temp) (count_from (open_sockets accepted) (suc h.id_counter))),
        counter ∙ omega arith,
      )

-- The connections of a server that has started are those of the sockets that were open when they were
-- accepted, in their order, and their identifiers are the numbers from 10000 on, each used once, while
-- fewer than 2 ^ 32 - 10000 were accepted.
pub accept_all-start_server :
    (temp : Message) (accepted : List Accepted)
    → 10000 + open_sockets accepted < 2 ^ 32
    → let h = accept_all temp accepted (start_server false server_interface).1 in
      (h.my_connections ≡ map (accepted_peer temp) (count_from (open_sockets accepted) 10000))
      × (h.id_counter ≡ 10000 + open_sockets accepted)
unfolding server_interface start_server
accept_all-start_server temp accepted few =
    accept_all-from temp accepted (start_server false server_interface).1 few refl

-- The connections that are not up, of those that were not reset.
unfoldable pub closed_peers : List (Option Peer) → ℕ
closed_peers [] = 0
closed_peers (none ∷ connections) = closed_peers connections
closed_peers (some p ∷ connections) =
    let rest = closed_peers connections in if p.open_socket then rest else suc rest

-- A second message meets a connection that was reset exactly if one was closed at the first.
send_to_each-closed :
    (msg msg' : Message) (connections sent : List (Option Peer))
    → send_to_each msg connections ≡ some sent
    → 0 < closed_peers connections
    → send_to_each msg' sent ≡ none
unfolding send_to_each closed_peers
send_to_each-closed msg msg' [] sent e few = absurd (omega arith)
send_to_each-closed msg msg' (none ∷ connections) sent e few = cc
send_to_each-closed msg msg' (some p ∷ connections) sent e few =
    let (rest, run, eq) = >>=-eq-some (send_to_each msg connections) _ e in
    by_socket p.open_socket rest (send_to_each-closed msg msg' connections rest run) eq few
  where
    by_socket :
        (up : Bool) (rest : List (Option Peer))
        → (0 < closed_peers connections → send_to_each msg' rest ≡ none)
        → some ((if up then some (sent_to msg p) else none) ∷ rest) ≡ some sent
        → 0 < (if up then closed_peers connections else suc (closed_peers connections))
        → send_to_each msg' sent ≡ none
    by_socket true rest later eq more = rw (← Option.some-injective _ _ eq, later more) refl
    by_socket false rest later eq more = rw (← Option.some-injective _ _ eq) refl

-- A connection of the queue after a message to all clients.
abbrev after_sending : Message → Peer → Option Peer
after_sending msg p = if p.open_socket then some (sent_to msg p) else none

send_to_each-map :
    (msg : Message) (ps : List Peer)
    → send_to_each msg (map some ps) ≡ some (map (after_sending msg) ps)
unfolding send_to_each
send_to_each-map msg [] = refl
send_to_each-map msg (p ∷ ps) = >>=_run _ (send_to_each-map msg ps)

-- A second message to connections that are all up.
send_to_each-open :
    (msg msg' : Message) (ps : List Peer)
    → closed_peers (map some ps) ≡ 0
    → send_to_each msg' (map (after_sending msg) ps)
      ≡ some (map (λ p. some (sent_to msg' (sent_to msg p))) ps)
unfolding send_to_each closed_peers sent_to
send_to_each-open msg msg' [] e = refl
send_to_each-open msg msg' (p ∷ ps) e =
    by_socket p.open_socket refl e (send_to_each-open msg msg' ps)
  where
    by_socket :
        (up : Bool)
        → p.open_socket ≡ up
        → (if up then closed_peers (map some ps) else suc (closed_peers (map some ps))) ≡ 0
        → (closed_peers (map some ps) ≡ 0
            → send_to_each msg' (map (after_sending msg) ps)
              ≡ some (map (λ q. some (sent_to msg' (sent_to msg q))) ps))
        → send_to_each msg' (map (after_sending msg) (p ∷ ps))
          ≡ some (map (λ q. some (sent_to msg' (sent_to msg q))) (p ∷ ps))
    by_socket true up none_closed others = rw (up, others none_closed) refl
    by_socket false up none_closed others = absurd (omega arith)

-- A message to all clients: it is sent to each connection that is up, whatever the others are, and
-- the pointer to a connection that is not up is reset but stays in the queue. If all were up, a second
-- message is sent to each as well; if one was not, the second message is a fault.
pub send_message_to_all_clients-twice :
    (msg msg' : Message) (h : Host) (ps : List Peer)
    → h.my_connections ≡ map some ps
    → (h' : Host) × (send_message_to_all_clients msg h ≡ some h')
      × ((i : ℕ) (p : Peer)
          → get_elem? ps i ≡ some p
          → (p.open_socket ≡ true → get_elem? h'.my_connections i ≡ some (some (sent_to msg p)))
            × (p.open_socket ≡ false → get_elem? h'.my_connections i ≡ some none))
      × (closed_peers h.my_connections ≡ 0
          → send_message_to_all_clients msg' h'
            ≡ some
                (record h { my_connections = map (λ p. some (sent_to msg' (sent_to msg p))) ps }))
      × (0 < closed_peers h.my_connections → send_message_to_all_clients msg' h' ≡ none)
unfolding send_message_to_all_clients
send_message_to_all_clients-twice msg msg' h ps e =
    let first_run = ap (send_to_each msg) e ∙ send_to_each-map msg ps in
    (
      record h { my_connections = map (after_sending msg) ps },
      >>=_run _ first_run,
      (λ i p at. (reaches i p at, resets i p at)),
      (λ none_closed.
          >>=_run _ (send_to_each-open msg msg' ps (sym (ap closed_peers e) ∙ none_closed))),
      (λ some_closed.
          rw (send_to_each-closed msg msg' h.my_connections _ first_run some_closed) refl),
    )
  where
    entry :
        (i : ℕ) (p : Peer)
        → get_elem? ps i ≡ some p
        → get_elem? (map (after_sending msg) ps) i ≡ some (after_sending msg p)
    entry i p at =
        get_elem?-map_lem (after_sending msg) ps i ∙ ap (Option.map (after_sending msg)) at

    reaches :
        (i : ℕ) (p : Peer)
        → get_elem? ps i ≡ some p
        → p.open_socket ≡ true
        → get_elem? (map (after_sending msg) ps) i ≡ some (some (sent_to msg p))
    reaches i p at up = entry i p at ∙ rw up refl

    resets :
        (i : ℕ) (p : Peer)
        → get_elem? ps i ≡ some p
        → p.open_socket ≡ false
        → get_elem? (map (after_sending msg) ps) i ≡ some none
    resets i p at down = entry i p at ∙ rw down refl
