-- ===== src/Network/Connecting.antt =====
-- The loops of the mains end with all clients connected, if enough attempts succeed.
use ab_prototype.Prelude.{
  ℕ, suc, ◌+◌, ◌-◌, ◌≤◌, ◌≡◌, refl, sym, ap, ==_iff, ◌∙◌, true, Bool-cases, ◌⊎◌, inl, inr, Option,
  none, some, List, [], ◌∷◌, ◌==◌, length, length-replicate, replicate, if◌then◌else◌, >>=_run,
  ◌>>=◌, arith,
}
use ab_prototype.Message.{Message}
use ab_prototype.Network.Client.{
  ClientInterface, client_interface, Attempt, resolve_throws, connect_throws, connects,
  new_connection, connect, is_connected, connect_until, connect_clients, connect_server,
  connect_client,
}

-- The attempts that succeed.
unfoldable pub successes : List Attempt → ℕ
successes [] = 0
successes (resolve_throws ∷ attempts) = successes attempts
successes (connect_throws socket_open ∷ attempts) = successes attempts
successes (connects ∷ attempts) = suc (successes attempts)

-- A connection was made: the client has the connection object of an attempt that succeeded, with the
-- client's party identifiers and a fresh link, and its context runs.
unfoldable pub HasConnection : Message → ClientInterface → Type 0
HasConnection temp c =
    (c.my_connection ≡ some (new_connection temp true c))
    × (c.context_running ≡ true)
    × (is_connected c ≡ true)

-- The client i of a main: it has its party identifiers, and a connection if it is not skipped.
unfoldable pub IsDialled : Message → ℕ → Option ℕ → ℕ → ClientInterface → Type 0
IsDialled temp local skipped i c =
    (c.local_party_id ≡ some local)
    × (c.remote_party_id ≡ some (i + 1))
    × ((skipped ≡ some i) ⊎ HasConnection temp c)

abbrev pub AllDialled : Message → ℕ → Option ℕ → ℕ → List ClientInterface → Type 0
AllDialled temp local skipped i [] = Unit
AllDialled temp local skipped i (c ∷ clients) =
    IsDialled temp local skipped i c × AllDialled temp local skipped (suc i) clients

connect_until-connected :
    (temp : Message) (attempts : List Attempt) (c : ClientInterface)
    → 1 ≤ successes attempts
    → (c' : ClientInterface) × (rest : List Attempt) × (connect_until temp attempts c
        ≡ some (c', rest))
      × (suc (successes rest) ≡ successes attempts)
      × (c'.local_party_id ≡ c.local_party_id)
      × (c'.remote_party_id ≡ c.remote_party_id)
      × HasConnection temp c'
unfolding connect_until successes connect is_connected new_connection HasConnection
connect_until-connected temp [] c h = absurd (omega arith)
connect_until-connected temp (resolve_throws ∷ attempts) c h =
    connect_until-connected temp attempts c h
connect_until-connected temp (connect_throws socket_open ∷ attempts) c h =
    connect_until-connected temp attempts (connect temp (connect_throws socket_open) c).1 h
connect_until-connected temp (connects ∷ attempts) c h =
    ((connect temp connects c).1, attempts, refl, refl, refl, refl, (refl, refl, refl))

module _ (temp : Message) (local : ℕ) where
  -- The clients from client i on, once those of the loop are connected.
  abbrev Connects : Option ℕ → ℕ → List Attempt → List ClientInterface → Type 0
  Connects skipped i attempts clients =
      (clients' : List ClientInterface) × (connect_clients temp local skipped i attempts clients
        ≡ some clients')
      × (length clients' ≡ length clients)
      × AllDialled temp local skipped i clients'

  abbrev with_parties : ℕ → ClientInterface → ClientInterface
  with_parties i c = record c { local_party_id = some local; remote_party_id = some (i + 1) }

  -- A client that is not skipped takes its attempts up to the first that succeeds.
  dials :
      (skipped : Option ℕ) (i : ℕ) (attempts : List Attempt) (c : ClientInterface)
      (clients : List ClientInterface)
      → suc (length clients) ≤ successes attempts
      → ((rest : List Attempt)
          → length clients ≤ successes rest
          → Connects skipped (suc i) rest clients)
      → (clients' : List ClientInterface) × ((connect_until temp attempts (with_parties i c)
            >>= λ r. connect_clients temp local skipped (suc i) r.1 clients >>= λ others.
                some (r.0 ∷ others))
          ≡ some clients')
        × (length clients' ≡ suc (length clients))
        × AllDialled temp local skipped i clients'
  unfolding IsDialled
  dials skipped i attempts c clients enough others =
      let (c', rest, run, left, is_local, is_remote, is_up) =
        connect_until-connected temp attempts (with_parties i c) (omega arith) in
      let (clients', runs, size, dialled) = others rest (omega arith) in
      (
        c' ∷ clients',
        >>=_run _ run ∙ >>=_run _ runs,
        ap suc size,
        ((is_local, is_remote, inr is_up), dialled),
      )

  connect_clients-AllDialled :
      (skipped : Option ℕ) (i : ℕ) (attempts : List Attempt) (clients : List ClientInterface)
      → length clients ≤ successes attempts
      → Connects skipped i attempts clients
  unfolding connect_clients IsDialled
  connect_clients-AllDialled skipped i attempts [] h = ([], refl, refl, tt)
  connect_clients-AllDialled none i attempts (c ∷ clients) h =
      dials none i attempts c clients h
        (λ rest enough. connect_clients-AllDialled none (suc i) rest clients enough)
  connect_clients-AllDialled (some own) i attempts (c ∷ clients) h = elim (Bool-cases (i == own)) [
    | inl e ↦
        let (clients', runs, size, dialled) =
          connect_clients-AllDialled (some own) (suc i) attempts clients (omega arith) in
        (
          with_parties i c ∷ clients',
          rw e (>>=_run _ runs),
          ap suc size,
          ((refl, refl, inl (ap some (sym ((==_iff i own).0 e)))), dialled),
        )
    | inr e ↦
        let (clients', runs, size, dialled) =
          dials (some own) i attempts c clients h
            (λ rest enough. connect_clients-AllDialled (some own) (suc i) rest clients enough) in
        (clients', rw e runs, size, dialled)
  ]

-- If as many attempts succeed as there are servers, the loops of both mains end, whatever sockets the
-- others leave open: the client program then has a connection that was made to every server, and a
-- server to every other one; each connection has the identifiers of its two parties and a fresh link,
-- and the context of its client runs.
pub connect-AllDialled :
    (temp : Message) (server_id n : ℕ) (attempts : List Attempt)
    → n ≤ successes attempts
    → ((clients : List ClientInterface) × (connect_client temp n attempts ≡ some clients)
        × (length clients ≡ n)
        × AllDialled temp 1 none 0 clients)
      × ((clients : List ClientInterface) × (connect_server temp server_id n attempts
            ≡ some clients)
          × (length clients ≡ n)
          × AllDialled temp server_id
              (if server_id == 0 then none else some (server_id - 1))
              0
              clients)
unfolding connect_client connect_server
connect-AllDialled temp server_id n attempts h =
    let size = length-replicate n client_interface in
    let (cs, run, count, dialled) =
      connect_clients-AllDialled temp 1 none 0 attempts (replicate n client_interface)
        (omega (arith, size)) in
    let (ss, run', count', dialled') =
      connect_clients-AllDialled temp server_id
        (if server_id == 0 then none else some (server_id - 1)) 0 attempts
        (replicate n client_interface) (omega (arith, size)) in
    ((cs, run, count ∙ size, dialled), (ss, run', count' ∙ size, dialled'))
