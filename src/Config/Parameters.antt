-- ===== src/Config/Parameters.antt =====
-- The parameters that a server has read meet the conditions of the sharing.
use mathlib.Core.Option
use ab_prototype.Prelude.{
  ℕ, zero, suc, ◌+◌, ◌-◌, ◌*◌, ◌≤◌, ◌<◌, ◌≡◌, refl, sym, ap, ◌∙◌, Bool, true, false, Option, none,
  some, List, [], ◌∷◌, length, get_elem?-some, ◌==◌, if◌then◌else◌, >>=-eq-some, ◌>>=◌, arith,
}
use ab_prototype.RmCommon.{RmInfo, PrimeInfo, fft_prime_from_bit_length, fill_rm_info}
use ab_prototype.RmCommon.Counts.{fill_rm_info-t}
use ab_prototype.Config.{
  Stream, Config, wrong_usage, reading_failed, invalid_prime, ready, extract, read_network,
  finish_setup, open_files, read_server_parameters, read_prime, server_setup, listening_port,
}

module _ {T : Type 0} where
  -- An address and a port for each server.
  read_network-length :
      (n : ℕ) (ip port : T) (fin : Stream T) (ips ports : List T)
      → read_network n ip port fin ≡ some (ips, ports)
      → (length ips ≡ n) × (length ports ≡ n)
  unfolding read_network
  read_network-length zero ip port fin ips ports e =
      let e0 : [] ≡ ips = ap (λ r. r.0) (Option.some-injective _ _ e) in
      let e1 : [] ≡ ports = ap (λ r. r.1) (Option.some-injective _ _ e) in
      (rw (← e0) refl, rw (← e1) refl)
  read_network-length (suc n) ip port fin ips ports e =
      by_eof fin.eof (extract ip fin).1.eof
        (λ is ps.
          read_network-length n (extract ip fin).0 (extract port (extract ip fin).1).0
            (extract port (extract ip fin).1).1 is ps)
        e
    where
      others : Option (List T × List T)
      others =
          read_network n (extract ip fin).0 (extract port (extract ip fin).1).0
            (extract port (extract ip fin).1).1

      joined : List T × List T → Option (List T × List T)
      joined r = some ((extract ip fin).0 ∷ r.0, (extract port (extract ip fin).1).0 ∷ r.1)

      by_eof :
          (a b : Bool)
          → ((is ps : List T) → others ≡ some (is, ps) → (length is ≡ n) × (length ps ≡ n))
          → (if a then none else if b then none else (others >>= λ r. joined r)) ≡ some (ips, ports)
          → (length ips ≡ suc n) × (length ports ≡ suc n)
      by_eof true b rest k = cc
      by_eof false true rest k = cc
      by_eof false false rest k =
          let (r, run, eq) = >>=-eq-some others _ k in
          let (size0, size1) = rest r.0 r.1 run in
          let e0 = ap (λ q. length q.0) (Option.some-injective _ _ eq) in
          let e1 = ap (λ q. length q.1) (Option.some-injective _ _ eq) in
          (sym e0 ∙ ap suc size0, sym e1 ∙ ap suc size1)

module _ {T : Type 0} (stoi : T → Option ℕ) (empty : T) where
  -- The parameters are those of a number of servers, one of them the server, and there is an address
  -- and a port for each.
  abbrev IsRead : Config T → Type 0
  IsRead c =
      (pi : PrimeInfo) × (n : ℕ) × (server_id : ℕ) × (L : ℕ) × (c.info
        ≡ fill_rm_info pi n server_id L)
      × (length c.ips ≡ n)
      × (length c.ports ≡ n)

  finish_setup-IsRead :
      (pi : PrimeInfo) (n server_id L : ℕ) (fin3 : Stream T) (c : Config T)
      → finish_setup (fill_rm_info pi n server_id L) (read_network n empty empty fin3) ≡ ready c
      → IsRead c
  unfolding finish_setup
  finish_setup-IsRead pi n server_id L fin3 c e =
      by_network (read_network n empty empty fin3) refl e
    where
      by_network :
          (network : Option (List T × List T))
          → read_network n empty empty fin3 ≡ network
          → finish_setup (fill_rm_info pi n server_id L) network ≡ ready c
          → IsRead c
      by_network none run k = cc
      by_network (some (ips, ports)) run k =
          let same : record { info = fill_rm_info pi n server_id L; ips = ips; ports = ports } ≡ c =
            cc in
          let (size0, size1) = read_network-length n empty empty fin3 ips ports run in
          (
            pi,
            n,
            server_id,
            L,
            sym (ap (λ (d : Config T). d.info) same),
            sym (ap (λ (d : Config T). length d.ips) same) ∙ size0,
            sym (ap (λ (d : Config T). length d.ports) same) ∙ size1,
          )

  read_server_parameters-IsRead :
      (pi : PrimeInfo) (param : T) (fin1 fin2 fin3 : Stream T) (c : Config T)
      → read_server_parameters stoi empty pi param fin1 fin2 fin3 ≡ some (ready c)
      → IsRead c
  unfolding read_server_parameters
  read_server_parameters-IsRead pi param fin1 fin2 fin3 c e =
      let (n, e1, h1) = >>=-eq-some (stoi (extract param fin1).0) _ e in
      let word2 = (extract (extract param fin1).0 (extract param fin1).1).0 in
      let (server_id, e2, h2) = >>=-eq-some (stoi word2) _ h1 in
      let (L, e3, h3) = >>=-eq-some (stoi (extract word2 fin2).0) _ h2 in
      finish_setup-IsRead pi n server_id L fin3 c (Option.some-injective _ _ h3)

  read_prime-IsRead :
      (fin1 fin2 fin3 : Stream T) (c : Config T)
      → read_prime stoi empty (read_server_parameters stoi empty) fin1 fin2 fin3 ≡ some (ready c)
      → IsRead c
  unfolding read_prime
  read_prime-IsRead fin1 fin2 fin3 c e =
      let (bits, e1, h1) = >>=-eq-some (stoi (extract empty fin1).0) _ e in
      by_prime (fft_prime_from_bit_length bits) h1
    where
      by_prime :
          (found : Option PrimeInfo)
          → (elim found [
            | none ↦ some invalid_prime
            | some pi ↦
                read_server_parameters stoi empty pi
                  (extract empty fin1).0
                  (extract empty fin1).1
                  fin2
                  fin3
          ])
            ≡ some (ready c)
          → IsRead c
      by_prime none k = cc
      by_prime (some pi) k =
          read_server_parameters-IsRead pi (extract empty fin1).0 (extract empty fin1).1 fin2 fin3 c
            k

  not_opened :
      (right : Bool) (c : Config T)
      → (if right then some reading_failed else some wrong_usage) ≡ some (ready c)
      → IsRead c
  not_opened true c h = cc
  not_opened false c h = cc

  server_setup-IsRead :
      (argc : ℕ) (fin1 fin2 fin3 : Option (Stream T)) (c : Config T)
      → server_setup stoi empty argc fin1 fin2 fin3 ≡ some (ready c)
      → IsRead c
  unfolding server_setup open_files
  server_setup-IsRead argc none fin2 fin3 c e = not_opened (argc == 4) c e
  server_setup-IsRead argc (some fin1) none fin3 c e = not_opened (argc == 4) c e
  server_setup-IsRead argc (some fin1) (some fin2) none c e = not_opened (argc == 4) c e
  server_setup-IsRead argc (some fin1) (some fin2) (some fin3) c e = by_argc (argc == 4) e
    where
      by_argc :
          (right : Bool)
          → (if right
              then read_prime stoi empty (read_server_parameters stoi empty) fin1 fin2 fin3
              else some wrong_usage)
            ≡ some (ready c)
          → IsRead c
      by_argc true h = read_prime-IsRead fin1 fin2 fin3 c h
      by_argc false h = cc

  -- A server that has started with one server or more has a packing parameter of 1, the largest
  -- threshold t with 4 t < n, and an address and a port for each of the n servers; with an identifier
  -- from 1 to n it also has a port to listen at.
  pub server_setup-threshold :
      (argc : ℕ) (fin1 fin2 fin3 : Option (Stream T)) (c : Config T)
      → server_setup stoi empty argc fin1 fin2 fin3 ≡ some (ready c)
      → 0 < c.info.n
      → (c.info.l ≡ 1)
        × (4 * c.info.t < c.info.n)
        × (c.info.n ≤ 4 * c.info.t + 4)
        × (length c.ips ≡ c.info.n)
        × (length c.ports ≡ c.info.n)
        × (1 ≤ c.info.server_id
            → c.info.server_id ≤ c.info.n
            → (port : T) × (listening_port c ≡ some port))
  unfolding listening_port fill_rm_info
  server_setup-threshold argc fin1 fin2 fin3 c e h =
      let (pi, n, server_id, L, same, size0, size1) = server_setup-IsRead argc fin1 fin2 fin3 c e in
      let is_n : c.info.n ≡ n = ap (λ (i : RmInfo). i.n) same in
      let is_t : c.info.t ≡ (fill_rm_info pi n server_id L).t = ap (λ (i : RmInfo). i.t) same in
      let (below, largest) = fill_rm_info-t pi n server_id L (omega arith) in
      (
        ap (λ (i : RmInfo). i.l) same,
        rw (is_t, is_n) below,
        rw (is_t, is_n) largest,
        size0 ∙ sym is_n,
        size1 ∙ sym is_n,
        λ one le.
            let not_zero : (c.info.server_id == 0) ≡ false = ground arith in
            let (port, read) =
              get_elem?-some c.ports (c.info.server_id - 1) (omega (arith, size1, is_n)) in
            (port, rw not_zero read),
      )
