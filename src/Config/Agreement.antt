-- ===== src/Config/Agreement.antt =====
-- The two mains agree on what they read from the same files.
use mathlib.Core.Option
use ab_prototype.Prelude.{
  ℕ, ◌≡◌, refl, ap, ◌∙◌, Bool, true, false, Option, none, some, List, [], ◌∷◌, ◌==◌, if◌then◌else◌,
  >>=-eq-some, >>=_run,
}
use ab_prototype.RmCommon.{RmInfo, PrimeInfo, fft_prime_from_bit_length, fill_rm_info}
use ab_prototype.Config.{
  Stream, Config, wrong_usage, invalid_prime, ready, extract, read_words, read_network,
  finish_setup, open_files, read_server_parameters, read_client_parameters, read_prime,
  server_setup, client_setup,
}

-- The parameters of the client program.
abbrev pub as_client : RmInfo → RmInfo
as_client info = record info { server_id = 0 }

abbrev pub as_client_config : {T : Type 0} → Config T → Config T
as_client_config c = record c { info = as_client c.info }

module _ {T : Type 0} where
  -- A word that is there does not depend on the old value of the variable.
  extract-some :
      (old old' : T) (fin : Stream T) (word : T) (rest : List T)
      → fin.words ≡ word ∷ rest
      → (extract old fin).0 ≡ (extract old' fin).0
  unfolding extract read_words
  extract-some old old' fin word [] e = rw e refl
  extract-some old old' fin word (next ∷ rest) e = rw e refl

  finish_setup-as_client :
      (fft_prime_info : PrimeInfo) (n server_id L : ℕ) (network : Option (List T × List T))
      (c : Config T)
      → finish_setup (fill_rm_info fft_prime_info n server_id L) network ≡ ready c
      → finish_setup (fill_rm_info fft_prime_info n 0 L) network ≡ ready (as_client_config c)
  unfolding finish_setup fill_rm_info
  finish_setup-as_client pi n server_id L none c e = cc
  finish_setup-as_client pi n server_id L (some (ips, ports)) c e =
      let same : record { info = fill_rm_info pi n server_id L; ips = ips; ports = ports } ≡ c =
        cc in
      ap (λ d. ready (as_client_config d)) same

module _ {T : Type 0} (stoi : T → Option ℕ) (empty : T) where
  parameters-agree :
      (fft_prime_info : PrimeInfo) (read_param : T) (fin1 fin2 fin3 : Stream T) (word : T)
      (rest : List T) (c : Config T)
      → fin2.words ≡ word ∷ rest
      → read_server_parameters stoi empty fft_prime_info read_param fin1 fin2 fin3 ≡ some (ready c)
      → read_client_parameters stoi empty fft_prime_info read_param fin1 fin2 fin3
        ≡ some (ready (as_client_config c))
  unfolding read_server_parameters read_client_parameters
  parameters-agree pi param fin1 fin2 fin3 word rest c e h =
      let (word1, fin1') = extract param fin1 in
      let (n, e1, h1) = >>=-eq-some (stoi (extract param fin1).0) _ h in
      let word2 = (extract (extract param fin1).0 (extract param fin1).1).0 in
      let (server_id, e2, h2) = >>=-eq-some (stoi word2) _ h1 in
      let (L, e3, h3) = >>=-eq-some (stoi (extract word2 fin2).0) _ h2 in
      >>=_run _ e1
      ∙ >>=_run _ (ap stoi (extract-some (extract param fin1).0 word2 fin2 word rest e) ∙ e3)
      ∙ ap some (
          finish_setup-as_client pi n server_id L (read_network n empty empty fin3) c
            (Option.some-injective _ _ h3))

  primes-agree :
      (fin1 fin2 fin3 : Stream T) (word : T) (rest : List T) (c : Config T)
      → fin2.words ≡ word ∷ rest
      → read_prime stoi empty (read_server_parameters stoi empty) fin1 fin2 fin3 ≡ some (ready c)
      → read_prime stoi empty (read_client_parameters stoi empty) fin1 fin2 fin3
        ≡ some (ready (as_client_config c))
  unfolding read_prime
  primes-agree fin1 fin2 fin3 word rest c e h =
      let (bits, e1, h1) = >>=-eq-some (stoi (extract empty fin1).0) _ h in
      >>=_run _ e1 ∙ by_prime (fft_prime_from_bit_length bits) h1
    where
      by_prime :
          (found : Option PrimeInfo)
          → (elim found [
            | none ↦ some invalid_prime
            | some pi ↦
                read_server_parameters stoi empty pi
                  (extract empty fin1).0
                  (extract empty fin1).1
                  fin2
                  fin3
          ])
            ≡ some (ready c)
          → (elim found [
            | none ↦ some invalid_prime
            | some pi ↦
                read_client_parameters stoi empty pi
                  (extract empty fin1).0
                  (extract empty fin1).1
                  fin2
                  fin3
          ])
            ≡ some (ready (as_client_config c))
      by_prime none k = cc
      by_prime (some pi) k =
          parameters-agree pi (extract empty fin1).0 (extract empty fin1).1 fin2 fin3 word rest c e
            k

  -- If a server starts with three files, the second of which is not empty, the client program starts
  -- with them too: it has the same parameters, but for the identifier of the server, and the same
  -- addresses and ports of the servers.
  pub client_setup-server_setup :
      (argc : ℕ) (fin1 fin2 fin3 : Stream T) (word : T) (rest : List T) (c : Config T)
      → fin2.words ≡ word ∷ rest
      → server_setup stoi empty argc (some fin1) (some fin2) (some fin3) ≡ some (ready c)
      → client_setup stoi empty argc (some fin1) (some fin2) (some fin3)
        ≡ some (ready (as_client_config c))
  unfolding server_setup client_setup open_files
  client_setup-server_setup argc fin1 fin2 fin3 word rest c e = by_argc (argc == 4)
    where
      by_argc :
          (right : Bool)
          → (if right
              then read_prime stoi empty (read_server_parameters stoi empty) fin1 fin2 fin3
              else some wrong_usage)
            ≡ some (ready c)
          → (if right
              then read_prime stoi empty (read_client_parameters stoi empty) fin1 fin2 fin3
              else some wrong_usage)
            ≡ some (ready (as_client_config c))
      by_argc true h = primes-agree fin1 fin2 fin3 word rest c e h
      by_argc false h = cc
