-- ===== src/Config/Network.antt =====
-- What the mains have read when they start: the addresses of all servers, and parameters that meet
-- the conditions of the sharing.
use ab_prototype.Prelude.{
  ℕ, zero, suc, ◌<◌, ◌≡◌, refl, Bool, true, false, not, none, some, List, [], ◌∷◌, ◌++◌, map,
  length, arith,
}
use ab_prototype.Config.{Stream, extract, read_words, read_network}

-- The words of a network configuration.
unfoldable pub network_words : {T : Type 0} → List (T × T) → List T
network_words [] = []
network_words ((ip, port) ∷ servers) = ip ∷ port ∷ network_words servers

-- The value of the variable for the ports after some servers were read.
unfoldable pub last_port : {T : Type 0} → T → List (T × T) → T
last_port port [] = port
last_port port ((ip, port') ∷ servers) = last_port port' servers

module _ {T : Type 0} where
  abbrev pub file_of : List T → Bool → Stream T
  file_of words space_at_end = record { words = words; space_at_end = space_at_end; eof = false }

  read_network-servers :
      (servers : List (T × T)) (ip port : T) (space : Bool)
      → read_network (length servers) ip port (file_of (network_words servers) space)
        ≡ some (map (λ s. s.0) servers, map (λ s. s.1) servers)
  unfolding read_network extract read_words network_words
  read_network-servers [] ip port space = refl
  read_network-servers ((a, p) ∷ []) ip port space = refl
  read_network-servers ((a, p) ∷ (b, q) ∷ servers) ip port space =
      rw (read_network-servers ((b, q) ∷ servers) a p space) refl

  read_network-end :
      (n : ℕ) (ip port : T) (space eof : Bool)
      → read_network (suc n) ip port (record { words = []; space_at_end = space; eof = eof }) ≡ none
  unfolding read_network extract read_words
  read_network-end n ip port space true = refl
  read_network-end n ip port space false = refl

  read_network-too_few :
      (servers : List (T × T)) (n : ℕ) (ip port : T) (space : Bool)
      → length servers < n
      → read_network n ip port (file_of (network_words servers) space) ≡ none
  unfolding read_network extract read_words network_words
  read_network-too_few servers zero ip port space few = absurd (omega arith)
  read_network-too_few [] (suc n) ip port space few = read_network-end n ip port space false
  read_network-too_few ((a, p) ∷ []) (suc zero) ip port space few = absurd (omega arith)
  read_network-too_few ((a, p) ∷ []) (suc (suc n)) ip port space few =
      rw (read_network-end n a p space (not space)) refl
  read_network-too_few ((a, p) ∷ (b, q) ∷ servers) (suc n) ip port space few =
      rw (read_network-too_few ((b, q) ∷ servers) n a p space (omega arith)) refl

  read_network-no_port :
      (servers : List (T × T)) (ip port lost : T)
      → read_network
          (suc (length servers))
          ip
          port
          (file_of (network_words servers ++ (lost ∷ [])) true)
        ≡ some (
          map (λ s. s.0) servers ++ (lost ∷ []),
          map (λ s. s.1) servers ++ (last_port port servers ∷ []),
        )
  unfolding read_network extract read_words network_words last_port
  read_network-no_port [] ip port lost = refl
  read_network-no_port ((a, p) ∷ []) ip port lost = refl
  read_network-no_port ((a, p) ∷ (b, q) ∷ servers) ip port lost =
      rw (read_network-no_port ((b, q) ∷ servers) a p lost) refl

  -- A network configuration with the address and the port of exactly n servers is read as it is
  -- written, whether or not white space ends the file; one with fewer servers is refused. If only the
  -- port of the last server is missing, a file that ends with white space is accepted all the same: that
  -- server gets the port of the one before it.
  pub read_network-network_words :
      (servers : List (T × T)) (n : ℕ) (empty lost : T) (space : Bool)
      → (length servers ≡ n
          → read_network n empty empty (file_of (network_words servers) space)
            ≡ some (map (λ s. s.0) servers, map (λ s. s.1) servers))
        × (length servers < n
            → read_network n empty empty (file_of (network_words servers) space) ≡ none)
        × (suc (length servers) ≡ n
            → read_network n empty empty (file_of (network_words servers ++ (lost ∷ [])) true)
              ≡ some (
                map (λ s. s.0) servers ++ (lost ∷ []),
                map (λ s. s.1) servers ++ (last_port empty servers ∷ []),
              ))
  read_network-network_words servers n empty lost space = (
    λ e. rw (← e) (read_network-servers servers empty empty space),
    λ few. read_network-too_few servers n empty empty space few,
    λ e. rw (← e) (read_network-no_port servers empty empty lost),
  )
