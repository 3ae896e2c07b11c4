-- ===== src/Config.antt =====
-- The start of the two mains, rm_server_main.cpp and rm_client_main.cpp: the arguments, and the
-- reading of the three configuration files. A file is the sequence of its words; `stoi`, of the
-- standard library, is a parameter, with the value as a `size_t`. An exception of it is `none`.
mod Agreement
mod Network
mod Parameters
mod Tests
mod Sessions
use ab_prototype.Prelude.{
  ℕ, zero, suc, ◌+◌, ◌-◌, ◌*◌, Bool, true, false, not, ◌&&◌, Option, none, some, List, [], ◌∷◌,
  ◌++◌, get_elem?, ◌==◌, if◌then◌else◌, ◌>>=◌,
}
use ab_prototype.RmCommon.{RmInfo, PrimeInfo, fft_prime_from_bit_length, fill_rm_info}
use ab_prototype.Server.{prime_length, l_value, l_value2, test_plen}

-- An open `std::ifstream`: the words that are left, whether white space follows the last of them,
-- and the bit of the end of the file, which is set only when no word is left.
pub record Stream (T : Type 0) : Type 0 where
  pub words : List T
  pub space_at_end : Bool
  pub eof : Bool

module _ {T : Type 0} where
  unfoldable pub read_words : T → List T → Bool → Bool → T × Stream T
  read_words old [] space eof = (old, record { words = []; space_at_end = space; eof = true })
  read_words old (word ∷ []) space eof =
      (word, record { words = []; space_at_end = space; eof = not space })
  read_words old (word ∷ next ∷ rest) space eof =
      (word, record { words = next ∷ rest; space_at_end = space; eof = eof })

  -- `fin >> word`: at the end of the file the variable keeps its value.
  unfoldable pub extract : T → Stream T → T × Stream T
  unfolding read_words
  extract old fin = read_words old fin.words fin.space_at_end fin.eof

  -- The loop over the servers; `none` is "Incorrect Network Configuration".
  unfoldable pub read_network : ℕ → T → T → Stream T → Option (List T × List T)
  unfolding extract
  read_network zero ip port fin = some ([], [])
  read_network (suc n) ip port fin =
      let (ip', fin1) = extract ip fin in
      let (port', fin2) = extract port fin1 in
      let others = (do
        (ips, ports) ← read_network n ip' port' fin2
        some (ip' ∷ ips, port' ∷ ports)) in
      if fin.eof then none else if fin1.eof then none else others

-- What a main has read, and the ways in which it returns 1.
pub record Config (T : Type 0) : Type 0 where
  pub info : RmInfo
  pub ips : List T
  pub ports : List T

pub data Setup (T : Type 0) : Type 0 where
  wrong_usage reading_failed invalid_prime incorrect_network : Setup T
  ready : Config T → Setup T

module _ {T : Type 0} where
  unfoldable pub finish_setup : RmInfo → Option (List T × List T) → Setup T
  finish_setup info none = incorrect_network
  finish_setup info (some (ips, ports)) = ready (record { info = info; ips = ips; ports = ports })

  -- `if (argc != 4)`, and `is_open` of the three files.
  unfoldable pub open_files :
      (Stream T → Stream T → Stream T → Option (Setup T))
      → ℕ
      → Option (Stream T)
      → Option (Stream T)
      → Option (Stream T)
      → Option (Setup T)
  open_files read argc (some fin1) (some fin2) (some fin3) =
      let setup = read fin1 fin2 fin3 in if argc == 4 then setup else some wrong_usage
  open_files read argc none fin2 fin3 = if argc == 4 then some reading_failed else some wrong_usage
  open_files read argc (some fin1) none fin3 =
      if argc == 4 then some reading_failed else some wrong_usage
  open_files read argc (some fin1) (some fin2) none =
      if argc == 4 then some reading_failed else some wrong_usage

module _ {T : Type 0} (stoi : T → Option ℕ) (empty : T) where
  -- The server, after the length of the prime.
  unfoldable pub read_server_parameters :
      PrimeInfo → T → Stream T → Stream T → Stream T → Option (Setup T)
  unfolding finish_setup
  read_server_parameters fft_prime_info read_param fin1 fin2 fin3 = do
    let (word1, fin1') = extract read_param fin1
    n ← stoi word1
    let (word2, _) = extract word1 fin1'
    server_id ← stoi word2
    let (word3, _) = extract word2 fin2
    L ← stoi word3
    some
        (finish_setup (fill_rm_info fft_prime_info n server_id L) (read_network n empty empty fin3))

  -- The client, which has no identifier of a server to read.
  unfoldable pub read_client_parameters :
      PrimeInfo → T → Stream T → Stream T → Stream T → Option (Setup T)
  unfolding finish_setup
  read_client_parameters fft_prime_info read_param fin1 fin2 fin3 = do
    let (word1, _) = extract read_param fin1
    n ← stoi word1
    let (word2, _) = extract word1 fin2
    L ← stoi word2
    some (finish_setup (fill_rm_info fft_prime_info n 0 L) (read_network n empty empty fin3))

  -- The length of the prime, and then what `parameters` reads.
  unfoldable pub read_prime :
      (PrimeInfo → T → Stream T → Stream T → Stream T → Option (Setup T))
      → Stream T
      → Stream T
      → Stream T
      → Option (Setup T)
  read_prime parameters fin1 fin2 fin3 = do
    let (word, fin1') = extract empty fin1
    bits ← stoi word
    (elim (fft_prime_from_bit_length bits) [
      | none ↦ some invalid_prime
      | some fft_prime_info ↦ parameters fft_prime_info word fin1' fin2 fin3
    ])

  unfoldable pub server_setup :
      ℕ → Option (Stream T) → Option (Stream T) → Option (Stream T) → Option (Setup T)
  unfolding read_server_parameters read_prime open_files
  server_setup = open_files (read_prime read_server_parameters)

  unfoldable pub client_setup :
      ℕ → Option (Stream T) → Option (Stream T) → Option (Stream T) → Option (Setup T)
  unfolding read_client_parameters read_prime open_files
  client_setup = open_files (read_prime read_client_parameters)

-- `ports[info.server_id - 1]`, at which the server listens.
unfoldable pub listening_port : {T : Type 0} → Config T → Option T
listening_port c =
    let port = get_elem? c.ports (c.info.server_id - 1) in
    if c.info.server_id == 0 then none else port

-- The client program's own loops over the test cases. The inner loop, over the lengths of the prime.
unfoldable pub client_prime_cases : ℕ → List ℕ → RmInfo → Option (List RmInfo)
client_prime_cases L [] info = some []
client_prime_cases L (bits ∷ rest) info = do
  fft_prime_info ← fft_prime_from_bit_length bits
  let info' = record info { fft_prime_info = fft_prime_info; L = L; N = 14 * (L * L) + 10 * L - 1 }
  others ← client_prime_cases L rest info'
  some (info' ∷ others)

-- The first loop, over the values of L.
unfoldable pub client_mixing_cases : List ℕ → RmInfo → Option (List RmInfo)
unfolding client_prime_cases
client_mixing_cases [] info = some []
client_mixing_cases (L ∷ rest) info = do
  cases ← client_prime_cases L prime_length info
  others ← client_mixing_cases rest info
  some (cases ++ others)

-- The second loop, with one prime.
unfoldable pub client_fixed_prime_cases : List ℕ → RmInfo → List RmInfo
client_fixed_prime_cases [] info = []
client_fixed_prime_cases (L ∷ rest) info =
    record info { L = L; N = 14 * (L * L) + 10 * L - 1 } ∷ client_fixed_prime_cases rest info

unfoldable pub client_test_cases : RmInfo → Option (List RmInfo)
unfolding client_mixing_cases client_fixed_prime_cases
client_test_cases info = do
  cases ← client_mixing_cases l_value info
  fft_prime_info ← fft_prime_from_bit_length test_plen
  some
      (cases ++ client_fixed_prime_cases l_value2 (record info { fft_prime_info = fft_prime_info }))

-- The test cases with the identifiers of their sessions, `sid = case_idx`.
unfoldable pub number_cases : ℕ → List RmInfo → List (ℕ × RmInfo)
number_cases case_idx [] = []
number_cases case_idx (info ∷ infos) = (case_idx, info) ∷ number_cases (suc case_idx) infos

unfoldable pub client_sessions : RmInfo → Option (List (ℕ × RmInfo))
unfolding client_test_cases number_cases
client_sessions info = do infos ← client_test_cases info; some (number_cases 0 infos)
