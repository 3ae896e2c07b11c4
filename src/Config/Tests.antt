-- ===== src/Config/Tests.antt =====
-- The start of the mains with the configuration files of the repository, whose words are numbers.
use ab_prototype.Prelude.{
  ℕ, suc, ◌+◌, ◌*◌, ◌≤◌, ◌<◌, ◌≡◌, refl, true, none, some, List, [], ◌∷◌, ◌++◌, map, length,
  get_elem?, arith,
}
use mathlib.Core.Option
use ab_prototype.RmCommon.{RmInfo, prime_info, fill_rm_info, fft_prime_from_bit_length}
use ab_prototype.Server.{test_cases, mixing_cases, prime_cases, fixed_prime_cases}
use ab_prototype.Config.{
  Stream, Config, ready, extract, read_words, read_network, finish_setup, open_files,
  read_server_parameters, read_prime, server_setup, client_setup, listening_port, client_sessions,
}
use ab_prototype.Config.Agreement.{as_client, as_client_config, client_setup-server_setup}
use ab_prototype.Config.Sessions.{client_sessions-test_cases}
use ab_prototype.Config.Network.{network_words, last_port, file_of, read_network-network_words}
use ab_prototype.Config.Parameters.{server_setup-threshold}

abbrev mpc_config : Stream ℕ
mpc_config = file_of (64 ∷ 5 ∷ 2 ∷ []) true

abbrev mix_config : Stream ℕ
mix_config = file_of (3 ∷ []) true

abbrev servers : List (ℕ × ℕ)
servers = (1, 60000) ∷ (2, 60001) ∷ (3, 60002) ∷ (4, 60003) ∷ (5, 60004) ∷ []

abbrev net_config : Stream ℕ
net_config = file_of (network_words servers) true

abbrev config : Config ℕ
config = record {
  info = fill_rm_info (prime_info 7 129 59) 5 2 3;
  ips = map (λ s. s.0) servers;
  ports = map (λ s. s.1) servers;
}

server_starts :
    server_setup some 0 4 (some mpc_config) (some mix_config) (some net_config)
    ≡ some (ready config)
unfolding server_setup read_server_parameters read_prime open_files finish_setup read_network
    extract read_words network_words fft_prime_from_bit_length fill_rm_info
server_starts = refl

client_setup-server_setup_example :
    client_setup some 0 4 (some mpc_config) (some mix_config) (some net_config)
    ≡ some (ready (as_client_config config))
client_setup-server_setup_example =
    client_setup-server_setup some 0 4 mpc_config mix_config net_config 3 [] config refl
      server_starts

server_setup-threshold_example :
    (config.info.l ≡ 1)
    × (4 * config.info.t < config.info.n)
    × (config.info.n ≤ 4 * config.info.t + 4)
    × (length config.ips ≡ config.info.n)
    × (length config.ports ≡ config.info.n)
    × (1 ≤ config.info.server_id
        → config.info.server_id ≤ config.info.n
        → (port : ℕ) × (listening_port config ≡ some port))
unfolding fill_rm_info
server_setup-threshold_example =
    server_setup-threshold some 0 4 (some mpc_config) (some mix_config) (some net_config) config
      server_starts (omega arith)

read_network-network_words_example :
    (length servers ≡ 5
      → read_network 5 0 0 (file_of (network_words servers) true)
        ≡ some (map (λ s. s.0) servers, map (λ s. s.1) servers))
    × (length servers < 5 → read_network 5 0 0 (file_of (network_words servers) true) ≡ none)
    × (suc (length servers) ≡ 5
        → read_network 5 0 0 (file_of (network_words servers ++ (6 ∷ [])) true)
          ≡ some (
            map (λ s. s.0) servers ++ (6 ∷ []),
            map (λ s. s.1) servers ++ (last_port 0 servers ∷ []),
          ))
read_network-network_words_example = read_network-network_words servers 5 0 6 true

-- The test cases of a server with these files.
abbrev cases : List RmInfo
cases = elim (test_cases config.info) [ none ↦ [] | some infos ↦ infos ]

client_sessions-test_cases_example :
    (sessions : List (ℕ × RmInfo)) × (client_sessions (as_client config.info) ≡ some sessions)
    × (get_elem? sessions 61 ≡ Option.map (λ c. (61, as_client c)) (get_elem? cases 61))
unfolding test_cases mixing_cases prime_cases fixed_prime_cases fft_prime_from_bit_length
client_sessions-test_cases_example = client_sessions-test_cases config.info cases 61 refl
