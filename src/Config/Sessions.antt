-- ===== src/Config/Sessions.antt =====
-- The test cases of the two mains: the sessions of the client program are the cases of the servers.
use mathlib.Core.Option
use ab_prototype.Prelude.{
  ℕ, zero, suc, ◌+◌, ◌≡◌, refl, sym, ap, ◌∙◌, Option, none, some, List, [], ◌∷◌, ◌++◌, map,
  map-append, get_elem?, get_elem?-map_lem, bind-map_of, ◌>>=◌, >>=_run, arith,
}
use ab_prototype.RmCommon.{RmInfo, PrimeInfo, fft_prime_from_bit_length}
use ab_prototype.Server.{
  test_cases, mixing_cases, prime_cases, fixed_prime_cases, with_mixing_parameter, prime_length,
  l_value, l_value2, test_plen,
}
use ab_prototype.Config.{
  number_cases, client_sessions, client_prime_cases, client_mixing_cases, client_fixed_prime_cases,
  client_test_cases,
}
use ab_prototype.Config.Agreement.{as_client}

-- A list of cases put in front of others, as the same for the client program.
cons-as_client :
    (info : RmInfo) (m m' : Option (List RmInfo))
    → m' ≡ Option.map (map as_client) m
    → (m' >>= λ others. some (as_client info ∷ others))
      ≡ Option.map (map as_client) (m >>= λ others. some (info ∷ others))
cons-as_client info m m' e =
    bind-map_of (map as_client) (map as_client) m m' (λ others. some (info ∷ others))
      (λ others. some (as_client info ∷ others)) e (λ others. refl)

client_prime_cases-as_client :
    (L : ℕ) (bits : List ℕ) (info : RmInfo)
    → client_prime_cases L bits (as_client info)
      ≡ Option.map (map as_client) (prime_cases L bits info)
unfolding prime_cases client_prime_cases with_mixing_parameter
client_prime_cases-as_client L [] info = refl
client_prime_cases-as_client L (b ∷ bits) info =
    by_prime (fft_prime_from_bit_length b) (λ i. client_prime_cases-as_client L bits i)
  where
    next : PrimeInfo → RmInfo → RmInfo
    next pi i = with_mixing_parameter L (record i { fft_prime_info = pi })

    by_prime :
        (found : Option PrimeInfo)
        → ((i : RmInfo)
            → client_prime_cases L bits (as_client i)
              ≡ Option.map (map as_client) (prime_cases L bits i))
        → (found >>= λ pi. prime_cases L bits (next pi (as_client info)) >>= λ others.
            some (next pi (as_client info) ∷ others))
          ≡ Option.map (map as_client) (
              found >>= λ pi.
              prime_cases L bits (next pi info) >>= λ others. some (next pi info ∷ others))
    by_prime none rest = refl
    by_prime (some pi) rest =
        cons-as_client (next pi info) (prime_cases L bits (next pi info)) _ (rest (next pi info))

client_mixing_cases-as_client :
    (ls : List ℕ) (info : RmInfo)
    → client_mixing_cases ls (as_client info) ≡ Option.map (map as_client) (mixing_cases ls info)
unfolding mixing_cases client_mixing_cases
client_mixing_cases-as_client [] info = refl
client_mixing_cases-as_client (L ∷ ls) info =
    bind-map_of (map as_client) (map as_client) (prime_cases L prime_length info) _ _ _
      (client_prime_cases-as_client L prime_length info)
      (λ cases.
        bind-map_of (map as_client) (map as_client) (mixing_cases ls info) _ _ _
          (client_mixing_cases-as_client ls info)
          (λ others. ap some (sym (map-append as_client cases others))))

client_fixed_prime_cases-as_client :
    (ls : List ℕ) (info : RmInfo)
    → client_fixed_prime_cases ls (as_client info) ≡ map as_client (fixed_prime_cases ls info)
unfolding fixed_prime_cases client_fixed_prime_cases with_mixing_parameter
client_fixed_prime_cases-as_client [] info = refl
client_fixed_prime_cases-as_client (L ∷ ls) info =
    ap (◌∷◌ (with_mixing_parameter L (as_client info))) (client_fixed_prime_cases-as_client ls info)

client_test_cases-as_client :
    (info : RmInfo)
    → client_test_cases (as_client info) ≡ Option.map (map as_client) (test_cases info)
unfolding test_cases client_test_cases
client_test_cases-as_client info =
    bind-map_of (map as_client) (map as_client) (mixing_cases l_value info) _ _ _
      (client_mixing_cases-as_client l_value info)
      (λ cases. by_prime cases (fft_prime_from_bit_length test_plen))
  where
    fixed : PrimeInfo → RmInfo → List RmInfo
    fixed pi i = fixed_prime_cases l_value2 (record i { fft_prime_info = pi })

    client_fixed : PrimeInfo → RmInfo → List RmInfo
    client_fixed pi i = client_fixed_prime_cases l_value2 (record i { fft_prime_info = pi })

    by_prime :
        (cases : List RmInfo) (found : Option PrimeInfo)
        → (found >>= λ pi. some (map as_client cases ++ client_fixed pi (as_client info)))
          ≡ Option.map (map as_client) (found >>= λ pi. some (cases ++ fixed pi info))
    by_prime cases none = refl
    by_prime cases (some pi) =
        ap (λ l. some (map as_client cases ++ l))
          (client_fixed_prime_cases-as_client l_value2 (record info { fft_prime_info = pi }))
        ∙ ap some (sym (map-append as_client cases (fixed pi info)))

get_elem?-number_cases :
    (infos : List RmInfo) (k i : ℕ)
    → get_elem? (number_cases k infos) i ≡ Option.map (λ info. (k + i, info)) (get_elem? infos i)
unfolding number_cases
get_elem?-number_cases [] k i = refl
get_elem?-number_cases (info ∷ infos) k zero =
    let e : k ≡ k + zero = omega arith in ap (λ j. some (j, info)) e
get_elem?-number_cases (info ∷ infos) k (suc i) =
    let e : suc k + i ≡ k + suc i = omega arith in
    get_elem?-number_cases infos (suc k) i
    ∙ ap (λ j. Option.map (λ info'. (j, info')) (get_elem? infos i)) e

-- The sessions that the client program makes with its own loops are the test cases of a server: the
-- session with the identifier i has the parameters of the server's case number i, but for the
-- identifier of the server.
pub client_sessions-test_cases :
    (info : RmInfo) (infos : List RmInfo) (i : ℕ)
    → test_cases info ≡ some infos
    → (sessions : List (ℕ × RmInfo)) × (client_sessions (as_client info) ≡ some sessions)
      × (get_elem? sessions i ≡ Option.map (λ c. (i, as_client c)) (get_elem? infos i))
unfolding client_sessions
client_sessions-test_cases info infos i e =
    let run : client_test_cases (as_client info) ≡ some (map as_client infos) =
      client_test_cases-as_client info ∙ ap (Option.map (map as_client)) e in
    (
      number_cases 0 (map as_client infos),
      >>=_run _ run,
      get_elem?-number_cases (map as_client infos) 0 i
          ∙ ap (Option.map {B = ℕ × RmInfo} (λ c. (0 + i, c))) (get_elem?-map_lem as_client infos i)
          ∙ numbered (get_elem? infos i),
    )
  where
    numbered :
        (found : Option RmInfo)
        → Option.map {B = ℕ × RmInfo} (λ c. (0 + i, c)) (Option.map as_client found)
          ≡ Option.map (λ c. (i, as_client c)) found
    numbered none = refl
    numbered (some c) = let e' : 0 + i ≡ i = omega arith in ap (λ j. some (j, as_client c)) e'
