-- ===== src/RmCommon.antt =====
-- rm_common.hpp: the parameters of a session, the table of FFT primes, and the counts on the
-- vectors of Booleans by which the servers record which messages have come. `fill_rm_info` is the
-- part of the two mains (rm_server_main.cpp, rm_client_main.cpp) that derives the parameters.
pub mod Primes
pub mod Squares
pub mod Counts
pub mod Tests
use ab_prototype.Prelude.{
  ℕ, ◌+◌, ◌-◌, ◌*◌, ◌/◌, ◌%◌, ◌^◌, Bool, true, not, ◌&&◌, Option, none, some, List, [], ◌∷◌, ◌==◌,
  if◌then◌else◌,
}

pub record PrimeInfo : Type 0 where
  pub prime : ℕ
  pub zeta : ℕ
  pub odd_factor : ℕ
  pub two_exponent : ℕ

pub record RmInfo : Type 0 where
  pub fft_prime_info : PrimeInfo
  pub n : ℕ  -- the number of servers
  pub t : ℕ  -- the most corrupted servers
  pub server_id : ℕ  -- from 1; 0 is a client
  pub l : ℕ  -- the share-packing block size
  pub N : ℕ  -- the number of clients
  pub L : ℕ  -- the mixing parameter

-- The end of `fft_prime_from_bit_length`: prime = odd_factor; prime <<= two_exponent; prime += 1.
abbrev pub prime_info : ℕ → ℕ → ℕ → PrimeInfo
prime_info zeta odd_factor two_exponent = record {
  prime = odd_factor * 2 ^ two_exponent + 1;
  zeta = zeta;
  odd_factor = odd_factor;
  two_exponent = two_exponent;
}

-- `none` is the result `false`, which leaves the output as it was.
unfoldable pub fft_prime_from_bit_length : ℕ → Option PrimeInfo
fft_prime_from_bit_length prime_selection =
    if prime_selection == 32
    then some (prime_info 3 101 27)
    else if prime_selection == 40
    then some (prime_info 3 125 35)
    else if prime_selection == 64
    then some (prime_info 7 129 59)
    else if prime_selection == 128
    then some (prime_info 3 101 123)
    else if prime_selection == 256
    then some (prime_info 7 507 251)
    else if prime_selection == 384
    then some (prime_info 10 159 379)
    else if prime_selection == 512
    then some (prime_info 10 267 508)
    else if prime_selection == 640
    then some (prime_info 3 275 635)
    else if prime_selection == 768
    then some (prime_info 3 635 763)
    else if prime_selection == 896
    then some (prime_info 3 223 892)
    else if prime_selection == 1024
    then some (prime_info 3 755 1019)
    else if prime_selection == 1152
    then some (prime_info 3 149 1147)
    else if prime_selection == 1280
    then some (prime_info 5 339 1275)
    else if prime_selection == 1408
    then some (prime_info 3 539 1403)
    else if prime_selection == 1536
    then some (prime_info 7 471 1531)
    else if prime_selection == 1664
    then some (prime_info 3 865 1662)
    else if prime_selection == 1792
    then some (prime_info 23 321 1787)
    else if prime_selection == 1920
    then some (prime_info 5 203 1917)
    else if prime_selection == 2048
    then some (prime_info 3 203 2045)
    else if prime_selection == 3072
    then some (prime_info 7 675 3068)
    else if prime_selection == 4096
    then some (prime_info 3 251 4097)
    else none

-- The number of servers gives the most corrupted ones, and L the number of clients.
-- A `size_t` has 64 bits here, so that 0 - 1 is the largest one.
unfoldable pub fill_rm_info : PrimeInfo → ℕ → ℕ → ℕ → RmInfo
fill_rm_info fft_prime_info n server_id L = record {
  fft_prime_info = fft_prime_info;
  n = n;
  t = if not (n % 4 == 0) then n / 4 else (if n == 0 then 2 ^ 64 - 1 else n - 1) / 4;
  server_id = server_id;
  l = 1;
  N = 14 * (L * L) + 10 * L - 1;
  L = L;
}

-- The number of true values: a loop with the counter as accumulator.
unfoldable pub count_truths : List Bool → ℕ → ℕ
count_truths [] cnt = cnt
count_truths (b ∷ vec) cnt = count_truths vec (if b then cnt + 1 else cnt)

unfoldable pub number_of_truths : List Bool → ℕ
unfolding count_truths
number_of_truths vec = count_truths vec 0

unfoldable pub all_true_from : List Bool → Bool → Bool
all_true_from [] res = res
all_true_from (b ∷ vec) res = all_true_from vec (res && b)

-- Whether all values are true; of no values, true.
unfoldable pub is_all_true : List Bool → Bool
unfolding all_true_from
is_all_true vec = all_true_from vec true
