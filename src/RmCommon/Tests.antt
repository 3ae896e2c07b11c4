-- ===== src/RmCommon/Tests.antt =====
-- The parameters and counts of rm_common.hpp at small inputs.
use ab_prototype.Prelude.{refl}
use ab_prototype.RmCommon.{prime_info, fft_prime_from_bit_length}
use ab_prototype.RmCommon.Primes.{IsFftPrime, fft_prime_from_bit_length-IsFftPrime}

fft_prime_from_bit_length-IsFftPrime_example : IsFftPrime 4096 (prime_info 3 251 4097)
unfolding fft_prime_from_bit_length
fft_prime_from_bit_length-IsFftPrime_example =
    fft_prime_from_bit_length-IsFftPrime 4096 (prime_info 3 251 4097) refl
