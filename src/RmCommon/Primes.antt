-- ===== src/RmCommon/Primes.antt =====
-- What the table of FFT primes promises. With the Euler criterion below, 2 ^ two_exponent divides
-- the order of zeta modulo the prime.
use ab_prototype.Prelude.{
  ℕ, ◌+◌, ◌-◌, ◌*◌, ◌%◌, ◌^◌, ◌<◌, ◌≡◌, refl, ap, sym, ◌∙◌, Bool, true, ◌&&◌, Option, some, none,
  ◌==◌, List, [], ◌∷◌, ◌⊎◌, false, ==_iff, ltb, ltb→lt, if◌then◌else◌, Bool-cases, inl, inr, arith,
}
use ab_prototype.RmCommon.Squares.{square_times, square_times-pow, square_times-add}
use ab_prototype.RmCommon.{PrimeInfo, prime_info, fft_prime_from_bit_length}

-- What a selection of `bits` promises of its entry.
pub record IsFftPrime (bits : ℕ) (info : PrimeInfo) : Type 0 where
  pub form : info.prime ≡ info.odd_factor * 2 ^ info.two_exponent + 1
  pub odd : info.odd_factor % 2 ≡ 1
  pub factor_small : info.odd_factor < 2 ^ info.two_exponent
  pub euler :
      (info.zeta ^ info.odd_factor) ^ (2 ^ (info.two_exponent - 1)) % info.prime ≡ info.prime - 1
  pub longer : 2 ^ bits < info.prime

-- The same by evaluation.
check_entry : ℕ → PrimeInfo → Bool
check_entry bits info =
    (info.prime == info.odd_factor * 2 ^ info.two_exponent + 1)
    && ((info.odd_factor % 2 == 1)
        && (ltb info.odd_factor (2 ^ info.two_exponent)
            && ((square_times (info.two_exponent - 1) (info.zeta ^ info.odd_factor) info.prime
                  == info.prime - 1)
                && ltb (2 ^ bits) info.prime)))

and_left : (a b : Bool) → (a && b) ≡ true → a ≡ true
and_left a b h = ground arith

and_right : (a b : Bool) → (a && b) ≡ true → b ≡ true
and_right a b h = ground arith

check_entry_sound :
    (bits : ℕ) (info : PrimeInfo) → check_entry bits info ≡ true → IsFftPrime bits info
unfolding check_entry
check_entry_sound bits info h =
    let h1 = and_right _ _ h in
    let h2 = and_right _ _ h1 in
    let h3 = and_right _ _ h2 in
    record {
      form = (==_iff _ _).0 (and_left _ _ h);
      odd = (==_iff _ _).0 (and_left _ _ h1);
      factor_small = ltb→lt _ _ (and_left _ _ h2);
      euler =
          sym (square_times-pow (info.two_exponent - 1) (info.zeta ^ info.odd_factor) info.prime)
          ∙ (==_iff _ _).0 (and_left _ _ h3);
      longer = ltb→lt _ _ (and_right _ _ h3);
    }

-- One branch of the table.
entry :
    (bits zeta odd_factor two_exponent : ℕ) (rest : Option PrimeInfo) (sel : ℕ) (info : PrimeInfo)
    → check_entry bits (prime_info zeta odd_factor two_exponent) ≡ true
    → (rest ≡ some info → IsFftPrime sel info)
    → (if sel == bits then some (prime_info zeta odd_factor two_exponent) else rest) ≡ some info
    → IsFftPrime sel info
entry bits zeta odd_factor two_exponent rest sel info ok next h = elim (Bool-cases (sel == bits)) [
  | inl here ↦
      let same : prime_info zeta odd_factor two_exponent ≡ info = cc (rw here at h) in
      rw ((==_iff sel bits).0 here, ← same)
        (check_entry_sound bits (prime_info zeta odd_factor two_exponent) ok)
  | inr later ↦ next (rw later at h)
]

-- The entries, one by one.
entry_32 : check_entry 32 (prime_info 3 101 27) ≡ true
unfolding check_entry square_times
entry_32 = refl

entry_40 : check_entry 40 (prime_info 3 125 35) ≡ true
unfolding check_entry square_times
entry_40 = refl

entry_64 : check_entry 64 (prime_info 7 129 59) ≡ true
unfolding check_entry square_times
entry_64 = refl

entry_128 : check_entry 128 (prime_info 3 101 123) ≡ true
unfolding check_entry square_times
entry_128 = refl

entry_256 : check_entry 256 (prime_info 7 507 251) ≡ true
unfolding check_entry square_times
entry_256 = refl

entry_384 : check_entry 384 (prime_info 10 159 379) ≡ true
unfolding check_entry square_times
entry_384 = refl

entry_512 : check_entry 512 (prime_info 10 267 508) ≡ true
unfolding check_entry square_times
entry_512 = refl

entry_640 : check_entry 640 (prime_info 3 275 635) ≡ true
unfolding check_entry square_times
entry_640 = refl

entry_768 : check_entry 768 (prime_info 3 635 763) ≡ true
unfolding check_entry square_times
entry_768 = refl

entry_896 : check_entry 896 (prime_info 3 223 892) ≡ true
unfolding check_entry square_times
entry_896 = refl

entry_1024 : check_entry 1024 (prime_info 3 755 1019) ≡ true
unfolding check_entry square_times
entry_1024 = refl

entry_1152 : check_entry 1152 (prime_info 3 149 1147) ≡ true
unfolding check_entry square_times
entry_1152 = refl

entry_1280 : check_entry 1280 (prime_info 5 339 1275) ≡ true
unfolding check_entry square_times
entry_1280 = refl

entry_1408 : check_entry 1408 (prime_info 3 539 1403) ≡ true
unfolding check_entry square_times
entry_1408 = refl

entry_1536 : check_entry 1536 (prime_info 7 471 1531) ≡ true
unfolding check_entry square_times
entry_1536 = refl

entry_1664 : check_entry 1664 (prime_info 3 865 1662) ≡ true
unfolding check_entry square_times
entry_1664 = refl

entry_1792 : check_entry 1792 (prime_info 23 321 1787) ≡ true
unfolding check_entry square_times
entry_1792 = refl

entry_1920 : check_entry 1920 (prime_info 5 203 1917) ≡ true
unfolding check_entry square_times
entry_1920 = refl

entry_2048 : check_entry 2048 (prime_info 3 203 2045) ≡ true
unfolding check_entry square_times
entry_2048 = refl

entry_3072 : check_entry 3072 (prime_info 7 675 3068) ≡ true
unfolding check_entry square_times
entry_3072 = refl

-- The last entry takes two halves: the power of zeta after 2048 squarings, in digits of base 10 ^ 85,
-- and 2048 squarings of it.
digits : List ℕ → ℕ → ℕ
digits [] n = n
digits (x ∷ xs) n = digits xs (n * 10 ^ 85 + x)

abbrev halfway_digits : List ℕ
halfway_digits =
    3885773602187246283343924457079510774203416595
    ∷ 4913314976638140257460203594881001993239636910110981109594092959497155938234810809213
    ∷ 850967275132957779920419098712483733689021703015267351708018838645644971015146883018
    ∷ 1037141955166156265824508045185018689947137835244096410889794420482993507511009413757
    ∷ 6558711848648963701529420054971008565784238567847124622360211859998243886397282065799
    ∷ 4307221109992058618237373176464418690012975556150667286654130337372454434704918391877
    ∷ 6904644677889387952075646138943500238326807912957278630519649316637777295626464922368
    ∷ 8565182915796870267360327302314875351747515698061790392305209598380173932480615565647
    ∷ 4201765521422016557263823451583871848211528416600903121788582951812818201890702167185
    ∷ 2939691793733650387281360718900399161174113526000422288438233992542415309112910829774
    ∷ 1928782045338909883320296026194736090796259822443487207970693019866116415739294398828
    ∷ 8647211649578009373874098670960259627827479879570589714284119190665192589772844275451
    ∷ 7140412165241864998307807723515668221226145832148128939931235974116557068941082451843
    ∷ 6947840944584231723317218088822003237751650472945450521382233754302656024527627195001
    ∷ 1527226842504109144588978036719678341852983263273136914450762146982971303659805959290 ∷ []

prime_4096 : ℕ
prime_4096 = 251 * 2 ^ 4097 + 1

-- From zeta ^ odd_factor to the middle, and from there to -1.
to_halfway : (square_times 2048 (3 ^ 251) prime_4096 == digits halfway_digits 0) ≡ true
unfolding square_times digits prime_4096
to_halfway = refl

from_halfway : (square_times 2048 (digits halfway_digits 0) prime_4096 == prime_4096 - 1) ≡ true
unfolding square_times digits prime_4096
from_halfway = refl

euler_4096 : square_times 4096 (3 ^ 251) prime_4096 ≡ prime_4096 - 1
euler_4096 =
    square_times-add 2048 2048 (3 ^ 251) prime_4096
    ∙ ap (λ (x : ℕ). square_times 2048 x prime_4096) ((==_iff _ _).0 to_halfway)
    ∙ (==_iff _ _).0 from_halfway

is_entry_4096 : IsFftPrime 4096 (prime_info 3 251 4097)
unfolding prime_4096
is_entry_4096 = record {
  form = refl;
  odd = refl;
  factor_small = ltb→lt _ _ refl;
  euler = sym (square_times-pow 4096 (3 ^ 251) prime_4096) ∙ euler_4096;
  longer = ltb→lt _ _ refl;
}

-- Every selection of the table gives a number odd_factor * 2 ^ two_exponent + 1, the factor odd and
-- smaller than the power, for which zeta ^ ((prime - 1) / 2) is -1. (By Proth's theorem such a
-- number is prime.) It exceeds 2 ^ sel, so it has more bits than the selection says.
pub fft_prime_from_bit_length-IsFftPrime :
    (sel : ℕ) (info : PrimeInfo) → fft_prime_from_bit_length sel ≡ some info → IsFftPrime sel info
unfolding fft_prime_from_bit_length
fft_prime_from_bit_length-IsFftPrime sel info = entry 32 3 101 27 _ sel info entry_32 (
    entry 40 3 125 35 _ sel info entry_40 (
      entry 64 7 129 59 _ sel info entry_64 (
        entry 128 3 101 123 _ sel info entry_128 (
          entry 256 7 507 251 _ sel info entry_256 (
            entry 384 10 159 379 _ sel info entry_384 (
              entry 512 10 267 508 _ sel info entry_512 (
                entry 640 3 275 635 _ sel info entry_640 (
                  entry 768 3 635 763 _ sel info entry_768 (
                    entry 896 3 223 892 _ sel info entry_896 (
                      entry 1024 3 755 1019 _ sel info entry_1024 (
                        entry 1152 3 149 1147 _ sel info entry_1152 (
                          entry 1280 5 339 1275 _ sel info entry_1280 (
                            entry 1408 3 539 1403 _ sel info entry_1408 (
                              entry 1536 7 471 1531 _ sel info entry_1536 (
                                entry 1664 3 865 1662 _ sel info entry_1664 (
                                  entry 1792 23 321 1787 _ sel info entry_1792 (
                                    entry 1920 5 203 1917 _ sel info entry_1920 (
                                      entry 2048 3 203 2045 _ sel info entry_2048 (
                                        entry 3072 7 675 3068 _ sel info entry_3072 (λ h.
                                          last (Bool-cases (sel == 4096)) h))))))))))))))))))))
  where
    last :
        ((sel == 4096) ≡ true) ⊎ ((sel == 4096) ≡ false)
        → (if sel == 4096 then some (prime_info 3 251 4097) else none) ≡ some info
        → IsFftPrime sel info
    last (inl here) h =
        let same : prime_info 3 251 4097 ≡ info = cc (rw here at h) in
        rw ((==_iff sel 4096).0 here, ← same) is_entry_4096
    last (inr later) h = cc (rw later at h)
