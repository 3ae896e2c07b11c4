-- ===== src/Message/Tests.antt =====
-- Messages at small parameters: residues modulo 7 in one byte each.
use native.Mathlib.Nat.{pow-suc, pow-zero}
use ab_prototype.Prelude.{
  ℕ, zero, suc, ◌+◌, ◌*◌, ◌/◌, ◌%◌, ◌^◌, ◌<◌, ◌≡◌, refl, ap, some, List, [], ◌∷◌, length, take,
  arith,
}
use ab_prototype.ZzP.Residues.{Residue, residues, of_ℕ, of_ℕ_small}
use ab_prototype.RmCommon.{RmInfo, prime_info, fill_rm_info}
use ab_prototype.Message.{
  Bytes, Message, u16, u32, serialize_from_zz_p, serialize_all, serialize_from_vec_zz_p,
  deserialize_to_vec_zz_p, send_vector, prepare_message,
}
use ab_prototype.Message.RoundTrip.{deserialize-serialize, prepare_message-send_vector}

-- The low n bytes, the lowest first.
abbrev pub low_bytes : ℕ → ℕ → List ℕ
low_bytes a zero = []
low_bytes a (suc n) = a % 256 ∷ low_bytes (a / 256) n

abbrev pub of_bytes : List ℕ → ℕ
of_bytes [] = 0
of_bytes (x ∷ xs) = x + 256 * of_bytes xs

pub length-low_bytes : (a n : ℕ) → length (low_bytes a n) ≡ n
length-low_bytes a zero = refl
length-low_bytes a (suc n) = ap suc (length-low_bytes (a / 256) n)

pub of_bytes-low_bytes : (a n : ℕ) → a < 256 ^ n → of_bytes (low_bytes a n) ≡ a
of_bytes-low_bytes a zero h = let h' : a < 1 = rw (pow-zero 256) at h in omega arith
of_bytes-low_bytes a (suc n) h =
    let h' : a < 256 ^ n * 256 = rw (pow-suc 256 n) at h in
    omega (arith, of_bytes-low_bytes (a / 256) n (omega arith))

pub of_ℕ-rep : (a : Residue 7) → of_ℕ 7 (omega arith) a.0 ≡ a
of_ℕ-rep a = of_ℕ_small 7 (omega arith) a a.0 refl

instance abbrev pub bytes7 : Bytes (Residue 7) 7
bytes7 = record {
  rep = λ a. a.0;
  of_zz = of_ℕ 7 (omega arith);
  num_bytes = λ p. 1;
  bytes_from_zz = low_bytes;
  zz_from_bytes = of_bytes;
  rep-lt = λ a. a.1;
  of_zz-rep = of_ℕ-rep;
  lt-num_bytes = λ a h. omega arith;
  length-bytes_from_zz = length-low_bytes;
  zz_from_bytes-bytes_from_zz = of_bytes-low_bytes;
}

abbrev vec : List (Residue 7)
vec = (1, omega arith) ∷ (2, omega arith) ∷ (5, omega arith) ∷ []

abbrev info : RmInfo
info = fill_rm_info (prime_info 3 101 27) 5 2 1

abbrev sent : Message
sent = send_vector 7 vec info 9 4 1 1 1 0

-- The last element comes first, and the size is that of the body.
sent_body : sent.body ≡ 5 ∷ 2 ∷ 1 ∷ []
unfolding send_vector serialize_from_vec_zz_p serialize_all serialize_from_zz_p fill_rm_info
sent_body = refl

sent_size : sent.header.size ≡ 3
unfolding send_vector serialize_from_vec_zz_p serialize_all serialize_from_zz_p fill_rm_info
sent_size = refl

deserialize-serialize_example :
    (rest : Message) × (deserialize_to_vec_zz_p 7
        (serialize_from_vec_zz_p 7 (record sent { body = [] }) vec)
      ≡ some (take (u16 3) vec, rest))
    × (rest.header.num_zz_p ≡ u16 3)
deserialize-serialize_example = deserialize-serialize 7 (record sent { body = [] }) vec

prepare_message-send_vector_example :
    prepare_message 7 8 sent
    ≡ some (record {
      sid = u32 9;
      mixing_state_id = u16 4;
      sender_id = u32 info.server_id;
      block_idx = u16 1;
      tot_num_blocks = u16 1;
      conn = 8;
      body = vec;
    })
prepare_message-send_vector_example =
    prepare_message-send_vector 7 vec info 9 4 1 1 1 0 8 (omega arith)
