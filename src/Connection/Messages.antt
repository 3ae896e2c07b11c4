-- ===== src/Connection/Messages.antt =====
-- The messages that the programs send over a connection are such as it can deliver: the header of
-- what rm_client.hpp builds has the size of its body.
use native.Mathlib.Nat.{pow-zero}
use ab_prototype.Prelude.{
  ℕ, zero, suc, ◌+◌, ◌*◌, ◌^◌, ◌<◌, ◌≡◌, refl, ap, ◌∙◌, List, [], ◌∷◌, length, length-append, arith,
}
use ab_prototype.RmCommon.{RmInfo}
use ab_prototype.Message.{
  Bytes, Message, serialize_from_zz_p, serialize_all, serialize_from_vec_zz_p, send_vector,
  submit_message,
}
use ab_prototype.Connection.Frames.{IsFramed}

num_bytes-positive :
    {A : Type 0} (prime : ℕ) (b : Bytes A prime) → 1 < prime → 0 < b.num_bytes prime
num_bytes-positive prime b h = by_cases (b.num_bytes prime) refl
  where
    by_cases : (n : ℕ) → b.num_bytes prime ≡ n → 0 < b.num_bytes prime
    by_cases zero e =
        let bound : 1 < 256 ^ 0 = rw e at (b.lt-num_bytes 1 h) in
        let bound' : 1 < 1 = rw (pow-zero 256) at bound in absurd (omega arith)
    by_cases (suc n) e = omega arith

module _ {A : Type 0} (prime : ℕ) ⦃b : Bytes A prime⦄ where
  length-serialize_all :
      (msg : Message) (vec : List A)
      → length (serialize_all prime msg vec).body ≡ length msg.body + length vec * b.num_bytes prime
  unfolding serialize_all serialize_from_zz_p
  length-serialize_all msg [] = omega arith
  length-serialize_all msg (x ∷ xs) =
      let before = (serialize_all prime msg xs).body in
      length-append before (b.bytes_from_zz (b.rep x) (b.num_bytes prime))
      ∙ grind
          (arith, length-serialize_all msg xs, b.length-bytes_from_zz (b.rep x) (b.num_bytes prime))

  serialize_all-IsFramed :
      (msg : Message) (vec : List A)
      → msg.body ≡ []
      → 1 < prime
      → 0 < length vec
      → length vec * b.num_bytes prime < 4294967296
      → IsFramed (serialize_all prime msg vec)
  unfolding serialize_all serialize_from_zz_p
  serialize_all-IsFramed msg [] e h some_elements small = absurd (omega arith)
  serialize_all-IsFramed msg (x ∷ xs) e h some_elements small =
      let size = length-serialize_all msg (x ∷ xs) in
      let empty : length msg.body ≡ 0 = ap length e in
      let some_bytes = num_bytes-positive prime b h in
      let total : suc (length xs) * b.num_bytes prime
          ≡ b.num_bytes prime + length xs * b.num_bytes prime =
        grind arith in
      record {
        size_lem = omega (arith, size, empty, small);
        positive = omega (arith, size, empty, small, total, some_bytes);
      }

  -- A vector that is not empty, and whose elements take less than 2 ^ 32 bytes, makes a message whose
  -- header has the size of its body, whether another server or a client sends it.
  pub send_vector-IsFramed :
      (vec : List A) (info : RmInfo) (sid state block_idx blocks dimension now my_id : ℕ)
      → 1 < prime
      → 0 < length vec
      → length vec * b.num_bytes prime < 4294967296
      → IsFramed (send_vector prime vec info sid state block_idx blocks dimension now)
        × IsFramed (submit_message prime vec sid my_id now)
  unfolding send_vector submit_message serialize_from_vec_zz_p
  send_vector-IsFramed vec info sid state block_idx blocks dimension now my_id h some_elements
        small =
      let sent = serialize_all-IsFramed _ vec refl h some_elements small in
      let submitted = serialize_all-IsFramed _ vec refl h some_elements small in
      (sent, record { size_lem = submitted.size_lem; positive = submitted.positive })
