-- ===== src/Client/Tests.antt =====
-- The client program of rm_client_main.cpp for one message and five servers, modulo 7.
use ab_prototype.Prelude.{
  ℕ, ◌+◌, ◌*◌, ◌≡◌, refl, Bool, true, false, Option, none, some, List, [], ◌∷◌, length, get_elem?,
  inl, inr, arith,
}
use ab_prototype.ZzP.Residues.{Residue, of_ℕ}
use ab_prototype.RmCommon.{RmInfo, prime_info, fill_rm_info, is_all_true}
use ab_prototype.Additive2Basis.{add2basis_encode, progression}
use ab_prototype.SecretSharing.{packed_share_secret, set_coeffs, gen_xvals}
use ab_prototype.SecretSharing.Samples.{mod7, Coeffs, poly7}
use ab_prototype.Message.{
  Message, DeserializedMessage, u32, prepare_message, submit_message, serialize_from_vec_zz_p,
  serialize_all, serialize_from_zz_p,
}
use ab_prototype.Message.Tests.{bytes7}
use ab_prototype.Queue.{AsyncQueue, is_empty, pop_front}
use ab_prototype.Client.{
  append_shares, share_elements, share_message, submissions, submit_messages, note_completion,
  poll_clients, wait_for_completion,
}
use ab_prototype.Client.Waiting.{wait_for_completion-AllAwaited}
use ab_prototype.Client.Delivery.{prepare_message-submit_messages}

-- Five servers; with t = 2 the polynomials have the degree 2.
abbrev info : RmInfo
info = record (fill_rm_info (prime_info 3 3 1) 5 0 1) { t = 2; n = 5; L = 1 }

abbrev random : ℕ → ℕ → ℕ → Residue 7
random i j position = of_ℕ 7 (omega arith) (i + j + position)

abbrev three : Residue 7
three = of_ℕ 7 (omega arith) 3

abbrev sent : List (List Message)
sent = elim (submit_messages (Residue 7) Coeffs 7 info random 4 0 (three ∷ []) 0) [
  | none ↦ []
  | some all ↦ all
]

abbrev to_servers : List Message
to_servers = elim (get_elem? sent 0) [ none ↦ [] | some messages ↦ messages ]

sent_count : length to_servers ≡ 5
unfolding submit_messages share_message share_elements append_shares submissions add2basis_encode
    progression packed_share_secret set_coeffs gen_xvals
sent_count = refl

abbrev no_elements : List (Residue 7)
no_elements = []

abbrev to_second : Message
to_second = elim (get_elem? to_servers 1) [
  | none ↦ submit_message 7 no_elements 0 0 0
  | some message ↦ message
]

prepare_message-submit_messages_example :
    (dm : DeserializedMessage (Residue 7)) × (shares : List (Residue 7)) × (prepare_message 7 10000
        to_second
      ≡ some dm)
    × (dm.sid ≡ u32 4)
    × (dm.sender_id ≡ u32 0)
    × (dm.mixing_state_id ≡ 0)
    × (length dm.body ≡ 7 * 1 + 5)
    × (packed_share_secret (Residue 7) Coeffs (gen_xvals 5) (mod7.power three 2 ∷ []) 2 (random 0 1)
        ≡ some shares)
    × (get_elem? dm.body 1 ≡ get_elem? shares 1)
unfolding submit_messages share_message share_elements append_shares submissions add2basis_encode
    progression packed_share_secret set_coeffs gen_xvals fill_rm_info
prepare_message-submit_messages_example =
    prepare_message-submit_messages (Residue 7) Coeffs 7 info random 4 0 (three ∷ []) sent 0 three
      to_servers 1 to_second 10000 1 (mod7.power three 2) refl refl refl refl (omega arith) refl

-- The second of two servers completes the session; a message of another session is taken too.
abbrev completion : ℕ → Message
completion sid = record (submit_message 7 no_elements sid 2 0) {
  header = record ((submit_message 7 no_elements sid 2 0).header) { mixing_state_id = 15 };
}

abbrev status_after : Option (List (AsyncQueue Message) × List Bool) → List Bool
status_after none = []
status_after (some (queues, status)) = status

completion_test :
    status_after (
      poll_clients 4
        (λ i. true)
        (record { deq_queue = completion 3 ∷ [] } ∷ record { deq_queue = completion 4 ∷ [] } ∷ [])
        0
        (false ∷ false ∷ []))
    ≡ false ∷ true ∷ []
unfolding poll_clients note_completion is_empty pop_front submit_message serialize_from_vec_zz_p
    serialize_all serialize_from_zz_p
completion_test = refl

-- The first of two servers is to complete the session, the second has.
wait_for_completion-AllAwaited_example :
    (queues : List (AsyncQueue Message)) × (status : List Bool) × (wait_for_completion 4
        (λ i. true)
        (((completion 3 ∷ []) ∷ []) ∷ [] ∷ [])
        (record { deq_queue = completion 3 ∷ completion 4 ∷ [] } ∷ record { deq_queue = [] } ∷ [])
        (false ∷ true ∷ [])
      ≡ some (true, queues, status))
    × (is_all_true status ≡ true)
unfolding submit_message serialize_from_vec_zz_p serialize_all serialize_from_zz_p
wait_for_completion-AllAwaited_example =
    wait_for_completion-AllAwaited 4 (λ i. true) (λ i. refl) 2
      (((completion 3 ∷ []) ∷ []) ∷ [] ∷ [])
      (record { deq_queue = completion 3 ∷ completion 4 ∷ [] } ∷ record { deq_queue = [] } ∷ [])
      (false ∷ true ∷ []) refl (inr (inr (inl refl)), (inl refl, tt))
