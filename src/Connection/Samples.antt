-- ===== src/Connection/Samples.antt =====
-- A connection over which two messages are sent, and the bytes of their headers.
use ab_prototype.Prelude.{ℕ, refl, List, [], ◌∷◌, length, replicate}
use ab_prototype.Message.{MessageHeader, Message}
use ab_prototype.Connection.{HeaderBytes}

-- A number per field, and padding.
abbrev fields_of : MessageHeader → List ℕ
fields_of h =
    h.sid
    ∷ h.sender_id
    ∷ h.mixing_state_id
    ∷ h.block_idx
    ∷ h.tot_num_blocks
    ∷ h.dimension
    ∷ h.num_zz_p
    ∷ h.size
    ∷ h.time
    ∷ replicate 23 0

abbrev header_of : ℕ → ℕ → ℕ → ℕ → ℕ → ℕ → ℕ → ℕ → ℕ → MessageHeader
header_of a b c d e f g h i = record {
  sid = a;
  sender_id = b;
  mixing_state_id = c;
  block_idx = d;
  tot_num_blocks = e;
  dimension = f;
  num_zz_p = g;
  size = h;
  time = i;
}

abbrev of_fields : List ℕ → MessageHeader
of_fields (a ∷ b ∷ c ∷ d ∷ e ∷ f ∷ g ∷ h ∷ i ∷ rest) = header_of a b c d e f g h i
of_fields bytes = header_of 0 0 0 0 0 0 0 0 0

instance abbrev pub plain : HeaderBytes
plain = record {
  encode = fields_of;
  decode = of_fields;
  length-encode = λ h. refl;
  decode-encode = λ h. refl;
}

abbrev pub message_with : List ℕ → Message
message_with body = record { header = header_of 1 2 4 1 1 1 1 (length body) 0; body = body }

abbrev pub first : Message
first = message_with (7 ∷ 8 ∷ [])

abbrev pub second : Message
second = message_with (9 ∷ [])

abbrev pub empty : Message
empty = message_with []
