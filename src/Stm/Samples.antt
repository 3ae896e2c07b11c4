-- ===== src/Stm/Samples.antt =====
-- The machine at small parameters: the residues modulo 7 and their polynomials, with 5 servers of
-- which one may be corrupted, and 23 clients.
use ab_prototype.Prelude.{ℕ, true, false, some, none, List, [], ◌∷◌, replicate, arith}
use ab_prototype.ZzP.Residues.{Residue, residues, of_ℕ}
use ab_prototype.RmCommon.{RmInfo, prime_info, fill_rm_info}
use ab_prototype.Message.{DeserializedMessage}
use ab_prototype.Stm.State.{MixState, Stm, rm_mixing_stm}
use ab_prototype.Stm.Handler.{message_handler}
use ab_prototype.Stm.Execute.{Context, Run, go_on, stop, step}
use ab_prototype.SecretSharing.Samples.{mod7, Coeffs, poly7}
use ab_prototype.Roots.Samples.{inverse7, roots7}

abbrev pub info7 : RmInfo
info7 = fill_rm_info (prime_info 3 3 1) 5 1 1

abbrev pub context : Context (Residue 7)
context = record {
  info = info7;
  connected = λ i. true;
  client_connected = λ i. true;
  next_coin = λ seed. seed;
  taus = mod7.one ∷ [];
}

-- A vector of a value per block, and a message of a server that holds it.
abbrev pub values : ℕ → List (Residue 7)
values k = replicate 23 (of_ℕ 7 (omega arith) k)

abbrev pub message_of : ℕ → ℕ → ℕ → DeserializedMessage (Residue 7)
message_of state sender k = record {
  sid = 1;
  mixing_state_id = state;
  sender_id = sender;
  block_idx = 1;
  tot_num_blocks = 1;
  conn = sender;
  body = values k;
}

abbrev pub start : Stm (Residue 7) Coeffs
start = rm_mixing_stm info7 1

abbrev pub run_at : MixState → Run (Residue 7) Coeffs
run_at state = record {
  stm = record start { stm_state = state };
  corr_clients = replicate 23 false;
  sent = [];
}

-- The state after a message, if it is handled.
abbrev pub handled :
    DeserializedMessage (Residue 7) → Stm (Residue 7) Coeffs → Stm (Residue 7) Coeffs
handled dm s = elim (message_handler info7 dm s) [ none ↦ s | some s' ↦ s' ]

-- The run after a round of the loop that goes on.
abbrev pub gone_on : Run (Residue 7) Coeffs → Run (Residue 7) Coeffs
gone_on r = elim (step context r) [
  | none ↦ r
  | some next ↦ elim next [ go_on r' ↦ r' | stop r' ↦ r' ]
]
