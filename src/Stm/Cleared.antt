-- ===== src/Stm/Cleared.antt =====
-- A round's record that `execute_rm_stm` of rm_server_stm.hpp has cleared stays cleared: neither a
-- message nor a later round of the loop gives it columns again.
use mathlib.Core.Option
use ab_prototype.Prelude.{
  ℕ, ◌-◌, ◌≡◌, inl, inr, refl, sym, ap, subst, ◌∙◌, Bool, true, false, Option, some, none, List, [],
  length, get_elem?, set?, guard, ◌==◌, if◌then◌else◌, ◌>>=◌, >>=-eq-some, Bool-cases, ==_iff,
  arith,
}
use ab_prototype.ZzP.{ZzP}
use ab_prototype.SecretSharing.{Poly}
use ab_prototype.Roots.Field.{Inverse, PolyRoots}
use ab_prototype.RmCommon.{RmInfo}
use ab_prototype.Message.{DeserializedMessage}
use ab_prototype.Stm.State.{Stm, get2, set2, store_column, column_of}
use ab_prototype.Stm.Handler.{
  Round, round1, round2, round3, round4, round_index, round_table, set_round_table, first_client,
  client_message, server_message, message_handler,
}
use ab_prototype.Stm.Batch.{
  batched_open_expand_send, open_exp_shares_to_all, is_server, expand_shares, open_rows,
}
use ab_prototype.Stm.Execute.{Context, Run}
use ab_prototype.Stm.Tables.{get_elem?-set?, get_elem?-set?_other}

-- A property of the value, if there is no fault.
unfoldable pub IfSome : {B : Type 0} → (B → Type 0) → Option B → Type 0
IfSome {B} Q o = (b : B) → o ≡ some b → Q b

module _ {B : Type 0} (Q : B → Type 0) where
  pub IfSome-some : (b : B) → Q b → IfSome Q (some b)
  unfolding IfSome
  IfSome-some b q b' e = subst Q (Option.some-injective _ _ e) q

  pub IfSome->>= :
      {C : Type 0} (o : Option C) (f : C → Option B)
      → ((c : C) → o ≡ some c → IfSome Q (f c))
      → IfSome Q (o >>= f)
  unfolding IfSome
  IfSome->>= o f h b e = let (c, e1, e2) = >>=-eq-some o f e in h c e1 b e2

  pub IfSome-of :
      {C : Type 0} (o : Option C) (f : C → B)
      → ((c : C) → o ≡ some c → Q (f c))
      → IfSome Q (o >>= λ c. some (f c))
  IfSome-of o f h = IfSome->>= o (λ c. some (f c)) (λ c e. IfSome-some (f c) (h c e))

  pub IfSome-if :
      (t : Bool) (m m' : Option B) → IfSome Q m → IfSome Q m' → IfSome Q (if t then m else m')
  IfSome-if true m m' h h' = h
  IfSome-if false m m' h h' = h'

-- A record of a table of records is empty.
abbrev pub IsCleared : ℕ → List (List Bool) → Type 0
IsCleared k status = get_elem? status k ≡ some []

pub set?-IsCleared :
    (k i : ℕ) (status : List (List Bool))
    → IsCleared k status
    → IfSome (IsCleared k) (set? status i [])
unfolding IfSome
set?-IsCleared k i status h status' e = elim (Bool-cases (k == i)) [
  | inl same ↦ rw ((==_iff k i).0 same) (get_elem?-set? i [] status status' e)
  | inr other ↦
      get_elem?-set?_other i k [] status status' e
        (λ same. let no = sym other ∙ (==_iff k i).1 same in absurd cc)
      ∙ h
]

-- No column of a cleared record can be written.
set2-IsCleared :
    (k i j : ℕ) (v : Bool) (status : List (List Bool))
    → IsCleared k status
    → IfSome (IsCleared k) (set2 status i j v)
unfolding IfSome set2
set2-IsCleared k i j v status h status' e =
    let (row, at, e1) = >>=-eq-some (get_elem? status i) _ e in
    let (row', wrote, e2) = >>=-eq-some (set? row j v) _ e1 in
    elim (Bool-cases (k == i)) [
      | inl same ↦
          let nothing : row ≡ [] =
            Option.some-injective _ _
              (sym at ∙ ap (get_elem? status) (sym ((==_iff k i).0 same)) ∙ h) in
          let no : none ≡ some row' = rw nothing at wrote in absurd cc
      | inr other ↦
          get_elem?-set?_other i k row' status status' e2
            (λ same. let no = sym other ∙ (==_iff k i).1 same in absurd cc)
          ∙ h
    ]

module _ {A P : Type 0} (k : ℕ) where
  -- The record of round k of a machine is cleared.
  abbrev pub Cleared : Stm A P → Type 0
  Cleared s = IsCleared k s.msg_reception_status

  set_round_table-status :
      (i : Round) (table : List (List A)) (s : Stm A P)
      → (set_round_table i table s).msg_reception_status ≡ s.msg_reception_status
  unfolding set_round_table
  set_round_table-status round1 table s = refl
  set_round_table-status round2 table s = refl
  set_round_table-status round3 table s = refl
  set_round_table-status round4 table s = refl

  first_client-Cleared :
      (info : RmInfo) (dm : DeserializedMessage A) (s : Stm A P)
      → Cleared s
      → Cleared (first_client info dm s)
  unfolding first_client
  first_client-Cleared info dm s h = ground (arith, h)

  client_message-Cleared :
      (info : RmInfo) (dm : DeserializedMessage A) (s : Stm A P)
      → Cleared s
      → IfSome Cleared (client_message info dm s)
  unfolding client_message
  client_message-Cleared info dm s h =
      IfSome->>= _ (guard (length (first_client info dm s).client_input == info.N)) _ (λ u e.
        IfSome-of _ (set? (first_client info dm s).client_input dm.sender_id dm.body) _
          (λ inputs e'. first_client-Cleared info dm s h))

  server_message-Cleared :
      (i : Round) (dm : DeserializedMessage A) (s : Stm A P)
      → Cleared s
      → IfSome Cleared (server_message i dm s)
  unfolding server_message IfSome
  server_message-Cleared i dm s h =
      IfSome->>= _ (get2 s.msg_reception_status (round_index i) (column_of dm.sender_id)) _
        (λ noted e. IfSome-if _ noted _ _ (IfSome-some _ s h) (
          IfSome->>= _
            (store_column (round_table i s) dm.body s.num_blocks1 (column_of dm.sender_id)) _
            (λ table e1.
              IfSome-of _
                (set2 s.msg_reception_status (round_index i) (column_of dm.sender_id) true) _
                (set2-IsCleared k (round_index i) (column_of dm.sender_id) true
                  s.msg_reception_status h))))

  pub message_handler-Cleared :
      (info : RmInfo) (dm : DeserializedMessage A) (s : Stm A P)
      → Cleared s
      → IfSome Cleared (message_handler info dm s)
  unfolding message_handler
  message_handler-Cleared info dm s h =
      IfSome-if _ (dm.mixing_state_id == 0) _ _ (client_message-Cleared info dm s h) (
        IfSome-if _ (dm.mixing_state_id == 4) _ _ (server_message-Cleared round1 dm s h) (
          IfSome-if _ (dm.mixing_state_id == 6) _ _ (server_message-Cleared round2 dm s h) (
            IfSome-if _ (dm.mixing_state_id == 11) _ _ (server_message-Cleared round3 dm s h) (
              IfSome-if _ (dm.mixing_state_id == 13) _ _ (server_message-Cleared round4 dm s h)
                (IfSome-some _ s h)))))

module _ {A P : Type 0} ⦃z : ZzP A⦄ ⦃p : Poly A P⦄ ⦃v : Inverse A⦄ ⦃q : PolyRoots A P⦄
    (c : Context A) (k : ℕ) (r : Run A P) (h : Cleared k r.stm) where
  -- A server's own column is noted in the record.
  noted-Cleared :
      (rd : ℕ)
      → IfSome (IsCleared k) (set2 r.stm.msg_reception_status (rd - 1) (c.info.server_id - 1) true)
  noted-Cleared rd =
      set2-IsCleared k (rd - 1) (c.info.server_id - 1) true r.stm.msg_reception_status h

  pub batched_open_expand_send-Cleared :
      (shares : List A) (blocks last rd : ℕ)
      → IfSome
          (λ x. Cleared k (x.0))
          (batched_open_expand_send A P c.info shares blocks last rd r.stm)
  unfolding batched_open_expand_send IfSome
  batched_open_expand_send-Cleared shares blocks last rd =
      IfSome->>= _ (expand_shares A P c.info shares blocks last) _ (λ expanded e. IfSome-of _ _ _ (
        IfSome-if (Cleared k) (is_server A P c.info) _ _
          (IfSome->>= _ (get_elem? expanded (c.info.server_id - 1)) _ (λ mine f.
            IfSome->>= _ (store_column r.stm.rec_exp_shares1 mine blocks (c.info.server_id - 1)) _
              (λ table f1.
                IfSome-of _ (set2 r.stm.msg_reception_status (rd - 1) (c.info.server_id - 1) true) _
                  (noted-Cleared rd))))
          (IfSome-some _ r.stm h)))

  pub open_exp_shares_to_all-Cleared :
      (openings : List (List A)) (blocks rd : ℕ)
      → IfSome
          (λ x. Cleared k (x.0))
          (open_exp_shares_to_all A P c.info c.connected openings blocks rd r.stm)
  unfolding open_exp_shares_to_all IfSome
  open_exp_shares_to_all-Cleared openings blocks rd =
      IfSome->>= _ (open_rows A P c.info r.stm.xvals r.stm.g0 blocks r.stm.rec_exp_shares1) _
        (λ opened e. IfSome-of _ _ _ (
          IfSome-if (λ y. Cleared k (y.0)) (is_server A P c.info) _ _
            (IfSome->>= _ (store_column openings opened blocks (c.info.server_id - 1)) _ (λ table f.
              IfSome-of _ (set2 r.stm.msg_reception_status (rd - 1) (c.info.server_id - 1) true) _
                (noted-Cleared rd)))
            (IfSome-some _ (r.stm, openings) h)))
