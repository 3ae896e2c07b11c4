-- ===== src/Server/Independent.antt =====
-- The sessions of rm_server_main.cpp are independent: a message changes only the session that it is
-- for.
use ab_prototype.Prelude.{
  ℕ, ◌≡◌, ◌≢◌, refl, sym, ap, ◌∙◌, Bool, Option, none, some, ◌==◌, Bool-cases, inl, inr,
}
use ab_prototype.ZzP.{ZzP}
use ab_prototype.Message.{DeserializedMessage}
use ab_prototype.SecretSharing.{Poly}
use ab_prototype.Roots.Field.{Inverse, PolyRoots}
use ab_prototype.Stm.State.{Stm, state_id}
use ab_prototype.Stm.Handler.{message_handler}
use ab_prototype.Stm.Execute.{Context, Run, execute_rm_stm}
use ab_prototype.Server.Sessions.{find, find-put_other, find-erase_other}
use ab_prototype.Server.{Server, session, settle, handle_message}

module _ {A P : Type 0} ⦃z : ZzP A⦄ ⦃p : Poly A P⦄ ⦃v : Inverse A⦄ ⦃q : PolyRoots A P⦄
    (c : Context A) where
  find-settle :
      (k sid : ℕ) (s : Server A P) (r : Run A P)
      → sid ≢ k
      → find sid (settle c k s r).1.stms ≡ find sid s.stms
  unfolding settle
  find-settle k sid s r other = elim (Bool-cases (state_id r.stm.stm_state == 15)) [
    | inl e ↦ rw (settle, e) (find-erase_other k sid s.stms other)
    | inr e ↦ rw (settle, e) (find-put_other k sid r.stm s.stms other)
  ]

  -- What was handled was settled.
  ended-settle :
      (dm : DeserializedMessage A) (s : Server A P) (next : Bool × Server A P) (stm : Stm A P)
      (ended : Option (Option (Run A P)))
      → message_handler c.info dm (session c dm.sid s.stms) ≡ some stm
      → execute_rm_stm c 6 (record { stm = stm; corr_clients = s.corrupted_clients; sent = s.sent })
        ≡ ended
      → handle_message c dm s ≡ some (some next)
      → (r : Run A P) × (settle c dm.sid s r ≡ next)
  unfolding handle_message
  ended-settle dm s next stm none e run h =
      let h' : ◌≡◌ {A = Option (Option (Bool × Server A P))} none (some (some next)) =
        rw (handle_message, e, run) at h in
      cc
  ended-settle dm s next stm (some none) e run h =
      let h' : ◌≡◌ {A = Option (Option (Bool × Server A P))} (some none) (some (some next)) =
        rw (handle_message, e, run) at h in
      cc
  ended-settle dm s next stm (some (some r)) e run h =
      let h' : some (some (settle c dm.sid s r)) ≡ some (some next) =
        rw (handle_message, e, run) at h in
      (r, cc)

  handled-settle :
      (dm : DeserializedMessage A) (s : Server A P) (next : Bool × Server A P)
      (handled : Option (Stm A P))
      → message_handler c.info dm (session c dm.sid s.stms) ≡ handled
      → handle_message c dm s ≡ some (some next)
      → (r : Run A P) × (settle c dm.sid s r ≡ next)
  unfolding handle_message
  handled-settle dm s next none e h =
      let h' : ◌≡◌ {A = Option (Option (Bool × Server A P))} (some none) (some (some next)) =
        rw (handle_message, e) at h in
      cc
  handled-settle dm s next (some stm) e h =
      ended-settle dm s next stm
        (execute_rm_stm c 6
          (record { stm = stm; corr_clients = s.corrupted_clients; sent = s.sent }))
        e refl h

  -- Handling a message, when it is not a fault, leaves every session but the one that the message
  -- is for as it was: no session is added, removed or changed under another id.
  pub find-handle_message :
      (dm : DeserializedMessage A) (s : Server A P) (next : Bool × Server A P) (sid : ℕ)
      → handle_message c dm s ≡ some (some next)
      → sid ≢ dm.sid
      → find sid next.1.stms ≡ find sid s.stms
  find-handle_message dm s next sid e other =
      let (r, settled) =
        handled-settle dm s next (message_handler c.info dm (session c dm.sid s.stms)) refl e in
      ap (λ n. find sid n.1.stms) (sym settled) ∙ find-settle dm.sid sid s r other
