-- ===== src/Feedback/Service/Once.antt =====
-- A token is good for one submission.
use deltafeedback.Prelude.{
  ℕ, ◌≡◌, ◌∙◌, refl, sym, subst, true, false, [], List, Option, none, some, Bytes, add64, Result,
  arith, All,
}
use deltafeedback.Pow.Challenge.{VerifyResult, verify}
use deltafeedback.Db.Schema.{Database}
use deltafeedback.Db.Replay.{has_challenge, try_consume}
use deltafeedback.Db.Replay.Once.{Held, Held-has, Held-last, Use, use_all, use_all-Held, PurgedBy}
use deltafeedback.Db.Tickets.{insert_new}
use deltafeedback.Db.Messages.{append, set_dc_msg_id, visitor}
use deltafeedback.Feedback.Forms.{
  Setup, Readings, SubmitInput, SubmitError, World, refuse, pow_error,
}
use deltafeedback.Feedback.Service.{
  replay_ttl, sent, after_append, after_insert, submit_id, submit_ticket, store_and_notify, checked,
  submit_new,
}

module _ {W : Type 0} (u : Setup W) (r : Readings) (i : SubmitInput) where
  sent-replay :
      (row_id : ℕ) (db : Database) (answer : Option ℕ × W)
      → (sent u r row_id db answer).1.db.pow_replay ≡ db.pow_replay
  sent-replay row_id db (none, w) = refl
  sent-replay row_id db (some i, w) = unfold set_dc_msg_id in refl

  after_append-replay :
      (w : W) (a : Result ℕ × Database) → (after_append u r i w a).1.db.pow_replay ≡ a.1.pow_replay
  after_append-replay w (Result.throw, db) = refl
  after_append-replay w (Result.ok row_id, db) = sent-replay row_id db _

  append-replay :
      (db : Database)
      → (append (submit_id u r) visitor i.message r.stamp_now i.visitor_ip none db).1.pow_replay
        ≡ db.pow_replay
  unfolding append
  append-replay db = ground arith

  after_insert-replay :
      (w : W) (a : Result (Unit {0}) × Database)
      → (after_insert u r i w a).1.db.pow_replay ≡ a.1.pow_replay
  after_insert-replay w (Result.throw, db) = refl
  after_insert-replay w (Result.ok _, db) = after_append-replay w _ ∙ append-replay db

  insert_new-replay :
      (db : Database) → (insert_new (submit_ticket u r i) db).1.pow_replay ≡ db.pow_replay
  unfolding insert_new
  insert_new-replay db = ground arith

  store-replay : (s : World W) → (store_and_notify u r i s).1.db.pow_replay ≡ s.db.pow_replay
  unfolding store_and_notify
  store-replay s = after_insert-replay s.out _ ∙ insert_new-replay s.db

  checked-replay : (s : World W) → (checked u r i s).1.db.pow_replay ≡ s.db.pow_replay
  unfolding checked
  checked-replay s = ground (arith, store-replay s)

  -- The challenge of a verified token is in the store after the call.
  submit_new-Held :
      (s : World W) (challenge_id : Bytes)
      → verify u.crypto u.issuer r.pow_now i.pow_token i.pow_nonce []
        ≡ (VerifyResult.ok, challenge_id)
      → has_challenge challenge_id s.db.pow_replay ≡ false
      → Held challenge_id (add64 r.replay_now replay_ttl) (submit_new u r i s).1.db.pow_replay
  unfolding submit_new pow_error try_consume
  submit_new-Held s challenge_id verified unused = rw verified (
      rw unused (
        subst (Held challenge_id (add64 r.replay_now replay_ttl)) (sym (checked-replay _))
          (Held-last challenge_id (add64 r.replay_now replay_ttl) s.db.pow_replay)))

  submit_new_held :
      (s : World W) (challenge_id : Bytes)
      → verify u.crypto u.issuer r.pow_now i.pow_token i.pow_nonce []
        ≡ (VerifyResult.ok, challenge_id)
      → has_challenge challenge_id s.db.pow_replay ≡ true
      → submit_new u r i s ≡ (Result.ok (refuse SubmitError.pow_replayed), s)
  unfolding submit_new pow_error try_consume
  submit_new_held s challenge_id verified used = rw verified (rw used refl)

-- A first submission consumes the challenge of its verified token, even if its fields are refused.
-- After any uses of the replay store whose purges happen within the hour that the store keeps the
-- challenge, a second submission with a token for the same challenge is answered `PowReplayed`, and
-- changes nothing.
pub submit_new_once :
    {W : Type 0} (u : Setup W) (r r' : Readings) (i i' : SubmitInput) (s : World W) (out : W)
    (challenge_id : Bytes) (us : List Use)
    → verify u.crypto u.issuer r.pow_now i.pow_token i.pow_nonce []
      ≡ (VerifyResult.ok, challenge_id)
    → verify u.crypto u.issuer r'.pow_now i'.pow_token i'.pow_nonce []
      ≡ (VerifyResult.ok, challenge_id)
    → has_challenge challenge_id s.db.pow_replay ≡ false
    → All (PurgedBy (add64 r.replay_now replay_ttl)) us
    → let later : World W = record { db = use_all us (submit_new u r i s).1.db; out = out } in
      submit_new u r' i' later ≡ (Result.ok (refuse SubmitError.pow_replayed), later)
submit_new_once u r r' i i' s out challenge_id us first second unused purged =
    submit_new_held u r' i' _ challenge_id second (
      Held-has challenge_id (add64 r.replay_now replay_ttl) _ (
        use_all-Held challenge_id (add64 r.replay_now replay_ttl) us (submit_new u r i s).1.db
          purged (submit_new-Held u r i s challenge_id first unused)))
