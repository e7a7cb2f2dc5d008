-- ===== src/System/Conversation.antt =====
-- From a visitor's submission over the admin's quoting answer to the visitor's turn.
use deltafeedback.Prelude.{
  ℕ, ◌≡◌, ◌≢◌, refl, sym, ap, subst, ◌∙◌, [], ◌∷◌, ◌++◌, List, none, some, Bytes, codes,
  if◌then◌else◌, ℤ, Result, arith,
}
use deltafeedback.Db.Schema.{Database}
use deltafeedback.Db.Tickets.{
  Ticket, awaiting_admin, awaiting_visitor, closed, get, find_ticket, new_row,
}
use deltafeedback.Db.Tickets
use deltafeedback.Db.Tickets.Status.{get_found, find_ticket-new_row}
use deltafeedback.Db.Messages.{find_ticket_by_dc_msg_id, select_ticket_of}
use deltafeedback.Db.Messages.Threads.{IdsBelow, NotSent, select_ticket_of-last}
use deltafeedback.Dc.Parse.Trim.{Trims}
use deltafeedback.Dc.Route.Sources.{About}
use deltafeedback.Dc.Bot.{Effect, Incoming, on_incoming_msg}
use deltafeedback.Dc.Bot.Answer.{answer_row, Says, Done, on_incoming_msg-Done}
use deltafeedback.Feedback.Forms.{Setup, Readings, SubmitInput, SubmitError, SubmitResult, World}
use deltafeedback.Feedback.Service.{submit_ticket, submit_new}
use deltafeedback.Feedback.Service.Submit.{submit_new-Outcome}
use deltafeedback.Feedback.Service.Submitted.{
  Stored, Refused, Answered, Outcome, note, first_message, is_stored,
}

module _ {W : Type 0} (u : Setup W) (r : Readings) (i : SubmitInput) (s t : World W)
    (res : SubmitResult) (h : Stored u r i s res t) where
  -- The ticket is read as it was made.
  stored_read : (get res.ticket_id t.db).0 ≡ Result.ok (some (submit_ticket u r i))
  stored_read =
      let made = submit_ticket u r i in
      let absent : find_ticket made.id s.db.tickets ≡ none =
        subst (λ id. find_ticket id s.db.tickets ≡ none) h.id_is h.id_free in
      let found : find_ticket made.id t.db.tickets ≡ some (new_row made) =
        ap (find_ticket made.id) h.tickets ∙ find_ticket-new_row made s.db.tickets absent in
      ap (λ id. (get id t.db).0) h.id_is
      ∙ ap (λ x. x.0)
          (get_found made.id t.db (new_row made) awaiting_admin found
            (unfold Tickets.to_string in refl))

  -- The notification's id leads back to it.
  stored_quoted :
      (j : ℕ)
      → h.dc_msg_id ≡ some j
      → NotSent j s.db.messages
      → find_ticket_by_dc_msg_id j t.db ≡ some res.ticket_id
  unfolding find_ticket_by_dc_msg_id
  stored_quoted j e new =
      ap (select_ticket_of j)
        (h.messages ∙ ap (λ d. s.db.messages ++ first_message u r i s d ∷ []) e)
      ∙ select_ticket_of-last j s.db.messages (first_message u r i s (some j)) new refl
      ∙ ap some (sym h.id_is)

abbrev unwrapped : SubmitResult → Result SubmitResult → SubmitResult
unwrapped other Result.throw = other
unwrapped other (Result.ok res) = res

Stored-outcome :
    {W : Type 0} (u : Setup W) (r : Readings) (i : SubmitInput) (s : World W) (res : SubmitResult)
    (x : Result SubmitResult × World W)
    → Outcome u r i s x
    → x.0 ≡ Result.ok res
    → res.error ≡ SubmitError.ok
    → Stored u r i s res x.1
Stored-outcome u r i s res (Result.throw, t) h e fine = ground arith
Stored-outcome u r i s res (Result.ok other, t) h e fine =
    let same : other ≡ res = ap (λ y. unwrapped other y) e in
    let answered : Answered u r i s res t = subst (λ y. Answered u r i s y t) same h in
    subst (λ b. if b then Stored u r i s res t else Refused u r i s res t) (ap is_stored fine)
      answered

module _ {W : Type 0} (u : Setup W) (r : Readings) (i : SubmitInput) (s : World W)
    (res : SubmitResult) (now : ℤ) (m : Incoming) (owner : ℕ) (effects : List Effect)
    (words : Bytes) where
  -- After the submission.
  abbrev pub submitted : Database
  submitted = (submit_new u r i s).1.db

  -- After the owner's message to the bot.
  abbrev pub answered_db : Database
  answered_db =
      (on_incoming_msg now m
        (record { db = submitted; contact_id = owner; effects = effects })).1.db

  done_answers :
      (t : Ticket)
      → words ≢ codes "/close"
      → words ≢ []
      → Done now submitted res.ticket_id t words answered_db
      → ((get res.ticket_id answered_db).0
          ≡ Result.ok (some (record t { status = awaiting_visitor })))
        × (answered_db.messages
            ≡ submitted.messages ++ answer_row now submitted res.ticket_id words ∷ [])
  done_answers t other full (Done.closes is read moved kept) = absurd (other is)
  done_answers t other full (Done.silent is kept rows) = absurd (full is)
  done_answers t other full (Done.answers _ _ read moved rows) = (read, rows)

  -- A submission was answered `Ok`, and the sender gave its notification an id that no message had
  -- before. The owner quotes that id, with some words other than "/close": the words become the last
  -- message of the visitor's ticket, which now awaits the visitor, and whose hash is that of the token
  -- that the visitor was given. No message id is above the counter at first.
  pub quoting_answers :
      IdsBelow s.db.last_message_id s.db.messages
      → (submit_new u r i s).0 ≡ Result.ok res
      → res.error ≡ SubmitError.ok
      → (u.sender.send_to_owner (note u r i s) 0 s.out).0 ≡ some m.quoted_msg_id
      → m.quoted_msg_id ≢ 0
      → NotSent m.quoted_msg_id s.db.messages
      → Trims m.text words
      → words ≢ codes "/close"
      → words ≢ []
      → owner ≢ 0
      → m.from ≡ owner
      → ((get res.ticket_id answered_db).0
          ≡ Result.ok (some (record (submit_ticket u r i) { status = awaiting_visitor })))
        × ((submit_ticket u r i).read_token_hash ≡ u.crypto.sha256 res.read_token)
        × (answered_db.messages
            ≡ submitted.messages ++ answer_row now submitted res.ticket_id words ∷ [])
  quoting_answers below done fine sent nonzero new trims other full some_owner same =
      let t = (submit_new u r i s).1 in
      let h : Stored u r i s res t =
        Stored-outcome u r i s res (submit_new u r i s) (submit_new-Outcome u r i s below) done
          fine in
      let sent_as : h.dc_msg_id ≡ some m.quoted_msg_id = sym (ap (λ x. x.0) h.notified) ∙ sent in
      let says : Says m t.db res.ticket_id words =
        About.by_table (λ j. find_ticket_by_dc_msg_id j t.db) res.ticket_id nonzero refl
          (stored_quoted u r i s t res h m.quoted_msg_id sent_as new) words trims in
      let done_here =
        on_incoming_msg-Done now m (record { db = t.db; contact_id = owner; effects = effects })
          (submit_ticket u r i) res.ticket_id words some_owner same says
          (stored_read u r i s t res h) (λ e. ground arith) in
      let (read, rows) = done_answers (submit_ticket u r i) other full done_here in
      (read, sym h.hash_is, rows)
