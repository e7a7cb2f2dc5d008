-- ===== src/Db/Tickets/Purge.antt =====
-- Which tickets and messages a purge leaves.
use deltafeedback.Prelude.{
  ◌+◌, ◌≡◌, ◌≢◌, ◌↔◌, ◌⊎◌, refl, ◌∙◌, inl, inr, false, List, [], ◌∷◌, Option, none, some, Bytes,
  bytes_eq, bytes_eq_iff, if◌then◌else◌, arith, All, length, ℤ, pos, ltb_ℤ, max_ℤ, ◌≤ℤ◌, Bool-cases,
}
use deltafeedback.Db.Schema.{TicketRow, MessageRow, Database}
use deltafeedback.Db.Tickets.{
  find_ticket, has_ticket, last_message_at, last_event, if_null, latest, keep_active, keep_owned,
  count_inactive, purge_inactive_older_than,
}
use deltafeedback.Db.Tickets.Rows.{DistinctIds, find_ticket-keep_active}

-- Some message of the ticket is not older than the cutoff.
abbrev pub HasRecent : Bytes → ℤ → List MessageRow → Type 0
HasRecent id cutoff [] = ⊥
HasRecent id cutoff (m ∷ ms) =
    ((m.ticket_id ≡ id) × (cutoff ≤ℤ m.created_at)) ⊎ HasRecent id cutoff ms

abbrev pub HasNoMessage : Bytes → List MessageRow → Type 0
HasNoMessage id = All (λ m. m.ticket_id ≢ id)

-- A ticket is active since the cutoff by a message, by its creation if it has no message, or by its
-- closing; a ticket that is open counts as closed at time zero.
abbrev pub IsActive : List MessageRow → ℤ → TicketRow → Type 0
IsActive ms cutoff r =
    HasRecent r.id cutoff ms
    ⊎ ((HasNoMessage r.id ms × (cutoff ≤ℤ r.created_at)) ⊎ (cutoff ≤ℤ if_null r.closed_at (pos 0)))

last_message_at-none :
    (id : Bytes) (ms : List MessageRow) → (last_message_at id ms ≡ none) ↔ HasNoMessage id ms
unfolding last_message_at
last_message_at-none id [] = (λ _. tt, λ _. refl)
last_message_at-none id (m ∷ ms) =
    ground (arith, bytes_eq_iff m.ticket_id id, last_message_at-none id ms)

abbrev Late : ℤ → Option ℤ → Type 0
Late cutoff none = ⊥
Late cutoff (some t) = cutoff ≤ℤ t

Late-latest :
    (cutoff t : ℤ) (o : Option ℤ)
    → Late cutoff (some (latest t o)) ↔ ((cutoff ≤ℤ t) ⊎ Late cutoff o)
Late-latest cutoff t none = (λ h. inl h, λ h. elim h [ inl x ↦ x | inr x ↦ elim x [ ] ])
Late-latest cutoff t (some u) = ground arith

last_message_at-HasRecent :
    (id : Bytes) (cutoff : ℤ) (ms : List MessageRow)
    → Late cutoff (last_message_at id ms) ↔ HasRecent id cutoff ms
unfolding last_message_at
last_message_at-HasRecent id cutoff [] = (λ h. h, λ h. h)
last_message_at-HasRecent id cutoff (m ∷ ms) =
    let ih = last_message_at-HasRecent id cutoff ms in
    let split = Late-latest cutoff m.created_at (last_message_at id ms) in
    elim (Bool-cases (bytes_eq m.ticket_id id)) [
      | inl mine ↦
          let same = (bytes_eq_iff m.ticket_id id).0 mine in
          rw mine (
            (λ h. elim (split.0 h) [ inl x ↦ inl (same, x) | inr x ↦ inr (ih.0 x) ]),
            (λ h. elim h [ inl x ↦ split.1 (inl x.1) | inr x ↦ split.1 (inr (ih.1 x)) ]),
          )
      | inr other ↦ rw other (
        (λ h. inr (ih.0 h)),
        (λ h. elim h [
          | inl x ↦ absurd (ground (arith, bytes_eq_iff m.ticket_id id))
          | inr x ↦ ih.1 x
        ]),
      )
    ]

not_before_iff : (a b c : ℤ) → (ltb_ℤ (max_ℤ a b) c ≡ false) ↔ ((c ≤ℤ a) ⊎ (c ≤ℤ b))
not_before_iff a b c = ground arith

Late-if_null :
    (cutoff : ℤ) (o : Option ℤ) (d : ℤ)
    → (cutoff ≤ℤ if_null o d) ↔ (Late cutoff o ⊎ ((o ≡ none) × (cutoff ≤ℤ d)))
Late-if_null cutoff none d = (λ h. inr (refl, h), λ h. elim h [ inl x ↦ elim x [ ] | inr x ↦ x.1 ])
Late-if_null cutoff (some t) d =
    (λ h. inl h, λ h. elim h [ inl x ↦ x | inr x ↦ absurd (ground (arith, x.0)) ])

-- The time that the SQL compares is not before the cutoff exactly for an active ticket.
pub last_event-IsActive_iff :
    (ms : List MessageRow) (cutoff : ℤ) (r : TicketRow)
    → (ltb_ℤ (last_event ms r) cutoff ≡ false) ↔ IsActive ms cutoff r
unfolding last_event
last_event-IsActive_iff ms cutoff r = (
  (λ h. elim (whole.0 h) [
    | inl x ↦ elim (by_message.0 x) [
      | inl late ↦ inl (recent.0 late)
      | inr x ↦ inr (inl (silent.0 x.0, x.1))
    ]
    | inr x ↦ inr (inr x)
  ]),
  (λ h. whole.1 (elim h [
    | inl x ↦ inl (by_message.1 (inl (recent.1 x)))
    | inr x ↦ elim x [ inl y ↦ inl (by_message.1 (inr (silent.1 y.0, y.1))) | inr y ↦ inr y ]
  ])),
)
  where
    recent : Late cutoff (last_message_at r.id ms) ↔ HasRecent r.id cutoff ms
    recent = last_message_at-HasRecent r.id cutoff ms

    silent : (last_message_at r.id ms ≡ none) ↔ HasNoMessage r.id ms
    silent = last_message_at-none r.id ms

    by_message : (cutoff ≤ℤ if_null (last_message_at r.id ms) r.created_at) ↔ (
        Late cutoff (last_message_at r.id ms)
        ⊎ ((last_message_at r.id ms ≡ none) × (cutoff ≤ℤ r.created_at)))
    by_message = Late-if_null cutoff (last_message_at r.id ms) r.created_at

    whole : (ltb_ℤ (last_event ms r) cutoff ≡ false) ↔ (
        (cutoff ≤ℤ if_null (last_message_at r.id ms) r.created_at)
        ⊎ (cutoff ≤ℤ if_null r.closed_at (pos 0)))
    whole =
        not_before_iff (if_null (last_message_at r.id ms) r.created_at)
          (if_null r.closed_at (pos 0)) cutoff

-- The messages of one ticket.
unfoldable pub messages_of : Bytes → List MessageRow → List MessageRow
messages_of id [] = []
messages_of id (m ∷ ms) =
    if bytes_eq m.ticket_id id then m ∷ messages_of id ms else messages_of id ms

messages_of-keep_owned :
    (id : Bytes) (ts : List TicketRow) (ms : List MessageRow)
    → messages_of id (keep_owned ts ms) ≡ (if has_ticket id ts then messages_of id ms else [])
unfolding keep_owned messages_of
messages_of-keep_owned id ts [] = ground arith
messages_of-keep_owned id ts (m ∷ ms) =
    ground (arith, messages_of-keep_owned id ts ms, bytes_eq_iff m.ticket_id id)

count_inactive-keep :
    (ms : List MessageRow) (cutoff : ℤ) (rs : List TicketRow)
    → count_inactive ms cutoff rs + length (keep_active ms cutoff rs) ≡ length rs
unfolding count_inactive keep_active
count_inactive-keep ms cutoff [] = refl
count_inactive-keep ms cutoff (r ∷ rs) = ground (arith, count_inactive-keep ms cutoff rs)

-- After a purge a ticket is there exactly if it was there and was active since the cutoff; it then has
-- its row and all its messages, and else no message is left. The result is the number of tickets that
-- went.
pub purge_lem :
    (cutoff : ℤ) (id : Bytes) (db : Database)
    → DistinctIds db.tickets
    → let (count, db') = purge_inactive_older_than cutoff db in
      ((r : TicketRow)
        → find_ticket id db.tickets ≡ some r
        → (IsActive db.messages cutoff r
            → (find_ticket id db'.tickets ≡ some r)
              × (messages_of id db'.messages ≡ messages_of id db.messages))
          × (¬ IsActive db.messages cutoff r
              → (find_ticket id db'.tickets ≡ none) × (messages_of id db'.messages ≡ [])))
      × (find_ticket id db.tickets ≡ none → find_ticket id db'.tickets ≡ none)
      × (count + length db'.tickets ≡ length db.tickets)
unfolding purge_inactive_older_than
purge_lem cutoff id db distinct =
    let ms = db.messages in
    let left = keep_active ms cutoff db.tickets in
    let after = find_ticket-keep_active ms cutoff id db.tickets distinct in
    let owned = messages_of-keep_owned id left ms in
    (
      (λ r found. (
        (λ active.
            let late = (last_event-IsActive_iff ms cutoff r).1 active in
            let kept : find_ticket id left ≡ some r = rw (after, found) (rw late) in
            (kept, owned ∙ ground (arith, kept))),
        (λ idle.
            let gone : find_ticket id left ≡ none =
              elim (Bool-cases (ltb_ℤ (last_event ms r) cutoff)) [
                | inl early ↦ rw (after, found) (rw early)
                | inr late ↦ absurd (idle ((last_event-IsActive_iff ms cutoff r).0 late))
              ] in
            (gone, owned ∙ ground (arith, gone))),
      )),
      (λ absent. rw (after, absent)),
      count_inactive-keep ms cutoff db.tickets,
    )
