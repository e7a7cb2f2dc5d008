-- ===== src/Dc/Route/Sources.antt =====
-- Which ticket `route_admin_message` names, and the words to it.
use deltafeedback.Prelude.{
  ℕ, ◌≡◌, ◌≢◌, ◌⊎◌, inl, inr, refl, sym, ap, ◌∙◌, subst, false, [], ◌++◌, Option, none, some, Bytes,
  ◌==◌, codes, bytes_eq, bytes_eq_iff, arith, Bool-cases, Option-cases,
}
use deltafeedback.Dc.Parse.{Kind, Found, scan, command_of, trim, parse_admin_message}
use deltafeedback.Dc.Parse.Trim.{Trims, trim-Trims, trim-Trims_iff}
use deltafeedback.Dc.Route.{
  AdminRoute, make_kind, quoted_ticket, route_quoted, route_typed, route_admin_message,
}

-- The database has no ticket for the quoted message, or no message is quoted, or nobody can be asked.
abbrev pub Unknown : ℕ → Option (ℕ → Option Bytes) → Type 0
Unknown i none = Unit
Unknown i (some lookup) = (i ≡ 0) ⊎ (lookup i ≡ none)

-- Which ticket a message is about, and the admin's words to it: `by_table` for a quoted message of the
-- database, `by_text` for a marker in the text, which is cut out of the words, and `by_quote` for a
-- marker in the quoted text.
pub data About (text : Bytes) (i : ℕ) (quoted_text : Bytes) (lookup : Option (ℕ → Option Bytes))
    : Option (Bytes × Bytes) → Type 0 where
  by_table :
      (ask : ℕ → Option Bytes) (t : Bytes)
      → i ≢ 0
      → lookup ≡ some ask
      → ask i ≡ some t
      → (words : Bytes) → Trims text words
      → About text i quoted_text lookup (some (t, words))
  by_text :
      (f : Found)
      → Unknown i lookup
      → scan [] text ≡ some f
      → (words : Bytes) → Trims (f.before ++ f.after) words
      → About text i quoted_text lookup (some (f.id, words))
  by_quote :
      (f : Found)
      → Unknown i lookup
      → scan [] text ≡ none
      → scan [] quoted_text ≡ some f
      → (words : Bytes) → Trims text words
      → About text i quoted_text lookup (some (f.id, words))
  by_none :
      Unknown i lookup
      → scan [] text ≡ none
      → scan [] quoted_text ≡ none
      → About text i quoted_text lookup none

-- What is to be done: nothing without a ticket; the word "/close" closes; other words are a reply.
pub data Orders : Option (Bytes × Bytes) → AdminRoute → Type 0 where
  nowhere : Orders none (record { kind = Kind.no_ticket_id; ticket_id = []; body = [] })
  closes :
      (t words : Bytes)
      → words ≡ codes "/close"
      → Orders (some (t, words)) (record { kind = Kind.close; ticket_id = t; body = [] })
  replies :
      (t words : Bytes)
      → words ≢ codes "/close"
      → Orders (some (t, words)) (record { kind = Kind.reply; ticket_id = t; body = words })

make_kind-Orders : (t words : Bytes) → Orders (some (t, words)) (make_kind t words)
unfolding make_kind
make_kind-Orders t words = elim (Bool-cases (bytes_eq words (codes "/close"))) [
  | inl e ↦ rw e (Orders.closes t words ((bytes_eq_iff words (codes "/close")).0 e))
  | inr e ↦ rw e (Orders.replies t words (λ q. ground (arith, bytes_eq_iff words (codes "/close"))))
]

-- The route that a marker in the text gives is that of `make_kind`.
route_typed-some :
    (text quoted_text : Bytes) (f : Found)
    → route_typed text quoted_text (command_of (some f))
      ≡ make_kind f.id (trim (f.before ++ f.after))
unfolding route_typed command_of make_kind
route_typed-some text quoted_text f =
    elim (Bool-cases (bytes_eq (trim (f.before ++ f.after)) (codes "/close"))) [
      | inl e ↦ rw e refl
      | inr e ↦ rw e refl
    ]

route_quoted-some :
    (text : Bytes) (f : Found)
    → route_quoted text (command_of (some f)) ≡ make_kind f.id (trim text)
unfolding route_quoted command_of
route_quoted-some text f =
    elim (Bool-cases (bytes_eq (trim (f.before ++ f.after)) (codes "/close"))) [
      | inl e ↦ rw e refl
      | inr e ↦ rw e refl
    ]

said : (t s words : Bytes) → Trims s words → make_kind t (trim s) ≡ make_kind t words
said t s words trims = ap (make_kind t) ((trim-Trims_iff s words).1 trims)

quoted-Unknown :
    (i : ℕ) (lookup : Option (ℕ → Option Bytes)) → Unknown i lookup → quoted_ticket i lookup ≡ none
unfolding quoted_ticket
quoted-Unknown i none h = refl
quoted-Unknown i (some ask) (inl e) = ground arith
quoted-Unknown i (some ask) (inr e) = ground arith

module _ (text : Bytes) (i : ℕ) (quoted_text : Bytes) (lookup : Option (ℕ → Option Bytes)) where
  abbrev markers : AdminRoute
  markers = route_typed text quoted_text (parse_admin_message text)

  typed_none :
      route_typed text quoted_text (command_of none)
      ≡ route_quoted text (command_of (scan [] quoted_text))
  unfolding route_typed command_of parse_admin_message
  typed_none = refl

  quoted_none :
      route_quoted text (command_of none)
      ≡ record { kind = Kind.no_ticket_id; ticket_id = []; body = [] }
  unfolding route_quoted command_of
  quoted_none = refl

  unnamed : Unknown i lookup → route_admin_message text i quoted_text lookup ≡ markers
  unfolding route_admin_message
  unnamed h = rw (quoted-Unknown i lookup h, route_admin_message) refl

  named :
      (t : Bytes)
      → quoted_ticket i lookup ≡ some t
      → route_admin_message text i quoted_text lookup ≡ make_kind t (trim text)
  unfolding route_admin_message
  named t e = rw (e, route_admin_message) refl

  table_ticket :
      (ask : ℕ → Option Bytes) (t : Bytes)
      → i ≢ 0
      → lookup ≡ some ask
      → ask i ≡ some t
      → quoted_ticket i lookup ≡ some t
  unfolding quoted_ticket
  table_ticket ask t ne asked known =
      let given : (i == 0) ≡ false = ground (arith, ne) in rw asked (rw given known)

  -- What a message is about decides its route.
  pub About-Orders :
      (o : Option (Bytes × Bytes))
      → About text i quoted_text lookup o
      → Orders o (route_admin_message text i quoted_text lookup)
  unfolding parse_admin_message
  About-Orders _ (About.by_table ask t ne asked known words trims) =
      subst (Orders (some (t, words)))
        (sym (named t (table_ticket ask t ne asked known) ∙ said t text words trims))
        (make_kind-Orders t words)
  About-Orders _ (About.by_text f h found words trims) =
      subst (Orders (some (f.id, words)))
        (sym (
          unnamed h
          ∙ ap (λ r. route_typed text quoted_text (command_of r)) found
          ∙ route_typed-some text quoted_text f
          ∙ said f.id (f.before ++ f.after) words trims))
        (make_kind-Orders f.id words)
  About-Orders _ (About.by_quote f h none_here found words trims) =
      subst (Orders (some (f.id, words)))
        (sym (
          unnamed h
          ∙ ap (λ r. route_typed text quoted_text (command_of r)) none_here
          ∙ typed_none
          ∙ ap (λ r. route_quoted text (command_of r)) found
          ∙ route_quoted-some text f
          ∙ said f.id text words trims))
        (make_kind-Orders f.id words)
  About-Orders _ (About.by_none h none_here none_there) =
      subst (Orders none)
        (sym (
          unnamed h
          ∙ ap (λ r. route_typed text quoted_text (command_of r)) none_here
          ∙ typed_none
          ∙ ap (λ r. route_quoted text (command_of r)) none_there
          ∙ quoted_none))
        Orders.nowhere

  by_markers :
      Unknown i lookup
      → (a b : Option Found) → scan [] text ≡ a
      → scan [] quoted_text ≡ b
      → (o : Option (Bytes × Bytes)) × About text i quoted_text lookup o
  by_markers h (some f) b ea eb = (_, About.by_text f h ea _ (trim-Trims (f.before ++ f.after)))
  by_markers h none (some f) ea eb = (_, About.by_quote f h ea eb _ (trim-Trims text))
  by_markers h none none ea eb = (_, About.by_none h ea eb)

  asked-About :
      (l : Option (ℕ → Option Bytes))
      → lookup ≡ l
      → (o : Option (Bytes × Bytes)) × About text i quoted_text lookup o
  asked-About none e =
      by_markers (subst (Unknown i) (sym e) tt) (scan [] text) (scan [] quoted_text) refl refl
  asked-About (some ask) e = elim (Bool-cases (i == 0)) [
    | inl zero ↦
        by_markers (subst (Unknown i) (sym e) (inl (ground arith))) (scan [] text)
          (scan [] quoted_text) refl refl
    | inr given ↦ elim (Option-cases (ask i)) [
      | inl unknown ↦
          by_markers (subst (Unknown i) (sym e) (inr unknown)) (scan [] text) (scan [] quoted_text)
            refl refl
      | inr (t, known) ↦ (_, About.by_table ask t (λ z. ground arith) e known _ (trim-Trims text))
    ]
  ]

  -- Every message is about the ticket that the database has for the quoted message; if there is none,
  -- about that of the first marker in the text; if there is none, about that of the first marker in
  -- the quoted text; or else about none. It closes the ticket if its words, the text without blanks
  -- at the ends and, in the second case, without the marker, are "/close"; any other words are the
  -- reply; and about no ticket the route is `NoTicketId`.
  pub route_admin_message-Orders :
      (o : Option (Bytes × Bytes)) × About text i quoted_text lookup o
      × Orders o (route_admin_message text i quoted_text lookup)
  route_admin_message-Orders =
      let (o, about) = asked-About lookup refl in (o, about, About-Orders o about)
