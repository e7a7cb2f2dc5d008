-- ===== src/Feedback/Notify/Marked.antt =====
-- A notification names its ticket in a form that the bot reads back.
use deltafeedback.Prelude.{◌≡◌, refl, ap, ◌∙◌, Bool, [], ◌∷◌, some, Bytes, ℤ, append_assoc}
use deltafeedback.Dc.Parse.{scan}
use deltafeedback.Dc.Parse.Marker.{IsId, bracketed, marker_at-bracketed}
use deltafeedback.Feedback.Notify.{Tm, format_admin_notification}

scan-bracketed :
    (id after : Bytes)
    → IsId id
    → scan [] (bracketed id after) ≡ some (record { before = []; id = id; after = after })
unfolding scan
scan-bracketed id after h = rw (marker_at-bracketed id after h, scan) refl

-- The first marker of a notification, whatever the visitor wrote in it, is its ticket's.
pub scan-format_admin_notification :
    (gmtime : ℤ → Tm) (id visitor_ip : Bytes) (when_unix : ℤ) (locale name body : Bytes)
    (is_reply : Bool)
    → IsId id
    → (after : Bytes) × (scan []
          (format_admin_notification gmtime id visitor_ip when_unix locale name body is_reply)
        ≡ some (record { before = []; id = id; after = after }))
unfolding format_admin_notification
scan-format_admin_notification gmtime id visitor_ip when_unix locale name body is_reply h =
    (_, ap (λ t. scan [] (b'[' ∷ t)) (append_assoc id _ _) ∙ scan-bracketed id _ h)
