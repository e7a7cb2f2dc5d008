-- ===== src/Dc/Sender.antt =====
-- src/dc/sender.h and sender.cpp: the interface to the owner's chat, and its implementation on Delta
-- Chat, whose C library is the parameter `dc`.
use deltafeedback.Prelude.{
  ℕ, ◌<◌, ◌^◌, ◌≡◌, ◌≢◌, Bool, not, [], ◌∷◌, Option, none, some, Bytes, arith, ◌==◌, if◌then◌else◌,
}

-- `IMessageSender`; `W` is the state that sending changes.
pub record MessageSender (W : Type 0) : Type 0 where
  pub send_to_owner : Bytes → ℕ → W → Option ℕ × W
  pub owner_contact_id : W → Option ℕ
  pub unowned :
      (text : Bytes) (quote : ℕ) (w : W)
      → owner_contact_id w ≡ none
      → send_to_owner text quote w ≡ (none, w)
  pub ids :
      (text : Bytes) (quote i : ℕ) (w : W)
      → (send_to_owner text quote w).0 ≡ some i
      → (i ≢ 0) × (i < 2 ^ 32)

-- The calls of the library, over its state `D`. The ids that it returns are `uint32_t`.
pub record DeltaChat (D : Type 0) : Type 0 where
  pub create_chat_by_contact_id : ℕ → D → ℕ × D
  pub send_text_msg : ℕ → Bytes → D → ℕ × D
  pub can_make_msg : D → Bool
  pub has_msg : ℕ → D → Bool
  pub send_msg : ℕ → Bytes → Option ℕ → D → ℕ × D
  pub send_text_msg-u32 : (chat : ℕ) (text : Bytes) (d : D) → (send_text_msg chat text d).0 < 2 ^ 32
  pub send_msg-u32 :
      (chat : ℕ) (text : Bytes) (quote : Option ℕ) (d : D) → (send_msg chat text quote d).0 < 2 ^ 32

-- The text that a C function reads at `c_str()`.
unfoldable pub c_str : Bytes → Bytes
c_str [] = []
c_str (c ∷ s) = if c == 0 then [] else c ∷ c_str s

-- `OwnerHandle`, beside the library's state; 0 is no owner.
pub record DcState (D : Type 0) : Type 0 where
  pub contact_id : ℕ
  pub dc : D

abbrev pub unless_zero : ℕ → Option ℕ
unless_zero i = if i == 0 then none else some i

module _ {D : Type 0} (lib : DeltaChat D) where
  -- After the owner's chat is known.
  unfoldable pub send_in_chat : ℕ → Bytes → ℕ → D → Option ℕ × D
  unfolding c_str
  send_in_chat chat text quote_msg_id d =
      if quote_msg_id == 0
      then (let (id, d1) = lib.send_text_msg chat (c_str text) d in (unless_zero id, d1))
      else if not (lib.can_make_msg d)
      then (none, d)
      else (let quoted : Option ℕ =
            if lib.has_msg quote_msg_id d then some quote_msg_id else none in
          let (id, d1) = lib.send_msg chat (c_str text) quoted d in (unless_zero id, d1))

  unfoldable pub send_to_owner : Bytes → ℕ → DcState D → Option ℕ × DcState D
  unfolding send_in_chat
  send_to_owner text quote_msg_id s =
      if s.contact_id == 0
      then (none, s)
      else (let (chat, d1) = lib.create_chat_by_contact_id s.contact_id s.dc in
          if chat == 0
          then (none, record s { dc = d1 })
          else (let (id, d2) = send_in_chat chat text quote_msg_id d1 in
              (id, record s { dc = d2 })))

  unfoldable pub owner_contact_id : DcState D → Option ℕ
  owner_contact_id s = unless_zero s.contact_id

  send_in_chat_ids :
      (chat : ℕ) (text : Bytes) (quote i : ℕ) (d : D)
      → (send_in_chat chat text quote d).0 ≡ some i
      → (i ≢ 0) × (i < 2 ^ 32)
  unfolding send_in_chat
  send_in_chat_ids chat text quote i d e = ground (
    arith,
    lib.send_text_msg-u32 chat (c_str text) d,
    lib.send_msg-u32 chat (c_str text) none d,
    lib.send_msg-u32 chat (c_str text) (some quote) d,
  )

  -- The id of a notification that was sent is not zero and fits in 32 bits.
  pub send_to_owner_ids :
      (text : Bytes) (quote i : ℕ) (s : DcState D)
      → (send_to_owner text quote s).0 ≡ some i
      → (i ≢ 0) × (i < 2 ^ 32)
  unfolding send_to_owner
  send_to_owner_ids text quote i s e =
      let (chat, d) = lib.create_chat_by_contact_id s.contact_id s.dc in
      ground (arith, send_in_chat_ids chat text quote i d)

  pub send_to_owner_unowned :
      (text : Bytes) (quote : ℕ) (s : DcState D)
      → owner_contact_id s ≡ none
      → send_to_owner text quote s ≡ (none, s)
  unfolding send_to_owner owner_contact_id
  send_to_owner_unowned text quote s e = ground arith

  -- `DcSender`.
  abbrev pub dc_sender : MessageSender (DcState D)
  dc_sender = record {
    send_to_owner = send_to_owner;
    owner_contact_id = owner_contact_id;
    unowned = send_to_owner_unowned;
    ids = send_to_owner_ids;
  }
