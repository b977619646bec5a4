-- ===== src/Messages/Mentioned.antt =====
-- Whom a mention or a call is made known to.
use roomler.Prelude.{
  ℕ, ◌+◌, ◌≡◌, refl, ap, ◌∙◌, Bool, true, false, not, ◌&&◌, List, [], ◌∷◌, Text, map, retain, arith,
  Bool-cases, inl, inr, ◌==◌, if◌then◌else◌,
}
use roomler.Messages.{ObjectId}
use roomler.Messages.Notify.{
  Notification, Outside, Outbox, NotifyParams, create_and_send_notification, spawn_push_for_offline,
  spawn_mention_email, notify_each, notify_all, notify_mentions, notify_call_started,
}
use roomler.Messages.Routes.{others}

-- The first list reversed before the second: the order of an outbox.
abbrev pub onto {ℓ} : {A : Type ℓ} → List A → List A → List A
onto [] ys = ys
onto (x ∷ xs) ys = onto xs (x ∷ ys)

abbrev pub user_of : Notification → ObjectId
user_of n = n.user_id

abbrev pub told_user : ObjectId × Notification → ObjectId
told_user t = t.0

module _ (o : Outside) where
  abbrev pub has_no_socket : ObjectId → Bool
  has_no_socket u = not (o.is_connected u)

  -- The users who have no socket, of those who are told.
  abbrev pub away : ObjectId → List ObjectId → List ObjectId
  away author_id users = retain has_no_socket (others author_id users)

  abbrev pub mails : Bool → List ObjectId → List ObjectId
  mails by_mail users = if by_mail && o.has_email then users else []

  -- What an outbox holds after these users were told.
  abbrev pub Told : Bool → ObjectId → List ObjectId → Outbox → Outbox → Type 0
  Told by_mail author_id users before after =
      (map user_of after.notifications
        ≡ onto (others author_id users) (map user_of before.notifications))
      × (map told_user after.told ≡ onto (others author_id users) (map told_user before.told))
      × (after.mailed ≡ onto (mails by_mail (away author_id users)) before.mailed)

  notify_each_lem :
      (by_mail : Bool) (params : NotifyParams) (author_id i : ℕ) (users : List ObjectId)
      (box : Outbox)
      → let (offline, sent) = notify_each o by_mail params author_id i users box in
        (offline ≡ away author_id users)
        × Told by_mail author_id users box sent
        × (sent.pushed ≡ box.pushed)
  unfolding create_and_send_notification spawn_mention_email
  notify_each_lem by_mail params author_id i [] box = (refl, (refl, refl, ground arith), refl)
  notify_each_lem false params author_id i (u ∷ users) box =
      let sent = create_and_send_notification o params (o.notification_id i) u box in
      let skipped = notify_each_lem false params author_id (i + 1) users box in
      let (offline, lists, pushed) = notify_each_lem false params author_id (i + 1) users sent in
      elim (Bool-cases (u == author_id)) [
        | inl own ↦ rw (own) skipped
        | inr other ↦ elim (Bool-cases (o.is_connected u)) [
          | inl here ↦ rw (other, here) (offline, lists, pushed)
          | inr gone ↦ rw (other, gone) (ap (◌∷◌ u) offline, lists, pushed)
        ]
      ]
  notify_each_lem true params author_id i (u ∷ users) box =
      let sent = create_and_send_notification o params (o.notification_id i) u box in
      let skipped = notify_each_lem true params author_id (i + 1) users box in
      let plain = notify_each_lem true params author_id (i + 1) users sent in
      let mailed =
        notify_each_lem true params author_id (i + 1) users
          (record sent { mailed = u ∷ box.mailed }) in
      let rest = away author_id users in
      elim (Bool-cases (u == author_id)) [
        | inl own ↦ rw (own) skipped
        | inr other ↦ elim (Bool-cases (o.is_connected u)) [
          | inl here ↦ rw (other, here) plain
          | inr gone ↦ elim (Bool-cases o.has_email) [
            | inl mailer ↦
                let (offline, (made, told, sent_to), pushed) = mailed in
                let mail =
                  sent_to ∙ ap (λ b. onto (if b then rest else []) (u ∷ box.mailed)) mailer in
                rw (other, gone, mailer) (ap (◌∷◌ u) offline, (made, told, mail), pushed)
            | inr no_mailer ↦
                let (offline, (made, told, sent_to), pushed) = plain in
                let mail = sent_to ∙ ap (λ b. onto (if b then rest else []) box.mailed) no_mailer in
                rw (other, gone, no_mailer) (ap (◌∷◌ u) offline, (made, told, mail), pushed)
          ]
        ]
      ]

  -- A push goes to the users without a socket, where there are any.
  abbrev pub pushes : List ObjectId → List (List ObjectId) → List (List ObjectId)
  pushes [] pushed = pushed
  pushes (u ∷ users) pushed = if o.has_push then (u ∷ users) ∷ pushed else pushed

  pushed_lists :
      (users : List ObjectId) (box : Outbox)
      → ((spawn_push_for_offline o users box).pushed ≡ pushes users box.pushed)
        × ((spawn_push_for_offline o users box).notifications ≡ box.notifications)
        × ((spawn_push_for_offline o users box).told ≡ box.told)
        × ((spawn_push_for_offline o users box).mailed ≡ box.mailed)
  unfolding spawn_push_for_offline
  pushed_lists [] box = (refl, refl, refl, refl)
  pushed_lists (u ∷ users) box = ground arith

  notify_all_lem :
      (by_mail : Bool) (params : NotifyParams) (author_id : ObjectId) (users : List ObjectId)
      (box : Outbox)
      → let after = notify_all o by_mail params author_id users box in
        Told by_mail author_id users box after
        × (after.pushed ≡ pushes (away author_id users) box.pushed)
  notify_all_lem by_mail params author_id users box =
      let (found, sent) = notify_each o by_mail params author_id 0 users box in
      let (offline, (made, told, mailed), pushed) =
        notify_each_lem by_mail params author_id 0 users box in
      let (pushes_too, same, same_told, same_mail) = pushed_lists found sent in
      (
        (ap (map user_of) same ∙ made, ap (map told_user) same_told ∙ told, same_mail ∙ mailed),
        pushes_too
            ∙ ap (λ l. pushes l sent.pushed) offline
            ∙ ap (pushes (away author_id users)) pushed,
      )

  -- A mention makes one notification, shown at once, for each mention of a user other than the
  -- author; those of them without a socket are sent a mail each and one push together, where these
  -- services are set up.
  pub notify_mentions_lem :
      (tenant_id room_id message_id author_id : ObjectId) (users : List ObjectId)
      (room_name content : Text) (box : Outbox)
      → let after =
          notify_mentions o tenant_id room_id message_id author_id users room_name content box in
        Told true author_id users box after
        × (after.pushed ≡ pushes (away author_id users) box.pushed)
  unfolding notify_mentions
  notify_mentions_lem tenant_id room_id message_id author_id users room_name content box =
      notify_all_lem true _ author_id users box

  -- The start of a call makes one notification for each member other than the caller, no mail, and one push.
  pub notify_call_started_lem :
      (tenant_id room_id caller_id : ObjectId) (users : List ObjectId)
      (room_name caller_name : Text) (box : Outbox)
      → let after =
          notify_call_started o tenant_id room_id caller_id users room_name caller_name box in
        Told false caller_id users box after
        × (after.pushed ≡ pushes (away caller_id users) box.pushed)
  unfolding notify_call_started
  notify_call_started_lem tenant_id room_id caller_id users room_name caller_name box =
      notify_all_lem false _ caller_id users box
