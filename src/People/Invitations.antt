-- ===== src/People/Invitations.antt =====
-- The invitations of a device: which one is open.
use matreshka_panel.Base.{
  ◌+◌, ◌*◌, ◌<◌, ◌≤◌, ◌≡◌, ◌∙◌, refl, Bool, false, ◌&&◌, none, some, List, [], ◌∷◌, ◌++◌, Time, Key,
  get, update, count, count-append, get-append, get-update, ==_refl, ◌==◌, arith, hour_ms,
}
use matreshka_panel.Registry.{
  err, Registry, Device, revoked, device_status_eq, Invitation, pending, superseded, ok,
}
use matreshka_panel.People.Directory.{find_device, device}
use matreshka_panel.People.Devices.{
  Fresh, create_invitation, invitation, invitation_hours, is_pending,
}

-- The pending invitations of a device.
abbrev pub waits : Key → Invitation → Bool
waits id i = i.device_id == id && is_pending i.status

none_waits :
    (id : Key) (is : List Invitation)
    → count (waits id) (update (waits id) (λ i. record i { status = superseded }) is) ≡ 0
unfolding count update
none_waits id [] = refl
none_waits id (i ∷ is) = ground (arith, none_waits id is)

module _ (hash : Key → Key) (id : Key) (fresh : Fresh) (now : Time) (reg : Registry) where
  abbrev row : Invitation
  row = record {
    id = fresh.id;
    device_id = id;
    token_hash = hash fresh.token;
    status = pending;
    expires_at = now + invitation_hours * hour_ms;
    created_at = now;
    redeemed_at = none;
  }

  abbrev replaced : Registry
  replaced = record reg {
    invitations =
        update (waits id) (λ i. record i { status = superseded }) reg.invitations ++ row ∷ [];
  }

  one_waits : count (waits id) replaced.invitations ≡ 1
  unfolding count
  one_waits = ground (
    arith,
    count-append (waits id)
        (update (waits id) (λ i. record i { status = superseded }) reg.invitations) (row ∷ []),
    none_waits id reg.invitations,
    ==_refl id,
  )

  get-replaced :
      get (λ i. i.token_hash == hash fresh.token) reg.invitations ≡ none
      → get (λ i. i.token_hash == hash fresh.token) replaced.invitations ≡ some row
  unfolding get
  get-replaced unused =
      get-append (λ i. i.token_hash == hash fresh.token)
        (update (waits id) (λ i. record i { status = superseded }) reg.invitations) (row ∷ [])
      ∙ rw
          (
            get-update (waits id) (λ i. i.token_hash == hash fresh.token)
                (λ i. record i { status = superseded }) reg.invitations (λ i. refl),
            unused,
            ==_refl (hash fresh.token),
          )
          refl

-- A new invitation for a device that is not revoked, under a token that no invitation has: the call
-- succeeds, the new invitation is the only pending one of the device, and until 72 hours have passed
-- its token leads to it; after that the token is refused with 410.
pub invitation_replaces :
    (hash : Key → Key) (id : Key) (fresh : Fresh) (now later late : Time) (d : Device)
    (reg : Registry)
    → find_device id reg ≡ some d
    → device_status_eq d.status revoked ≡ false
    → get (λ i. i.token_hash == hash fresh.token) reg.invitations ≡ none
    → later < now + invitation_hours * hour_ms
    → now + invitation_hours * hour_ms ≤ late
    → (reg' : Registry) × (i : Invitation) × (create_invitation hash id fresh now reg
        ≡ ok (reg', i))
      × (count (waits id) reg'.invitations ≡ 1)
      × (invitation hash fresh.token later reg' ≡ ok i)
      × (i.device_id ≡ id)
      × (invitation hash fresh.token late reg' ≡ err 410)
unfolding create_invitation device invitation
invitation_replaces hash id fresh now later late d reg known on unused early over = (
  replaced hash id fresh now reg,
  row hash id fresh now reg,
  ground (arith, known, on),
  one_waits hash id fresh now reg,
  ground (arith, get-replaced hash id fresh now reg unused, early),
  refl,
  ground (arith, get-replaced hash id fresh now reg unused, over),
)
