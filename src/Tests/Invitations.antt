-- ===== src/Tests/Invitations.antt =====
-- Invitations on concrete tables: a second one, before and during an activation.
use matreshka_panel.Base.{true, ◌+◌, ◌≡◌, refl, [], ◌∷◌, count, get, arith}
use matreshka_panel.Registry.{Registry, Invitation, InvitationStatus, ok, err}
use matreshka_panel.People.Directory.{find_device}
use matreshka_panel.People.Devices.{Fresh, create_invitation, invitation}
use matreshka_panel.People.Invitations.{waits, invitation_replaces}
use matreshka_panel.DeviceSync.Jobs.{find_job, open_job}
use matreshka_panel.DeviceSync.Redeem.{redeem}
use matreshka_panel.DeviceSync.SecondLink.{second_link_not_found}
use matreshka_panel.Tests.Tables.{
  phone, link, invited_phone, waiting_phone, crypto, new_rows, failed_once,
}

abbrev drawn : Fresh
drawn = record { id = 21; token = 6 }

invitation_replaces_example :
    (reg' : Registry) × (i : Invitation) × (create_invitation
        (λ t. 900 + t)
        8
        drawn
        1000
        invited_phone
      ≡ ok (reg', i))
    × (count (waits 8) reg'.invitations ≡ 1)
    × (invitation (λ t. 900 + t) 6 2000 reg' ≡ ok i)
    × (i.device_id ≡ 8)
    × (invitation (λ t. 900 + t) 6 300000000 reg' ≡ err 410)
unfolding find_device get
invitation_replaces_example =
    invitation_replaces (λ t. 900 + t) 8 drawn 1000 2000 300000000 phone invited_phone refl refl
      refl (omega arith) (omega arith)

abbrev second_link : Invitation
second_link = record link { id = 21; token_hash = 906 }

abbrev two_links : Registry
two_links = record waiting_phone {
  invitations = record link { status = InvitationStatus.redeeming } ∷ second_link ∷ [];
}

second_link_not_found_example : (redeem crypto 6 new_rows true 7000 8000 two_links).1 ≡ err 404
unfolding get open_job find_job
second_link_not_found_example =
    second_link_not_found crypto 6 new_rows second_link failed_once true 7000 8000 two_links refl
      refl (omega arith) refl refl refl
