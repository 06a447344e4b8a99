-- ===== src/Tests/Tables.antt =====
-- The tables that the tests share.
use matreshka_panel.Base.{◌+◌, none, some, [], ◌∷◌}
use matreshka_panel.Journal.Record.{empty, word}
use matreshka_panel.Registry.{
  Registry, Device, DeviceStatus, Client, Invitation, InvitationStatus, Job, JobKind, JobStatus,
}
use matreshka_panel.DeviceSync.Redeem.{Crypto, FreshActivation}

abbrev pub laptop : Device
laptop = record {
  id = 7;
  person_id = 1;
  name = "Laptop";
  kind = "laptop";
  platform = "linux";
  client = Client.mihomo;
  status = DeviceStatus.active;
  subscription_hash = some 907;
  created_at = 0;
  updated_at = 0;
  activated_at = some 10;
  first_seen_at = none;
  last_seen_at = none;
  profile_fetched_at = none;
  last_routes_version = none;
  absence_notified_at = none;
  revoked_at = none;
}

abbrev pub one_device : Registry
one_device = record {
  people = [];
  devices = laptop ∷ [];
  credentials = [];
  invitations = [];
  redemptions = [];
  jobs = [];
  journal = empty;
}

abbrev pub phone : Device
phone = record laptop {
  id = 8;
  name = "Phone";
  client = Client.incy;
  status = DeviceStatus.invited;
  subscription_hash = none;
  activated_at = none;
}

-- The link with token 5 is for the phone.
abbrev pub link : Invitation
link = record {
  id = 20;
  device_id = 8;
  token_hash = 905;
  status = InvitationStatus.pending;
  expires_at = 259200000;
  created_at = 0;
  redeemed_at = none;
}

abbrev pub invited_phone : Registry
invited_phone = record one_device { devices = laptop ∷ phone ∷ []; invitations = link ∷ [] }

abbrev pub crypto : Crypto
crypto = record {
  hash = λ t. 900 + t;
  redemption_token = λ i. 1000 + i;
  subscription_token = λ d. 2000 + d;
}

abbrev pub new_rows : FreshActivation
new_rows = record { session = 30; job = 40 }

-- An activation of the phone that has failed once.
abbrev pub failed_once : Job
failed_once = record {
  id = 40;
  device_id = 8;
  invitation_id = some 20;
  kind = JobKind.activate;
  status = JobStatus.failed;
  actor = word "invitation";
  attempts = 1;
  next_attempt_at = 6000;
  created_at = 1000;
  updated_at = 1000;
  completed_at = none;
}

abbrev pub waiting_phone : Registry
waiting_phone = record invited_phone { jobs = failed_once ∷ [] }
