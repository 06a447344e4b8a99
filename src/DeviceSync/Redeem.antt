-- ===== src/DeviceSync/Redeem.antt =====
-- `redeem`, `redemption` and `prepareActivation` of DeviceSyncService.
use matreshka_panel.Base.{
  ℕ, ◌+◌, ◌*◌, Bool, true, false, not, ◌&&◌, ◌||◌, Option, none, some, [], ◌∷◌, ◌++◌, Time, Key,
  if◌then◌else◌, is_some, get, latest, update, ◌==◌, leb, hour_ms,
}
use matreshka_panel.Journal.Record.{word}
use matreshka_panel.Registry.{
  Registry, Device, active, device_status_eq, Invitation, InvitationStatus, pending, redeeming,
  Redemption, Job, activate, job_kind_eq, JobStatus, waiting, completed, Result, ok, err, ◌>>=◌,
  ◌>>◌, require, found,
}
use matreshka_panel.People.Directory.{device}
use matreshka_panel.People.Devices.{is_pending}
use matreshka_panel.People.Devices as Devices
use matreshka_panel.DeviceSync.Jobs.{open_job, new_job}
use matreshka_panel.DeviceSync.Process.{process}

-- src/server/security.ts: `hashToken`, and `deriveToken` for its two purposes.
pub record Crypto : Type 0 where
  pub hash : Key → Key
  pub redemption_token : Key → Key
  pub subscription_token : Key → Key

abbrev pub subscription_hash_of : Crypto → Key → Key
subscription_hash_of c id = c.hash (c.subscription_token id)

abbrev pub redemption_hours : ℕ
redemption_hours = 24

abbrev pub is_redeemable : InvitationStatus → Bool
is_redeemable pending = true
is_redeemable redeeming = true
is_redeemable _ = false

-- The ids of the rows that `prepareActivation` may insert.
pub record FreshActivation : Type 0 where
  pub session : Key
  pub job : Key

pub record Prepared : Type 0 where
  pub job_id : Key
  pub redemption_token : Key
  pub expires_at : Time

-- The transaction of `prepareActivation`. A session for the invitation that is already there breaks
-- the unique `token_hash`, and the transaction throws.
unfoldable pub open_activation :
    Crypto → Invitation → FreshActivation → Time → Registry → Result Registry
unfolding new_job
open_activation c i fresh now reg = do
  let token_hash = c.hash (c.redemption_token i.id)
  require (not (is_some (get (λ r. r.token_hash == token_hash) reg.redemptions))) 500
  let session : Redemption = record {
    id = fresh.session;
    invitation_id = i.id;
    device_id = i.device_id;
    token_hash = token_hash;
    expires_at = now + redemption_hours * hour_ms;
    created_at = now;
  }
  ok (record reg {
    invitations =
        update (λ x. x.id == i.id && is_pending x.status) (λ x. record x { status = redeeming })
          reg.invitations;
    redemptions = reg.redemptions ++ session ∷ [];
    jobs =
        reg.jobs ++ new_job fresh.job i.device_id (some i.id) activate (word "invitation") now ∷ [];
  })

unfoldable pub prepared : Crypto → Invitation → Key → Time → Registry → Prepared
prepared c i job_id now reg = record {
  job_id = job_id;
  redemption_token = c.redemption_token i.id;
  expires_at = elim (latest (λ r. r.invitation_id == i.id) reg.redemptions) [
    | none ↦ now + redemption_hours * hour_ms
    | some r ↦ r.expires_at
  ];
}

-- `prepareActivation`
unfoldable pub prepare_activation :
    Crypto → Key → FreshActivation → Time → Registry → Result (Registry × Prepared)
unfolding open_activation prepared open_job
prepare_activation c token fresh now reg = do
  i ← found (get (λ i. i.token_hash == c.hash token) reg.invitations) 404
  require (not (leb i.expires_at now)) 410
  require (is_redeemable i.status) 410
  elim (open_job i.device_id activate reg) [
    | some j ↦ ok (reg, prepared c i j.id now reg)
    | none ↦
        open_activation c i fresh now reg >>= λ reg'. ok (reg', prepared c i fresh.job now reg')
  ]

-- What `redemption` answers: still pending, with the state of the job, or the device with the token
-- of its subscription.
pub data Redeemed : Type 0 where
  still_pending : JobStatus → Device → Time → Redeemed
  installed : Device → Key → Time → Redeemed

abbrev pub job_status_or : Option Job → JobStatus
job_status_or none = waiting
job_status_or (some j) = j.status

abbrev pub is_completed : Option Job → Bool
is_completed none = false
is_completed (some j) = elim j.status as (λ _. Bool) [ completed ↦ true | _ ↦ false ]

abbrev pub activates : Key → Job → Bool
activates invitation_id j =
    job_kind_eq j.kind activate
    && elim j.invitation_id as (λ _. Bool) [ none ↦ false | some i ↦ i == invitation_id ]

-- `redemption`
unfoldable pub redemption : Crypto → Key → Time → Registry → Result Redeemed
unfolding Devices.redemption device
redemption c token now reg = do
  row ← found (get (λ r. r.token_hash == c.hash token) reg.redemptions) 404
  require (not (leb row.expires_at now)) 404
  d ← device row.device_id reg
  let job = latest (activates row.invitation_id) reg.jobs
  if not (is_completed job) || not (device_status_eq d.status active)
      then ok (still_pending (job_status_or job) d row.expires_at)
      else (Devices.redemption c.hash c.subscription_token token now reg >>= λ (d', s, e).
          ok (installed d' s e))

-- `redeem`, when nothing else runs while the engine is asked: `asked` is the time of the call,
-- `answered` that of the engine's answer. The tables change even where the answer is an error.
unfoldable pub redeem :
    Crypto → Key → FreshActivation → Bool → Time → Time → Registry → Registry × Result Redeemed
redeem c token fresh answer asked answered reg = elim (prepare_activation c token fresh asked reg) [
  | err e ↦ (reg, err e)
  | ok (reg1, p) ↦
      let (reg2, _) = process (subscription_hash_of c) p.job_id true answer asked answered reg1 in
      (reg2, redemption c p.redemption_token answered reg2)
]
