-- ===== src/Webhook/Backups.antt =====
-- The admission of backups: handlers/webhook/backup_create_or_update.go.
use kube_stager.Base.{
  true, Option, none, some, Text, bytes, ◌++◌, is_some, arith, ◌≡◌, inl, inr, Option-cases,
}
use kube_stager.Api.{StagingSite, Backup}
use kube_stager.Controller.{Result, ok, err, Error, not_found, Result-cases}
use kube_stager.Webhook.{Response, allowed, patched, denied, errored}

-- The answers of the API server, and those of SetControllerReference and json.Marshal.
pub record BackupApi : Type 0 where
  pub get_site : Text → Text → Result StagingSite
  pub set_controller_reference : StagingSite → Backup → Result Backup
  pub marshal : Backup → Option Error

no_site : Backup → Text
no_site job =
    bytes "Staging site with name "
    ++ (job.site_name ++ (bytes " not found in namespace " ++ job.namespace))

patch_owned : BackupApi → Result Backup → Response Backup
patch_owned api (err e) = errored 500 e
patch_owned api (ok job) = elim (api.marshal job) [ some e ↦ errored 500 e | none ↦ patched job ]

own : BackupApi → StagingSite → Backup → Response Backup
unfolding patch_owned
own api site job = elim (job.controller) [
  | some _ ↦ allowed
  | none ↦ patch_owned api (api.set_controller_reference site job)
]

-- `decoded` is the answer of the decoder.
unfoldable pub handle_backup : BackupApi → Result Backup → Response Backup
unfolding own no_site
handle_backup api (err e) = errored 400 e
handle_backup api (ok job) = elim (api.get_site job.namespace job.site_name) [
  | ok site ↦ own api site job
  | err not_found ↦ denied (no_site job)
  | err e ↦ errored 500 e
]

-- The backup that the API server stores after the webhook, if it stores one.
abbrev pub stored : Backup → Response Backup → Option Backup
stored job allowed = some job
stored job (patched owned) = some owned
stored job (denied _) = none
stored job (errored _ _) = none

-- Where SetControllerReference sets a controller, a backup that gets past the webhook has a
-- controller, and its site exists in its namespace.
pub stored_backup_is_owned :
    (api : BackupApi) (job backup : Backup)
    → ((site : StagingSite) (owned : Backup)
        → api.set_controller_reference site job ≡ ok owned
        → is_some owned.controller ≡ true)
    → stored job (handle_backup api (ok job)) ≡ some backup
    → (is_some backup.controller ≡ true)
      × (site : StagingSite) × (api.get_site job.namespace job.site_name ≡ ok site)
unfolding handle_backup
stored_backup_is_owned api job backup sets h =
    elim (Result-cases (api.get_site job.namespace job.site_name)) [
      | inr (x, e) ↦ ground arith
      | inl (site, e) ↦ (
        elim (Option-cases job.controller) [
          | inr (c, e') ↦ ground arith
          | inl e' ↦ elim (Result-cases (api.set_controller_reference site job)) [
            | inr (x, e'') ↦ ground arith
            | inl (owned, e'') ↦
                ground (arith, Option-cases (api.marshal owned), sets site owned e'')
          ]
        ],
        site,
        e,
      )
    ]
