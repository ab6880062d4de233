-- ===== src/Site/Backups/Scanning.antt =====
-- What the loop over the backups does to its variables.
use kube_stager.Base.{◌≡◌, refl, inl, inr, true, Option, none, some, List, [], ◌∷◌, ◌∙◌, arith}
use kube_stager.Api.{Backup, StagingSite}
use kube_stager.Controller.{Error, ok, Result-cases}
use kube_stager.Site.Status.{StatusApi}
use kube_stager.Site.Backups.{
  Scan, scan_backups, clean_up, refresh_from_list, refresh_backups, claim_if_orphan, note_complete,
  note_final, after_scan, start_scan,
}

note-changed :
    (backup : Backup) (scan : Scan)
    → scan.changed ≡ true
    → (note_final backup (note_complete backup scan)).changed ≡ true
unfolding note_final note_complete
note-changed backup scan h = ground arith

claim-changed :
    (api : StatusApi) (backup : Backup) (scan scan' : Scan)
    → claim_if_orphan api backup scan ≡ ok scan'
    → scan'.changed ≡ scan.changed
unfolding claim_if_orphan
claim-changed api backup scan scan' h = ground arith

-- What has changed before the loop has changed after it.
scan-changed :
    (api : StatusApi) (backups : List Backup) (scan : Scan)
    → scan.changed ≡ true
    → (scan_backups api backups scan).0.changed ≡ true
unfolding scan_backups
scan-changed api [] scan h = h
scan-changed api (backup ∷ backups) scan h =
    let noted = note_final backup (note_complete backup scan) in
    elim (Result-cases (claim_if_orphan api backup noted)) [
      | inl (scan', e) ↦
          rw (e, scan_backups)
            (scan-changed api backups scan'
              (claim-changed api backup noted scan' e ∙ note-changed backup scan h))
      | inr (x, e) ↦ rw (e, scan_backups) (note-changed backup scan h)
    ]

clean_up-changed :
    (api : StatusApi) (site : StagingSite) (scan : Scan)
    → scan.changed ≡ true
    → (clean_up api site scan).changed ≡ true
unfolding clean_up
clean_up-changed api site scan h = ground arith

after_scan-changed :
    (api : StatusApi) (site : StagingSite) (scan : Scan) (failure : Option Error)
    → scan.changed ≡ true
    → (after_scan api site scan failure).changed ≡ true
unfolding after_scan
after_scan-changed api site scan (some e) h = h
after_scan-changed api site scan none h = clean_up-changed api site scan h

refresh_from-changed :
    (api : StatusApi) (site : StagingSite) (backups : List Backup)
    → (refresh_from_list api site true backups).changed ≡ true
unfolding refresh_from_list
refresh_from-changed api site backups =
    after_scan-changed api site (scan_backups api backups (start_scan site true)).0
      (scan_backups api backups (start_scan site true)).1
      (scan-changed api backups (start_scan site true) refl)

-- A status that has changed before the backups are read has changed after.
pub refresh-changed :
    (api : StatusApi) (site : StagingSite) → (refresh_backups api site true).changed ≡ true
unfolding refresh_backups
refresh-changed api site = elim (Result-cases api.list_backups) [
  | inl (backups, e) ↦ ground (arith, refresh_from-changed api site backups)
  | inr (x, e) ↦ ground arith
]
