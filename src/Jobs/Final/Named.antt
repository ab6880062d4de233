-- ===== src/Jobs/Final/Named.antt =====
-- The names that `makeBackupName` of handlers/job/backup_handler.go gives to scheduled backups.
use kube_stager.Base.{
  ℕ, ◌/◌, ◌≤◌, [], ◌∷◌, ◌++◌, Text, bytes, length, length-append, drop, pos, decimal, read_from,
  read_decimal, arith, ◌≡◌, ◌≢◌, refl, ap, sym, ◌∙◌,
}
use kube_stager.Names.Shorten.{shorten_fits_at}
use kube_stager.Api.{BackupType, Time}
use kube_stager.Controller.{ok}
use kube_stager.Jobs.Final.{make_backup_name, decimal_ℤ}

drop-length : (s t : Text) → drop (length s) (s ++ t) ≡ t
drop-length [] t = refl
drop-length (c ∷ s) t = drop-length s t

-- The text behind "sched-", the name of the site and a dash.
abbrev pub behind_site : Text → Text → Text
behind_site site_name name = drop 1 (drop (length site_name) (drop 6 name))

-- The name of a scheduled backup before it is shortened.
abbrev pub scheduled_name : Text → ℕ → Text
scheduled_name site_name n = bytes "sched-" ++ (site_name ++ (b'-' ∷ decimal (n / 1000000000)))

make_backup_name-scheduled :
    (md5_base36 : Text → Text) (site_name : Text) (n : ℕ)
    → length (scheduled_name site_name n) ≤ 63
    → make_backup_name md5_base36 site_name BackupType.scheduled (pos n)
      ≡ ok (scheduled_name site_name n)
unfolding make_backup_name decimal_ℤ
make_backup_name-scheduled md5_base36 site_name n fits =
    ground (arith, shorten_fits_at md5_base36 (scheduled_name site_name n) 63 fits)

make_backup_name-final :
    (md5_base36 : Text → Text) (site_name : Text) (n : ℕ) (t : Time)
    → length (scheduled_name site_name n) ≤ 63
    → make_backup_name md5_base36 site_name BackupType.final t ≡ ok (bytes "final-" ++ site_name)
unfolding make_backup_name
make_backup_name-final md5_base36 site_name n t fits =
    let seconds = decimal (n / 1000000000) in
    let shorter : length (bytes "final-" ++ site_name) ≤ 63 =
      omega (arith, fits, length-append site_name (b'-' ∷ seconds)) in
    ground (arith, shorten_fits_at md5_base36 (bytes "final-" ++ site_name) 63 shorter)

scheduled_name_reads_back :
    (site_name : Text) (n : ℕ)
    → read_from 0 (behind_site site_name (scheduled_name site_name n)) ≡ n / 1000000000
scheduled_name_reads_back site_name n =
    ground (
      arith,
      drop-length site_name (b'-' ∷ decimal (n / 1000000000)),
      read_decimal (n / 1000000000),
    )

-- Two times from 1970 on for which the name of a scheduled backup of the site fits the 63 bytes of a
-- label unshortened: backups scheduled for the site at the two times have the same name only within
-- one second, and neither has the name of the site's final backup.
pub scheduled_names_differ :
    (md5_base36 : Text → Text) (site_name : Text) (n n' : ℕ) (t : Time)
    → length (scheduled_name site_name n) ≤ 63
    → length (scheduled_name site_name n') ≤ 63
    → (make_backup_name md5_base36 site_name BackupType.scheduled (pos n)
          ≡ make_backup_name md5_base36 site_name BackupType.scheduled (pos n')
        → n / 1000000000 ≡ n' / 1000000000)
      × (make_backup_name md5_base36 site_name BackupType.scheduled (pos n)
          ≢ make_backup_name md5_base36 site_name BackupType.final t)
scheduled_names_differ md5_base36 site_name n n' t fits fits' =
    let e = make_backup_name-scheduled md5_base36 site_name n fits in
    let e' = make_backup_name-scheduled md5_base36 site_name n' fits' in
    (
      λ same.
          let names : scheduled_name site_name n ≡ scheduled_name site_name n' =
            ground (arith, e, e', same) in
          sym (scheduled_name_reads_back site_name n)
          ∙ (ap (λ name. read_from 0 (behind_site site_name name)) names
              ∙ scheduled_name_reads_back site_name n'),
      λ same. ground (arith, same, e, make_backup_name-final md5_base36 site_name n t fits),
    )
