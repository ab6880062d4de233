-- ===== src/Site/Backups/Cleanup.antt =====
-- Which finished backups are deleted.
use mathlib.Core.Path.{subst}
use mathlib.Core.List.{Perm}
use mathlib.Core.List.Perm
use kube_stager.Base.{
  suc, ◌-◌, ◌≤◌, ◌<◌, ◌≡◌, refl, ap, sym, inl, inr, true, false, Option, List, [], ◌∷◌, ◌++◌, arith,
  length, take, drop, take-append-drop, length-take, length-append, All, All-map, Bool-cases,
}
use kube_stager.Api.{Time, Backup}
use kube_stager.Site.Backups.{starts_before, insert_backup, sort_backups, surplus}

-- The order of the start times, those that have not started first.
abbrev pub NotBefore : Backup → Backup → Type 0
NotBefore a b = starts_before b.status.job_started_at a.status.job_started_at ≡ false

not_before_trans :
    (s t u : Option Time)
    → starts_before t s ≡ false
    → starts_before u t ≡ false
    → starts_before u s ≡ false
not_before_trans s t u h k = ground arith

before_not_after : (s t : Option Time) → starts_before s t ≡ true → starts_before t s ≡ false
before_not_after s t h = ground arith

-- Each is not after those behind it.
abbrev pub IsSorted : List Backup → Type 0
IsSorted [] = Unit
IsSorted (a ∷ backups) = All (NotBefore a) backups × IsSorted backups

All-insert :
    (P : Backup → Type 0) (b : Backup) (backups : List Backup)
    → P b
    → All P backups
    → All P (insert_backup b backups)
unfolding insert_backup
All-insert P b [] h k = (h, tt)
All-insert P b (c ∷ backups) h k =
    elim (Bool-cases (starts_before c.status.job_started_at b.status.job_started_at)) [
      | inl before ↦ rw before (k.0, All-insert P b backups h k.1)
      | inr after ↦ rw after (h, k)
    ]

insert-IsSorted :
    (b : Backup) (backups : List Backup) → IsSorted backups → IsSorted (insert_backup b backups)
unfolding insert_backup
insert-IsSorted b [] h = (tt, tt)
insert-IsSorted b (c ∷ backups) h =
    elim (Bool-cases (starts_before c.status.job_started_at b.status.job_started_at)) [
      | inl before ↦ rw before (
        All-insert (NotBefore c) b backups
            (before_not_after c.status.job_started_at b.status.job_started_at before) h.0,
        insert-IsSorted b backups h.1,
      )
      | inr after ↦ rw after (
        (
          after,
          All-map (NotBefore c) (NotBefore b) backups
              (λ u k.
                not_before_trans b.status.job_started_at c.status.job_started_at
                  u.status.job_started_at after k)
              h.0,
        ),
        h,
      )
    ]

sort-IsSorted : (backups : List Backup) → IsSorted (sort_backups backups)
unfolding sort_backups
sort-IsSorted [] = tt
sort-IsSorted (b ∷ backups) = insert-IsSorted b (sort_backups backups) (sort-IsSorted backups)

length-insert :
    (b : Backup) (backups : List Backup) → length (insert_backup b backups) ≡ suc (length backups)
unfolding insert_backup
length-insert b [] = refl
length-insert b (c ∷ backups) = ground (arith, length-insert b backups)

All-behind : (P : Backup → Type 0) (front back : List Backup) → All P (front ++ back) → All P back
All-behind P [] back h = h
All-behind P (x ∷ front) back h = All-behind P front back h.1

length-sort : (backups : List Backup) → length (sort_backups backups) ≡ length backups
unfolding sort_backups
length-sort [] = refl
length-sort (b ∷ backups) =
    omega (arith, length-insert b (sort_backups backups), length-sort backups)

insert-perm : (b : Backup) (backups : List Backup) → Perm (insert_backup b backups) (b ∷ backups)
unfolding insert_backup
insert-perm b [] = Perm.refl (b ∷ [])
insert-perm b (c ∷ backups) =
    elim (Bool-cases (starts_before c.status.job_started_at b.status.job_started_at)) [
      | inl before ↦
          rw before (Perm.trans (Perm.cons c (insert-perm b backups)) (Perm.swap b c backups))
      | inr after ↦ rw after (Perm.refl (b ∷ c ∷ backups))
    ]

sort-perm : (backups : List Backup) → Perm (sort_backups backups) backups
unfolding sort_backups
sort-perm [] = Perm.refl []
sort-perm (b ∷ backups) =
    Perm.trans (insert-perm b (sort_backups backups)) (Perm.cons b (sort-perm backups))

-- Of a sorted list, what stands in front is not after what stands behind.
split-IsSorted :
    (front back : List Backup) → IsSorted (front ++ back) → All (λ d. All (NotBefore d) back) front
split-IsSorted [] back h = tt
split-IsSorted (d ∷ front) back h =
    (All-behind (NotBefore d) front back h.0, split-IsSorted front back h.1)

surplus_front :
    (backups : List Backup)
    → 3 < length backups
    → surplus backups ≡ take (length backups - 3) (sort_backups backups)
unfolding surplus
surplus_front backups h = ground arith

surplus_none : (backups : List Backup) → length backups ≤ 3 → surplus backups ≡ []
unfolding surplus
surplus_none backups h = ground arith

-- At most three finished backups are all kept. Of more than three, all but three are deleted: the
-- deleted ones and the three kept are together the finished backups, and no kept one started before
-- a deleted one (a backup that has not started counts as the oldest).
pub keeps_newest_three :
    (backups : List Backup)
    → (length backups ≤ 3 → surplus backups ≡ [])
      × (3 < length backups
          → (kept : List Backup) × Perm (surplus backups ++ kept) backups
            × (length kept ≡ 3)
            × All (λ deleted. All (NotBefore deleted) kept) (surplus backups))
keeps_newest_three backups = (
  surplus_none backups,
  (λ h.
      let n = length backups - 3 in
      let sorted = sort_backups backups in
      let whole = take-append-drop n sorted in
      rw (surplus_front backups h) (
        drop n sorted,
        rw whole (sort-perm backups),
        omega (
          arith,
          ap (λ (l : List Backup). length l) whole,
          length-append {0} (take n sorted) (drop n sorted),
          length-take {0} n sorted,
          length-sort backups,
        ),
        split-IsSorted (take n sorted) (drop n sorted)
            (subst IsSorted (sym whole) (sort-IsSorted backups)),
      )),
)
