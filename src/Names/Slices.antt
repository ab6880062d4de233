-- ===== src/Names/Slices.antt =====
-- Membership in, and removal from, a slice of strings: the finalizers of an object.
use kube_stager.Base.{◌≡◌, refl, false, not, ◌&&◌, List, [], ◌∷◌, Text, text_eq, text_eq_iff, arith}
use kube_stager.Names.{slice_contains_string, remove_string_from_slice}

-- A string is in a slice after a removal exactly if it was in it before and is not the one removed.
pub contains-remove :
    (slice : List Text) (s t : Text)
    → slice_contains_string (remove_string_from_slice slice s) t
      ≡ (slice_contains_string slice t && not (text_eq s t))
unfolding slice_contains_string remove_string_from_slice
contains-remove [] s t = refl
contains-remove (i ∷ slice) s t =
    ground (arith, text_eq_iff i s, text_eq_iff i t, text_eq_iff s t, contains-remove slice s t)

-- A removal of a string that a slice does not hold changes nothing.
pub remove-of_absent :
    (slice : List Text) (s : Text)
    → slice_contains_string slice s ≡ false
    → remove_string_from_slice slice s ≡ slice
unfolding slice_contains_string remove_string_from_slice
remove-of_absent [] s h = refl
remove-of_absent (i ∷ slice) s h = ground (arith, remove-of_absent slice s)
