-- ===== src/Examples/Names.antt =====
-- Names of databases, users and objects of a small site.
use kube_stager.Base.{◌≤◌, ◌∷◌, [], Text, bytes, length, arith}
use kube_stager.Names.{make_object_name, join_suffixes}
use kube_stager.Names.Charset.{IsWord}
use kube_stager.Names.Bounds.{make_object_name-le}
use kube_stager.Examples.{digest, digest_long}

digest-IsWord : (s : Text) → IsWord (digest s)
digest-IsWord s = ground arith

object_name_length_example :
    length (make_object_name digest (bytes "demo") (bytes "shop" ∷ bytes "nginx" ∷ [])) ≤ 63
unfolding join_suffixes
object_name_length_example =
    make_object_name-le digest digest_long (bytes "demo") (bytes "shop" ∷ bytes "nginx" ∷ [])
      (omega arith)
