-- ===== src/Config/Tree.antt =====
-- Lemmas on the operations that build the tree of statements.
use cs130capstoneproject.Base.{◌≡◌, refl, ap, some, arith}
use cs130capstoneproject.Config.Syntax.{Statement, Config, nil, cons}
use cs130capstoneproject.Config.Parser.{append, update_last}

-- The statements of the second behind those of the first.
unfoldable pub extend : Config → Config → Config
extend c nil = c
extend c (cons s d) = extend (append c s) d

pub update_last-append :
    (f : Statement → Statement) (c : Config) (s : Statement)
    → update_last f (append c s) ≡ some (append c (f s))
unfolding update_last append
update_last-append f nil s = refl
update_last-append f (cons t nil) s = refl
update_last-append f (cons t (cons u c)) s = ground (arith, update_last-append f (cons u c) s)

prepend : Config → Config → Config
prepend nil d = d
prepend (cons s c) d = cons s (prepend c d)

prepend-append : (c d : Config) (s : Statement) → prepend (append c s) d ≡ prepend c (cons s d)
unfolding prepend append
prepend-append nil d s = refl
prepend-append (cons t c) d s = ap (cons t) (prepend-append c d s)

prepend-nil : (c : Config) → prepend c nil ≡ c
unfolding prepend
prepend-nil nil = refl
prepend-nil (cons s c) = ap (cons s) (prepend-nil c)

extend-prepend : (d c : Config) → extend c d ≡ prepend c d
unfolding extend
extend-prepend nil c = rw prepend-nil
extend-prepend (cons s d) c = rw (extend-prepend d (append c s)) (prepend-append c d s)

pub extend-nil : (c : Config) → extend nil c ≡ c
unfolding prepend
extend-nil c = extend-prepend c nil
